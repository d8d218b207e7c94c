-- ===== src/Base/Maps.antt =====
-- Go's `map[string]V` as an association list with one entry a key. The program never depends on
-- the order in which a map is walked.
use Prim.Native.Nat.{ℕ, ◌+◌}
use mathlib.Core.Path.{◌≡◌, refl}
use mathlib.Core.List.{List, [], ◌∷◌}
use mathlib.Core.Option.{Option, none, some}
use native.Mathlib.Omega.{arith}
use meek.Base.Tests.{if◌then◌else◌}
use meek.Base.Lists.{Bytes, same, same_iff}

abbrev pub Map {ℓ} : Type ℓ → Type ℓ
Map V = List (Bytes × V)

module _ {ℓ} {V : Type ℓ} where
  -- m[k]
  unfoldable pub lookup : Bytes → Map V → Option V
  lookup k [] = none
  lookup k ((j, v) ∷ m) = if same j k then some v else lookup k m

  -- m[k] = v
  unfoldable pub insert : Bytes → V → Map V → Map V
  insert k v [] = (k, v) ∷ []
  insert k v ((j, w) ∷ m) = if same j k then (j, v) ∷ m else (j, w) ∷ insert k v m

  -- delete(m, k)
  unfoldable pub erase : Bytes → Map V → Map V
  erase k [] = []
  erase k ((j, v) ∷ m) = let rest = erase k m in if same j k then rest else (j, v) ∷ rest

  -- One entry a key.
  abbrev pub Unique : Map V → Type ℓ
  Unique [] = Unit
  Unique ((k, v) ∷ m) = (lookup k m ≡ none) × Unique m

  pub lookup-insert :
      (k j : Bytes) (v : V) (m : Map V)
      → lookup j (insert k v m) ≡ (if same k j then some v else lookup j m)
  unfolding lookup insert
  lookup-insert k j v [] = refl
  lookup-insert k j v ((i, w) ∷ m) =
      ground (arith, same_iff k j, same_iff i k, same_iff i j, lookup-insert k j v m)

  pub lookup-erase :
      (k j : Bytes) (m : Map V) → lookup j (erase k m) ≡ (if same k j then none else lookup j m)
  unfolding lookup erase
  lookup-erase k j [] = ground arith
  lookup-erase k j ((i, v) ∷ m) =
      ground (arith, lookup-erase k j m, same_iff i k, same_iff i j, same_iff k j)

  pub insert-Unique : (k : Bytes) (v : V) (m : Map V) → Unique m → Unique (insert k v m)
  unfolding insert lookup
  insert-Unique k v [] u = (refl, tt)
  insert-Unique k v ((j, w) ∷ m) u =
      ground (arith, insert-Unique k v m u.1, lookup-insert k j v m, same_iff j k, same_iff k j)

  pub erase-Unique : (k : Bytes) (m : Map V) → Unique m → Unique (erase k m)
  unfolding erase
  erase-Unique k [] u = u
  erase-Unique k ((j, v) ∷ m) u = ground (arith, erase-Unique k m u.1, lookup-erase k j m)

  -- A sum over the values.
  abbrev pub total : (V → ℕ) → Map V → ℕ
  total f [] = 0
  total f ((k, v) ∷ m) = f v + total f m

  pub erase_absent : (k : Bytes) (m : Map V) → lookup k m ≡ none → erase k m ≡ m
  unfolding lookup erase
  erase_absent k [] h = refl
  erase_absent k ((j, v) ∷ m) h = ground (arith, erase_absent k m)

  pub total-insert_new :
      (f : V → ℕ) (k : Bytes) (v : V) (m : Map V)
      → lookup k m ≡ none
      → total f (insert k v m) ≡ f v + total f m
  unfolding lookup insert
  total-insert_new f k v [] h = refl
  total-insert_new f k v ((j, w) ∷ m) h = ground (arith, total-insert_new f k v m)

  pub total-insert_old :
      (f : V → ℕ) (k : Bytes) (v w : V) (m : Map V)
      → lookup k m ≡ some w
      → total f (insert k v m) + f w ≡ f v + total f m
  unfolding lookup insert
  total-insert_old f k v w [] h = cc
  total-insert_old f k v w ((j, x) ∷ m) h = ground (arith, total-insert_old f k v w m)

  pub total-erase :
      (f : V → ℕ) (k : Bytes) (v : V) (m : Map V)
      → Unique m
      → lookup k m ≡ some v
      → total f m ≡ f v + total f (erase k m)
  unfolding lookup erase
  total-erase f k v [] u h = cc
  total-erase f k v ((j, x) ∷ m) u h =
      ground (arith, total-erase f k v m u.1, same_iff j k, erase_absent k m)
