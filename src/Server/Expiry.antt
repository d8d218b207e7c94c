-- ===== src/Server/Expiry.antt =====
-- What a sweep of ExpireSessions keeps.
use meek.Base.{
  ℕ, Bytes, [], ◌∷◌, Option, none, some, ◌≡◌, refl, arith, if◌then◌else◌, same_iff, lookup, Unique,
}
use meek.Server.Session.{Session, State, World, expire_loop, is_expired, close_or}

abbrev pub keep_fresh : ℕ → Option Session → Option Session
keep_fresh now none = none
keep_fresh now (some s) = if is_expired now s then none else some s

pub expire_loop-lookup-none :
    (now : ℕ) (k : Bytes) (m : State) (w : World)
    → lookup k m ≡ none
    → lookup k (expire_loop now m w).0 ≡ none
unfolding expire_loop lookup
expire_loop-lookup-none now k [] w h = refl
expire_loop-lookup-none now k ((j, s) ∷ m) w h =
    ground
      (arith, expire_loop-lookup-none now k m w, expire_loop-lookup-none now k m (close_or s.or w))

pub expire_loop-Unique :
    (now : ℕ) (m : State) (w : World) → Unique m → Unique (expire_loop now m w).0
unfolding expire_loop
expire_loop-Unique now [] w u = tt
expire_loop-Unique now ((j, s) ∷ m) w u = ground (
  arith,
  expire_loop-Unique now m w u.1,
  expire_loop-Unique now m (close_or s.or w) u.1,
  expire_loop-lookup-none now j m w u.0,
)

-- The entry of an id behind the sweep.
pub lookup-expire_loop :
    (now : ℕ) (k : Bytes) (m : State) (w : World)
    → Unique m
    → lookup k (expire_loop now m w).0 ≡ keep_fresh now (lookup k m)
unfolding expire_loop lookup
lookup-expire_loop now k [] w u = refl
lookup-expire_loop now k ((j, s) ∷ m) w u = ground (
  arith,
  lookup-expire_loop now k m w u.1,
  lookup-expire_loop now k m (close_or s.or w) u.1,
  expire_loop-lookup-none now j m (close_or s.or w) u.0,
  same_iff j k,
)

-- Nothing else of the world changes than the list of closed connections.
pub expire_loop-world :
    (now : ℕ) (m : State) (w : World)
    → ((expire_loop now m w).1.opened ≡ w.opened) × ((expire_loop now m w).1.sent ≡ w.sent)
unfolding expire_loop close_or
expire_loop-world now [] w = (refl, refl)
expire_loop-world now ((j, s) ∷ m) w =
    ground (arith, expire_loop-world now m w, expire_loop-world now m (close_or s.or w))
