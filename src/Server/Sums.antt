-- ===== src/Server/Sums.antt =====
-- Sums over the session map do not depend on the order of its entries; what ExpireSessions of
-- meek-server/meek-server.go closes is such a sum.
use meek.Base.{
  ℕ, ◌+◌, Bytes, [], ◌∷◌, none, some, ◌≡◌, refl, sym, ◌∙◌, arith, if◌then◌else◌, count, same_iff,
  same_refl, lookup, erase, lookup-erase, Unique, erase-Unique, total, total-erase,
}
use meek.Server.Session.{Session, State, World, close_or, expire_loop, is_expired}
use meek.Server.Conservation.{owns}

lookup_head : (k : Bytes) (s : Session) (m : State) → lookup k ((k, s) ∷ m) ≡ some s
unfolding lookup
lookup_head k s m = rw (same_refl k)

erase_agrees :
    (k : Bytes) (s : Session) (m n : State)
    → lookup k m ≡ none
    → ((id : Bytes) → lookup id ((k, s) ∷ m) ≡ lookup id n)
    → (id : Bytes) → lookup id m ≡ lookup id (erase k n)
unfolding lookup
erase_agrees k s m n fresh h id = ground (arith, h id, lookup-erase k id n, same_iff k id)

module _ (f : Session → ℕ) where
  -- A map with no entry for any id is empty.
  total_empty : (m : State) → ((id : Bytes) → lookup id m ≡ none) → total f m ≡ 0
  unfolding lookup
  total_empty [] h = refl
  total_empty ((k, s) ∷ m) h = absurd (ground (arith, h k, same_refl k))

  -- A sum over a map depends on its entries only, not on their order.
  pub total_agrees :
      (m n : State)
      → Unique m
      → Unique n
      → ((id : Bytes) → lookup id m ≡ lookup id n)
      → total f m ≡ total f n
  total_agrees [] n um un h = sym (total_empty n (λ id. sym (h id) ∙ (unfold lookup in refl)))
  total_agrees ((k, s) ∷ m) n um un h = omega (
    arith,
    total_agrees m (erase k n) um.1 (erase-Unique k n un) (erase_agrees k s m n um.0 h),
    total-erase f k s n un (sym (h k) ∙ lookup_head k s m),
  )

-- How many of the expired sessions hold the connection.
abbrev pub expired : ℕ → ℕ → Session → ℕ
expired c now s = if is_expired now s then owns c s else 0

pub expire_loop-closed :
    (c now : ℕ) (m : State) (w : World)
    → count c (expire_loop now m w).1.closed ≡ total (expired c now) m + count c w.closed
unfolding expire_loop close_or
expire_loop-closed c now [] w = omega arith
expire_loop-closed c now ((id, s) ∷ m) w =
    ground (arith, expire_loop-closed c now m w, expire_loop-closed c now m (close_or s.or w))

pub expire_loop-log : (now : ℕ) (m : State) (w : World) → (expire_loop now m w).1.log ≡ w.log
unfolding expire_loop close_or
expire_loop-log now [] w = refl
expire_loop-log now ((id, s) ∷ m) w =
    ground (arith, expire_loop-log now m w, expire_loop-log now m (close_or s.or w))
