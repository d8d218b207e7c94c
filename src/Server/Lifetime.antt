-- ===== src/Server/Lifetime.antt =====
-- The loop of ExpireSessions over time: how long an idle session lives.
pub mod Late
use meek.Base.{
  ℕ, ◌+◌, ◌*◌, ◌/◌, ◌≤◌, ◌<◌, Bytes, List, [], ◌∷◌, none, some, ◌≡◌, Bool-cases, inl, inr, arith,
  length, lookup, Unique, ltb, ltb→lt, ltb→le,
}
use meek.Server.Session.{Session, Server, max_session_staleness, expire_sessions, is_expired}
use meek.Server.Expiry.{keep_fresh, lookup-expire_loop, expire_loop-Unique}

-- One round for each entry of the list: time.Sleep lasts half the staleness limit and as many
-- nanoseconds more as the entry says; then comes the sweep.
unfoldable pub expire_rounds : ℕ → List ℕ → Server → Server
expire_rounds start [] v = v
expire_rounds start (late ∷ ls) v =
    let now = start + max_session_staleness / 2 + late in
    expire_rounds now ls (expire_sessions now v)

-- When the last sweep ends.
abbrev pub end_time : ℕ → List ℕ → ℕ
end_time start [] = start
end_time start (late ∷ ls) = end_time (start + max_session_staleness / 2 + late) ls

lookup-expire_sessions :
    (now : ℕ) (k : Bytes) (v : Server)
    → Unique v.session_map
    → lookup k (expire_sessions now v).session_map ≡ keep_fresh now (lookup k v.session_map)
unfolding expire_sessions
lookup-expire_sessions now k v u = lookup-expire_loop now k v.session_map v.world u

expire_sessions-Unique :
    (now : ℕ) (v : Server) → Unique v.session_map → Unique (expire_sessions now v).session_map
unfolding expire_sessions
expire_sessions-Unique now v u = expire_loop-Unique now v.session_map v.world u

keep_fresh_old :
    (now : ℕ) (s : Session)
    → s.last_seen + max_session_staleness < now
    → keep_fresh now (some s) ≡ none
unfolding is_expired
keep_fresh_old now s h = ground arith

keep_fresh_new :
    (now : ℕ) (s : Session)
    → now ≤ s.last_seen + max_session_staleness
    → keep_fresh now (some s) ≡ some s
unfolding is_expired
keep_fresh_new now s h = ground arith

expire_rounds-none :
    (start : ℕ) (ls : List ℕ) (id : Bytes) (v : Server)
    → Unique v.session_map
    → lookup id v.session_map ≡ none
    → lookup id (expire_rounds start ls v).session_map ≡ none
unfolding expire_rounds
expire_rounds-none start [] id v u h = h
expire_rounds-none start (late ∷ ls) id v u h =
    let now = start + max_session_staleness / 2 + late in
    expire_rounds-none now ls id (expire_sessions now v) (expire_sessions-Unique now v u)
      (rw (lookup-expire_sessions now id v u, h))

-- A session that is not used any more is gone once the rounds of the loop, each at least half the
-- staleness limit long, have passed the time it was last seen by more than that limit.
pub expire_rounds-removes :
    (start : ℕ) (ls : List ℕ) (id : Bytes) (s : Session) (v : Server)
    → Unique v.session_map
    → lookup id v.session_map ≡ some s
    → 1 ≤ length ls
    → s.last_seen + max_session_staleness < start + max_session_staleness / 2 * length ls
    → lookup id (expire_rounds start ls v).session_map ≡ none
unfolding expire_rounds
expire_rounds-removes start [] id s v u found some_round over = absurd (omega arith)
expire_rounds-removes start (late ∷ ls) id s v u found some_round over =
    let now = start + max_session_staleness / 2 + late in
    let v' = expire_sessions now v in
    let u' = expire_sessions-Unique now v u in
    elim (Bool-cases (ltb (s.last_seen + max_session_staleness) now)) [
      | inl old ↦
          expire_rounds-none now ls id v' u'
            (rw (lookup-expire_sessions now id v u, found) (keep_fresh_old now s (ltb→lt _ _ old)))
      | inr new ↦
          expire_rounds-removes now ls id s v' u'
            (rw (lookup-expire_sessions now id v u, found) (keep_fresh_new now s (ltb→le _ _ new)))
            (omega (arith, ltb→le (s.last_seen + max_session_staleness) now new))
            (omega (arith, ltb→le (s.last_seen + max_session_staleness) now new))
    ]

le-end_time : (start : ℕ) (ls : List ℕ) → start ≤ end_time start ls
le-end_time start [] = omega arith
le-end_time start (late ∷ ls) =
    omega (arith, le-end_time (start + max_session_staleness / 2 + late) ls)

-- A session is not culled before it has been idle for longer than the staleness limit: while the
-- sweeps end by then, it stays as it is.
pub expire_rounds-keeps :
    (start : ℕ) (ls : List ℕ) (id : Bytes) (s : Session) (v : Server)
    → Unique v.session_map
    → lookup id v.session_map ≡ some s
    → end_time start ls ≤ s.last_seen + max_session_staleness
    → lookup id (expire_rounds start ls v).session_map ≡ some s
unfolding expire_rounds
expire_rounds-keeps start [] id s v u found early = found
expire_rounds-keeps start (late ∷ ls) id s v u found early =
    let now = start + max_session_staleness / 2 + late in
    expire_rounds-keeps now ls id s (expire_sessions now v) (expire_sessions-Unique now v u)
      (rw (lookup-expire_sessions now id v u, found)
        (keep_fresh_new now s (omega (arith, le-end_time now ls))))
      early
