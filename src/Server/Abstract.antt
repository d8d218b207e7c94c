-- ===== src/Server/Abstract.antt =====
-- What the session map promises, without its representation: each id has a session or none, and
-- each step is a change of that function. Server/Order is about the order of the map's entries.
use mathlib.Core.Path.{fun_ext}
use meek.Base.{
  ℕ, Bytes, List, [], ◌∷◌, Option, none, some, ◌≡◌, refl, arith, ap, ◌∙◌, if◌then◌else◌, same,
  same_iff, lookup, lookup-insert, lookup-erase, Unique, insert-Unique, erase-Unique, Option-cases,
  inl, inr,
}
use meek.Go.Errors.{Result, ok, err}
use meek.Server.Session.{
  Session, Server, get_session, start_session, touch, close_session, expire_sessions, new_state,
  pt_method_name,
}
use meek.Server.Expiry.{keep_fresh, lookup-expire_loop, expire_loop-Unique}
use meek.Server.Steps.{Step, looks_up, transacts, logs, closes, sweeps, step, run}

abbrev pub Sessions : Type 0
Sessions = Bytes → Option Session

abbrev pub sessions : Server → Sessions
sessions v id = lookup id v.session_map

-- A function, changed at one id.
abbrev pub put : Bytes → Option Session → Sessions → Sessions
put id s m k = if same id k then s else m k

abbrev pub dialed : Bytes → ℕ → Result ℕ → Sessions → Sessions
dialed id now (err e) m = m
dialed id now (ok c) m = put id (some (record { or = c; last_seen = now })) m

abbrev pub used : Bytes → ℕ → Result ℕ → Option Session → Sessions → Sessions
used id now dial none m = dialed id now dial m
used id now dial (some s) m = put id (some (record { or = s.or; last_seen = now })) m

abbrev pub change : Step → Sessions → Sessions
change (looks_up dial_or useraddr id now) m = used id now (dial_or useraddr pt_method_name) (m id) m
change (transacts link session req w) m = m
change (logs e) m = m
change (closes id) m = put id none m
change (sweeps now) m = λ k. keep_fresh now (m k)

abbrev pub replay : List Step → Sessions → Sessions
replay [] m = m
replay (s ∷ ss) m = replay ss (change s m)

start_session-dialed :
    (id : Bytes) (now : ℕ) (v : Server) (r : Result ℕ) (k : Bytes)
    → lookup k (start_session id now v r).1.session_map ≡ dialed id now r (sessions v) k
unfolding start_session touch
start_session-dialed id now v (err e) k = refl
start_session-dialed id now v (ok c) k =
    lookup-insert id k (record { or = c; last_seen = now }) v.session_map

get_session-used :
    (dial_or : Bytes → Bytes → Result ℕ) (useraddr id : Bytes) (now : ℕ) (v : Server) (k : Bytes)
    → lookup k (get_session dial_or useraddr id now v).1.session_map
      ≡ used id now (dial_or useraddr pt_method_name) (lookup id v.session_map) (sessions v) k
unfolding get_session start_session touch
get_session-used dial_or useraddr id now v k = elim (Option-cases (lookup id v.session_map)) [
  | inl e ↦ rw (e, get_session) (start_session-dialed id now v (dial_or useraddr pt_method_name) k)
  | inr (s, e) ↦ rw (e, get_session) (lookup-insert id k (touch now s) v.session_map)
]

start_session-Unique :
    (id : Bytes) (now : ℕ) (v : Server) (r : Result ℕ)
    → Unique v.session_map
    → Unique (start_session id now v r).1.session_map
unfolding start_session
start_session-Unique id now v (err e) u = u
start_session-Unique id now v (ok c) u = insert-Unique id _ v.session_map u

pub get_session-Unique :
    (dial_or : Bytes → Bytes → Result ℕ) (useraddr id : Bytes) (now : ℕ) (v : Server)
    → Unique v.session_map
    → Unique (get_session dial_or useraddr id now v).1.session_map
unfolding get_session
get_session-Unique dial_or useraddr id now v u = elim (Option-cases (lookup id v.session_map)) [
  | inl e ↦ rw (e, get_session) (start_session-Unique id now v (dial_or useraddr pt_method_name) u)
  | inr (s, e) ↦ rw (e, get_session) (insert-Unique id (touch now s) v.session_map u)
]

pub close_session-Unique :
    (id : Bytes) (v : Server) → Unique v.session_map → Unique (close_session id v).session_map
unfolding close_session
close_session-Unique id v u = elim (Option-cases (lookup id v.session_map)) [
  | inl e ↦ rw (e, close_session) u
  | inr (s, e) ↦ rw (e, close_session) (erase-Unique id v.session_map u)
]

pub step-Unique : (s : Step) (v : Server) → Unique v.session_map → Unique (step s v).session_map
unfolding step expire_sessions
step-Unique (looks_up dial_or useraddr id now) v u = get_session-Unique dial_or useraddr id now v u
step-Unique (transacts link session req w) v u = u
step-Unique (logs e) v u = u
step-Unique (closes id) v u = close_session-Unique id v u
step-Unique (sweeps now) v u = expire_loop-Unique now v.session_map v.world u

close_session-put :
    (id : Bytes) (v : Server) (k : Bytes)
    → lookup k (close_session id v).session_map ≡ put id none (sessions v) k
unfolding close_session
close_session-put id v k = ground (arith, lookup-erase id k v.session_map, same_iff id k)

pub expire_sessions-keep_fresh :
    (now : ℕ) (v : Server) (k : Bytes)
    → Unique v.session_map
    → lookup k (expire_sessions now v).session_map ≡ keep_fresh now (lookup k v.session_map)
unfolding expire_sessions
expire_sessions-keep_fresh now v k u = lookup-expire_loop now k v.session_map v.world u

pub step-change :
    (s : Step) (v : Server) (k : Bytes)
    → Unique v.session_map
    → sessions (step s v) k ≡ change s (sessions v) k
unfolding step
step-change (looks_up dial_or useraddr id now) v k u = get_session-used dial_or useraddr id now v k
step-change (transacts link session req w) v k u = refl
step-change (logs e) v k u = refl
step-change (closes id) v k u = close_session-put id v k
step-change (sweeps now) v k u = expire_sessions-keep_fresh now v k u

pub run-replay :
    (ss : List Step) (v : Server)
    → Unique v.session_map
    → sessions (run ss v) ≡ replay ss (sessions v)
unfolding run
run-replay [] v u = refl
run-replay (s ∷ ss) v u =
    run-replay ss (step s v) (step-Unique s v u) ∙ ap (replay ss) (fun_ext λ k. step-change s v k u)

-- Whatever handlers and sweeps do, in any order, from an empty server on: the session that the map
-- holds for each id is the one that the abstract changes give.
pub run_refines : (ss : List Step) → sessions (run ss new_state) ≡ replay ss (λ id. none)
unfolding new_state lookup
run_refines ss = run-replay ss new_state tt
