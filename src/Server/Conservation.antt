-- ===== src/Server/Conservation.antt =====
-- No connection to the OR port is lost, and none is closed twice.
use meek.Base.{
  ℕ, ◌+◌, ◌≤◌, Bytes, List, [], ◌∷◌, none, some, ◌≡◌, refl, Option-cases, inl, inr, arith, ◌==◌,
  if◌then◌else◌, count, lookup, Unique, total, insert-Unique, erase-Unique, total-insert_new,
  total-insert_old, total-erase,
}
use meek.Go.Errors.{Result, ok, err}
use meek.Server.Session.{
  Session, State, World, Server, get_session, close_session, expire_loop, expire_sessions,
  new_state, close_or, touch, pt_method_name, start_session,
}
use meek.Server.Handler.{log_error}
use meek.Server.Expiry.{expire_loop-Unique, expire_loop-world}
use meek.Server.Transact.{transact-connections}
use meek.Server.Steps.{Step, looks_up, transacts, logs, closes, sweeps, step, run}

-- How often a session holds the connection: once or never.
abbrev pub owns : ℕ → Session → ℕ
owns c s = if s.or == c then 1 else 0

-- Each id has one session, and each opened connection is in the map or closed.
pub record IsBalanced (c : ℕ) (v : Server) : Type 0 where
  pub unique : Unique v.session_map
  pub balance : count c v.world.opened ≡ total (owns c) v.session_map + count c v.world.closed

module _ (c : ℕ) where
  start_session-IsBalanced :
      (id : Bytes) (now : ℕ) (v : Server) (dialed : Result ℕ)
      → lookup id v.session_map ≡ none
      → IsBalanced c v
      → IsBalanced c (start_session id now v dialed).1
  unfolding start_session touch
  start_session-IsBalanced id now v (err e) h b = b
  start_session-IsBalanced id now v (ok d) h b =
      let s : Session = record { or = d; last_seen = now } in
      record {
        unique = insert-Unique id s v.session_map b.unique;
        balance = ground (arith, b.balance, total-insert_new (owns c) id s v.session_map h);
      }

  get_session-IsBalanced :
      (dial_or : Bytes → Bytes → Result ℕ) (useraddr id : Bytes) (now : ℕ) (v : Server)
      → IsBalanced c v
      → IsBalanced c (get_session dial_or useraddr id now v).1
  unfolding get_session touch
  get_session-IsBalanced dial_or useraddr id now v b =
      elim (Option-cases (lookup id v.session_map)) [
        | inl e ↦
            rw (e, get_session)
              (start_session-IsBalanced id now v (dial_or useraddr pt_method_name) e b)
        | inr (s, e) ↦
            rw (e, get_session)
              (record {
                unique = insert-Unique id _ v.session_map b.unique;
                balance = ground (
                  arith,
                  b.balance,
                  total-insert_old (owns c) id (touch now s) s v.session_map e,
                );
              })
      ]

  close_session-IsBalanced :
      (id : Bytes) (v : Server) → IsBalanced c v → IsBalanced c (close_session id v)
  unfolding close_session close_or
  close_session-IsBalanced id v b = elim (Option-cases (lookup id v.session_map)) [
    | inl e ↦ rw (e, close_session) b
    | inr (s, e) ↦
        rw (e, close_session)
          (record {
            unique = erase-Unique id v.session_map b.unique;
            balance = ground (arith, b.balance, total-erase (owns c) id s v.session_map b.unique e);
          })
  ]

  expire_loop_balance :
      (now : ℕ) (m : State) (w : World)
      → total (owns c) (expire_loop now m w).0 + count c (expire_loop now m w).1.closed
        ≡ total (owns c) m + count c w.closed
  unfolding expire_loop close_or
  expire_loop_balance now [] w = refl
  expire_loop_balance now ((id, s) ∷ m) w =
      ground (arith, expire_loop_balance now m w, expire_loop_balance now m (close_or s.or w))

  expire_sessions-IsBalanced :
      (now : ℕ) (v : Server) → IsBalanced c v → IsBalanced c (expire_sessions now v)
  unfolding expire_sessions
  expire_sessions-IsBalanced now v b = record {
    unique = expire_loop-Unique now v.session_map v.world b.unique;
    balance = ground (
      arith,
      b.balance,
      expire_loop_balance now v.session_map v.world,
      expire_loop-world now v.session_map v.world,
    );
  }

  step-IsBalanced : (s : Step) (v : Server) → IsBalanced c v → IsBalanced c (step s v)
  unfolding step log_error
  step-IsBalanced (looks_up dial_or useraddr id now) v b =
      get_session-IsBalanced dial_or useraddr id now v b
  step-IsBalanced (transacts link session req w) v b = record {
    unique = b.unique;
    balance = ground (arith, b.balance, transact-connections link session req w v.world);
  }
  step-IsBalanced (logs e) v b = record { unique = b.unique; balance = b.balance }
  step-IsBalanced (closes id) v b = close_session-IsBalanced id v b
  step-IsBalanced (sweeps now) v b = expire_sessions-IsBalanced now v b

  run-IsBalanced : (ss : List Step) (v : Server) → IsBalanced c v → IsBalanced c (run ss v)
  unfolding run
  run-IsBalanced [] v b = b
  run-IsBalanced (s ∷ ss) v b = run-IsBalanced ss (step s v) (step-IsBalanced s v b)

  new_state-IsBalanced : IsBalanced c new_state
  unfolding new_state
  new_state-IsBalanced = record { unique = tt; balance = refl }

-- Whatever handlers and sweeps do, in any order, from an empty server on: each session id has one
-- entry, and each connection was opened exactly as often as it is held by a session of the map and
-- was closed, together. So no connection leaks.
pub run-conserves :
    (c : ℕ) (ss : List Step)
    → Unique (run ss new_state).session_map
      × (count c (run ss new_state).world.opened
          ≡ total (owns c) (run ss new_state).session_map + count c (run ss new_state).world.closed)
run-conserves c ss =
    let b = run-IsBalanced c ss new_state (new_state-IsBalanced c) in (b.unique, b.balance)

owns-le-total :
    (c : ℕ) (id : Bytes) (s : Session) (m : State)
    → lookup id m ≡ some s
    → owns c s ≤ total (owns c) m
unfolding lookup
owns-le-total c id s [] h = cc
owns-le-total c id s ((j, t) ∷ m) h = ground (arith, owns-le-total c id s m)

-- If the dialer handed the connection of a session of the map out at most once, then that
-- connection was not closed.
pub run-closes_once :
    (ss : List Step) (id : Bytes) (s : Session)
    → count s.or (run ss new_state).world.opened ≤ 1
    → lookup id (run ss new_state).session_map ≡ some s
    → count s.or (run ss new_state).world.closed ≡ 0
run-closes_once ss id s fresh found =
    ground (
      arith,
      (run-conserves s.or ss).1,
      owns-le-total s.or id s (run ss new_state).session_map found,
    )
