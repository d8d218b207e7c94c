-- ===== src/Server/Order.antt =====
-- Go walks a map in any order, and in another one each time. Two servers are alike if they differ in
-- the order of the map's entries and of the closed connections alone.
pub mod Classes
pub mod Tests
use mathlib.Core.Path.{fun_ext}
use meek.Base.{
  ℕ, ◌+◌, Bytes, List, [], ◌∷◌, Option, none, some, ◌≡◌, refl, sym, ◌∙◌, ap, arith, if◌then◌else◌,
  count, same, same_iff, same_refl, lookup, insert, erase, lookup-insert, lookup-erase, Unique,
  erase-Unique, total, total-erase, Option-cases, inl, inr,
}
use meek.Go.Errors.{Result, ok, err, GoError}
use meek.Server.Session.{
  max_payload_length, Session, Server, State, World, get_session, start_session, close_session,
  close_or, expire_loop, expire_sessions, is_expired, new_state, pt_method_name,
}
use meek.Go.Http.{Request, ResponseWriter}
use meek.Server.Handler.{Link, transact, log_error}
use meek.Server.Transact.{after_copy, copied, transact-after_copy}
use meek.Server.Conservation.{owns}
use meek.Server.Expiry.{expire_loop-world}
use meek.Server.Steps.{Step, looks_up, transacts, logs, closes, sweeps, step, run}
use meek.Server.Sums.{total_agrees, expired, expire_loop-closed, expire_loop-log}
use meek.Server.Abstract.{sessions, change, step-change, step-Unique}

pub record AlikeWorlds (v w : World) : Type 0 where
  pub opened : v.opened ≡ w.opened
  pub sent : v.sent ≡ w.sent
  pub log : v.log ≡ w.log
  pub closed : (c : ℕ) → count c v.closed ≡ count c w.closed

pub record Alike (v w : Server) : Type 0 where
  pub unique_left : Unique v.session_map
  pub unique_right : Unique w.session_map
  pub mapped : (id : Bytes) → sessions v id ≡ sessions w id
  pub worlds : AlikeWorlds v.world w.world

-- The world behind a look-up, and behind the closing of a session.
abbrev dialed_world : Option Session → Result ℕ → World → World
dialed_world (some s) r w = w
dialed_world none (err e) w = w
dialed_world none (ok c) w = record w { opened = c ∷ w.opened }

abbrev closed_world : Option Session → World → World
closed_world none w = w
closed_world (some s) w = record w { closed = s.or ∷ w.closed }

get_session-world :
    (dial_or : Bytes → Bytes → Result ℕ) (useraddr id : Bytes) (now : ℕ) (v : Server)
    → (get_session dial_or useraddr id now v).1.world
      ≡ dialed_world (sessions v id) (dial_or useraddr pt_method_name) v.world
unfolding get_session start_session
get_session-world dial_or useraddr id now v = ground arith

close_session-world :
    (id : Bytes) (v : Server) → (close_session id v).world ≡ closed_world (sessions v id) v.world
unfolding close_session close_or
close_session-world id v = ground arith

dialed_world-Alike :
    (o : Option Session) (r : Result ℕ) (v w : World)
    → AlikeWorlds v w
    → AlikeWorlds (dialed_world o r v) (dialed_world o r w)
dialed_world-Alike (some s) r v w a = a
dialed_world-Alike none (err e) v w a = a
dialed_world-Alike none (ok c) v w a = record {
  opened = ap (◌∷◌ c) a.opened;
  sent = a.sent;
  log = a.log;
  closed = a.closed;
}

closed_world-Alike :
    (o : Option Session) (v w : World)
    → AlikeWorlds v w
    → AlikeWorlds (closed_world o v) (closed_world o w)
closed_world-Alike none v w a = a
closed_world-Alike (some s) v w a = record {
  opened = a.opened;
  sent = a.sent;
  log = a.log;
  closed = λ c. ground (arith, a.closed c);
}

after_copy-Alike :
    (link : Link) (s : Session) (req : Request) (v w : World)
    → AlikeWorlds v w
    → AlikeWorlds (after_copy link s req v) (after_copy link s req w)
after_copy-Alike link s req v w a = record {
  opened = a.opened;
  sent = ap (◌∷◌ (s.or, (copied (max_payload_length + 1) link req.body).0)) a.sent;
  log = a.log;
  closed = a.closed;
}

expire_sessions-Alike :
    (now : ℕ) (v w : Server)
    → Alike v w
    → AlikeWorlds (expire_sessions now v).world (expire_sessions now w).world
unfolding expire_sessions
expire_sessions-Alike now v w a =
    let x = expire_loop-world now v.session_map v.world in
    let y = expire_loop-world now w.session_map w.world in
    record {
      opened = x.0 ∙ a.worlds.opened ∙ sym y.0;
      sent = x.1 ∙ a.worlds.sent ∙ sym y.1;
      log =
          expire_loop-log now v.session_map v.world
          ∙ a.worlds.log
          ∙ sym (expire_loop-log now w.session_map w.world);
      closed = λ c. omega (
        arith,
        expire_loop-closed c now v.session_map v.world,
        expire_loop-closed c now w.session_map w.world,
        total_agrees (expired c now) v.session_map w.session_map a.unique_left a.unique_right
            a.mapped,
        a.worlds.closed c,
      );
    }

step-AlikeWorlds :
    (s : Step) (v w : Server) → Alike v w → AlikeWorlds (step s v).world (step s w).world
unfolding step log_error
step-AlikeWorlds (looks_up dial_or useraddr id now) v w a =
    rw
      (
        get_session-world dial_or useraddr id now v,
        get_session-world dial_or useraddr id now w,
        a.mapped id,
      )
      (dialed_world-Alike (sessions w id) (dial_or useraddr pt_method_name) v.world w.world
        a.worlds)
step-AlikeWorlds (transacts link session req r) v w a =
    rw
      (
        transact-after_copy link session req r v.world,
        transact-after_copy link session req r w.world,
      )
      (after_copy-Alike link session req v.world w.world a.worlds)
step-AlikeWorlds (logs e) v w a = record {
  opened = a.worlds.opened;
  sent = a.worlds.sent;
  log = ap (◌∷◌ e) a.worlds.log;
  closed = a.worlds.closed;
}
step-AlikeWorlds (closes id) v w a =
    rw (close_session-world id v, close_session-world id w, a.mapped id)
      (closed_world-Alike (sessions w id) v.world w.world a.worlds)
step-AlikeWorlds (sweeps now) v w a = expire_sessions-Alike now v w a

step-Alike : (s : Step) (v w : Server) → Alike v w → Alike (step s v) (step s w)
step-Alike s v w a = record {
  unique_left = step-Unique s v a.unique_left;
  unique_right = step-Unique s w a.unique_right;
  mapped = λ id.
      step-change s v id a.unique_left
      ∙ ap (λ m. change s m id) (fun_ext a.mapped)
      ∙ sym (step-change s w id a.unique_right);
  worlds = step-AlikeWorlds s v w a;
}

Alike-refl : (v : Server) → Unique v.session_map → Alike v v
Alike-refl v u = record {
  unique_left = u;
  unique_right = u;
  mapped = λ id. refl;
  worlds = record { opened = refl; sent = refl; log = refl; closed = λ c. refl };
}

Alike-trans : (u v w : Server) → Alike u v → Alike v w → Alike u w
Alike-trans u v w a b = record {
  unique_left = a.unique_left;
  unique_right = b.unique_right;
  mapped = λ id. a.mapped id ∙ b.mapped id;
  worlds = record {
    opened = a.worlds.opened ∙ b.worlds.opened;
    sent = a.worlds.sent ∙ b.worlds.sent;
    log = a.worlds.log ∙ b.worlds.log;
    closed = λ c. a.worlds.closed c ∙ b.worlds.closed c;
  };
}

run-step-Alike : (ss : List Step) (v w : Server) → Alike v w → Alike (run ss v) (run ss w)
unfolding run
run-step-Alike [] v w a = a
run-step-Alike (s ∷ ss) v w a = run-step-Alike ss (step s v) (step s w) (step-Alike s v w a)

-- A run in which the order may change before each step.
pub data Runs : List Step → Server → Server → Type 0 where
  done : {v w : Server} → Alike v w → Runs [] v w
  next :
      {s : Step} {ss : List Step} {v v' w : Server}
      → Alike v v'
      → Runs ss (step s v') w
      → Runs (s ∷ ss) v w

-- In whatever orders Go walks the map, and however it changes them between the steps of handlers and
-- sweeps: the same ids have the same sessions, the same connections were opened and closed, as often,
-- the same was written to them in the same order, and the same errors were logged, as in one fixed order.
pub run-Alike : (ss : List Step) (v w : Server) → Runs ss v w → Alike (run ss v) w
unfolding run
run-Alike [] v w (done a) = a
run-Alike (s ∷ ss) v w (next {v' = v'} a r) =
    Alike-trans (run ss (step s v)) (run ss (step s v')) w
      (run-step-Alike ss (step s v) (step s v') (step-Alike s v v' a))
      (run-Alike ss (step s v') w r)
