-- ===== src/Server/Steps.antt =====
-- Handlers and ExpireSessions run side by side. What they do to the server is a sequence of the
-- steps below: the map is touched only under the lock, and a transaction works on its session's
-- connection outside it. Any interleaving of any handlers and sweeps is such a sequence.
pub mod Requests
use meek.Base.{
  ℕ, Bytes, codes, List, [], ◌∷◌, none, some, ◌≡◌, refl, Bool-cases, ltb, length, inl, inr, arith,
}
use meek.Go.Errors.{GoError, Result, ok, err}
use meek.Go.Http.{Request, ResponseWriter, get_field}
use meek.UserAddr.{get_useraddr}
use meek.Server.Session.{
  Session, Server, min_session_id_length, get_session, close_session, expire_sessions,
}
use meek.Server.Handler.{Link, Externals, transact, log_error, with_session, finish, post}

pub data Step : Type 0 where
  looks_up : (dial_or : Bytes → Bytes → Result ℕ) (useraddr id : Bytes) (now : ℕ) → Step
  transacts : Link → Session → Request → ResponseWriter → Step
  logs : GoError → Step
  closes : Bytes → Step
  sweeps : ℕ → Step

unfoldable pub step : Step → Server → Server
step (looks_up dial_or useraddr id now) v = (get_session dial_or useraddr id now v).1
step (transacts link session req w) v = record v {
  world = (transact link session req w v.world).world;
}
step (logs e) v = record v { world = log_error e v.world }
step (closes id) v = close_session id v
step (sweeps now) v = expire_sessions now v

unfoldable pub run : List Step → Server → Server
unfolding step
run [] v = v
run (s ∷ ss) v = run ss (step s v)

-- The steps behind the look-up of a session.
session_steps : Link → Bytes → Request → ResponseWriter → Result Session × Server → List Step
session_steps link id req w (err e, v) = logs e ∷ []
session_steps link id req w (ok s, v) = elim (transact link s req w v.world).error [
  | none ↦ transacts link s req w ∷ []
  | some e ↦ transacts link s req w ∷ logs e ∷ closes id ∷ []
]

with_session-run :
    (link : Link) (id : Bytes) (req : Request) (w : ResponseWriter) (r : Result Session × Server)
    → (with_session link id req w r).1 ≡ run (session_steps link id req w r) r.1
unfolding with_session finish run session_steps
with_session-run link id req w (err e, v) = refl
with_session-run link id req w (ok s, v) = ground arith

-- A request, handled with no other step in between, is a sequence of steps.
pub post-run :
    (x : Externals) (link : Link) (now : ℕ) (req : Request) (w : ResponseWriter) (v : Server)
    → (ss : List Step) × ((post x link now req w v).1 ≡ run ss v)
unfolding post run
post-run x link now req w v =
    let id = get_field (codes "X-Session-Id") req.header in
    let useraddr = get_useraddr x.parse_ip req in
    let r = get_session x.dial_or useraddr id now v in
    elim (Bool-cases (ltb (length id) min_session_id_length)) [
      | inl short ↦ ([], ground arith)
      | inr long ↦ (
        looks_up x.dial_or useraddr id now ∷ session_steps link id req w r,
        rw long (with_session-run link id req w r),
      )
    ]
