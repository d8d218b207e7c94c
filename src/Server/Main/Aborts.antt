-- ===== src/Server/Main/Aborts.antt =====
-- The goroutines of meek-server/meek-server.go that end the whole program when their listener fails:
-- runProxy, by a panic, and the responder for ACME, by log.Fatal. Both run beside main.
pub mod Laws
use meek.Base.{
  ℕ, Bytes, List, [], ◌∷◌, Option, none, some, Bool, true, false, ◌||◌, ◌&&◌, not, ltb, length,
  take, if◌then◌else◌,
}
use meek.Go.Errors.{GoError}
use meek.Server.Startup.{Flags, Addr, Event, responder, Listening, Service, environment}
use meek.Server.Main.{Process, Ending, fatal, running, finished, server_main}

pub data Goroutine : Type 0 where
  internal_proxy : Goroutine
  acme_responder : Goroutine

-- ListenAndServe of the proxy, or http.Serve of the responder, comes back with an error, when main has
-- done so many things.
pub record Failure : Type 0 where
  pub by : Goroutine
  pub error : GoError
  pub after : ℕ

pub data Run : Type 0 where
  by_main : Ending → Run
  panicked : GoError → Run
  log_fatal : GoError → Run

abbrev pub aborted : Goroutine → GoError → Run
aborted internal_proxy e = panicked e
aborted acme_responder e = log_fatal e

abbrev has_opened : Option Bytes → Bool
has_opened none = true
has_opened (some text) = false

-- Whether a responder's listener was opened.
abbrev pub serves_acme : Listening → List Event → Bool
serves_acme l [] = false
serves_acme l (responder a ∷ es) = has_opened (l.responder a) || serves_acme l es
serves_acme l (e ∷ es) = serves_acme l es

-- Whether a goroutine was started.
abbrev pub is_started : Process → Service → List Event → Goroutine → Bool
is_started p o told internal_proxy = (environment o).1
is_started p o told acme_responder = serves_acme p.listening told

-- Whether main is over before that; while it waits it is not.
abbrev is_over_by : ℕ → List Event × Ending → Bool
is_over_by n (events, running servers) = false
is_over_by n (events, fatal e) = ltb (length events) n
is_over_by n (events, finished) = ltb (length events) n

abbrev completed : List Event × Ending → List Event × Run
completed (events, ending) = (events, by_main ending)

unfoldable pub stopped : Process → Service → List Event × Ending → Failure → List Event × Run
stopped p o r x =
    let told = take x.after r.0 in
    if is_started p o told x.by && not (is_over_by x.after r)
    then (told, aborted x.by x.error)
    else completed r

-- The program with a goroutine that may fail.
unfoldable pub server_run : Process → Service → Flags → Bytes → Option Failure → List Event × Run
unfolding stopped
server_run p o f log_name failure = elim failure [
  | none ↦ completed (server_main p o f log_name)
  | some x ↦ stopped p o (server_main p o f log_name) x
]
