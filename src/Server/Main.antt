-- ===== src/Server/Main.antt =====
-- main of meek-server/meek-server.go from its flags to its end.
pub mod Aborts
pub mod Laws
pub mod Tests
use meek.Base.{ℕ, Bytes, codes, List, [], ◌∷◌, ◌++◌, Option, none, some, Bool, if◌then◌else◌, Map}
use meek.Go.Errors.{GoError, plain, Result, ok, err}
use meek.Lifecycle.{Incoming, is_over, log_failure, because}
use meek.Server.Session.{pt_method_name}
use meek.Server.Handler.{error_text}
use meek.Server.Startup.{
  Flags, Addr, Bindaddr, Event, smethod_error, Listening, Service, environment, start, closings,
}

-- What is outside the program: pt.ServerSetup, which reads the environment, files, listeners, and
-- what comes in while it waits.
pub record Process : Type 0 where
  pub server_setup : Map Bytes → Result (List Bindaddr)
  pub open_log : Bytes → Option GoError
  pub make_context : Bytes → Bytes → Option GoError
  pub state_dir : Result Bytes
  pub listening : Listening
  pub exit_on_stdin_close : Bool
  pub incoming : List Incoming

-- The program ended by an error, it runs with these servers, or it ended behind the signal.
pub data Ending : Type 0 where
  fatal : GoError → Ending
  running : List Addr → Ending
  finished : Ending

unfoldable served : Process → List Event × List Addr → List Event × Ending
served p (events, servers) =
    if is_over p.exit_on_stdin_close p.incoming
    then (events ++ closings servers, finished)
    else (events, running servers)

unfoldable started : Process → Result (List Event × List Addr) → List Event × Ending
unfolding served
started p (err e) = ([], fatal e)
started p (ok r) = served p r

unfoldable with_addrs : Process → ℕ → Flags → Bytes → Result (List Bindaddr) → List Event × Ending
unfolding started
with_addrs p port f log_name (err e) = ([], fatal (because (codes "error in ServerSetup: ") e))
with_addrs p port f log_name (ok bs) = elim (log_failure p.open_log log_name) [
  | some e ↦
      let text = codes "error opening log file: " ++ error_text e in
      (smethod_error pt_method_name text ∷ [], fatal (plain text))
  | none ↦ started p (start p.make_context p.state_dir p.listening f port bs)
]

-- What happens and how it ends; whether the internal SOCKS proxy runs is `(environment o).1`.
unfoldable pub server_main : Process → Service → Flags → Bytes → List Event × Ending
unfolding with_addrs
server_main p o f log_name = with_addrs p o.port f log_name (p.server_setup (environment o).0)
