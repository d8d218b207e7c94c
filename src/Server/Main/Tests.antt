-- ===== src/Server/Main/Tests.antt =====
-- The server's main at concrete inputs.
use meek.Base.{Bytes, codes, List, [], ◌∷◌, none, some, true, false, Map, ◌≡◌, refl, same, lookup}
use meek.Go.Errors.{Result, ok, err, plain}
use meek.Client.Transport.{decimal}
use meek.Lifecycle.{stdin_closed, is_over, log_failure}
use meek.Server.Handler.{error_text}
use meek.Server.Startup.{
  Flags, Addr, Bindaddr, smethod, smethod_error, server, smethods_done, close, Service, set_up_tls,
  start_servers, start, environment,
}
use meek.Server.Main.{Process, fatal, finished, server_main}
use meek.Server.Main.Aborts.{Failure, internal_proxy, by_main, panicked, server_run}
use meek.Server.Main.Aborts.Laws.{Explained, server_run-Explained}
use meek.Server.Main.Laws.{Settled, server_main-Settled}

opened : Unit {0}
unfolding server_main server_run is_over log_failure set_up_tls start_servers start environment
    decimal same lookup error_text
opened = tt

abbrev flags : Flags
flags = record {
  acme_email = [];
  acme_hostnames = [];
  disable_tls = true;
  cert_filename = [];
  key_filename = [];
}

abbrev service : Service
service = record {
  mask = [];
  redirect = [];
  external_service = codes "10.0.0.5:9001";
  socks_port = codes "1080";
  port = 8080;
}

abbrev addr : Addr
addr = record { ip = codes "0.0.0.0"; port = 8080 }

-- A setup that knows no address but by the environment.
abbrev setup : Map Bytes → Result (List Bindaddr)
setup env = elim (lookup (codes "TOR_PT_SERVER_BINDADDR") env) [
  | none ↦ err (plain (codes "no TOR_PT_SERVER_BINDADDR"))
  | some text ↦ ok (record { method_name = codes "meek"; addr = addr } ∷ [])
]

abbrev process : Process
process = record {
  server_setup = setup;
  open_log = λ name. some (plain (codes "permission denied"));
  make_context = λ cert key. none;
  state_dir = ok [];
  listening = record { configure = none; responder = λ a. none; server = λ t a. none };
  exit_on_stdin_close = true;
  incoming = stdin_closed ∷ [];
}

server_main_test :
    server_main process service flags []
    ≡ (server false addr ∷ smethod (codes "meek") addr ∷ smethods_done ∷ close addr ∷ [], finished)
unfolding opened
server_main_test = refl

server_main_log : server_main process service flags (codes "meek.log") ≡ (
  smethod_error (codes "meek") (codes "error opening log file: permission denied") ∷ [],
  fatal (plain (codes "error opening log file: permission denied")),
)
unfolding opened
server_main_log = refl

server_main-Settled_example : Settled process (server_main process service flags [])
server_main-Settled_example = server_main-Settled process service flags []

-- The internal proxy's port is taken: it panics when main has started its server.
abbrev with_proxy : Service
with_proxy = record service { external_service = [] }

abbrev taken : Failure
taken = record { by = internal_proxy; error = plain (codes "address already in use"); after = 1 }

server_run_panic :
    server_run process with_proxy flags [] (some taken)
    ≡ (server false addr ∷ [], panicked (plain (codes "address already in use")))
unfolding opened
server_run_panic = refl

server_run_external : (server_run process service flags [] (some taken)).1 ≡ by_main finished
unfolding opened
server_run_external = refl

server_run-Explained_example :
    Explained with_proxy flags
      (server_main process with_proxy flags [])
      (server_run process with_proxy flags [] (some taken))
server_run-Explained_example = server_run-Explained process with_proxy flags [] (some taken)
