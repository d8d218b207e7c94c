-- ===== src/Server/Command/Tests.antt =====
-- The server's command line at concrete inputs.
use meek.Base.{
  ℕ, Bytes, codes, [], ◌∷◌, Option, none, some, true, false, ◌≡◌, refl, same, lookup, if◌then◌else◌,
}
use meek.Go.Errors.{ok, plain}
use meek.Go.Flag.{parsed, helped, misused, boolean, truth, parse, see}
use meek.Go.Flag.Settings.{Setting, Fits, on_command_line}
use meek.Client.Transport.{decimal}
use meek.Server.Main.{Process}
use meek.Server.Main.Aborts.{server_run}
use meek.Server.Command.{
  ServerCommand, server_defaults, server_flags, server_command, server_program,
}
use meek.Server.Command.RoundTrip.{server_settings, server_command-on_command_line}

opened : Unit {0}
unfolding server_command parse see same lookup decimal
opened = tt

-- The decimal numbers of the tests.
abbrev parse_int : Bytes → Option ℕ
parse_int s =
    if same s (codes "80") then some 80 else if same s (codes "8080") then some 8080 else none

abbrev plain_http : ServerCommand
plain_http = record server_defaults {
  flags = record server_defaults.flags { disable_tls = true };
  service = record server_defaults.service { port = 80 };
}

-- As the README has it.
server_command_test :
    server_command parse_int (codes "-disable-tls" ∷ codes "-port" ∷ codes "80" ∷ [])
    ≡ parsed plain_http
unfolding opened
server_command_test = refl

server_command_failures :
    (server_command parse_int (codes "--help" ∷ []) ≡ helped)
    × (server_command parse_int (codes "--url=x" ∷ [])
        ≡ misused (plain (codes "flag provided but not defined: -url")))
    × (server_command parse_int (codes "--port" ∷ codes "http" ∷ [])
        ≡ misused (plain (codes "invalid value http for flag -port")))
    × (server_command parse_int (codes "--cert" ∷ [])
        ≡ misused (plain (codes "flag needs an argument: -cert")))
unfolding opened
server_command_failures = (refl, refl, refl, refl)

abbrev no_tls : Setting
no_tls = record { in_one = true; name = codes "disable-tls"; text = codes "T"; value = truth true }

abbrev service : ServerCommand
service = record {
  flags = record {
    acme_email = [];
    acme_hostnames = [];
    disable_tls = false;
    cert_filename = codes "cert.pem";
    key_filename = codes "key.pem";
  };
  service = record {
    mask = codes "mask.html";
    redirect = [];
    external_service = codes "10.0.0.5:9001";
    socks_port = codes "1080";
    port = 8080;
  };
  log = codes "--meek.log";
}

no_tls-Fits : Fits parse_int server_flags no_tls
unfolding opened
no_tls-Fits = record { kind = boolean; named = refl; defined = refl; meant = refl; joined = refl }

decimal_8080 : parse_int (decimal service.service.port) ≡ some service.service.port
unfolding opened
decimal_8080 = refl

abbrev process : Process
process = record {
  server_setup = λ env. ok (
      record { method_name = codes "meek"; addr = record { ip = codes "0.0.0.0"; port = 8080 } }
      ∷ []);
  open_log = λ name. none;
  make_context = λ cert key. none;
  state_dir = ok [];
  listening = record { configure = none; responder = λ a. none; server = λ t a. none };
  exit_on_stdin_close = false;
  incoming = [];
}

server_command-on_command_line_example :
    let argv = on_command_line (no_tls ∷ server_settings false service) in
    (server_command parse_int argv ≡ parsed service)
    × (server_program parse_int process none argv
        ≡ parsed (server_run process service.service service.flags service.log none))
server_command-on_command_line_example =
    server_command-on_command_line parse_int service decimal_8080 false (no_tls ∷ [])
      (no_tls-Fits, tt) process none
