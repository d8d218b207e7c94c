-- ===== src/Server/Command.antt =====
-- The command line of meek-server/meek-server.go: the flags of main, and main with them.
pub mod RoundTrip
pub mod Tests
use meek.Base.{ℕ, Bytes, codes, List, [], ◌∷◌, Option, false, if◌then◌else◌, same, Map}
use meek.Go.Flag.{
  Kind, string, boolean, int, Value, text, truth, number, Outcome, parsed, helped, misused, parse,
  assigned_from,
}
use meek.Server.Startup.{Flags, Service, Event}
use meek.Server.Main.{Process}
use meek.Server.Main.Aborts.{Failure, Run, server_run}

-- The variables of main.
pub record ServerCommand : Type 0 where
  pub flags : Flags
  pub service : Service
  pub log : Bytes

abbrev pub server_flags : Map Kind
server_flags =
    (codes "acme-email", string)
    ∷ (codes "acme-hostnames", string)
    ∷ (codes "disable-tls", boolean)
    ∷ (codes "cert", string)
    ∷ (codes "key", string)
    ∷ (codes "log", string)
    ∷ (codes "mask", string)
    ∷ (codes "redirect", string)
    ∷ (codes "external-service", string)
    ∷ (codes "socks", string)
    ∷ (codes "port", int)
    ∷ []

abbrev pub server_defaults : ServerCommand
server_defaults = record {
  flags = record {
    acme_email = [];
    acme_hostnames = [];
    disable_tls = false;
    cert_filename = [];
    key_filename = [];
  };
  service = record {
    mask = [];
    redirect = [];
    external_service = [];
    socks_port = codes "1080";
    port = 4455;
  };
  log = [];
}

abbrev set_flags : Flags → ServerCommand → ServerCommand
set_flags f c = record c { flags = f }

abbrev set_service : Service → ServerCommand → ServerCommand
set_service o c = record c { service = o }

-- The variable of a flag.
abbrev pub set_server_flag : Bytes × Value → ServerCommand → ServerCommand
set_server_flag (name, text v) c =
    if same name (codes "acme-email")
    then set_flags (record c.flags { acme_email = v }) c
    else if same name (codes "acme-hostnames")
    then set_flags (record c.flags { acme_hostnames = v }) c
    else if same name (codes "cert")
    then set_flags (record c.flags { cert_filename = v }) c
    else if same name (codes "key")
    then set_flags (record c.flags { key_filename = v }) c
    else if same name (codes "log")
    then record c { log = v }
    else if same name (codes "mask")
    then set_service (record c.service { mask = v }) c
    else if same name (codes "redirect")
    then set_service (record c.service { redirect = v }) c
    else if same name (codes "external-service")
    then set_service (record c.service { external_service = v }) c
    else if same name (codes "socks")
    then set_service (record c.service { socks_port = v }) c
    else c
set_server_flag (name, truth b) c =
    if same name (codes "disable-tls") then set_flags (record c.flags { disable_tls = b }) c else c
set_server_flag (name, number n) c =
    if same name (codes "port") then set_service (record c.service { port = n }) c else c

-- From the arguments to the variables.
unfoldable pub server_command : (Bytes → Option ℕ) → List Bytes → Outcome ServerCommand
server_command parse_int argv =
    assigned_from set_server_flag server_defaults (parse parse_int server_flags argv)

-- What happens behind Parse; a goroutine may fail.
abbrev run_server : Process → Option Failure → Outcome ServerCommand → Outcome (List Event × Run)
run_server p failure (parsed c) = parsed (server_run p c.service c.flags c.log failure)
run_server p failure helped = helped
run_server p failure (misused e) = misused e

-- main, from the arguments.
unfoldable pub server_program :
    (Bytes → Option ℕ) → Process → Option Failure → List Bytes → Outcome (List Event × Run)
unfolding server_command
server_program parse_int p failure argv = run_server p failure (server_command parse_int argv)
