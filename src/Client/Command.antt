-- ===== src/Client/Command.antt =====
-- The command line of meek-client/meek-client.go: the flags of main, and main with them.
pub mod RoundTrip
pub mod Tests
use meek.Base.{ℕ, Bytes, codes, List, [], ◌∷◌, ◌++◌, Option, if◌then◌else◌, same, Map}
use meek.Go.Errors.{Result}
use meek.Go.Flag.{
  Kind, string, Value, text, truth, number, Outcome, parsed, helped, misused, parse, assigned_from,
}
use meek.Client.Startup.{ClientFlags}
use meek.Client.Main.{ClientProcess, ClientRun, client_main}

-- The variables of main.
pub record ClientCommand : Type 0 where
  pub flags : ClientFlags
  pub log : Bytes
  pub socks_port : Bytes

abbrev pub client_flags : Map Kind
client_flags =
    (codes "front", string)
    ∷ (codes "helper", string)
    ∷ (codes "log", string)
    ∷ (codes "proxy", string)
    ∷ (codes "port", string)
    ∷ (codes "url", string)
    ∷ (codes "utls", string)
    ∷ []

abbrev pub client_defaults : ClientCommand
client_defaults = record {
  flags = record { front = []; helper = []; proxy = []; url = []; utls = [] };
  log = [];
  socks_port = codes "4455";
}

abbrev set_flags : ClientFlags → ClientCommand → ClientCommand
set_flags f c = record c { flags = f }

-- The variable of a flag.
abbrev pub set_client_flag : Bytes × Value → ClientCommand → ClientCommand
set_client_flag (name, text v) c =
    if same name (codes "front")
    then set_flags (record c.flags { front = v }) c
    else if same name (codes "helper")
    then set_flags (record c.flags { helper = v }) c
    else if same name (codes "log")
    then record c { log = v }
    else if same name (codes "proxy")
    then set_flags (record c.flags { proxy = v }) c
    else if same name (codes "port")
    then record c { socks_port = v }
    else if same name (codes "url")
    then set_flags (record c.flags { url = v }) c
    else if same name (codes "utls")
    then set_flags (record c.flags { utls = v }) c
    else c
set_client_flag (name, truth b) c = c
set_client_flag (name, number n) c = c

-- From the arguments to the variables.
unfoldable pub client_command : (Bytes → Option ℕ) → List Bytes → Outcome ClientCommand
client_command parse_int argv =
    assigned_from set_client_flag client_defaults (parse parse_int client_flags argv)

-- What happens behind Parse. `listen` is pt.ListenSocks, for the address; the rest of what is outside
-- the program does not know the port.
module _ {W : Type 0} (p : (W → Result Bytes × W) → ClientProcess W)
    (listen : Bytes → W → Result Bytes × W) where
  abbrev run_client : W → Outcome ClientCommand → Outcome (ClientRun W)
  run_client w (parsed c) =
      parsed (client_main (p (listen (codes "127.0.0.1:" ++ c.socks_port))) c.flags c.log w)
  run_client w helped = helped
  run_client w (misused e) = misused e

  -- main, from the arguments.
  unfoldable pub client_program : (Bytes → Option ℕ) → List Bytes → W → Outcome (ClientRun W)
  unfolding client_command
  client_program parse_int argv w = run_client w (client_command parse_int argv)
