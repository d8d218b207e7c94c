-- ===== src/Server/Command/RoundTrip.antt =====
-- A configuration that is written on the server's command line is read back.
use meek.Base.{
  ℕ, Bytes, codes, All, List, [], ◌∷◌, ◌++◌, Option, some, Bool, true, false, same, lookup, ◌≡◌,
  refl, ap,
}
use meek.Client.Transport.{decimal}
use meek.Go.Flag.{boolean, int, truth, number, set_value, number_of, parsed, assign}
use meek.Go.Flag.Settings.{
  Setting, Fits, in_texts, in_texts-Fits, on_command_line, settings, assigned_from-append,
}
use meek.Server.Main.{Process}
use meek.Server.Main.Aborts.{Failure, server_run}
use meek.Server.Command.{
  ServerCommand, server_flags, server_defaults, set_server_flag, server_command, server_program,
  run_server,
}

abbrev on_off : Bool → Bytes
on_off true = codes "true"
on_off false = codes "false"

-- The flags for strings.
abbrev texts : ServerCommand → List (Bytes × Bytes)
texts c =
    (codes "acme-email", c.flags.acme_email)
    ∷ (codes "acme-hostnames", c.flags.acme_hostnames)
    ∷ (codes "cert", c.flags.cert_filename)
    ∷ (codes "key", c.flags.key_filename)
    ∷ (codes "log", c.log)
    ∷ (codes "mask", c.service.mask)
    ∷ (codes "redirect", c.service.redirect)
    ∷ (codes "external-service", c.service.external_service)
    ∷ (codes "socks", c.service.socks_port)
    ∷ []

abbrev disable_tls_setting : ServerCommand → Setting
disable_tls_setting c = record {
  in_one = true;
  name = codes "disable-tls";
  text = on_off c.flags.disable_tls;
  value = truth c.flags.disable_tls;
}

abbrev port_setting : Bool → ServerCommand → Setting
port_setting in_one c = record {
  in_one = in_one;
  name = codes "port";
  text = decimal c.service.port;
  value = number c.service.port;
}

-- Every flag, in one argument or in two where it is not Boolean.
abbrev pub server_settings : Bool → ServerCommand → List Setting
server_settings in_one c = disable_tls_setting c ∷ port_setting in_one c ∷ in_texts in_one (texts c)

assign-server_settings :
    (in_one : Bool) (c d : ServerCommand)
    → assign set_server_flag (settings (server_settings in_one c)) d ≡ c
unfolding same
assign-server_settings in_one c d = refl

set_value-on_off :
    (parse_int : Bytes → Option ℕ) (b : Bool)
    → set_value parse_int server_flags boolean (on_off b) ≡ some (truth b)
unfolding same
set_value-on_off parse_int true = refl
set_value-on_off parse_int false = refl

module _ (parse_int : Bytes → Option ℕ) (c : ServerCommand)
    (port_text : parse_int (decimal c.service.port) ≡ some c.service.port) where
  abbrev FitsServer : Setting → Type 0
  FitsServer = Fits parse_int server_flags

  disable_tls-Fits : FitsServer (disable_tls_setting c)
  unfolding same lookup
  disable_tls-Fits = record {
    kind = boolean;
    named = refl;
    defined = refl;
    meant = set_value-on_off parse_int c.flags.disable_tls;
    joined = refl;
  }

  port-Fits : (in_one : Bool) → FitsServer (port_setting in_one c)
  unfolding same lookup
  port-Fits in_one = record {
    kind = int;
    named = refl;
    defined = refl;
    meant = ap (number_of parse_int server_flags) port_text;
    joined = refl;
  }

  server_settings-Fits : (in_one : Bool) → All FitsServer (server_settings in_one c)
  unfolding same lookup
  server_settings-Fits in_one = (
    disable_tls-Fits,
    (port-Fits in_one, in_texts-Fits parse_int server_flags in_one (texts c) refl),
  )

  server_command-written :
      (in_one : Bool) (before : List Setting)
      → All FitsServer before
      → server_command parse_int (on_command_line (before ++ server_settings in_one c)) ≡ parsed c
  unfolding server_command
  server_command-written in_one before fs =
      assigned_from-append parse_int server_flags set_server_flag server_defaults c before
        (server_settings in_one c) (assign-server_settings in_one c) fs
        (server_settings-Fits in_one)

  -- Any configuration of the server can be written on its command line: the flags for all its variables,
  -- each in one argument or (if it is not Boolean) in two, are read back as that configuration, also
  -- behind any other flags that fit; so the last flag of a name counts, and neither the defaults nor the
  -- earlier flags show through. The program then does what main does with that configuration, also
  -- where a goroutine fails. It is supposed that the text of the port number stands for that number.
  pub server_command-on_command_line :
      (in_one : Bool) (before : List Setting)
      → All FitsServer before
      → (p : Process) (failure : Option Failure)
      → let argv = on_command_line (before ++ server_settings in_one c) in
        (server_command parse_int argv ≡ parsed c)
        × (server_program parse_int p failure argv
            ≡ parsed (server_run p c.service c.flags c.log failure))
  unfolding server_program
  server_command-on_command_line in_one before fs p failure =
      let read = server_command-written in_one before fs in (read, ap (run_server p failure) read)
