-- ===== src/Client/Command/RoundTrip.antt =====
-- A configuration that is written on the client's command line is read back.
use meek.Base.{ap, ℕ, Bytes, codes, All, List, [], ◌∷◌, ◌++◌, Option, Bool, same, lookup, ◌≡◌, refl}
use meek.Go.Flag.{parsed, assign}
use meek.Go.Flag.Settings.{
  Setting, Fits, in_texts, in_texts-Fits, on_command_line, settings, assigned_from-append,
}
use meek.Go.Errors.{Result}
use meek.Client.Main.{ClientProcess, client_main}
use meek.Client.Command.{
  ClientCommand, client_flags, client_defaults, set_client_flag, client_command, client_program,
  run_client,
}

abbrev texts : ClientCommand → List (Bytes × Bytes)
texts c =
    (codes "front", c.flags.front)
    ∷ (codes "helper", c.flags.helper)
    ∷ (codes "log", c.log)
    ∷ (codes "proxy", c.flags.proxy)
    ∷ (codes "port", c.socks_port)
    ∷ (codes "url", c.flags.url)
    ∷ (codes "utls", c.flags.utls)
    ∷ []

-- Every flag, in one argument or in two.
abbrev pub client_settings : Bool → ClientCommand → List Setting
client_settings in_one c = in_texts in_one (texts c)

assign-client_settings :
    (in_one : Bool) (c d : ClientCommand)
    → assign set_client_flag (settings (client_settings in_one c)) d ≡ c
unfolding same
assign-client_settings in_one c d = refl

client_settings-Fits :
    (parse_int : Bytes → Option ℕ) (in_one : Bool) (c : ClientCommand)
    → All (Fits parse_int client_flags) (client_settings in_one c)
unfolding same lookup
client_settings-Fits parse_int in_one c = in_texts-Fits parse_int client_flags in_one (texts c) refl

client_command-written :
    (parse_int : Bytes → Option ℕ) (in_one : Bool) (c : ClientCommand) (before : List Setting)
    → All (Fits parse_int client_flags) before
    → client_command parse_int (on_command_line (before ++ client_settings in_one c)) ≡ parsed c
unfolding client_command
client_command-written parse_int in_one c before fs =
    assigned_from-append parse_int client_flags set_client_flag client_defaults c before
      (client_settings in_one c) (assign-client_settings in_one c) fs
      (client_settings-Fits parse_int in_one c)

module _ {W : Type 0} (p : (W → Result Bytes × W) → ClientProcess W)
    (listen : Bytes → W → Result Bytes × W) where
  -- Any configuration of the client can be written on its command line: the flags for all its
  -- variables, each in one argument or in two, are read back as that configuration, whatever bytes
  -- their values have, and also behind any other flags that fit, so the last flag of a name counts.
  -- The program then does what main does with that configuration, and listens on its port.
  pub client_command-on_command_line :
      (parse_int : Bytes → Option ℕ) (in_one : Bool) (c : ClientCommand) (before : List Setting)
      (w : W)
      → All (Fits parse_int client_flags) before
      → let argv = on_command_line (before ++ client_settings in_one c) in
        (client_command parse_int argv ≡ parsed c)
        × (client_program p listen parse_int argv w
            ≡ parsed
                (client_main (p (listen (codes "127.0.0.1:" ++ c.socks_port))) c.flags c.log w))
  unfolding client_program
  client_command-on_command_line parse_int in_one c before w fs =
      let read = client_command-written parse_int in_one c before fs in
      (read, ap (run_client p listen w) read)
