-- ===== src/Client/Command/Tests.antt =====
-- The client's command line at concrete inputs.
use meek.Base.{ℕ, Bytes, codes, [], ◌∷◌, ◌++◌, Option, none, true, false, ◌≡◌, refl, same, lookup}
use meek.Go.Errors.{Result, ok, err, plain}
use meek.Client.Main.{ClientProcess, client_main}
use meek.Go.Flag.{parsed, misused, string, text, parse, see}
use meek.Go.Flag.Settings.{Setting, Fits, on_command_line}
use meek.Client.Command.{
  ClientCommand, client_defaults, client_flags, client_command, client_program,
}
use meek.Client.Command.RoundTrip.{client_settings, client_command-on_command_line}

opened : Unit {0}
unfolding client_command parse see same lookup
opened = tt

abbrev no_int : Bytes → Option ℕ
no_int s = none

client_command_test :
    client_command no_int
      (codes "--url=https://meek.example/?a=b" ∷ codes "rest" ∷ codes "--log" ∷ [])
    ≡ parsed (record client_defaults {
      flags = record client_defaults.flags { url = codes "https://meek.example/?a=b" };
    })
unfolding opened
client_command_test = refl

client_command_failure :
    client_command no_int (codes "--=x" ∷ []) ≡ misused (plain (codes "bad flag syntax"))
unfolding opened
client_command_failure = refl

abbrev earlier : Setting
earlier = record {
  in_one = false;
  name = codes "front";
  text = codes "old.example";
  value = text (codes "old.example");
}

earlier-Fits : Fits no_int client_flags earlier
unfolding opened
earlier-Fits = record { kind = string; named = refl; defined = refl; meant = refl; joined = refl }

abbrev fronted : ClientCommand
fronted = record client_defaults {
  flags = record client_defaults.flags {
    front = codes "www.example";
    url = codes "https://meek.example/";
  };
}

-- A listener takes any address.
abbrev listen : Bytes → ℕ → Result Bytes × ℕ
listen addr n = (ok addr, n)

abbrev process : (ℕ → Result Bytes × ℕ) → ClientProcess ℕ
process listen_there = record {
  client_setup = ok (record { method_names = codes "meek" ∷ []; managed_proxy = none });
  open_log = λ name. none;
  resolve = λ addr. none;
  parse_url = λ text. err (plain (codes "invalid URL"));
  listen = listen_there;
  exit_on_stdin_close = false;
  incoming = [];
}

client_command-on_command_line_example :
    let argv = on_command_line (earlier ∷ client_settings true fronted) in
    (client_command no_int argv ≡ parsed fronted)
    × (client_program process listen no_int argv 0
        ≡ parsed (
            client_main
              (process (listen (codes "127.0.0.1:" ++ fronted.socks_port)))
              fronted.flags
              fronted.log
              0))
client_command-on_command_line_example =
    client_command-on_command_line process listen no_int true fronted (earlier ∷ []) 0
      (earlier-Fits, tt)
