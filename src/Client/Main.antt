-- ===== src/Client/Main.antt =====
-- main of meek-client/meek-client.go from its flags to its end.
pub mod Laws
pub mod Tests
use meek.Base.{Bytes, codes, List, [], ◌∷◌, ◌++◌, Option, none, some, Bool, if◌then◌else◌}
use meek.Go.Errors.{GoError, plain, Result, ok, err, ◌>>=◌}
use meek.Lifecycle.{Incoming, is_over, log_failure, because}
use meek.Server.Handler.{error_text}
use meek.Client.Url.{Url}
use meek.Client.Helper.{HelperRoundTripper}
use meek.Client.Config.{Options}
use meek.Client.Startup.{
  ClientFlags, options_of, Message, Started, set_up_proxy, MethodEvent, cmethod_error,
  client_method_name, listen_methods,
}

-- What pt.ClientSetup gives.
pub record ClientInfo : Type 0 where
  pub method_names : List Bytes
  pub managed_proxy : Option Url

-- What is outside the program.
pub record ClientProcess (W : Type 0) : Type 0 where
  pub client_setup : Result ClientInfo
  pub open_log : Bytes → Option GoError
  pub resolve : Bytes → Option GoError
  pub parse_url : Bytes → Result Url
  pub listen : W → Result Bytes × W
  pub exit_on_stdin_close : Bool
  pub incoming : List Incoming

-- A line to the one that started the program.
pub data Line : Type 0 where
  about_proxy : Message → Line
  about_method : MethodEvent → Line

-- The program ended by an error, or it has these listeners, the state that they use, and they are
-- closed if the wait for a signal is over.
pub data ClientEnding : Type 0 where
  fatal : GoError → ClientEnding
  accepting : (started : Started) (listeners : List Bytes) → ClientEnding
  closed_all : (started : Started) (listeners : List Bytes) → ClientEnding

abbrev proxy_lines : List Message → List Line
proxy_lines [] = []
proxy_lines (m ∷ ms) = about_proxy m ∷ proxy_lines ms

abbrev method_lines : List MethodEvent → List Line
method_lines [] = []
method_lines (e ∷ es) = about_method e ∷ method_lines es

-- helperRoundTripper as it is before main.
abbrev no_proxy : HelperRoundTripper
no_proxy = record { proxy_spec = none }

-- What it said, how it ended, and what has become of the listeners' state.
abbrev pub ClientRun : Type 0 → Type 0
ClientRun W = List Line × ClientEnding × W

module _ {W : Type 0} (p : ClientProcess W) where
  unfoldable listened : List Message → Started → (List MethodEvent × List Bytes) × W → ClientRun W
  listened told started ((lines, listeners), w) = (
    proxy_lines told ++ method_lines lines,
    if is_over p.exit_on_stdin_close p.incoming
        then closed_all started listeners
        else accepting started listeners,
    w,
  )

  unfoldable with_proxy : ClientInfo → W → List Message × Result Started → ClientRun W
  unfolding listened
  with_proxy info w (told, err e) = (proxy_lines told, fatal e, w)
  with_proxy info w (told, ok started) =
      listened told started (listen_methods p.listen info.method_names w)

  unfoldable with_options : ClientInfo → W → Result Options → ClientRun W
  unfolding with_proxy
  with_options info w (err e) = ([], fatal e, w)
  with_options info w (ok o) = with_proxy info w (set_up_proxy o info.managed_proxy no_proxy)

  unfoldable with_info : ClientFlags → Bytes → W → Result ClientInfo → ClientRun W
  unfolding with_options
  with_info f log_name w (err e) = ([], fatal (because (codes "error in ClientSetup: ") e), w)
  with_info f log_name w (ok info) = elim (log_failure p.open_log log_name) [
    | some e ↦
        let text = codes "error opening log file: " ++ error_text e in
        (about_method (cmethod_error client_method_name text) ∷ [], fatal (plain text), w)
    | none ↦ with_options info w (options_of p.resolve p.parse_url f)
  ]

  unfoldable pub client_main : ClientFlags → Bytes → W → ClientRun W
  unfolding with_info
  client_main f log_name w = with_info f log_name w p.client_setup
