-- ===== src/Client/Main/Tests.antt =====
-- The client's main at concrete inputs.
use meek.Base.{ℕ, suc, codes, [], ◌∷◌, none, some, true, ◌≡◌, refl, same}
use meek.Go.Errors.{ok, err, plain}
use meek.Go.HostPort.{split_host_port}
use meek.Lifecycle.{sigterm, is_over, log_failure}
use meek.Client.Url.{Url}
use meek.Client.Helper.{set_proxy, make_proxy_spec, proxy_spec, parse_port, parse_digits}
use meek.Client.Config.{Options, check_proxy_url}
use meek.Client.Startup.{
  ClientFlags, Started, options_of, listen_methods, set_up_proxy, proxy_done, cmethod,
  cmethods_done,
}
use meek.Client.Main.Laws.{Ready, client_main-Ready}
use meek.Client.Main.{ClientInfo, ClientProcess, about_proxy, about_method, closed_all, client_main}

opened : Unit {0}
unfolding client_main is_over log_failure options_of listen_methods set_up_proxy check_proxy_url
    set_proxy make_proxy_spec proxy_spec parse_port parse_digits split_host_port same
opened = tt

abbrev managed : Url
managed = record { scheme = codes "http"; user = none; host = codes "127.0.0.1:8080"; path = [] }

abbrev flags : ClientFlags
flags = record { front = []; helper = codes "127.0.0.1:7000"; proxy = []; url = []; utls = [] }

abbrev info : ClientInfo
info = record { method_names = codes "meek" ∷ []; managed_proxy = some managed }

abbrev process : ClientProcess ℕ
process = record {
  client_setup = ok info;
  open_log = λ name. none;
  resolve = λ addr. none;
  parse_url = λ text. err (plain (codes "invalid URL"));
  listen = λ n. (ok (codes "127.0.0.1:4455"), suc n);
  exit_on_stdin_close = true;
  incoming = sigterm ∷ [];
}

abbrev options : Options
options = record { url = []; front = []; proxy_url = none; use_helper = true; utls_name = [] }

abbrev started : Started
started = record {
  options = record options { proxy_url = some managed };
  native_proxy = some managed;
  helper = record {
    proxy_spec = some (record { type = codes "http"; host = codes "127.0.0.1"; port = 8080 });
  };
}

client_main_test : client_main process flags [] 0 ≡ (
  about_proxy proxy_done
      ∷ about_method (cmethod (codes "meek") (codes "127.0.0.1:4455"))
      ∷ about_method cmethods_done
      ∷ [],
  closed_all started (codes "127.0.0.1:4455" ∷ []),
  1,
)
unfolding opened
client_main_test = refl

client_main-Ready_example : Ready managed 0 (client_main process flags [] 0)
unfolding opened
client_main-Ready_example = client_main-Ready process managed flags [] 0 info options refl refl refl
