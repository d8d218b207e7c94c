-- ===== src/Client/Startup/Tests.antt =====
-- The proxy set-up at concrete inputs.
use meek.Base.{
  Bytes, ℕ, suc, ◌==◌, if◌then◌else◌, codes, [], ◌∷◌, none, some, true, false, ◌≡◌, refl, same,
}
use meek.Go.Errors.{Result, plain, ok, err, net_error}
use meek.Go.HostPort.{split_host_port}
use meek.Server.Handler.{error_text}
use meek.Server.Handler.{error_text}
use meek.Client.Url.{Url}
use meek.Client.Helper.{
  HelperRoundTripper, set_proxy, make_proxy_spec, proxy_spec, parse_port, parse_digits,
}
use meek.Client.Config.{Options, check_proxy_url}
use meek.Client.Startup.{
  ClientFlags, options_of, listen_methods, cmethod, cmethod_error, cmethods_done, Started,
  set_up_proxy, proxy_error, proxy_done,
}

opened : Unit {0}
unfolding set_up_proxy check_proxy_url set_proxy make_proxy_spec proxy_spec parse_port parse_digits
    split_host_port same
opened = tt

abbrev managed : Url
managed = record { scheme = codes "http"; user = none; host = codes "127.0.0.1:8080"; path = [] }

abbrev options : Options
options = record { url = []; front = []; proxy_url = none; use_helper = true; utls_name = [] }

abbrev idle : HelperRoundTripper
idle = record { proxy_spec = none }

abbrev started : Started
started = record {
  options = record options { proxy_url = some managed };
  native_proxy = some managed;
  helper = record {
    proxy_spec = some (record { type = codes "http"; host = codes "127.0.0.1"; port = 8080 });
  };
}

set_up_proxy_test : set_up_proxy options (some managed) idle ≡ (proxy_done ∷ [], ok started)
unfolding opened
set_up_proxy_test = refl

set_up_proxy_failure :
    set_up_proxy options (some (record managed { host = codes "127.0.0.1" })) idle ≡ (
      proxy_error (net_error false (codes "address 127.0.0.1: missing port in address")) ∷ [],
      err (plain (codes "proxy error: address 127.0.0.1: missing port in address")),
    )
unfolding opened error_text
set_up_proxy_failure = refl

abbrev flags : ClientFlags
flags = record {
  front = [];
  helper = codes "127.0.0.1:7000";
  proxy = codes "http://127.0.0.1:8080";
  url = [];
  utls = [];
}

options_of_test :
    options_of (λ _. none) (λ _. ok managed) flags
    ≡ ok (record options { proxy_url = some managed })
unfolding opened options_of
options_of_test = refl

-- The first listener's port is taken.
abbrev listen : ℕ → Result Bytes × ℕ
listen n = (
  if n == 0 then err (plain (codes "address already in use")) else ok (codes "127.0.0.1:4455"),
  suc n,
)

listen_methods_test :
    (listen_methods listen (codes "obfs4" ∷ codes "meek" ∷ codes "meek" ∷ []) 0).0 ≡ (
      cmethod_error (codes "obfs4") (codes "no such method")
          ∷ cmethod_error (codes "meek") (codes "address already in use")
          ∷ cmethod (codes "meek") (codes "127.0.0.1:4455")
          ∷ cmethods_done
          ∷ [],
      codes "127.0.0.1:4455" ∷ [],
    )
unfolding opened listen_methods error_text
listen_methods_test = refl
