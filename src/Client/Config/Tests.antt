-- ===== src/Client/Config/Tests.antt =====
-- The helper and the configuration at concrete inputs.
use meek.Base.{
  ◌↔◌, Bytes, codes, [], ◌∷◌, ◌++◌, none, some, true, false, ◌≡◌, refl, arith, lookup, insert, same,
  Option,
}
use meek.Go.Errors.{Result, ok, err, plain}
use meek.Go.HostPort.{split_host_port}
use meek.Go.Http.{canonical_key}
use meek.Client.Url.{Url}
use meek.Client.Transport.{ClientRequest}
use meek.Client.Helper.{
  ProxySpec, HelperRoundTripper, Json, Socket, frame, big_endian, read_full, read_frame,
  make_proxy_spec, proxy_spec, parse_port, parse_digits, json_request, first_values, with_host,
  helper_round_trip, set_proxy,
}
use meek.Client.Helper.Laws.{read_frame-frame}
use meek.Client.Config.{
  accepted, refused, accept_socks, Options, Args, Info, helper, arg_or_option, fronted, choose,
  configure, check_proxy_url,
}
use meek.Client.Config.Laws.{Configured, configure-Configured, make_proxy_spec-checked}
use meek.Client.Helper.Specs.{Specifies}
use meek.Client.Config.Sources.{as_args, without_args, configure-as_args}

opened : Unit {0}
unfolding frame big_endian read_full read_frame make_proxy_spec proxy_spec parse_port parse_digits
    split_host_port json_request first_values with_host helper_round_trip set_proxy arg_or_option
    fronted choose configure check_proxy_url lookup insert same canonical_key
opened = tt

frame_test : frame (codes "{}") ≡ 0 ∷ 0 ∷ 0 ∷ 2 ∷ codes "{}"
unfolding opened
frame_test = refl

read_frame-frame_example :
    read_frame (frame (codes "{\"status\": 200}") ++ codes "rest") ≡ ok (codes "{\"status\": 200}")
read_frame-frame_example = read_frame-frame (codes "{\"status\": 200}") (codes "rest") (omega arith)

read_frame_failures :
    (read_frame (0xff ∷ 0 ∷ 0 ∷ 0 ∷ []) ≡ err (plain (codes "helper's returned data is too big")))
    × (read_frame (0 ∷ 0 ∷ 0 ∷ 3 ∷ codes "{}") ≡ err (plain (codes "unexpected EOF")))
    × (read_frame [] ≡ err (plain (codes "EOF")))
unfolding opened
read_frame_failures = (refl, refl, refl)

abbrev proxy : Url
proxy = record { scheme = codes "socks5"; user = none; host = codes "127.0.0.1:9050"; path = [] }

abbrev spec : ProxySpec
spec = record { type = codes "socks5"; host = codes "127.0.0.1"; port = 9050 }

make_proxy_spec_test : make_proxy_spec (some proxy) ≡ ok (some spec)
unfolding opened
make_proxy_spec_test = refl

make_proxy_spec_failure :
    make_proxy_spec (some (record proxy { host = codes "127.0.0.1:65536" }))
    ≡ err (plain (codes "value out of range"))
unfolding opened
make_proxy_spec_failure = refl

abbrev server : Url
server = record {
  scheme = codes "https";
  user = none;
  host = codes "meek.example";
  path = codes "/";
}

abbrev chunk : ClientRequest
chunk = record {
  method = codes "POST";
  url = server;
  host = [];
  header = (codes "X-Session-Id", codes "cbIzfhx1Hn+" ∷ []) ∷ [];
  body = some (codes "ping");
}

-- A helper that answers 503.
abbrev json : Json
json = record {
  marshal = λ r. ok (codes "{}");
  unmarshal = λ b. ok (record { error = []; status = 503; body = [] });
}

abbrev socket : Socket
socket = record { dial = none; write = none; incoming = 0 ∷ 0 ∷ 0 ∷ 2 ∷ codes "{}" }

abbrev tripper : HelperRoundTripper
tripper = record { proxy_spec = some spec }

helper_round_trip_test : helper_round_trip json tripper socket chunk ≡ (
  ok (record { status_code = 503; body = record { bytes = []; failure = none } }),
  record chunk { body = some [] },
  0 ∷ 0 ∷ 0 ∷ 2 ∷ codes "{}",
)
unfolding opened
helper_round_trip_test = refl

abbrev options : Options
options = record {
  url = codes "https://meek.example/";
  front = codes "www.example";
  proxy_url = some proxy;
  use_helper = true;
  utls_name = [];
}

abbrev parse : Bytes → Result Url
parse text = ok server

abbrev no_utls : Bytes → Option Url → Result (Unit {0})
no_utls name p = err (plain (codes "no uTLS Client Hello ID named " ++ name))

abbrev arguments : Args
arguments = (codes "front", codes "cdn.example") ∷ []

abbrev info : Info (Unit {0})
info = record {
  session_id = codes "id";
  url = record server { host = codes "cdn.example" };
  host = codes "meek.example";
  round_tripper = helper;
}

configure_test : configure parse no_utls options arguments (codes "id") ≡ ok info
unfolding opened
configure_test = refl

configure-Configured_example : Configured parse no_utls options arguments (codes "id") info
configure-Configured_example =
    configure-Configured parse no_utls options arguments (codes "id") info configure_test

make_proxy_spec-checked_example :
    (make_proxy_spec (some proxy) ≡ ok (some spec))
    ↔ ((check_proxy_url options proxy ≡ none) × Specifies proxy spec)
make_proxy_spec-checked_example = make_proxy_spec-checked options proxy spec refl

configure-as_args_example :
    configure parse no_utls (without_args options) (arguments ++ as_args options) (codes "id")
    ≡ configure parse no_utls options arguments (codes "id")
configure-as_args_example = configure-as_args parse no_utls options arguments (codes "id")

accept_socks_test :
    accept_socks (
      accepted (codes "a")
      ∷ refused true (plain (codes "too many open files"))
      ∷ accepted (codes "b")
      ∷ refused false (plain (codes "closed"))
      ∷ accepted (codes "c")
      ∷ [])
    ≡ (codes "a" ∷ codes "b" ∷ [], some (plain (codes "closed")))
unfolding accept_socks
accept_socks_test = refl
