-- ===== src/Client/Utls/Tests.antt =====
-- uTLS round trippers and proxies at concrete inputs.
use meek.Base.{
  ℕ, suc, Bytes, codes, List, [], ◌∷◌, Option, none, some, Bool, true, ◌≡◌, refl, lookup, insert,
  same, All, ◌==◌, if◌then◌else◌,
}
use meek.Go.Errors.{GoError, Result, ok, err, plain}
use meek.Go.HostPort.{join_host_port, split_host_port, cut_last, has_byte}
use meek.Go.Text.{to_lower}
use meek.Go.Http.{set_field, canonical_key}
use meek.Go.Base64.{encode, letter}
use meek.Client.Url.{Url, hostname, port}
use meek.Client.Transport.{ClientRequest}
use meek.Client.Utls.{
  Auth, Conn, Inner, Dialer, direct, http_proxy, utls_dialer, addr_for_dial, make_proxy_dialer,
  server_name, dial_utls, make_round_tripper, expect_protocol, dial_tls, new_utls_round_tripper,
  plain_http, with_hello,
}
use meek.Client.Utls.Hello.{find_hello}
use meek.Client.Utls.Laws.{dials, make_round_tripper-reuses}
use meek.Client.Utls.History.{IsOf, round_trips, round_trips-one_kind}
use meek.Client.ProxyHttp.{ConnectRequest, Reading, failed, connect_request, http_proxy_dial}
use meek.Client.ProxyHttp.Laws.{Accounted, http_proxy_dial-Accounted}

opened : Unit {0}
unfolding addr_for_dial make_proxy_dialer server_name dial_utls make_round_tripper expect_protocol
    dial_tls new_utls_round_tripper find_hello dials hostname port join_host_port split_host_port
    to_lower lookup insert same set_field canonical_key encode connect_request http_proxy_dial
    cut_last has_byte letter
opened = tt

abbrev front : Url
front = record {
  scheme = codes "https";
  user = none;
  host = codes "[2001:db8::1]";
  path = codes "/";
}

addr_for_dial_tests :
    (addr_for_dial front ≡ ok (codes "[2001:db8::1]:443"))
    × (addr_for_dial (record front { host = codes "a.example:8080" }) ≡ ok (codes "a.example:8080"))
    × (addr_for_dial (record front { scheme = codes "ftp" })
        ≡ err (plain (codes "unsupported URL scheme ftp")))
unfolding opened
addr_for_dial_tests = (refl, refl, refl)

server_name_test : server_name [] (codes "[2001:db8::1]:443") ≡ ok (codes "2001:db8::1")
unfolding opened
server_name_test = refl

-- A server that negotiates h2, and from the third connection on does not.
abbrev dialing : Bytes → ℕ → Result Conn × ℕ
dialing addr n =
    (ok (record { id = n; protocol = if n == 2 then codes "http/1.1" else codes "h2" }), suc n)

abbrev inner : Inner
inner = record {
  http2 = true;
  protocol = codes "h2";
  bootstrap = some (record { id = 0; protocol = codes "h2" });
}

make_round_tripper_test : make_round_tripper dialing front 0 ≡ (ok inner, 1)
unfolding opened
make_round_tripper_test = refl

abbrev asked : List Bytes
asked = codes "a:443" ∷ codes "a:443" ∷ codes "a:443" ∷ []

dials_test :
    (dials dialing asked inner 1).0
    ≡ ok (record { id = 0; protocol = codes "h2" })
      ∷ ok (record { id = 1; protocol = codes "h2" })
      ∷ err (plain (codes "unexpected switch from ALPN h2 to http/1.1"))
      ∷ []
unfolding opened
dials_test = refl

abbrev ask : Bytes → ClientRequest
ask scheme = record {
  method = codes "POST";
  url = record front { scheme = scheme };
  host = [];
  header = [];
  body = none;
}

round_trips-one_kind_example :
    (kind : Bool) × All
      (IsOf kind)
      (round_trips dialing
        (λ req n. (err (plain []), n))
        (λ req n. asked)
        (λ kind req rs n.
          (ok (record { status_code = 200; body = record { bytes = []; failure = none } }), n))
        (ask (codes "https") ∷ ask (codes "http") ∷ ask (codes "https") ∷ [])
        none
        (0, [])).1.1
round_trips-one_kind_example =
    round_trips-one_kind dialing (λ req n. (err (plain []), n)) (λ req n. asked)
      (λ kind req rs n.
        (ok (record { status_code = 200; body = record { bytes = []; failure = none } }), n))
      (ask (codes "https") ∷ ask (codes "http") ∷ ask (codes "https") ∷ []) 0

make_round_tripper-reuses_example :
    (addr : Bytes) × (c : Conn) × (addr_for_dial front ≡ ok addr)
    × (dialing addr 0 ≡ (ok c, (make_round_tripper dialing front 0).1))
    × ((dials dialing (codes "a:443" ∷ asked) inner (make_round_tripper dialing front 0).1).0
        ≡ ok c
          ∷ (dials dialing asked
              (record inner { bootstrap = none })
              (make_round_tripper dialing front 0).1).0)
unfolding opened
make_round_tripper-reuses_example =
    make_round_tripper-reuses dialing front 0 inner (codes "a:443") asked refl

abbrev https_proxy : Url
https_proxy = record {
  scheme = codes "https";
  user = some (record { username = codes "Aladdin"; password = some (codes "open sesame") });
  host = codes "proxy.example";
  path = [];
}

abbrev login : Auth
login = record { user = codes "Aladdin"; password = codes "open sesame" }

abbrev chain : Dialer
chain =
    http_proxy (codes "proxy.example:443") (some login)
      (utls_dialer (codes "HelloFirefox_Auto") direct)

new_utls_round_tripper_test :
    new_utls_round_tripper (codes "HelloFirefox_Auto") (some https_proxy)
    ≡ ok (with_hello (codes "HelloFirefox_Auto") chain (some https_proxy))
unfolding opened
new_utls_round_tripper_test = refl

new_utls_round_tripper_off :
    new_utls_round_tripper (codes "none") (some https_proxy) ≡ ok plain_http
unfolding opened
new_utls_round_tripper_off = refl

connect_request_test :
    (connect_request (some login) (codes "a.example:443")).header
    ≡ (codes "Proxy-Authorization", codes "basic QWxhZGRpbjpvcGVuIHNlc2FtZQ==" ∷ []) ∷ []
unfolding opened
connect_request_test = refl

abbrev reach : Bytes → ℕ → Result ℕ × ℕ
reach addr n = (ok 7, n)

abbrev send : ℕ → ConnectRequest → ℕ → Option GoError × ℕ
send conn req n = (none, n)

abbrev refuse : ℕ → ℕ → Reading × ℕ
refuse conn n = (
  record {
    response =
        ok (record { status_code = 407; status = codes "407 Proxy Authentication Required" });
    buffered = 0;
  },
  n,
)

http_proxy_dial_test :
    (http_proxy_dial reach send refuse (codes "proxy.example:443") none (codes "a.example:443") 0).0
    ≡ (failed (plain (codes "proxy server returned 407 Proxy Authentication Required")), 7 ∷ [])
unfolding opened
http_proxy_dial_test = refl

http_proxy_dial-Accounted_example :
    Accounted 7
      (http_proxy_dial reach send refuse
        (codes "proxy.example:443")
        none
        (codes "a.example:443")
        0).0
http_proxy_dial-Accounted_example =
    http_proxy_dial-Accounted reach send refuse (codes "proxy.example:443") none
      (codes "a.example:443") 0 7 refl
