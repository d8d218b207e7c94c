-- ===== src/Client/Dial/Tests.antt =====
-- Dialing at concrete inputs.
use meek.Base.{ℕ, suc, true, Bytes, codes, [], ◌∷◌, none, ◌≡◌, refl, same, lookup}
use meek.Go.Errors.{ok}
use meek.Go.HostPort.{join_host_port, split_host_port, cut_last, has_byte}
use meek.Go.Text.{to_lower}
use meek.Client.Url.{Url, hostname, port}
use meek.Client.Utls.{
  Inner, Dialer, direct, http_proxy, utls_dialer, addr_for_dial, make_proxy_dialer, server_name,
  dial_utls, make_round_tripper, expect_protocol, dial_tls, new_utls_round_tripper,
}
use meek.Client.Utls.Hello.{find_hello}
use meek.Client.Utls.Laws.{dials}
use meek.Client.ProxyHttp.{http_proxy_dial, connect_request}
use meek.Client.Dial.{Net, Peers, dial_by, utls_dial}

opened : Unit {0}
unfolding addr_for_dial make_proxy_dialer server_name dial_utls make_round_tripper expect_protocol
    dial_tls new_utls_round_tripper find_hello dials hostname port join_host_port split_host_port
    to_lower lookup same cut_last has_byte http_proxy_dial connect_request dial_by utls_dial
opened = tt

-- Connections are numbered, and every handshake negotiates h2.
abbrev peers : Peers ℕ
peers = record {
  connect = λ addr w. (ok w, suc w);
  socks5_dial = λ auth forward proxy addr n. forward proxy n;
  handshake = λ hello sni c w. (ok (record { id = c; protocol = codes "h2" }), w);
  write_request = λ c req w. (none, w);
  read_response = λ c w. (
    record { response = ok (record { status_code = 200; status = codes "200 OK" }); buffered = 0 },
    w,
  );
}

abbrev front : Url
front = record {
  scheme = codes "https";
  user = none;
  host = codes "front.example";
  path = codes "/";
}

abbrev proxy : Bytes → Url
proxy scheme = record { scheme = scheme; user = none; host = codes "proxy.example:8443"; path = [] }

abbrev chain : Dialer
chain =
    http_proxy (codes "proxy.example:8443") none (utls_dialer (codes "HelloFirefox_Auto") direct)

abbrev idle : Net ℕ
idle = record { dialed = []; panic = none; world = 0 }

abbrev inner : Inner
inner = record { http2 = true; protocol = codes "h2"; bootstrap = none }

-- Through the proxy, and without one.
dialed_test :
    ((make_round_tripper (utls_dial peers [] (codes "HelloFirefox_Auto") chain) front idle).1.dialed
      ≡ codes "proxy.example:8443" ∷ [])
    × ((make_round_tripper
          (utls_dial peers [] (codes "HelloFirefox_Auto") direct)
          front
          idle).1.dialed
        ≡ codes "front.example:443" ∷ [])
unfolding opened
dialed_test = (refl, refl)
