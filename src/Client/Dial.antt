-- ===== src/Client/Dial.antt =====
-- How the dialers of meek-client/utls.go and meek-client/proxy_http.go reach the network: the Dial of
-- proxy.Direct, of the proxies and of UTLSDialer, and the closure `dial` of makeRoundTripper.
-- Parameters: a TCP connection, the SOCKS5 dialer of x/net, the handshake, and what is written to and
-- read from a connection, on a state `W` of theirs.
pub mod Laws
pub mod Tests
use meek.Base.{ℕ, Bytes, List, [], ◌∷◌, Option, none, some}
use meek.Go.Errors.{GoError, plain, Result, ok, err}
use meek.Client.Utls.{Auth, Dialer, direct, socks5, http_proxy, utls_dialer, Conn, dial_utls}
use meek.Client.ProxyHttp.{
  ConnectRequest, Reading, Dialed, connected, failed, panicked, http_proxy_dial,
}

-- The addresses to which TCP connections were asked for, the latest first; how many bytes were buffered
-- at a panic of httpProxy.Dial, at which the program ends; and the rest of the world.
pub record Net (W : Type 0) : Type 0 where
  pub dialed : List Bytes
  pub panic : Option ℕ
  pub world : W

abbrev pub Dial : Type 0 → Type 0
Dial W = Bytes → Net W → Result ℕ × Net W

pub record Peers (W : Type 0) : Type 0 where
  pub connect : Bytes → W → Result ℕ × W
  pub socks5_dial : Option Auth → Dial W → Bytes → Dial W
  pub handshake : Bytes → Bytes → ℕ → W → Result Conn × W
  pub write_request : ℕ → ConnectRequest → W → Option GoError × W
  pub read_response : ℕ → W → Reading × W

module _ {W : Type 0} (x : Peers W) (configured : Bytes) where
  abbrev pub tcp : Dial W
  tcp addr n =
      let (r, w) = x.connect addr n.world in (r, record n { dialed = addr ∷ n.dialed; world = w })

  abbrev shaken : Bytes → Bytes → ℕ → Net W → Result Conn × Net W
  shaken hello sni c n = let (r, w) = x.handshake hello sni c n.world in (r, record n { world = w })

  abbrev written : ℕ → ConnectRequest → Net W → Option GoError × Net W
  written c req n = let (e, w) = x.write_request c req n.world in (e, record n { world = w })

  abbrev answer : ℕ → Net W → Reading × Net W
  answer c n = let (r, w) = x.read_response c n.world in (r, record n { world = w })

  -- The connection of the proxy, or its error.
  abbrev pub proxied : Dialed × Net W → Result ℕ × Net W
  proxied ((connected c, closed), n) = (ok c, n)
  proxied ((failed e, closed), n) = (err e, n)
  proxied ((panicked buffered, closed), n) = (err (plain []), record n { panic = some buffered })

  abbrev pub conn_of : Result Conn × Net W → Result ℕ × Net W
  conn_of (ok c, n) = (ok c.id, n)
  conn_of (err e, n) = (err e, n)

  -- The Dial of a dialer.
  unfoldable pub dial_by : Dialer → Dial W
  dial_by direct addr n = tcp addr n
  dial_by (socks5 proxy auth forward) addr n = x.socks5_dial auth (dial_by forward) proxy addr n
  dial_by (http_proxy proxy auth forward) addr n =
      proxied (http_proxy_dial (dial_by forward) written answer proxy auth addr n)
  dial_by (utls_dialer hello forward) addr n =
      conn_of (dial_utls (dial_by forward) (shaken hello) configured addr n)

  -- The closure `dial` of makeRoundTripper.
  unfoldable pub utls_dial : Bytes → Dialer → Bytes → Net W → Result Conn × Net W
  unfolding dial_by
  utls_dial hello d addr n = dial_utls (dial_by d) (shaken hello) configured addr n
