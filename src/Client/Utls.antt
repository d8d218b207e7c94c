-- ===== src/Client/Utls.antt =====
-- meek-client/utls.go. A uTLS connection is a number with the protocol that it negotiated. Parameters:
-- dialing and handshakes, on a state `W` of theirs; the uTLS fingerprints, by their names; and
-- http.Transport and http2.Transport.
pub mod Hello
pub mod Laws
pub mod History
pub mod Tests
use meek.Base.{
  ℕ, Bytes, codes, [], ◌∷◌, ◌++◌, Option, none, some, Bool, true, false, ◌||◌, if◌then◌else◌, same,
}
use meek.Go.Errors.{GoError, plain, Result, ok, err, ◌>>=◌}
use meek.Go.HostPort.{join_host_port, split_host_port}
use meek.Client.Url.{Url, Userinfo, hostname, port}
use meek.Client.Transport.{ClientRequest, ClientResponse}
use meek.Client.Utls.Hello.{find_hello}

unsupported : Bytes → GoError
unsupported scheme = plain (codes "unsupported URL scheme " ++ scheme)

-- The port of the URL, or the default for its scheme.
unfoldable port_for_dial : Url → Result Bytes
unfolding unsupported
port_for_dial u =
    if same (port u) []
    then if same u.scheme (codes "http")
      then ok (codes "80")
      else if same u.scheme (codes "https")
      then ok (codes "443")
      else err (unsupported u.scheme)
    else ok (port u)

unfoldable pub addr_for_dial : Url → Result Bytes
unfolding port_for_dial
addr_for_dial u = port_for_dial u >>= λ p. ok (join_host_port (hostname u) p)

pub record Auth : Type 0 where
  pub user : Bytes
  pub password : Bytes

-- Where a connection goes first. A fingerprint stands for the uTLS config and Client Hello ID.
pub data Dialer : Type 0 where
  direct : Dialer
  socks5 : (addr : Bytes) (auth : Option Auth) (forward : Dialer) → Dialer
  http_proxy : (addr : Bytes) (auth : Option Auth) (forward : Dialer) → Dialer
  utls_dialer : (hello : Bytes) (forward : Dialer) → Dialer

abbrev auth_of : Option Userinfo → Option Auth
auth_of none = none
auth_of (some login) =
    some
      (record { user = login.username; password = elim login.password [ none ↦ [] | some p ↦ p ] })

unfoldable pub dialer_for : Bytes → Url → Bytes → Result Dialer
dialer_for hello u addr =
    if same u.scheme (codes "socks5")
    then ok (socks5 addr (auth_of u.user) direct)
    else if same u.scheme (codes "http")
    then ok (http_proxy addr (auth_of u.user) direct)
    else if same u.scheme (codes "https")
    then ok (http_proxy addr (auth_of u.user) (utls_dialer hello direct))
    else err (plain (codes "cannot use proxy scheme " ++ u.scheme ++ codes " with uTLS"))

unfoldable pub make_proxy_dialer : Bytes → Option Url → Result Dialer
unfolding dialer_for
make_proxy_dialer hello none = ok direct
make_proxy_dialer hello (some u) = addr_for_dial u >>= dialer_for hello u

-- A *utls.UConn after its handshake.
pub record Conn : Type 0 where
  pub id : ℕ
  pub protocol : Bytes

-- The name sent in the handshake: that of the config, or else the host of the address.
unfoldable pub server_name : Bytes → Bytes → Result Bytes
server_name configured addr =
    if same configured [] then split_host_port addr >>= (λ p. ok p.0) else ok configured

module _ {W : Type 0} (forward : Bytes → W → Result ℕ × W)
    (handshake : Bytes → ℕ → W → Result Conn × W) where
  unfoldable pub dial_utls : Bytes → Bytes → W → Result Conn × W
  dial_utls configured addr w =
      let (r, w') = forward addr w in
      elim r [
        | err e ↦ (err e, w')
        | ok c ↦ elim (server_name configured addr) [
          | err e ↦ (err e, w')
          | ok sni ↦ handshake sni c w'
        ]
      ]

-- What the closure dialTLS keeps; `http2` says which transport was made.
pub record Inner : Type 0 where
  pub http2 : Bool
  pub protocol : Bytes
  pub bootstrap : Option Conn

abbrev pub next_proto_tls : Bytes
next_proto_tls = codes "h2"

module _ {W : Type 0} (dial : Bytes → W → Result Conn × W) where
  unfoldable pub make_round_tripper : Url → W → Result Inner × W
  make_round_tripper u w = elim (addr_for_dial u) [
    | err e ↦ (err e, w)
    | ok addr ↦
        let (r, w') = dial addr w in
        elim r [
          | err e ↦ (err e, w')
          | ok c ↦ (
            ok (record {
              http2 = same c.protocol next_proto_tls;
              protocol = c.protocol;
              bootstrap = some c;
            }),
            w',
          )
        ]
  ]

  -- The connection, if its protocol is still that of the first one.
  unfoldable pub expect_protocol : Inner → Result Conn → Result Conn
  expect_protocol i (err e) = err e
  expect_protocol i (ok c) =
      if same c.protocol i.protocol
      then ok c
      else err
          (plain (codes "unexpected switch from ALPN " ++ i.protocol ++ codes " to " ++ c.protocol))

  -- dialTLS
  unfoldable pub dial_tls : Bytes → Inner → W → Result Conn × Inner × W
  unfolding expect_protocol
  dial_tls addr i w = elim i.bootstrap [
    | some c ↦ (ok c, record i { bootstrap = none }, w)
    | none ↦ let (r, w') = dial addr w in (expect_protocol i r, i, w')
  ]

  -- The internal transports do a round trip with the closure's state; the first argument is the one
  -- for requests without TLS.
  module _ (http_rt : ClientRequest → W → Result ClientResponse × W)
      (transport : Inner → ClientRequest → W → Result ClientResponse × Inner × W) where
    passed_on : ClientRequest → Result Inner × W → Result ClientResponse × Option Inner × W
    passed_on req (err e, w) = (err e, none, w)
    passed_on req (ok i, w) = let (r, i', w') = transport i req w in (r, some i', w')

    -- The field rt is nil until a first round tripper could be made.
    unfoldable pub utls_round_trip :
        ClientRequest → Option Inner → W → Result ClientResponse × Option Inner × W
    unfolding passed_on unsupported
    utls_round_trip req rt w =
        if same req.url.scheme (codes "http")
        then (let (r, w') = http_rt req w in (r, rt, w'))
        else if same req.url.scheme (codes "https")
        then elim rt [
          | none ↦ passed_on req (make_round_tripper req.url w)
          | some i ↦ passed_on req (ok i, w)
        ]
        else (err (unsupported req.url.scheme), rt, w)

-- What NewUTLSRoundTripper makes: the plain transport, or one with a fingerprint, a dialer, and the
-- proxy of its transport for requests without TLS.
pub data NewRoundTripper : Type 0 where
  plain_http : NewRoundTripper
  with_hello : (hello : Bytes) (dialer : Dialer) (http_proxy_url : Option Url) → NewRoundTripper

unfoldable pub new_utls_round_tripper : Bytes → Option Url → Result NewRoundTripper
new_utls_round_tripper name proxy = elim (find_hello name) [
  | none ↦ err (plain (codes "no uTLS Client Hello ID named " ++ name))
  | some known ↦ elim known [
    | none ↦ ok plain_http
    | some hello ↦ make_proxy_dialer hello proxy >>= λ d. ok (with_hello hello d proxy)
  ]
]
