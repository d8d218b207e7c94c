-- ===== src/Client/ProxyHttp.antt =====
-- meek-client/proxy_http.go: a connection through an HTTP proxy. Parameters: dialing, writing the
-- request and reading the response, on a state `W` of theirs. A connection is a number.
pub mod Laws
use meek.Base.{ℕ, Bytes, codes, List, [], ◌∷◌, ◌++◌, Option, none, some, ◌==◌, if◌then◌else◌}
use meek.Go.Errors.{GoError, plain, Result, ok, err}
use meek.Go.Http.{Header, set_field}
use meek.Go.Base64.{encode}
use meek.Client.Utls.{Auth, Dialer, http_proxy, utls_dialer}

pub record ConnectRequest : Type 0 where
  pub method : Bytes
  pub opaque : Bytes
  pub host : Bytes
  pub header : Header

abbrev auth_header : Option Auth → Header
auth_header none = []
auth_header (some auth) =
    set_field (codes "Proxy-Authorization")
      (codes "basic " ++ encode (auth.user ++ b':' ∷ auth.password)) []

unfoldable pub connect_request : Option Auth → Bytes → ConnectRequest
connect_request auth addr = record {
  method = codes "CONNECT";
  opaque = addr;
  host = addr;
  header = auth_header auth;
}

pub record ProxyResponse : Type 0 where
  pub status_code : ℕ
  pub status : Bytes

-- http.ReadResponse through a buffer, and how many bytes that holds afterwards.
pub record Reading : Type 0 where
  pub response : Result ProxyResponse
  pub buffered : ℕ

pub data Outcome : Type 0 where
  connected : (conn : ℕ) → Outcome
  failed : GoError → Outcome
  panicked : (buffered : ℕ) → Outcome

-- How Dial ends, and the connections that it closed.
abbrev pub Dialed : Type 0
Dialed = Outcome × List ℕ

unfoldable proxy_answer : ℕ → ProxyResponse → Dialed
proxy_answer conn resp =
    if resp.status_code == 200
    then (connected conn, [])
    else (failed (plain (codes "proxy server returned " ++ resp.status)), conn ∷ [])

-- The buffer is looked at before the error.
unfoldable after_reading : ℕ → Reading → Dialed
unfolding proxy_answer
after_reading conn reading =
    if reading.buffered == 0
    then elim reading.response [ err e ↦ (failed e, conn ∷ []) | ok resp ↦ proxy_answer conn resp ]
    else (panicked reading.buffered, [])

module _ {W : Type 0} (forward : Bytes → W → Result ℕ × W)
    (write_request : ℕ → ConnectRequest → W → Option GoError × W)
    (read_response : ℕ → W → Reading × W) where
  unfoldable pub after_write : ℕ → Option GoError × W → Dialed × W
  unfolding after_reading
  after_write conn (some e, w) = ((failed e, conn ∷ []), w)
  after_write conn (none, w) =
      let (reading, w') = read_response conn w in (after_reading conn reading, w')

  unfoldable pub after_dial : ConnectRequest → Result ℕ × W → Dialed × W
  unfolding after_write
  after_dial req (err e, w) = ((failed e, []), w)
  after_dial req (ok conn, w) = after_write conn (write_request conn req w)

  -- httpProxy.Dial; `proxy` is the proxy's address.
  unfoldable pub http_proxy_dial : Bytes → Option Auth → Bytes → W → Dialed × W
  unfolding after_dial
  http_proxy_dial proxy auth addr w = after_dial (connect_request auth addr) (forward proxy w)
