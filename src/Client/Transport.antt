-- ===== src/Client/Transport.antt =====
-- makeRequest, roundTripRetries and sendRecv of meek-client/meek-client.go. An http.RoundTripper is
-- a function on a state of its own; a request carries the unread rest of its body, which a round
-- trip consumes.
use meek.Base.{
  ℕ, zero, suc, ◌+◌, ◌*◌, ◌/◌, ◌%◌, Bytes, codes, [], ◌∷◌, ◌++◌, Option, none, some, Bool, true,
  false, ltb, ◌==◌, if◌then◌else◌, length, take, take_all, same, ◌≤◌, ◌≡◌, Bool-cases, inl, inr,
}
use meek.Go.Errors.{GoError, plain, Result, ok, err, ◌>>=◌}
use meek.Go.Http.{Header, Body, set_field}
use meek.Client.Url.{Url}

abbrev pub max_payload_length : ℕ
max_payload_length = 0x10000

abbrev pub max_tries : ℕ
max_tries = 10

abbrev pub retry_delay : ℕ
retry_delay = 30 * 1000000000

-- http.Request on the client's side. `body` is what its reader still holds; `none` is a nil body.
pub record ClientRequest : Type 0 where
  pub method : Bytes
  pub url : Url
  pub host : Bytes
  pub header : Header
  pub body : Option Bytes

pub record ClientResponse : Type 0 where
  pub status_code : ℕ
  pub body : Body

abbrev pub RoundTripper {ℓ} : Type ℓ → Type ℓ
RoundTripper S = ClientRequest → S → Result ClientResponse × ClientRequest × S

-- `sleep` is what goes on in the meantime when time.Sleep lasts so long.
pub record RequestInfo {ℓ} (S : Type ℓ) : Type ℓ where
  pub session_id : Bytes
  pub url : Url
  pub host : Bytes
  pub round_tripper : RoundTripper S
  pub sleep : ℕ → S → S

-- A nil body for an empty text.
abbrev pub request_body : Bytes → Option Bytes
request_body [] = none
request_body (c ∷ s) = some (c ∷ s)

unfoldable pub fill_request {ℓ} : {S : Type ℓ} → Bytes → RequestInfo S → Url → ClientRequest
fill_request buf info u = record {
  method = codes "POST";
  url = u;
  host = if same info.host [] then u.host else info.host;
  header =
      set_field (codes "X-Session-Id") info.session_id
        (set_field (codes "Content-Type") (codes "application/octet-stream") []);
  body = request_body buf;
}

-- `reparse u` is what http.NewRequest makes of info.URL.String(): it parses the text again.
module _ {ℓ} (reparse : Url → Result Url) {S : Type ℓ} where
  unfoldable pub make_request : Bytes → RequestInfo S → Result ClientRequest
  unfolding fill_request
  make_request buf info = do u ← reparse info.url; ok (fill_request buf info u)

-- %d
decimal_fuel : ℕ → ℕ → Bytes → Bytes
decimal_fuel zero n out = out
decimal_fuel (suc f) n out =
    let more = decimal_fuel f (n / 10) ((b'0' + n % 10) ∷ out) in
    if ltb n 10 then (b'0' + n) ∷ out else more

unfoldable pub decimal : ℕ → Bytes
unfolding decimal_fuel
decimal n = decimal_fuel (suc n) n []

unfoldable pub status_error : ℕ → GoError
status_error status = plain (codes "status code was " ++ decimal status ++ codes ", not 200")

-- The error of a try: its own, or a status other than 200.
abbrev pub checked : Result ClientResponse → Result ClientResponse
checked (err e) = err e
checked (ok resp) = if resp.status_code == 200 then ok resp else err (status_error resp.status_code)

-- Whether the round trip completed with a status other than 200.
abbrev pub is_retried : Result ClientResponse → Bool
is_retried (err e) = false
is_retried (ok resp) = if resp.status_code == 200 then false else true

module _ {ℓ} {S : Type ℓ} (rt : RoundTripper S) (sleep : ℕ → S → S) where
  -- The number is `limit`; the label is reached with one less each time.
  unfoldable pub round_trip_retries :
      ℕ → ClientRequest → S → Result ClientResponse × ClientRequest × S
  round_trip_retries zero req s = let (r, req', s') = rt req s in (checked r, req', s')
  round_trip_retries (suc limit) req s =
      let (r, req', s') = rt req s in
      let again = round_trip_retries limit req' (sleep retry_delay s') in
      if is_retried r
      then if ltb 0 limit then again else (checked r, req', s')
      else (checked r, req', s')

-- The local connection takes what is written to it, or fails behind a number of bytes.
abbrev pub Sink : Type 0
Sink = Option (ℕ × GoError)

-- io.Copy(conn, io.LimitReader(body, maxPayloadLength)): what conn received, and the error.
unfoldable pub copy_limited : Sink → Body → Bytes × Option GoError
copy_limited none body =
    if ltb (length body.bytes) max_payload_length
    then (body.bytes, body.failure)
    else (take max_payload_length body.bytes, none)
copy_limited (some (room, e)) body =
    if ltb room (length (take max_payload_length body.bytes))
    then (take room body.bytes, some e)
    else if ltb (length body.bytes) max_payload_length
    then (body.bytes, body.failure)
    else (take max_payload_length body.bytes, none)

-- A body below the limit is copied whole.
pub copy_limited_short :
    (b : Bytes)
    → length b ≤ max_payload_length
    → copy_limited none (record { bytes = b; failure = none }) ≡ (b, none)
unfolding copy_limited
copy_limited_short b h = elim (Bool-cases (ltb (length b) max_payload_length)) [
  | inl below ↦ rw below
  | inr full ↦ rw (full, take_all max_payload_length b h)
]

-- What conn received, the error, and the round tripper's state.
module _ {ℓ} (reparse : Url → Result Url) {S : Type ℓ} where
  unfoldable pub replied :
      Sink → Result ClientResponse × ClientRequest × S → (Bytes × Option GoError) × S
  replied sink (err e, req, s) = (([], some e), s)
  replied sink (ok resp, req, s) = (copy_limited sink resp.body, s)

  unfoldable pub send_recv : Bytes → RequestInfo S → Sink → S → (Bytes × Option GoError) × S
  unfolding replied
  send_recv buf info sink s = elim (make_request reparse buf info) [
    | err e ↦ (([], some e), s)
    | ok req ↦ replied sink (round_trip_retries info.round_tripper info.sleep max_tries req s)
  ]
