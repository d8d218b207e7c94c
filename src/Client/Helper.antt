-- ===== src/Client/Helper.antt =====
-- meek-client/helper.go: requests through the HTTP helper, a browser extension. A JSON text is
-- written and read by parameters; the helper's connection, its failures included, is `Socket`.
pub mod Laws
pub mod Specs
pub mod Peer
pub mod Tests
use meek.Base.{
  ℕ, zero, suc, ◌+◌, ◌-◌, ◌*◌, ◌/◌, ◌%◌, ◌^◌, Bytes, codes, List, [], ◌∷◌, ◌++◌, Option, none, some,
  Bool, true, false, ◌&&◌, ◌||◌, ltb, leb, ◌==◌, if◌then◌else◌, length, take, same, Map, insert,
}
use meek.Go.Errors.{GoError, plain, Result, ok, err, ◌>>=◌}
use meek.Go.Http.{Header, Body, canonical_key}
use meek.Go.HostPort.{split_host_port}
use meek.Client.Url.{Url, Userinfo}
use meek.Client.Transport.{ClientRequest, ClientResponse}

pub record ProxySpec : Type 0 where
  pub type : Bytes
  pub host : Bytes
  pub port : ℕ

-- `url` stands for its text.
pub record JsonRequest : Type 0 where
  pub method : Bytes
  pub url : Url
  pub header : Map Bytes
  pub body : Bytes
  pub proxy : Option ProxySpec

pub record JsonResponse : Type 0 where
  pub error : Bytes
  pub status : ℕ
  pub body : Bytes

abbrev pub max_helper_response_length : ℕ
max_helper_response_length = 10000000

-- strconv.ParseUint(s, 10, 16): digits only, at least one, below 2^16.
unfoldable pub parse_digits : ℕ → Bytes → Result ℕ
parse_digits n [] = ok n
parse_digits n (c ∷ s) =
    let more = parse_digits (n * 10 + (c - b'0')) s in
    if leb b'0' c && leb c b'9'
    then if ltb (n * 10 + (c - b'0')) 65536 then more else err (plain (codes "value out of range"))
    else err (plain (codes "invalid syntax"))

unfoldable pub parse_port : Bytes → Result ℕ
unfolding parse_digits
parse_port [] = err (plain (codes "invalid syntax"))
parse_port (c ∷ s) = parse_digits 0 (c ∷ s)

abbrev pub is_helper_scheme : Bytes → Bool
is_helper_scheme s = same s (codes "http") || same s (codes "socks5") || same s (codes "socks4a")

unfoldable spec_of : Bytes → Bytes × Bytes → Result ProxySpec
spec_of scheme (host, port) =
    if same host []
    then err (plain (codes "missing host"))
    else parse_port port >>= λ n. ok (record { type = scheme; host = host; port = n })

unfoldable known_scheme : Url → Result ProxySpec
unfolding spec_of
known_scheme u =
    if is_helper_scheme u.scheme
    then split_host_port u.host >>= spec_of u.scheme
    else err (plain (codes "unknown scheme"))

-- Behind the test for a nil URL.
unfoldable pub proxy_spec : Url → Result ProxySpec
unfolding known_scheme
proxy_spec u = elim u.user [
  | none ↦ known_scheme u
  | some login ↦
      err (plain (codes "proxy URLs with a username or password can't be used with the helper"))
]

unfoldable pub make_proxy_spec : Option Url → Result (Option ProxySpec)
make_proxy_spec none = ok none
make_proxy_spec (some u) = proxy_spec u >>= λ spec. ok (some spec)

pub record HelperRoundTripper : Type 0 where
  pub proxy_spec : Option ProxySpec

-- SetProxy sets the field also where it fails, to nil.
unfoldable pub set_proxy : Option Url → HelperRoundTripper → Option GoError × HelperRoundTripper
set_proxy u rt = elim (make_proxy_spec u) [
  | ok spec ↦ (none, record { proxy_spec = spec })
  | err e ↦ (some e, record { proxy_spec = none })
]

-- The first value of each key. The keys of a map are walked in some order; here, in that of the list.
unfoldable pub first_values : Header → Map Bytes → Map Bytes
first_values [] out = out
first_values ((key, []) ∷ h) out = first_values h out
first_values ((key, v ∷ vs) ∷ h) out = first_values h (insert (canonical_key key) v out)

unfoldable pub with_host : Bytes → Map Bytes → Map Bytes
with_host host out = if same host [] then out else insert (codes "Host") host out

abbrev read_all : Option Bytes → Bytes
read_all none = []
read_all (some b) = b

abbrev used_up : Option Bytes → Option Bytes
used_up none = none
used_up (some b) = some []

-- The request as the helper is told of it; reading the body uses it up.
unfoldable pub json_request : HelperRoundTripper → ClientRequest → JsonRequest × ClientRequest
json_request rt req = (
  record {
    method = req.method;
    url = req.url;
    header = with_host req.host (first_values req.header []);
    body = read_all req.body;
    proxy = rt.proxy_spec;
  },
  record req { body = used_up req.body },
)

-- binary.Write(s, binary.BigEndian, uint32(n))
unfoldable pub big_endian : ℕ → Bytes
big_endian n = n / 16777216 % 256 ∷ n / 65536 % 256 ∷ n / 256 % 256 ∷ n % 256 ∷ []

-- A length-prefixed text.
unfoldable pub frame : Bytes → Bytes
unfolding big_endian
frame s = big_endian (length s % 2 ^ 32) ++ s

abbrev too_short {ℓ} : {A : Type ℓ} → Result A
too_short = err (plain (codes "unexpected EOF"))

abbrev end_of_input {ℓ} : {A : Type ℓ} → Result A
end_of_input = err (plain (codes "EOF"))

-- io.ReadFull of as many bytes.
unfoldable pub read_full : ℕ → Bytes → Result Bytes
read_full zero s = ok []
read_full (suc n) [] = end_of_input
read_full (suc n) (c ∷ s) = if ltb (length s) n then too_short else ok (take (suc n) (c ∷ s))

-- binary.Read of a uint32, the test of the length, and io.ReadFull, on what the helper sends.
unfoldable pub read_frame : Bytes → Result Bytes
unfolding read_full
read_frame (a ∷ b ∷ c ∷ d ∷ s) =
    let n = a * 16777216 + b * 65536 + c * 256 + d in
    if ltb max_helper_response_length n
    then err (plain (codes "helper's returned data is too big"))
    else read_full n s
read_frame [] = end_of_input
read_frame (a ∷ []) = too_short
read_frame (a ∷ b ∷ []) = too_short
read_frame (a ∷ b ∷ c ∷ []) = too_short

-- How dialing and the two writes end, and what the helper sends.
pub record Socket : Type 0 where
  pub dial : Option GoError
  pub write : Option GoError
  pub incoming : Bytes

pub record Json : Type 0 where
  pub marshal : JsonRequest → Result Bytes
  pub unmarshal : Bytes → Result JsonResponse

unfoldable pub mock_response : JsonResponse → Result ClientResponse
mock_response r =
    if same r.error []
    then ok (record { status_code = r.status; body = record { bytes = r.body; failure = none } })
    else err (plain (codes "helper returned error: " ++ r.error))

unfoldable pub respond : Json → Socket → Result ClientResponse
unfolding mock_response
respond j s = do enc ← read_frame s.incoming; r ← j.unmarshal enc; mock_response r

-- The response, the request with its body used up, and what was sent to the helper; nothing where a
-- write fails.
unfoldable pub helper_round_trip :
    Json
    → HelperRoundTripper
    → Socket
    → ClientRequest
    → Result ClientResponse × ClientRequest × Bytes
unfolding respond
helper_round_trip j rt s req = elim s.dial [
  | some e ↦ (err e, req, [])
  | none ↦
      let (json, req') = json_request rt req in
      elim (j.marshal json) [
        | err e ↦ (err e, req', [])
        | ok enc ↦ elim s.write [
          | some e ↦ (err e, req', [])
          | none ↦ (respond j s, req', frame enc)
        ]
      ]
]
