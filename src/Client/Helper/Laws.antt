-- ===== src/Client/Helper/Laws.antt =====
-- The framing of the helper's protocol, and what it does to a request.
use meek.Base.{
  ℕ, ◌+◌, ◌-◌, ◌*◌, ◌/◌, ◌%◌, ◌^◌, ◌<◌, ◌≤◌, Bytes, [], ◌∷◌, ◌++◌, none, some, true, length,
  length-append, take, ◌≡◌, ◌≢◌, refl, arith, le→ltb, ap, inl, inr, same_iff,
}
use meek.Go.HostPort.{split_host_port}
use meek.Go.Errors.{Result-cases, ok}
use meek.Client.Url.{Url}
use meek.Client.Transport.{ClientRequest}
use meek.Client.Helper.{
  ProxySpec, HelperRoundTripper, Json, Socket, max_helper_response_length, big_endian, frame,
  read_full, read_frame, json_request, helper_round_trip, parse_port, parse_digits,
  is_helper_scheme, proxy_spec, make_proxy_spec, known_scheme,
}

take-append : (s rest : Bytes) → take (length s) (s ++ rest) ≡ s
take-append [] rest = refl
take-append (c ∷ s) rest = ap (◌∷◌ c) (take-append s rest)

read_full-append : (s rest : Bytes) → read_full (length s) (s ++ rest) ≡ ok s
unfolding read_full
read_full-append [] rest = refl
read_full-append (c ∷ s) rest =
    rw (le→ltb (length (s ++ rest)) (length s) (omega (arith, length-append s rest)))
      (ap (λ t. ok (c ∷ t)) (take-append s rest))

big_endian_value :
    (n : ℕ)
    → n < 2 ^ 32
    → n / 16777216 % 256 * 16777216 + n / 65536 % 256 * 65536 + n / 256 % 256 * 256 + n % 256 ≡ n
big_endian_value n h = omega arith

-- A text of at most the maximum length, framed as requests are, is read back whole, whatever
-- follows it.
pub read_frame-frame :
    (s rest : Bytes) → length s ≤ max_helper_response_length → read_frame (frame s ++ rest) ≡ ok s
unfolding read_frame frame big_endian
read_frame-frame s rest h = rw (
  big_endian_value (length s % 2 ^ 32) (omega arith),
  small (length s) h,
  le→ltb max_helper_response_length (length s) h,
  read_full-append s rest,
)
  where
    small : (n : ℕ) → n ≤ max_helper_response_length → n % 2 ^ 32 ≡ n
    small n h = omega arith

-- A round trip through the helper uses the body up: the helper is told the body once, and where the
-- same request is tried again, an empty one.
helper_round_trip-again :
    (j : Json) (rt : HelperRoundTripper) (s : Socket) (req : ClientRequest) (b : Bytes)
    → s.dial ≡ none
    → req.body ≡ some b
    → ((json_request rt req).0.body ≡ b)
      × ((json_request rt (helper_round_trip j rt s req).1).0.body ≡ [])
unfolding json_request helper_round_trip
helper_round_trip-again j rt s req b h k = ground arith

parse_digits-lt : (n : ℕ) (s : Bytes) (m : ℕ) → n < 65536 → parse_digits n s ≡ ok m → m < 65536
unfolding parse_digits
parse_digits-lt n [] m h e = ground arith
parse_digits-lt n (c ∷ s) m h e = ground (arith, parse_digits-lt (n * 10 + (c - b'0')) s m)

parse_port-lt : (s : Bytes) (m : ℕ) → parse_port s ≡ ok m → m < 65536
unfolding parse_port
parse_port-lt [] m e = cc
parse_port-lt (c ∷ s) m e = parse_digits-lt 0 (c ∷ s) m (omega arith) e

known_scheme_lem :
    (u : Url) (spec : ProxySpec)
    → known_scheme u ≡ ok spec
    → (is_helper_scheme u.scheme ≡ true)
      × (spec.type ≡ u.scheme)
      × (spec.host ≢ [])
      × (spec.port < 65536)
unfolding known_scheme
known_scheme_lem u spec e = elim (Result-cases (split_host_port u.host)) [
  | inl (p, h) ↦ ground (arith, same_iff p.0 [], parse_port-lt p.1 spec.port)
  | inr (x, h) ↦ ground arith
]

-- A proxy that the helper accepts has no user, one of the three schemes, a host, and a port below
-- 65536, and its type is the URL's scheme.
make_proxy_spec_lem :
    (u : Url) (spec : ProxySpec)
    → make_proxy_spec (some u) ≡ ok (some spec)
    → (u.user ≡ none)
      × (is_helper_scheme u.scheme ≡ true)
      × (spec.type ≡ u.scheme)
      × (spec.host ≢ [])
      × (spec.port < 65536)
unfolding make_proxy_spec proxy_spec
make_proxy_spec_lem u spec e = ground (arith, known_scheme_lem u spec)
