-- ===== src/Client/Helper/Specs.antt =====
-- makeProxySpec of meek-client/helper.go: when there is a specification of a proxy, and which.
use meek.Base.{
  Bytes, [], none, refl, sym, ap, ◌∙◌, some, true, ◌≡◌, ◌≢◌, ◌↔◌, arith, same_iff, inl, inr,
  Option-cases, Bool-cases,
}
use meek.Go.Errors.{ok, Result-cases}
use meek.Go.HostPort.{split_host_port}
use meek.Client.Url.{Url}
use meek.Client.Helper.{
  ProxySpec, make_proxy_spec, proxy_spec, known_scheme, spec_of, is_helper_scheme, parse_port,
}

-- What is sent to the helper for a proxy with this address.
abbrev pub Specifies : Url → ProxySpec → Type 0
Specifies u spec =
    (spec.type ≡ u.scheme)
    × (spec.host ≢ [])
    × ((port : Bytes) × (split_host_port u.host ≡ ok (spec.host, port))
        × (parse_port port ≡ ok spec.port))

spec_of-made :
    (scheme : Bytes) (p : Bytes × Bytes) (spec : ProxySpec)
    → spec_of scheme p ≡ ok spec
    → (spec.type ≡ scheme) × (spec.host ≢ []) × (spec.host ≡ p.0) × (parse_port p.1 ≡ ok spec.port)
unfolding spec_of
spec_of-made scheme p spec e = elim (Result-cases (parse_port p.1)) [
  | inl (n, h) ↦ ground (arith, h, same_iff p.0 [])
  | inr (x, h) ↦ absurd (ground (arith, h))
]

spec_of-makes :
    (scheme : Bytes) (p : Bytes × Bytes) (spec : ProxySpec)
    → spec.type ≡ scheme
    → spec.host ≢ []
    → spec.host ≡ p.0
    → parse_port p.1 ≡ ok spec.port
    → spec_of scheme p ≡ ok spec
unfolding spec_of
spec_of-makes scheme p spec t ne h e = ground (arith, same_iff p.0 [])

known_scheme-made :
    (u : Url) (spec : ProxySpec)
    → known_scheme u ≡ ok spec
    → (is_helper_scheme u.scheme ≡ true) × Specifies u spec
unfolding known_scheme
known_scheme-made u spec e = elim (Bool-cases (is_helper_scheme u.scheme)) [
  | inl s ↦ elim (Result-cases (split_host_port u.host)) [
    | inl (p, h) ↦
        let m = spec_of-made u.scheme p spec (rw (s, h) at e) in
        (s, (m.0, m.1, (p.1, h ∙ ap (λ x. ok (x, p.1)) (sym m.2), m.3)))
    | inr (x, h) ↦ absurd (cc (rw (s, h) at e))
  ]
  | inr s ↦ absurd (cc (rw s at e))
]

known_scheme-makes :
    (u : Url) (spec : ProxySpec)
    → is_helper_scheme u.scheme ≡ true
    → Specifies u spec
    → known_scheme u ≡ ok spec
unfolding known_scheme
known_scheme-makes u spec s (t, ne, (port, h, e)) =
    rw (s, h) (spec_of-makes u.scheme (spec.host, port) spec t ne refl e)

proxy_spec-known :
    (u : Url) (spec : ProxySpec)
    → make_proxy_spec (some u) ≡ ok (some spec)
    → (u.user ≡ none) × (known_scheme u ≡ ok spec)
unfolding make_proxy_spec proxy_spec
proxy_spec-known u spec e = elim (Option-cases u.user) [
  | inl n ↦ elim (Result-cases (known_scheme u)) [
    | inl (t, h) ↦ (n, ground (arith, n, h, e))
    | inr (x, h) ↦ absurd (ground (arith, n, h, e))
  ]
  | inr (login, n) ↦ absurd (ground (arith, n, e))
]

pub make_proxy_spec_iff :
    (u : Url) (spec : ProxySpec)
    → (make_proxy_spec (some u) ≡ ok (some spec))
      ↔ ((u.user ≡ none) × (is_helper_scheme u.scheme ≡ true) × Specifies u spec)
unfolding make_proxy_spec proxy_spec
make_proxy_spec_iff u spec = (
  λ e. let k = proxy_spec-known u spec e in let m = known_scheme-made u spec k.1 in (k.0, m.0, m.1),
  λ (n, s, m). rw (n, known_scheme-makes u spec s m) refl,
)
