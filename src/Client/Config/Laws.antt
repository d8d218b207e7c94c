-- ===== src/Client/Config/Laws.antt =====
-- Which configuration a connection gets.
use mathlib.Core.Path.{subst}
use meek.Base.{
  [], ◌∷◌, ◌≢◌, same, refl, ◌↔◌, Bytes, codes, Option, none, some, true, false, lookup, ◌≡◌, arith,
  inl, inr, Option-cases, Bool-cases,
}
use meek.Go.Errors.{Result, ok, Result-cases}
use meek.Client.Url.{Url}
use meek.Client.Helper.Specs.{Specifies, make_proxy_spec_iff}
use meek.Client.Helper.{is_helper_scheme, make_proxy_spec, ProxySpec}
use meek.Client.Config.{
  Options, Args, Info, Choice, helper, native, utls, arg_or_option, fronted, choose, requested_url,
  configure, check_proxy_url,
}

-- Where a value comes from, if there is one: a SOCKS arg, or else an option that is not empty.
pub data From : Option Bytes → Bytes → Option Bytes → Type 0 where
  from_arg : (v option : Bytes) → From (some v) option (some v)
  from_option : (option : Bytes) → option ≢ [] → From none option (some option)
  from_nowhere : From none [] none

arg_or_option-From :
    (arg : Option Bytes) (option : Bytes) → From arg option (arg_or_option arg option)
unfolding arg_or_option same
arg_or_option-From none [] = from_nowhere
arg_or_option-From none (c ∷ s) = from_option (c ∷ s) (λ e. absurd (cc e))
arg_or_option-From (some v) option = from_arg v option

-- Where a request goes, with a front or without: the URL, and the Host header; an empty one leaves the
-- URL's host there.
pub data Goes : Option Bytes → Url → Url → Bytes → Type 0 where
  straight : (u : Url) → Goes none u u []
  by_front : (f : Bytes) (u : Url) → Goes (some f) u (record u { host = f }) u.host

fronted-Goes : (f : Option Bytes) (u : Url) → Goes f u (fronted f u).0 (fronted f u).1
unfolding fronted
fronted-Goes none u = straight u
fronted-Goes (some f) u = by_front f u

ok-inj : {A : Type 0} {a b : A} → ok a ≡ ok b → a ≡ b
ok-inj e = cc e

module _ {R : Type 0} (parse_url : Bytes → Result Url)
    (new_utls_round_tripper : Bytes → Option Url → Result R) where
  -- What carries the requests, by whether there is a helper and a uTLS fingerprint.
  pub data Carries (o : Options) : Option Bytes → Choice R → Type 0 where
    by_helper : o.use_helper ≡ true → Carries o none helper
    by_native : o.use_helper ≡ false → Carries o none native
    by_utls :
        (name : Bytes) (rt : R)
        → o.use_helper ≡ false
        → new_utls_round_tripper name o.proxy_url ≡ ok rt
        → Carries o (some name) (utls rt)

  choose-Carries :
      (o : Options) (name : Option Bytes) (r : Choice R)
      → choose parse_url new_utls_round_tripper o name ≡ ok r
      → Carries o name r
  unfolding choose
  choose-Carries o none r e = elim (Bool-cases o.use_helper) [
    | inl on ↦ subst (Carries o none) (ok-inj (rw on at e)) (by_helper on)
    | inr off ↦ subst (Carries o none) (ok-inj (rw off at e)) (by_native off)
  ]
  choose-Carries o (some name) r e = elim (Bool-cases o.use_helper) [
    | inl on ↦ absurd (cc (rw on at e))
    | inr off ↦ elim (Result-cases (new_utls_round_tripper name o.proxy_url)) [
      | inl (rt, h) ↦
          subst (Carries o (some name)) (ok-inj (rw (off, h) at e)) (by_utls name rt off h)
      | inr (x, h) ↦ absurd (cc (rw (off, h) at e))
    ]
  ]

  -- A connection that is configured.
  pub record Configured (o : Options) (args : Args) (sid : Bytes) (i : Info R) : Type 0 where
    pub text : Bytes
    pub requested : From (lookup (codes "url") args) o.url (some text)
    pub url : Url
    pub parsed : parse_url text ≡ ok url
    pub front : Option Bytes
    pub fronting : From (lookup (codes "front") args) o.front front
    pub goes : Goes front url i.url i.host
    pub name : Option Bytes
    pub fingerprint : From (lookup (codes "utls") args) o.utls_name name
    pub carries : Carries o name i.round_tripper
    pub same_id : i.session_id ≡ sid

  requested_url_lem :
      (o : Options) (args : Args) (u : Url)
      → requested_url parse_url new_utls_round_tripper o args ≡ ok u
      → (text : Bytes) × (arg_or_option (lookup (codes "url") args) o.url ≡ some text)
        × (parse_url text ≡ ok u)
  unfolding requested_url
  requested_url_lem o args u e =
      elim (Option-cases (arg_or_option (lookup (codes "url") args) o.url)) [
        | inl h ↦ absurd (ground arith)
        | inr (text, h) ↦ (text, h, ground arith)
      ]

  -- What configure comes to, from its URL and its round tripper.
  abbrev info_of : Options → Args → Bytes → Url → Choice R → Info R
  info_of o args sid u rt =
      let f = fronted (arg_or_option (lookup (codes "front") args) o.front) u in
      record { session_id = sid; url = f.0; host = f.1; round_tripper = rt }

  info_of-Configured :
      (o : Options) (args : Args) (sid : Bytes) (u : Url) (rt : Choice R)
      → requested_url parse_url new_utls_round_tripper o args ≡ ok u
      → choose parse_url new_utls_round_tripper o
          (arg_or_option (lookup (codes "utls") args) o.utls_name)
        ≡ ok rt
      → Configured o args sid (info_of o args sid u rt)
  info_of-Configured o args sid u rt h k =
      let (text, t, parsed) = requested_url_lem o args u h in
      record {
        text = text;
        requested =
            subst (From (lookup (codes "url") args) o.url) t
              (arg_or_option-From (lookup (codes "url") args) o.url);
        url = u;
        parsed = parsed;
        front = arg_or_option (lookup (codes "front") args) o.front;
        fronting = arg_or_option-From (lookup (codes "front") args) o.front;
        goes = fronted-Goes (arg_or_option (lookup (codes "front") args) o.front) u;
        name = arg_or_option (lookup (codes "utls") args) o.utls_name;
        fingerprint = arg_or_option-From (lookup (codes "utls") args) o.utls_name;
        carries = choose-Carries o (arg_or_option (lookup (codes "utls") args) o.utls_name) rt k;
        same_id = refl;
      }

  -- A connection that is configured has the session id that it was given, and the URL, the front and the
  -- uTLS fingerprint each from the SOCKS arg of its name, or else from the option if that is not
  -- empty. The URL's text parses. With a front, the request goes to the front, and the Host header
  -- names the URL's host; else it goes to the URL. Without a fingerprint, the helper carries it where it
  -- is in use, and else the native round tripper; with one, the helper is not in use, and the round
  -- tripper made for that fingerprint and the proxy does.
  pub configure-Configured :
      (o : Options) (args : Args) (sid : Bytes) (i : Info R)
      → configure parse_url new_utls_round_tripper o args sid ≡ ok i
      → Configured o args sid i
  unfolding configure
  configure-Configured o args sid i e =
      elim (Result-cases (requested_url parse_url new_utls_round_tripper o args)) [
        | inl (u, h) ↦
            elim (Result-cases (
              choose parse_url new_utls_round_tripper o
                (arg_or_option (lookup (codes "utls") args) o.utls_name))) [
                  | inl (rt, k) ↦
                      subst (Configured o args sid) (ok-inj (rw (h, k) at e))
                        (info_of-Configured o args sid u rt h k)
                  | inr (x, k) ↦ absurd (cc (rw (h, k) at e))
                ]
        | inr (x, h) ↦ absurd (cc (rw h at e))
      ]

check_proxy_url-helper :
    (o : Options) (u : Url)
    → o.use_helper ≡ true
    → (check_proxy_url o u ≡ none) ↔ ((u.user ≡ none) × (is_helper_scheme u.scheme ≡ true))
unfolding check_proxy_url
check_proxy_url-helper o u on = ground (arith, Option-cases u.user)

-- Where the helper is used: a proxy has a specification for the helper exactly if its URL passes the
-- check of the proxy's URL and its address splits into a host that is not empty and a port that
-- parses; the specification has the URL's scheme, that host and that port.
pub make_proxy_spec-checked :
    (o : Options) (u : Url) (spec : ProxySpec)
    → o.use_helper ≡ true
    → (make_proxy_spec (some u) ≡ ok (some spec))
      ↔ ((check_proxy_url o u ≡ none) × Specifies u spec)
make_proxy_spec-checked o u spec on =
    let made = make_proxy_spec_iff u spec in
    let passes = check_proxy_url-helper o u on in
    (
      λ e. let m = made.0 e in (passes.1 (m.0, m.1), m.2),
      λ (c, m). let p = passes.0 c in made.1 (p.0, p.1, m),
    )
