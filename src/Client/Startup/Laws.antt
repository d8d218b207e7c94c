-- ===== src/Client/Startup/Laws.antt =====
-- No way around a proxy.
use meek.Base.{
  Option, none, some, true, false, ◌≡◌, ◌⊎◌, inl, inr, refl, arith, Bool-cases, Option-cases,
}
use meek.Go.Errors.{ok, Result-cases}
use meek.Client.Url.{Url}
use meek.Client.Helper.{HelperRoundTripper, ProxySpec, set_proxy, make_proxy_spec, proxy_spec}
use meek.Client.Config.{Options, check_proxy_url}
use meek.Client.Startup.{Started, proxy_of, helper_set, use_proxy, set_up_proxy}

-- Where each of the three round trippers takes its proxy from.
abbrev pub Proxied : Url → Started → Type 0
Proxied u st =
    (st.native_proxy ≡ some u)
    × (st.options.proxy_url ≡ some u)
    × ((st.options.use_helper ≡ false)
        ⊎ ((spec : ProxySpec) × (st.helper.proxy_spec ≡ some spec)
            × (make_proxy_spec (some u) ≡ ok (some spec))))

use_proxy-Proxied :
    (o : Options) (managed : Option Url) (u : Url) (rt : HelperRoundTripper) (st : Started)
    → o.proxy_url ≡ some u
    → (use_proxy o managed u rt).1 ≡ ok st
    → Proxied u st
unfolding use_proxy helper_set set_proxy make_proxy_spec
use_proxy-Proxied o managed u rt st h e = elim (Option-cases (check_proxy_url o u)) [
  | inl fine ↦ elim (Bool-cases o.use_helper) [
    | inl on ↦ elim (Result-cases (proxy_spec u)) [
      | inl (spec, k) ↦ let t = helped fine on spec k in (t.0, t.1, inr (spec, t.2, t.3))
      | inr (x, k) ↦ absurd (ground (arith, fine, on, k))
    ]
    | inr off ↦ let t = unhelped fine off in (t.0, t.1, inl t.2)
  ]
  | inr (x, bad) ↦ absurd (ground (arith, bad))
]
  where
    helped :
        check_proxy_url o u ≡ none
        → o.use_helper ≡ true
        → (spec : ProxySpec) → proxy_spec u ≡ ok spec
        → (st.native_proxy ≡ some u)
          × (st.options.proxy_url ≡ some u)
          × (st.helper.proxy_spec ≡ some spec)
          × (make_proxy_spec (some u) ≡ ok (some spec))
    helped fine on spec k = ground (arith, fine, on, k)

    unhelped :
        check_proxy_url o u ≡ none
        → o.use_helper ≡ false
        → (st.native_proxy ≡ some u)
          × (st.options.proxy_url ≡ some u)
          × (st.options.use_helper ≡ false)
    unhelped fine off = ground (arith, fine, off)

-- Where there is a proxy and start-up succeeds, every round tripper is set up to use it: the native
-- one and the options for uTLS have its URL, and the helper, if it is in use, has the
-- specification of it. It is the command line's proxy, or else the managed configuration's.
pub set_up_proxy-Proxied :
    (o : Options) (managed : Option Url) (rt : HelperRoundTripper) (st : Started) (u : Url)
    → proxy_of o managed ≡ some u
    → (set_up_proxy o managed rt).1 ≡ ok st
    → Proxied u st
unfolding set_up_proxy
set_up_proxy-Proxied o managed rt st u h e =
    use_proxy-Proxied (record o { proxy_url = some u }) managed u rt st refl (as_used h e)
  where
    as_used :
        proxy_of o managed ≡ some u
        → (set_up_proxy o managed rt).1 ≡ ok st
        → (use_proxy (record o { proxy_url = some u }) managed u rt).1 ≡ ok st
    as_used k f = ground (arith, k, f)
