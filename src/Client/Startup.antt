-- ===== src/Client/Startup.antt =====
-- main of meek-client/meek-client.go: its options, the proxy set-up, and the loop over the methods. A
-- fatal error ends the program. Resolving the helper's address, url.Parse and pt.ListenSocks are
-- parameters.
pub mod Laws
pub mod Tests
use meek.Base.{
  Bytes, codes, List, [], ◌∷◌, ◌++◌, Option, none, some, Bool, true, false, same, if◌then◌else◌,
}
use meek.Go.Errors.{GoError, plain, Result, ok, err, ◌>>=◌}
use meek.Server.Handler.{error_text}
use meek.Lifecycle.{because}
use meek.Client.Url.{Url}
use meek.Client.Helper.{HelperRoundTripper, set_proxy}
use meek.Client.Config.{Options, check_proxy_url}

-- What the program tells the one that started it.
pub data Message : Type 0 where
  proxy_error : GoError → Message
  proxy_done : Message

-- The options, the proxy of httpRoundTripper, and helperRoundTripper.
pub record Started : Type 0 where
  pub options : Options
  pub native_proxy : Option Url
  pub helper : HelperRoundTripper

-- The command line's proxy overrides the managed configuration's.
abbrev pub proxy_of : Options → Option Url → Option Url
proxy_of o managed = elim o.proxy_url [ none ↦ managed | some u ↦ some u ]

abbrev done : Option Url → List Message
done none = []
done (some u) = proxy_done ∷ []

unfoldable helper_set :
    Options → Option Url → Url → Option GoError × HelperRoundTripper → List Message × Result Started
helper_set o managed u (some e, rt) = (proxy_error e ∷ [], err (because (codes "proxy error: ") e))
helper_set o managed u (none, rt) =
    (done managed, ok (record { options = o; native_proxy = some u; helper = rt }))

unfoldable use_proxy :
    Options → Option Url → Url → HelperRoundTripper → List Message × Result Started
unfolding helper_set
use_proxy o managed u rt = elim (check_proxy_url o u) [
  | some e ↦ (proxy_error e ∷ [], err (because (codes "proxy error: ") e))
  | none ↦ helper_set o managed u (if o.use_helper then set_proxy (some u) rt else (none, rt))
]

unfoldable pub set_up_proxy :
    Options → Option Url → HelperRoundTripper → List Message × Result Started
unfolding use_proxy
set_up_proxy o managed rt = elim (proxy_of o managed) [
  | none ↦ (
    [],
    ok (record { options = record o { proxy_url = none }; native_proxy = none; helper = rt }),
  )
  | some u ↦ use_proxy (record o { proxy_url = some u }) managed u rt
]

-- The command line, as strings.
pub record ClientFlags : Type 0 where
  pub front : Bytes
  pub helper : Bytes
  pub proxy : Bytes
  pub url : Bytes
  pub utls : Bytes

abbrev helper_of : (Bytes → Option GoError) → Bytes → Result Bool
helper_of resolve addr = if same addr [] then ok false else elim (resolve addr) [
  | none ↦ ok true
  | some e ↦ err (because (codes "can't resolve helper address: ") e)
]

abbrev proxy_url_of : (Bytes → Result Url) → Bytes → Result (Option Url)
proxy_url_of parse_url proxy = if same proxy [] then ok none else elim (parse_url proxy) [
  | ok u ↦ ok (some u)
  | err e ↦ err (because (codes "can't parse proxy URL: ") e)
]

unfoldable pub options_of :
    (Bytes → Option GoError) → (Bytes → Result Url) → ClientFlags → Result Options
options_of resolve parse_url f = do
  use_helper ← helper_of resolve f.helper
  proxy_url ← proxy_url_of parse_url f.proxy
  ok (record {
    url = f.url;
    front = f.front;
    proxy_url = proxy_url;
    use_helper = use_helper;
    utls_name = f.utls;
  })

pub data MethodEvent : Type 0 where
  cmethod : (method addr : Bytes) → MethodEvent
  cmethod_error : (method text : Bytes) → MethodEvent
  cmethods_done : MethodEvent

abbrev pub client_method_name : Bytes
client_method_name = codes "meek"

-- The line for one try to listen, and the listener if there is one.
abbrev pub tried : Bytes → Result Bytes → MethodEvent × List Bytes
tried name (ok addr) = (cmethod name addr, addr ∷ [])
tried name (err e) = (cmethod_error name (error_text e), [])

-- The loop over the method names; `listen` is pt.ListenSocks, with a state of its own, and gives the
-- listener's address. The result has the lines and the listeners.
unfoldable pub listen_methods :
    {W : Type 0} → (W → Result Bytes × W) → List Bytes → W → (List MethodEvent × List Bytes) × W
listen_methods listen [] w = ((cmethods_done ∷ [], []), w)
listen_methods listen (name ∷ names) w =
    let (r, w') = listen w in
    let (rest, w₁) = listen_methods listen names w' in
    let others = listen_methods listen names w in
    if same name client_method_name
    then (((tried name r).0 ∷ rest.0, (tried name r).1 ++ rest.1), w₁)
    else ((cmethod_error name (codes "no such method") ∷ others.0.0, others.0.1), others.1)
