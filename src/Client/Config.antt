-- ===== src/Client/Config.antt =====
-- meek-client/meek-client.go: handleSOCKS from its grant to copyLoop, acceptSOCKS and checkProxyURL.
-- Parsing a URL and making a uTLS round tripper are parameters.
pub mod Laws
pub mod Sources
pub mod Tests
use meek.Base.{
  Bytes, codes, List, [], ◌∷◌, ◌++◌, Option, none, some, Bool, true, false, ◌||◌, if◌then◌else◌,
  same, Map, lookup,
}
use meek.Go.Errors.{GoError, plain, Result, ok, err, ◌>>=◌}
use meek.Client.Url.{Url, Userinfo}
use meek.Client.Helper.{is_helper_scheme}

-- `options`, set by the command line.
pub record Options : Type 0 where
  pub url : Bytes
  pub front : Bytes
  pub proxy_url : Option Url
  pub use_helper : Bool
  pub utls_name : Bytes

-- Which RoundTripper a connection uses.
pub data Choice (R : Type 0) : Type 0 where
  helper : Choice R
  native : Choice R
  utls : R → Choice R

pub record Info (R : Type 0) : Type 0 where
  pub session_id : Bytes
  pub url : Url
  pub host : Bytes
  pub round_tripper : Choice R

-- An argument of the SOCKS request, or else an option that is not empty.
unfoldable pub arg_or_option : Option Bytes → Bytes → Option Bytes
arg_or_option (some v) option = some v
arg_or_option none option = if same option [] then none else some option

-- conn.Req.Args.Get gives the first value of a key.
abbrev pub Args : Type 0
Args = Map Bytes

-- With a front, the URL's host goes to the Host header, and the front takes its place.
unfoldable pub fronted : Option Bytes → Url → Url × Bytes
fronted none u = (u, [])
fronted (some front) u = (record u { host = front }, u.host)

module _ {R : Type 0} (parse_url : Bytes → Result Url)
    (new_utls_round_tripper : Bytes → Option Url → Result R) where
  unfoldable pub choose : Options → Option Bytes → Result (Choice R)
  choose o none = if o.use_helper then ok helper else ok native
  choose o (some name) =
      if o.use_helper
      then err (plain (codes "cannot use utls with --helper"))
      else new_utls_round_tripper name o.proxy_url >>= λ rt. ok (utls rt)

  unfoldable requested_url : Options → Args → Result Url
  requested_url o args = elim (arg_or_option (lookup (codes "url") args) o.url) [
    | none ↦ err (plain (codes "no URL for SOCKS request"))
    | some u ↦ parse_url u
  ]

  -- The configuration that copyLoop is called with.
  unfoldable pub configure : Options → Args → Bytes → Result (Info R)
  unfolding requested_url
  configure o args session_id = do
    u ← requested_url o args
    let f = fronted (arg_or_option (lookup (codes "front") args) o.front) u
    rt ← choose o (arg_or_option (lookup (codes "utls") args) o.utls_name)
    ok (record { session_id = session_id; url = f.0; host = f.1; round_tripper = rt })

bad_scheme : Bytes → GoError
bad_scheme s = plain (codes "don't understand proxy URL scheme " ++ s)

abbrev pub is_native_scheme : Bytes → Bool
is_native_scheme s = same s (codes "http") || same s (codes "https") || same s (codes "socks5")

-- A nil error is `none`.
unfoldable pub check_proxy_url : Options → Url → Option GoError
unfolding bad_scheme
check_proxy_url o u =
    if o.use_helper
    then if is_helper_scheme u.scheme
      then elim u.user [
        | none ↦ none
        | some login ↦
            some
              (plain (codes "a proxy URL with a username or password can't be used with --helper"))
      ]
      else some (bad_scheme u.scheme)
    else if is_native_scheme u.scheme
    then none
    else some (bad_scheme u.scheme)

-- What ln.AcceptSocks returns; an error may be temporary.
pub data Accepted : Type 0 where
  accepted : (conn : Bytes) → Accepted
  refused : (temporary : Bool) (error : GoError) → Accepted

-- The loop of acceptSOCKS over what it accepts: the connections that are handled, each in a thread of
-- its own, and the error that ends the loop.
unfoldable pub accept_socks : List Accepted → List Bytes × Option GoError
accept_socks [] = ([], none)
accept_socks (accepted conn ∷ rest) = let (conns, e) = accept_socks rest in (conn ∷ conns, e)
accept_socks (refused temporary error ∷ rest) =
    let more = accept_socks rest in if temporary then more else ([], some error)
