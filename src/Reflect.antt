-- ===== src/Reflect.antt =====
-- appengine/reflect.go: a web app that passes requests on to a meek-server. Parameters: parsing the
-- fixed URL, http.NewRequest's parsing of the changed one, and urlfetch.Transport.RoundTrip.
pub mod Laws
pub mod Tests
use meek.Base.{ℕ, Bytes, codes, [], ◌∷◌, ◌++◌, Option, none, some, ◌==◌, if◌then◌else◌, same}
use meek.Go.Errors.{GoError, Result, ok, err, ◌>>=◌}
use meek.Go.Http.{
  Header, Request, Body, ResponseWriter, get_field, add_field, http_error, write_header, write,
  set_header,
}
use meek.Server.Handler.{error_text}
use meek.Client.Url.{Url}

abbrev pub forward_url : Bytes
forward_url = codes "http://meek.bamsoftware.com:7002/"

-- a[:len(a)-1] if that takes a slash off.
unfoldable pub drop_slash : Bytes → Bytes
drop_slash [] = []
drop_slash (c ∷ []) = if c == b'/' then [] else c ∷ []
drop_slash (c ∷ d ∷ s) = c ∷ drop_slash (d ∷ s)

unfoldable pub lead_slash : Bytes → Bytes
lead_slash [] = b'/' ∷ []
lead_slash (c ∷ s) = if c == b'/' then c ∷ s else b'/' ∷ c ∷ s

-- Join two URL paths.
unfoldable pub path_join : Bytes → Bytes → Bytes
unfolding drop_slash lead_slash
path_join a b = drop_slash a ++ lead_slash b

-- reflectedHeaderFields
abbrev pub reflected_header_field : Bytes
reflected_header_field = codes "X-Session-Id"

-- The loop over the one reflected field: from one header to the other.
unfoldable pub reflect_fields : Header → Header → Header
reflect_fields from to =
    let value = get_field reflected_header_field from in
    if same value [] then to else add_field reflected_header_field value to

pub record ForwardRequest : Type 0 where
  pub method : Bytes
  pub url : Url
  pub header : Header
  pub body : Body

pub record ForwardResponse : Type 0 where
  pub status_code : ℕ
  pub header : Header
  pub body : Body

pub record Fetch : Type 0 where
  pub parse_url : Bytes → Result Url
  pub reparse : Url → Result Url

abbrev pub with_path : Bytes → Url → Url
with_path p u = record u { path = path_join u.path p }

unfoldable pub copy_request : Fetch → Request → Result ForwardRequest
copy_request f r = do
  u ← f.parse_url forward_url
  v ← f.reparse (with_path r.path u)
  ok (record { method = r.method; url = v; header = reflect_fields r.header []; body = r.body })

-- io.Copy(w, resp.Body) writes what can be read; its error is only logged.
answer : ForwardResponse → ResponseWriter → ResponseWriter
answer resp w =
    write resp.body.bytes
      (write_header resp.status_code (record w { header = reflect_fields resp.header w.header }))

failed : GoError → ResponseWriter → ResponseWriter
failed e w = http_error (error_text e) 500 w

-- urlfetch's round trip has a state of its own, that of what is behind the reflector.
module _ {ℓ} {S : Type ℓ} (round_trip : ForwardRequest → S → Result ForwardResponse × S) where
  unfoldable pub fetched : Result ForwardRequest → ResponseWriter → S → ResponseWriter × S
  unfolding answer failed
  fetched (err e) w s = (failed e w, s)
  fetched (ok fr) w s =
      let (resp, s') = round_trip fr s in (elim resp [ ok r ↦ answer r w | err e ↦ failed e w ], s')

  unfoldable pub handler : Fetch → Request → ResponseWriter → S → ResponseWriter × S
  unfolding fetched
  handler f r w s = fetched (copy_request f r) w s
