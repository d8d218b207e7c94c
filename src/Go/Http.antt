-- ===== src/Go/Http.antt =====
-- net/http: header fields, requests as a handler sees them, and the response writer.
use meek.Base.{
  ℕ, ◌+◌, ◌-◌, Bytes, codes, List, [], ◌∷◌, ◌++◌, Option, none, some, Bool, true, false, not, ◌&&◌,
  ◌||◌, ◌==◌, leb, if◌then◌else◌, Map, lookup, insert, ◌≡◌, refl,
}
use meek.Go.Errors.{GoError}

-- http.Header: canonical keys, each with its values.
abbrev pub Header : Type 0
Header = Map (List Bytes)

is_upper : ℕ → Bool
is_upper c = leb b'A' c && leb c b'Z'

is_lower : ℕ → Bool
is_lower c = leb b'a' c && leb c b'z'

-- The marks that a token may hold besides letters and digits.
is_mark : Bytes → ℕ → Bool
is_mark [] c = false
is_mark (m ∷ ms) c = c == m || is_mark ms c

is_token : ℕ → Bool
unfolding is_upper is_lower is_mark
is_token c =
    is_upper c || is_lower c || (leb b'0' c && leb c b'9') || is_mark (codes "!#$%&'*+-.^_`|~") c

all_token : Bytes → Bool
unfolding is_token
all_token [] = true
all_token (c ∷ s) = is_token c && all_token s

-- The first letter and each letter behind a dash is put in upper case, any other in lower case.
respell : Bool → Bytes → Bytes
unfolding is_upper is_lower
respell upper [] = []
respell upper (c ∷ s) =
    (if upper && is_lower c then c - 32 else if is_upper c && not upper then c + 32 else c)
    ∷ respell (c == b'-') s

-- textproto.CanonicalMIMEHeaderKey
unfoldable pub canonical_key : Bytes → Bytes
unfolding all_token respell
canonical_key key = if all_token key then respell true key else key

first_value : Option (List Bytes) → Bytes
first_value none = []
first_value (some []) = []
first_value (some (v ∷ vs)) = v

-- header.Get(key)
unfoldable pub get_field : Bytes → Header → Bytes
unfolding canonical_key first_value lookup
get_field key h = first_value (lookup (canonical_key key) h)

-- header.Set(key, value)
unfoldable pub set_field : Bytes → Bytes → Header → Header
unfolding canonical_key insert
set_field key value h = insert (canonical_key key) (value ∷ []) h

values_of : Option (List Bytes) → List Bytes
values_of none = []
values_of (some vs) = vs

-- header.Add(key, value)
unfoldable pub add_field : Bytes → Bytes → Header → Header
unfolding canonical_key insert lookup values_of
add_field key value h =
    insert (canonical_key key) (values_of (lookup (canonical_key key) h) ++ value ∷ []) h

-- A request body: its bytes, then the error that ends it, or EOF.
pub record Body : Type 0 where
  pub bytes : Bytes
  pub failure : Option GoError

pub record Request : Type 0 where
  pub method : Bytes
  pub path : Bytes
  pub header : Header
  pub remote_addr : Bytes
  pub body : Body

-- `sent` is what WriteHeader fixed: the status and the header fields at that time.
pub record ResponseWriter : Type 0 where
  pub header : Header
  pub sent : Option (ℕ × Header)
  pub body : Bytes

abbrev pub new_response : ResponseWriter
new_response = record { header = []; sent = none; body = [] }

unfoldable pub set_header : Bytes → Bytes → ResponseWriter → ResponseWriter
set_header key value w = record w { header = set_field key value w.header }

-- Only the first call counts.
unfoldable pub write_header : ℕ → ResponseWriter → ResponseWriter
write_header status w = elim w.sent [
  | none ↦ record w { sent = some (status, w.header) }
  | some s ↦ w
]

-- A write sends status 200 if none was sent.
unfoldable pub write : Bytes → ResponseWriter → ResponseWriter
unfolding write_header
write b w = let v = write_header 200 w in record v { body = v.body ++ b }

-- http.Error(w, text, status)
unfoldable pub http_error : Bytes → ℕ → ResponseWriter → ResponseWriter
unfolding set_header write_header write
http_error text status w = write (text ++ 10 ∷ []) (
    write_header status (
      set_header (codes "X-Content-Type-Options") (codes "nosniff")
        (set_header (codes "Content-Type") (codes "text/plain; charset=utf-8") w)))

-- http.NotFound(w, req)
unfoldable pub not_found : ResponseWriter → ResponseWriter
unfolding http_error
not_found w = http_error (codes "404 page not found") 404 w

-- What the client receives when the handler returns: status 200 if nothing was sent.
abbrev pub status_of : ResponseWriter → ℕ
status_of w = elim w.sent [ none ↦ 200 | some (s, h) ↦ s ]

meek_ip_key : canonical_key (codes "Meek-IP") ≡ codes "Meek-Ip"
unfolding canonical_key
meek_ip_key = refl

session_key : canonical_key (codes "X-SESSION-id") ≡ codes "X-Session-Id"
unfolding canonical_key
session_key = refl
