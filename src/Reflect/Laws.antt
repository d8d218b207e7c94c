-- ===== src/Reflect/Laws.antt =====
-- What the reflector passes on.
use meek.Base.{
  Bytes, [], none, same, same_iff, ◌≡◌, ◌≢◌, refl, arith, lookup, insert, Bool-cases, inl, inr, sym,
}
use meek.Go.Errors.{ok}
use meek.Go.Http.{Header, Request, get_field, add_field}
use meek.Reflect.{reflect_fields, reflected_header_field, Fetch, ForwardRequest, copy_request}

-- Two requests with one method, path, body and session id are passed on alike, whatever other header
-- fields they have and wherever they come from.
copy_request-anonymous :
    (f : Fetch) (r s : Request)
    → r.method ≡ s.method
    → r.path ≡ s.path
    → r.body ≡ s.body
    → get_field reflected_header_field r.header ≡ get_field reflected_header_field s.header
    → copy_request f r ≡ copy_request f s
unfolding copy_request reflect_fields
copy_request-anonymous f r s m p b h = rw (m, p, b, h)

pub reflect_fields-get :
    (h : Header)
    → get_field reflected_header_field (reflect_fields h []) ≡ get_field reflected_header_field h
unfolding reflect_fields get_field
reflect_fields-get h = elim (Bool-cases (same (get_field reflected_header_field h) [])) [
  | inl empty ↦ rw empty (sym ((same_iff _ _).0 empty))
  | inr full ↦ rw full (added (get_field reflected_header_field h))
]
  where
    added :
        (v : Bytes) → get_field reflected_header_field (add_field reflected_header_field v []) ≡ v
    added v = unfold get_field add_field same lookup insert in refl

reflect_fields-other :
    (h : Header) (k : Bytes) → reflected_header_field ≢ k → lookup k (reflect_fields h []) ≡ none
unfolding reflect_fields
reflect_fields-other h k other = elim (Bool-cases (same (get_field reflected_header_field h) [])) [
  | inl empty ↦ rw empty (unfold lookup in refl)
  | inr full ↦ rw full (added (get_field reflected_header_field h))
]
  where
    added : (v : Bytes) → lookup k (add_field reflected_header_field v []) ≡ none
    added v = unfold add_field lookup insert in ground (arith, same_iff reflected_header_field k)

-- What is passed on has the request's method, body and session id, and no other header field.
copy_request_lem :
    (f : Fetch) (r : Request) (c : ForwardRequest) (k : Bytes)
    → copy_request f r ≡ ok c
    → reflected_header_field ≢ k
    → (c.method ≡ r.method)
      × (c.body ≡ r.body)
      × (get_field reflected_header_field c.header ≡ get_field reflected_header_field r.header)
      × (lookup k c.header ≡ none)
unfolding copy_request
copy_request_lem f r c k h other =
    ground (arith, reflect_fields-get r.header, reflect_fields-other r.header k other)
