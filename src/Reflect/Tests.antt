-- ===== src/Reflect/Tests.antt =====
-- The reflector at concrete inputs.
use meek.Base.{ℕ, suc, Bytes, codes, [], ◌∷◌, none, ◌≡◌, refl, lookup, insert, same}
use meek.Go.Errors.{Result, ok, err, plain}
use meek.Go.Http.{
  Request, get_field, add_field, new_response, status_of, http_error, set_header, set_field,
  write_header, write,
}
use meek.Client.Url.{Url}
use meek.Reflect.{
  Fetch, ForwardRequest, ForwardResponse, path_join, drop_slash, lead_slash, copy_request,
  reflect_fields, handler,
}

reflected : Unit {0}
unfolding path_join drop_slash lead_slash copy_request reflect_fields handler get_field add_field
    lookup insert same http_error set_header set_field write_header write
reflected = tt

path_join_tests :
    (path_join (codes "/reflect/") (codes "/x") ≡ codes "/reflect/x")
    × (path_join [] [] ≡ codes "/")
    × (path_join (codes "/a") (codes "b") ≡ codes "/a/b")
unfolding reflected
path_join_tests = (refl, refl, refl)

abbrev bridge : Url
bridge = record { scheme = codes "http"; user = none; host = codes "bridge:7002"; path = codes "/" }

abbrev fetch : Fetch
fetch = record { parse_url = λ _. ok bridge; reparse = λ u. ok u }

abbrev from : Bytes → Request
from address = record {
  method = codes "POST";
  path = codes "/x";
  header =
      (codes "User-Agent", address ∷ []) ∷ (codes "X-Session-Id", codes "cbIzfhx1Hn+" ∷ []) ∷ [];
  remote_addr = address;
  body = record { bytes = codes "ping"; failure = none };
}

abbrev copied : ForwardRequest
copied = record {
  method = codes "POST";
  url = record bridge { path = codes "/x" };
  header = (codes "X-Session-Id", codes "cbIzfhx1Hn+" ∷ []) ∷ [];
  body = record { bytes = codes "ping"; failure = none };
}

copy_request_test : copy_request fetch (from (codes "10.0.0.1")) ≡ ok copied
unfolding reflected
copy_request_test = refl

abbrev echo : ForwardRequest → ℕ → Result ForwardResponse × ℕ
echo r n = (ok (record { status_code = 200; header = []; body = r.body }), suc n)

handler_test :
    ((handler echo fetch (from []) new_response 0).0.body ≡ codes "ping")
    × ((handler echo fetch (from []) new_response 0).1 ≡ 1)
unfolding reflected
handler_test = (refl, refl)

abbrev unreachable : ForwardRequest → ℕ → Result ForwardResponse × ℕ
unreachable r n = (err (plain (codes "DEADLINE_EXCEEDED")), n)

handler_failure : status_of (handler unreachable fetch (from []) new_response 0).0 ≡ 500
unfolding reflected
handler_failure = refl
