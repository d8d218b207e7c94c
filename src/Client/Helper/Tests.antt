-- ===== src/Client/Helper/Tests.antt =====
-- A helper that answers with given statuses. Its JSON is the body alone, and a status with a body.
use meek.Base.{ℕ, Bytes, codes, List, [], ◌∷◌, none, ◌≡◌, refl, arith}
use meek.Go.Errors.{plain, Result, ok, err}
use meek.Client.Url.{Url}
use meek.Client.Transport.{RequestInfo, ClientRequest, fill_request, send_recv, copy_limited}
use meek.Client.Helper.{HelperRoundTripper, Json, JsonResponse, json_request, frame}
use meek.Client.Helper.Peer.{over_helper, Answers, send_recv-lost}

abbrev app : Url
app = record { scheme = codes "https"; user = none; host = codes "meek.example"; path = codes "/" }

abbrev helper : HelperRoundTripper
helper = record { proxy_spec = none }

abbrev read_response : Bytes → Result JsonResponse
read_response [] = err (plain (codes "unexpected end of JSON input"))
read_response (status ∷ body) = ok (record { error = []; status = status; body = body })

abbrev json : Json
json = record { marshal = λ r. ok r.body; unmarshal = read_response }

abbrev extension : Bytes → List ℕ → Bytes × List ℕ
extension sent [] = ([], [])
extension sent (status ∷ rest) = (frame (status ∷ codes "pong"), rest)

abbrev info : RequestInfo (List ℕ)
info = record {
  session_id = codes "AAECAwQFBgc";
  url = app;
  host = [];
  round_tripper = over_helper json helper extension;
  sleep = λ d s. s;
}

abbrev response : ℕ → JsonResponse
response status = record { error = []; status = status; body = codes "pong" }

answer :
    (req : ClientRequest) (status : ℕ) (rest : List ℕ)
    → Answers json helper extension req (status ∷ rest) rest (response status)
answer req status rest = record {
  enc = (json_request helper req).0.body;
  marshaled = refl;
  back = status ∷ codes "pong";
  replies = refl;
  small = omega arith;
  unmarshaled = refl;
  no_error = refl;
}

send_recv-lost_example :
    (send_recv (λ u. ok u) (codes "ping") info none (502 ∷ 200 ∷ []) ≡ ((codes "pong", none), []))
    × ((json_request helper (fill_request (codes "ping") info app)).0.body ≡ codes "ping")
    × ((json_request helper (json_request helper (fill_request (codes "ping") info app)).1).0.body
        ≡ [])
unfolding copy_limited
send_recv-lost_example =
    send_recv-lost json helper extension (λ u. ok u) info app (codes "ping") none (502 ∷ 200 ∷ [])
      (200 ∷ []) [] (response 502) (response 200) refl refl (answer _ 502 (200 ∷ [])) (omega arith)
      (answer _ 200 []) refl
