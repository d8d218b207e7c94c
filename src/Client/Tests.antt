-- ===== src/Client/Tests.antt =====
-- The client at concrete inputs.
use meek.Base.{ℕ, suc, Bytes, codes, List, [], ◌∷◌, none, some, ◌≡◌, refl, same, insert}
use meek.Go.Errors.{plain, ok, err}
use meek.Go.Http.{set_field}
use meek.Client.SessionId.{gen_session_id}
use meek.Client.Url.{Url}
use meek.Client.Transport.{
  ClientRequest, ClientResponse, RoundTripper, RequestInfo, round_trip_retries, decimal, send_recv,
  make_request, copy_limited, status_error, fill_request, replied,
}
use meek.Client.Retries.{counted, timed}
use meek.Client.Poll.{Event, local, timer, closed, start_loop, copy_loop, next_interval}
use meek.Client.Intervals.{IsInterval, copy_loop-interval}

client : Unit {0}
unfolding copy_loop start_loop send_recv make_request fill_request replied round_trip_retries
    copy_limited next_interval decimal status_error set_field same insert gen_session_id
client = tt

abbrev random : Bytes
random = 0 ∷ 1 ∷ 2 ∷ 3 ∷ 4 ∷ 5 ∷ 6 ∷ 255 ∷ []

decimal_test : decimal 503 ≡ codes "503"
unfolding client
decimal_test = refl

abbrev url : Url
url = record { scheme = codes "https"; user = none; host = codes "meek.example"; path = codes "/" }

abbrev request : ClientRequest
request = record { method = codes "POST"; url = url; host = url.host; header = []; body = none }

-- A server that answers 503 twice, and then 200.
abbrev answers : ℕ → ClientResponse
answers n = elim n [
  | ℕ.zero ↦ record { status_code = 503; body = record { bytes = []; failure = none } }
  | suc m ↦ elim m [
    | ℕ.zero ↦ record { status_code = 503; body = record { bytes = []; failure = none } }
    | suc k ↦ record { status_code = 200; body = record { bytes = codes "pong"; failure = none } }
  ]
]

abbrev busy : RoundTripper ℕ
busy req n = (ok (answers n), req, suc n)

abbrev sleep : ℕ → ℕ → ℕ
sleep d n = n

busy_tries :
    ((round_trip_retries (counted busy) (timed sleep) 10 request (0, 0, [], 0)).2.0 ≡ 3)
    × ((round_trip_retries busy sleep 10 request 0).0 ≡ ok (answers 2))
    × ((round_trip_retries busy sleep 2 request 0).0
        ≡ err (plain (codes "status code was 503, not 200")))
unfolding client
busy_tries = (refl, refl, refl)

abbrev info : RequestInfo ℕ
info = record {
  session_id = codes "AAECAwQFBgc";
  url = url;
  host = [];
  round_tripper = busy;
  sleep = sleep;
}

abbrev events : List Event
events = local (codes "ping") none ∷ timer none ∷ closed ∷ []

loop_run :
    ((copy_loop (λ u. ok u) info events (start_loop 0)).received ≡ codes "pongpong")
    × ((copy_loop (λ u. ok u) info events (start_loop 0)).result ≡ some none)
unfolding client
loop_run = (refl, refl)

copy_loop-interval_example : IsInterval (copy_loop (λ u. ok u) info events (start_loop 0)).interval
copy_loop-interval_example = copy_loop-interval (λ u. ok u) info events 0
