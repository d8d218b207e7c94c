-- ===== src/Tunnel/Helped/Tests.antt =====
-- A tunnel through the helper at a concrete input. Its JSON is the body alone, and a status with a body.
use meek.Base.{ℕ, Bytes, codes, List, [], ◌∷◌, none, some, ◌≡◌, refl, arith, lookup, ap, sym}
use meek.Go.Errors.{plain, Result, ok, err}
use meek.Go.Http.{new_response, status_of}
use meek.Server.Session.{Server, new_state}
use meek.Server.Handler.{serve_http}
use meek.Server.Stream.{received}
use meek.Server.Clients.{acts}
use meek.Server.Waits.{new_state-Waits}
use meek.Client.Url.{Url}
use meek.Client.Transport.{RequestInfo, fill_request}
use meek.Client.Poll.{local, timer, start_loop, copy_loop, Loop}
use meek.Client.Helper.{
  HelperRoundTripper, Json, JsonRequest, JsonResponse, json_request, frame, big_endian,
}
use meek.Client.Helper.Peer.{over_helper, asked_body}
use meek.Tunnel.{Hop}
use meek.Tunnel.Delivery.{IsReady-dials}
use meek.Tunnel.Helped.{Helps, performed, told, copy_loop-streams_helped}

abbrev app : Url
app = record { scheme = codes "https"; user = none; host = codes "meek.example"; path = codes "/" }

abbrev helper : HelperRoundTripper
helper = record { proxy_spec = none }

abbrev read_response : Bytes → Result JsonResponse
read_response [] = err (plain (codes "unexpected end of JSON input"))
read_response (status ∷ body) = ok (record { error = []; status = status; body = body })

abbrev json : Json
json = record { marshal = λ r. ok r.body; unmarshal = read_response }

abbrev template : RequestInfo ℕ
template = record {
  session_id = codes "AAECAwQFBgc";
  url = app;
  host = [];
  round_tripper = λ req s. (err (plain []), req, s);
  sleep = λ d s. s;
}

abbrev text_of : Bytes → Bytes
text_of (a ∷ b ∷ c ∷ d ∷ s) = s
text_of s = []

-- The extension, whose other settings are fixed.
abbrev extension : Bytes → List Hop × Server → Bytes × (List Hop × Server)
extension sent ([], v) = ([], ([], v))
extension sent (h ∷ hs, v) =
    let asked = record (told helper template app []) { body = text_of sent } in
    let (w, v') =
      serve_http h.externals h.files h.link h.now (performed h asked) new_response
        (acts h.others v) in
    (frame (status_of w ∷ w.body), (hs, v'))

abbrev info : RequestInfo (List Hop × Server)
info = record {
  session_id = codes "AAECAwQFBgc";
  url = app;
  host = [];
  round_tripper = over_helper json helper extension;
  sleep = λ d s. s;
}

abbrev asked_with : Bytes → JsonRequest
asked_with b = record (told helper template app []) { body = b }

told-asked_with : (buf : Bytes) → told helper info app buf ≡ asked_with buf
unfolding json_request fill_request
told-asked_with buf = ap asked_with (asked_body helper buf info app)

extension-Helps : Helps json extension (told helper info app)
unfolding frame big_endian
extension-Helps = record {
  enc = λ buf. buf;
  marshaled = λ buf. ap ok (asked_body helper buf info app);
  back = λ w. status_of w ∷ w.body;
  answer = λ w. record { error = []; status = status_of w; body = w.body };
  performs = λ buf h hs v.
      ap
        (λ r.
          let (w, v') =
            serve_http h.externals h.files h.link h.now (performed h r) new_response
              (acts h.others v) in
          (frame (status_of w ∷ w.body), (hs, v')))
        (sym (told-asked_with buf));
  small = λ w h. omega (arith, h);
  unmarshaled = λ w. refl;
  no_error = λ w. refl;
  status = λ w. refl;
  body = λ w. refl;
}

abbrev hop : Bytes → Hop
hop said = record {
  externals = record { parse_ip = λ host. some host; dial_or = λ useraddr method. ok 7 };
  files = record { getenv = λ name. []; read_file = λ name. err (plain (codes "no such file")) };
  link = record {
    or_local = codes "127.0.0.1:40000";
    or_remote = codes "127.0.0.1:9001";
    or_write = none;
    or_read = (said, none);
    client_write = none;
  };
  now = 5;
  remote_addr = codes "192.0.2.1:4000";
  others = [];
}

abbrev final : Loop (List Hop × Server)
final =
    copy_loop (λ u. ok u) info (local (codes "ping") none ∷ timer none ∷ [])
      (start_loop (hop [] ∷ hop (codes "pong") ∷ [], new_state))

copy_loop-streams_helped_example :
    (final.result ≡ none)
    × (received 7 final.transport.1.world.sent ≡ codes "ping")
    × (final.received ≡ codes "pong")
unfolding new_state lookup
copy_loop-streams_helped_example =
    copy_loop-streams_helped json helper extension (λ u. ok u) info app refl extension-Helps refl
      (omega arith) 7 (local (codes "ping") none ∷ timer none ∷ [])
      (hop [] ∷ hop (codes "pong") ∷ []) new_state
      (IsReady-dials 7 (codes "AAECAwQFBgc") (hop [] ∷ hop (codes "pong") ∷ []) new_state
        (new_state-Waits (codes "AAECAwQFBgc") 7) (λ useraddr. refl) (tt, (tt, tt)))
      (omega arith, refl, (refl, refl, refl), (refl, (refl, refl, refl), tt))
