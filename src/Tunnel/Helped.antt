-- ===== src/Tunnel/Helped.antt =====
-- A tunnel through the HTTP helper: meek-client/helper.go has a browser extension do the client's
-- requests. The extension is a parameter, `peer`.
pub mod Tests
use meek.Base.{
  Bytes, List, [], ◌∷◌, ◌++◌, none, some, ℕ, ◌≤◌, length, ◌≡◌, refl, ◌∙◌, ap, sym, arith, codes,
  same, Map, Bool-cases, inl, inr, erase, lookup, insert,
}
use meek.Go.Errors.{Result, ok}
use meek.Go.Http.{
  Header, Request, ResponseWriter, new_response, status_of, get_field, set_field, canonical_key,
}
use meek.Server.Session.{Server, min_session_id_length}
use meek.Server.Handler.{serve_http, post}
use meek.Server.Posts.{session_id}
use meek.Server.Answers.{post-IsShort}
use meek.Server.Stream.{received}
use meek.Server.Clients.{acts}
use meek.Client.Url.{Url}
use meek.Client.Transport.{RequestInfo, fill_request, max_payload_length}
use meek.Client.Poll.{Event, copy_loop, start_loop}
use meek.Client.Helper.{
  HelperRoundTripper, Json, JsonRequest, JsonResponse, json_request, frame,
  max_helper_response_length, first_values, with_host,
}
use meek.Client.Helper.Peer.{over_helper, over_helper-Answers, asked_body}
use meek.Tunnel.{Hop, chunks, replies}
use meek.Tunnel.Delivery.{Carries, IsReady, Serves}
use meek.Tunnel.Loop.{Carries-streams}

abbrev fields : Map Bytes → Header
fields [] = []
fields ((key, value) ∷ m) = (key, value ∷ []) ∷ fields m

-- The request that the server receives from the helper; the Host is none of its header fields.
abbrev pub performed : Hop → JsonRequest → Request
performed h r = record {
  method = r.method;
  path = r.url.path;
  header = fields (erase (codes "Host") r.header);
  remote_addr = h.remote_addr;
  body = record { bytes = r.body; failure = none };
}

-- The header that the helper is told of, for a host.
abbrev header_for : Bytes → Bytes → Map Bytes
header_for host id =
    with_host host
      ((codes "Content-Type", codes "application/octet-stream") ∷ (codes "X-Session-Id", id) ∷ [])

header_for-session_id :
    (host id : Bytes)
    → get_field (codes "X-Session-Id") (fields (erase (codes "Host") (header_for host id))) ≡ id
unfolding with_host get_field canonical_key same lookup insert erase
header_for-session_id host id = elim (Bool-cases (same host [])) [
  | inl e ↦ rw e refl
  | inr e ↦ rw e refl
]

-- The helper does a request of the loop once, at the server, and answers with the status and the body,
-- in a text that is read back; a body that the loop reads whole is within the limit of helper.go.
pub record Helps (j : Json) (peer : Bytes → List Hop × Server → Bytes × (List Hop × Server))
    (told : Bytes → JsonRequest) : Type 0 where
  pub enc : Bytes → Bytes
  pub marshaled : (buf : Bytes) → j.marshal (told buf) ≡ ok (enc buf)
  pub back : ResponseWriter → Bytes
  pub answer : ResponseWriter → JsonResponse
  pub performs :
      (buf : Bytes) (h : Hop) (hs : List Hop) (v : Server)
      → let r =
          serve_http h.externals h.files h.link h.now
            (performed h (told buf))
            new_response
            (acts h.others v) in
        peer (frame (enc buf)) (h ∷ hs, v) ≡ (frame (back r.0), (hs, r.1))
  pub small :
      (w : ResponseWriter)
      → length w.body ≤ max_payload_length
      → length (back w) ≤ max_helper_response_length
  pub unmarshaled : (w : ResponseWriter) → j.unmarshal (back w) ≡ ok (answer w)
  pub no_error : (w : ResponseWriter) → (answer w).error ≡ []
  pub status : (w : ResponseWriter) → (answer w).status ≡ status_of w
  pub body : (w : ResponseWriter) → (answer w).body ≡ w.body

-- The request of the loop, as the helper is told of it.
abbrev pub told {ℓ} : {S : Type ℓ} → HelperRoundTripper → RequestInfo S → Url → Bytes → JsonRequest
told rt info u buf = (json_request rt (fill_request buf info u)).0

module _ (j : Json) (rt : HelperRoundTripper)
    (peer : Bytes → List Hop × Server → Bytes × (List Hop × Server))
    (info : RequestInfo (List Hop × Server)) (u : Url)
    (over : info.round_tripper ≡ over_helper j rt peer) where
  session_id-performed :
      (buf : Bytes) (h : Hop) → session_id (performed h (told rt info u buf)) ≡ info.session_id
  unfolding json_request fill_request get_field set_field canonical_key first_values with_host same
      lookup insert erase
  session_id-performed buf h = header_for-session_id (fill_request buf info u).host info.session_id

  performed-post :
      (buf : Bytes) (h : Hop) (v : Server)
      → serve_http h.externals h.files h.link h.now
          (performed h (told rt info u buf))
          new_response
          v
        ≡ post h.externals h.link h.now (performed h (told rt info u buf)) new_response v
  unfolding serve_http json_request fill_request same
  performed-post buf h v = refl

  performed-body :
      (buf : Bytes) (h : Hop)
      → (performed h (told rt info u buf)).body ≡ record { bytes = buf; failure = none }
  performed-body buf h = ap (λ b. record { bytes = b; failure = none }) (asked_body rt buf info u)

  module _ (helps : Helps j peer (told rt info u)) where
    over_helper-post :
        (buf : Bytes) (h : Hop) (hs : List Hop) (v : Server)
        → let r =
            post h.externals h.link h.now
              (performed h (told rt info u buf))
              new_response
              (acts h.others v) in
          let a = helps.answer r.0 in
          over_helper j rt peer (fill_request buf info u) (h ∷ hs, v) ≡ (
            ok (record {
              status_code = a.status;
              body = record { bytes = a.body; failure = none };
            }),
            (json_request rt (fill_request buf info u)).1,
            (hs, r.1),
          )
    over_helper-post buf h hs v =
        let r =
          post h.externals h.link h.now (performed h (told rt info u buf)) new_response
            (acts h.others v) in
        over_helper-Answers j rt peer (fill_request buf info u) (h ∷ hs, v) (hs, r.1)
          (helps.answer r.0)
          (record {
            enc = helps.enc buf;
            marshaled = helps.marshaled buf;
            back = helps.back r.0;
            replies =
                helps.performs buf h hs v
                ∙ ap (λ r. (frame (helps.back r.0), (hs, r.1)))
                    (performed-post buf h (acts h.others v));
            small = helps.small r.0 (
                post-IsShort h.externals h.link h.now (performed h (told rt info u buf))
                  (acts h.others v));
            unmarshaled = helps.unmarshaled r.0;
            no_error = helps.no_error r.0;
          })

    over_helper-Carries : Carries info u
    over_helper-Carries = record {
      arrives = λ buf h. performed h (told rt info u buf);
      session = session_id-performed;
      whole = performed-body;
      carries = λ buf h hs v.
          let r =
            post h.externals h.link h.now (performed h (told rt info u buf)) new_response
              (acts h.others v) in
          let a = helps.answer r.0 in
          (
            (json_request rt (fill_request buf info u)).1,
            record { status_code = a.status; body = record { bytes = a.body; failure = none } },
            ap (λ t. t (fill_request buf info u) (h ∷ hs, v)) over ∙ over_helper-post buf h hs v,
            helps.status r.0,
            ap (λ b. record { bytes = b; failure = none }) (helps.body r.0),
          );
    }

module _ (j : Json) (rt : HelperRoundTripper)
    (peer : Bytes → List Hop × Server → Bytes × (List Hop × Server)) (reparse : Url → Result Url)
    (info : RequestInfo (List Hop × Server)) (u : Url)
    (over : info.round_tripper ≡ over_helper j rt peer) (helps : Helps j peer (told rt info u))
    (parsed : reparse info.url ≡ ok u) (long : min_session_id_length ≤ length info.session_id)
    (c : ℕ) where
  -- The streams go through the helper too: where the client's requests go to a helper that does each of
  -- them once, at the server's handler, over networks that deliver them and an OR port that takes all,
  -- while the client's session exists or the first request dials it, and other clients and sweeps leave
  -- its id and its connection alone between the requests, the OR port receives on that connection
  -- exactly the bytes of the local connection, in order, the local connection exactly what the OR port
  -- said, at most 0x10000 bytes a request, and the loop goes on.
  pub copy_loop-streams_helped :
      (es : List Event) (hops : List Hop) (v : Server)
      → IsReady c info.session_id hops v
      → Serves es hops
      → let l = copy_loop reparse info es (start_loop (hops, v)) in
        (l.result ≡ none)
        × (received c l.transport.1.world.sent ≡ received c v.world.sent ++ chunks es)
        × (l.received ≡ replies es hops)
  copy_loop-streams_helped =
      Carries-streams reparse info u (over_helper-Carries j rt peer info u over helps) parsed long c
