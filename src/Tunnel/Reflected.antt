-- ===== src/Tunnel/Reflected.antt =====
-- A tunnel through the App Engine reflector: the client's requests go to the reflector's handler,
-- and what that fetches is the server's handler. The networks on both sides deliver.
pub mod Tests
use meek.Base.{
  Bytes, List, [], ◌∷◌, ◌++◌, Option, none, some, ℕ, ◌≤◌, length, ◌≡◌, refl, ◌∙◌, ap, codes, same,
}
use meek.Go.Errors.{plain, Result, ok, err, ◌>>=◌}
use meek.Go.Http.{Header, Request, ResponseWriter, new_response, status_of, write, write_header}
use meek.Server.Session.{Server, min_session_id_length}
use meek.Server.Handler.{serve_http, post}
use meek.Server.Posts.{session_id}
use meek.Server.Stream.{received}
use meek.Server.Clients.{acts}
use meek.Client.Url.{Url}
use meek.Client.Transport.{RequestInfo, RoundTripper, fill_request, ClientRequest, ClientResponse}
use meek.Client.Poll.{Event, copy_loop, start_loop}
use meek.Reflect.{
  Fetch, ForwardRequest, ForwardResponse, forward_url, with_path, copy_request, reflect_fields,
  handler, fetched,
}
use meek.Reflect.Laws.{reflect_fields-get}
use meek.Tunnel.{Hop, arriving, answer, drained, chunks, replies}
use meek.Tunnel.Delivery.{Carries, IsReady, Serves}
use meek.Tunnel.Loop.{Carries-streams}
use meek.Tunnel.Stream.{session_id-arriving, body-arriving}

-- The header fields that the client of a handler receives.
abbrev sent_header : ResponseWriter → Header
sent_header w = elim w.sent [ none ↦ w.header | some (status, h) ↦ h ]

-- What the server receives of the reflector; its peer is the hop's.
abbrev forwarded_to : Hop → ForwardRequest → Request
forwarded_to h fr = record {
  method = fr.method;
  path = fr.url.path;
  header = fr.header;
  remote_addr = h.remote_addr;
  body = fr.body;
}

-- The server as the reflector's fetch sees it.
abbrev behind : Hop → ForwardRequest → Server → Result ForwardResponse × Server
behind h fr v =
    let (w, v') =
      serve_http h.externals h.files h.link h.now (forwarded_to h fr) new_response
        (acts h.others v) in
    (
      ok (record {
        status_code = status_of w;
        header = sent_header w;
        body = record { bytes = w.body; failure = none };
      }),
      v',
    )

unfoldable pub over_reflector : Fetch → RoundTripper (List Hop × Server)
over_reflector f req ([], v) = (err (plain (codes "connection refused")), req, ([], v))
over_reflector f req (h ∷ hs, v) =
    let (w, v') = handler (behind h) f (arriving h req) new_response v in
    (ok (answer w), record req { body = drained req.body }, (hs, v'))

module _ (f : Fetch) (base via : Url) (info : RequestInfo (List Hop × Server)) (u : Url)
    (over : info.round_tripper ≡ over_reflector f) (fixed : f.parse_url forward_url ≡ ok base)
    (changed : f.reparse (with_path u.path base) ≡ ok via) where
  -- The request that the reflector makes of one of the client's.
  abbrev passed : Bytes → Hop → ForwardRequest
  passed buf h = record {
    method = codes "POST";
    url = via;
    header = reflect_fields (arriving h (fill_request buf info u)).header [];
    body = (arriving h (fill_request buf info u)).body;
  }

  copy_request-passed :
      (buf : Bytes) (h : Hop)
      → copy_request f (arriving h (fill_request buf info u)) ≡ ok (passed buf h)
  unfolding copy_request fill_request
  copy_request-passed buf h = rw (fixed, changed)

  over_reflector-post :
      (buf : Bytes) (h : Hop) (hs : List Hop) (v : Server)
      → let r =
          post h.externals h.link h.now
            (forwarded_to h (passed buf h))
            new_response
            (acts h.others v) in
        (resp : ClientResponse) × (over_reflector f (fill_request buf info u) (h ∷ hs, v) ≡ (
          ok resp,
          record (fill_request buf info u) { body = drained (fill_request buf info u).body },
          (hs, r.1),
        ))
        × (resp.status_code ≡ status_of r.0)
        × (resp.body ≡ record { bytes = r.0.body; failure = none })
  unfolding over_reflector handler fetched serve_http same write write_header
  over_reflector-post buf h hs v = (
    answer (fetched (behind h) (ok (passed buf h)) new_response v).0,
    ap
        (λ r.
          let (w, v') = fetched (behind h) r new_response v in
          (
            ok (answer w),
            record (fill_request buf info u) { body = drained (fill_request buf info u).body },
            (hs, v'),
          ))
        (copy_request-passed buf h),
    refl,
    refl,
  )

  over_reflector-Carries : Carries info u
  over_reflector-Carries = record {
    arrives = λ buf h. forwarded_to h (passed buf h);
    session = λ buf h.
        reflect_fields-get (arriving h (fill_request buf info u)).header
        ∙ session_id-arriving info buf u h;
    whole = λ buf h. body-arriving info buf u h;
    carries = λ buf h hs v.
        let (resp, e, status, body) = over_reflector-post buf h hs v in
        (
          record (fill_request buf info u) { body = drained (fill_request buf info u).body },
          resp,
          ap (λ rt. rt (fill_request buf info u) (h ∷ hs, v)) over ∙ e,
          status,
          body,
        );
  }

module _ (f : Fetch) (base via : Url) (reparse : Url → Result Url)
    (info : RequestInfo (List Hop × Server)) (u : Url)
    (over : info.round_tripper ≡ over_reflector f) (fixed : f.parse_url forward_url ≡ ok base)
    (changed : f.reparse (with_path u.path base) ≡ ok via) (parsed : reparse info.url ≡ ok u)
    (long : min_session_id_length ≤ length info.session_id) (c : ℕ) where
  -- The streams go through the reflector too: where the client's requests go to its handler, whose URL
  -- parses and whose fetches reach the server's handler, over networks that deliver them and an OR port
  -- that takes all, while the client's session exists or the first request dials it, and other clients
  -- and sweeps leave its id and its connection alone between the requests, the OR port receives on
  -- that connection exactly the bytes of the local connection, in order, the local connection exactly
  -- what the OR port said, at most 0x10000 bytes a request, and the loop goes on.
  pub copy_loop-streams_reflected :
      (es : List Event) (hops : List Hop) (v : Server)
      → IsReady c info.session_id hops v
      → Serves es hops
      → let l = copy_loop reparse info es (start_loop (hops, v)) in
        (l.result ≡ none)
        × (received c l.transport.1.world.sent ≡ received c v.world.sent ++ chunks es)
        × (l.received ≡ replies es hops)
  copy_loop-streams_reflected =
      Carries-streams reparse info u (over_reflector-Carries f base via info u over fixed changed)
        parsed long c
