-- ===== src/Tunnel/Stream.antt =====
-- The two byte streams of a tunnel whose requests go straight to the server.
use meek.Base.{
  Bytes, List, ◌∷◌, ◌++◌, none, ℕ, ◌≤◌, length, ◌≡◌, refl, ◌∙◌, ap, lookup, insert, same, arith,
}
use meek.Go.Errors.{Result, ok}
use meek.Go.Http.{get_field, set_field, new_response}
use meek.Server.Session.{Server, min_session_id_length}
use meek.Server.Handler.{serve_http, post}
use meek.Server.Posts.{session_id}
use meek.Server.Stream.{received}
use meek.Server.Clients.{acts}
use meek.Client.Url.{Url}
use meek.Client.Transport.{RequestInfo, fill_request}
use meek.Client.Poll.{Event, copy_loop, start_loop}
use meek.Tunnel.{Hop, over_http, arriving, answer, drained, chunks, replies}
use meek.Tunnel.Delivery.{Carries, IsReady, Serves}
use meek.Tunnel.Loop.{Carries-streams}

module _ {ℓ} {S : Type ℓ} (info : RequestInfo S) (buf : Bytes) (u : Url) (h : Hop) where
  pub session_id-arriving : session_id (arriving h (fill_request buf info u)) ≡ info.session_id
  unfolding fill_request get_field set_field same lookup insert
  session_id-arriving = refl

  pub body-arriving :
      (arriving h (fill_request buf info u)).body ≡ record { bytes = buf; failure = none }
  unfolding fill_request
  body-arriving = ground arith

module _ (info : RequestInfo (List Hop × Server)) (u : Url)
    (over : info.round_tripper ≡ over_http) where
  over_http-post :
      (buf : Bytes) (h : Hop) (hs : List Hop) (v : Server)
      → let req = fill_request buf info u in
        let r = post h.externals h.link h.now (arriving h req) new_response (acts h.others v) in
        over_http req (h ∷ hs, v)
        ≡ (ok (answer r.0), record req { body = drained req.body }, (hs, r.1))
  unfolding over_http serve_http fill_request same
  over_http-post buf h hs v = refl

  pub over_http-Carries : Carries info u
  over_http-Carries = record {
    arrives = λ buf h. arriving h (fill_request buf info u);
    session = λ buf h. session_id-arriving info buf u h;
    whole = λ buf h. body-arriving info buf u h;
    carries = λ buf h hs v. (
      record (fill_request buf info u) { body = drained (fill_request buf info u).body },
      answer
          (post h.externals h.link h.now (arriving h (fill_request buf info u)) new_response
            (acts h.others v)).0,
      ap (λ rt. rt (fill_request buf info u) (h ∷ hs, v)) over ∙ over_http-post buf h hs v,
      refl,
      refl,
    );
  }

module _ (reparse : Url → Result Url) (info : RequestInfo (List Hop × Server)) (u : Url)
    (over : info.round_tripper ≡ over_http) (parsed : reparse info.url ≡ ok u)
    (long : min_session_id_length ≤ length info.session_id) (c : ℕ) where
  -- A client's loop with a session id of at least eight bytes, whose requests go to the server's
  -- handler, over a network that delivers them and an OR port that takes all. The server has the
  -- client's session, or the first request dials one; before each request other clients and sweeps do
  -- what they like to the server, but are given the client's connection by no dial, do not use its id,
  -- and do not find it idle for too long. Then whatever the sizes of the chunks that were read, at most
  -- 0x10000 bytes each, and whenever the timer fires, the OR port receives on the client's connection
  -- exactly the bytes of the local connection, in order; the local connection receives exactly what the
  -- OR port said, at most 0x10000 bytes a request; and the loop goes on.
  pub copy_loop-streams :
      (es : List Event) (hops : List Hop) (v : Server)
      → IsReady c info.session_id hops v
      → Serves es hops
      → let l = copy_loop reparse info es (start_loop (hops, v)) in
        (l.result ≡ none)
        × (received c l.transport.1.world.sent ≡ received c v.world.sent ++ chunks es)
        × (l.received ≡ replies es hops)
  copy_loop-streams = Carries-streams reparse info u (over_http-Carries info u over) parsed long c
