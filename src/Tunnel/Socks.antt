-- ===== src/Tunnel/Socks.antt =====
-- From a SOCKS request to the two byte streams.
pub mod Tests
use meek.Base.{
  Bytes, List, ◌++◌, Option, none, some, ℕ, ◌≤◌, length, lookup, ◌≡◌, refl, inr, ap, sym, ◌∙◌,
  arith,
}
use meek.Go.Errors.{Result, ok, err}
use meek.Server.Session.{Server, new_state, min_session_id_length}
use meek.Server.Stream.{received}
use meek.Server.Waits.{Waits}
use meek.Client.Url.{Url}
use meek.Client.SessionId.{gen_session_id, gen_session_id-length, session_id_length}
use meek.Client.Transport.{RequestInfo, RoundTripper}
use meek.Client.Poll.{Event, Loop, copy_loop, start_loop}
use meek.Client.Config.{Options, Args, Choice, Info, configure}
use meek.Client.Config.Laws.{configure-Configured}
use meek.Client.Socks.{Handled, looped, handle_socks, request_info, configured, with_id}
use meek.Tunnel.{Hop, chunks, replies}
use meek.Tunnel.Delivery.{Carries, Dials, Spares, IsReady, IsReady-dials, Serves}
use meek.Tunnel.Loop.{Carries-streams}

gen_session_id-long :
    (random id : Bytes)
    → length random ≡ session_id_length
    → gen_session_id (ok random) ≡ some id
    → min_session_id_length ≤ length id
gen_session_id-long random id l e =
    let (made, h, n) = gen_session_id-length random l in
    let same_id : made ≡ id = cc (h, e) in omega (arith, n, ap length same_id)

module _ {R : Type 0} (parse_url : Bytes → Result Url) (reparse : Url → Result Url)
    (new_utls_round_tripper : Bytes → Option Url → Result R)
    (tripper : Choice R → RoundTripper (List Hop × Server))
    (sleep : ℕ → List Hop × Server → List Hop × Server) where
  handle_socks-looped :
      (o : Options) (random : Bytes) (args : Args) (i : Info R) (es : List Event)
      (s : List Hop × Server) (id : Bytes)
      → gen_session_id (ok random) ≡ some id
      → configure parse_url new_utls_round_tripper o args id ≡ ok i
      → handle_socks parse_url reparse new_utls_round_tripper tripper sleep o none
          (ok random)
          args
          es
          s
        ≡ looped (
            copy_loop reparse
              (request_info parse_url reparse new_utls_round_tripper tripper sleep i)
              es
              (start_loop s))
  unfolding handle_socks
  handle_socks-looped o random args i es s id e k =
      ap (with_id parse_url reparse new_utls_round_tripper tripper sleep o args es s) e
      ∙ ap (configured parse_url reparse new_utls_round_tripper tripper sleep es s) k

  -- A SOCKS connection that is granted, with eight random bytes and a configuration that is
  -- accepted, against a server that has no session with the new id, and on the connection that it
  -- will dial no session of another: where the round tripper that is chosen carries the requests, the
  -- OR port can be dialed at the first hop and takes all, the events go through, and what others do
  -- to the server before each request leaves the id and the connection alone, handling it is the
  -- loop, which goes on; the OR port receives exactly the bytes of the local connection, in order,
  -- and the local connection what the OR port said, at most 0x10000 bytes a request.
  pub handle_socks-streams :
      (o : Options) (random : Bytes) (args : Args) (i : Info R) (u : Url) (c : ℕ) (es : List Event)
      (hops : List Hop) (id : Bytes) (v : Server)
      → length random ≡ session_id_length
      → gen_session_id (ok random) ≡ some id
      → configure parse_url new_utls_round_tripper o args id ≡ ok i
      → Carries (request_info parse_url reparse new_utls_round_tripper tripper sleep i) u
      → reparse i.url ≡ ok u
      → Waits id c none v
      → Dials c hops
      → Spares id c none hops
      → Serves es hops
      → (l : Loop (List Hop × Server)) × (handle_socks parse_url reparse new_utls_round_tripper
            tripper sleep o none
            (ok random)
            args
            es
            (hops, v)
          ≡ looped l)
        × (l.result ≡ none)
        × (received c l.transport.1.world.sent ≡ received c v.world.sent ++ chunks es)
        × (l.received ≡ replies es hops)
  handle_socks-streams o random args i u c es hops id v l e k over parsed waits dials spares
        serves =
      let info = request_info parse_url reparse new_utls_round_tripper tripper sleep i in
      let given = configure-Configured parse_url new_utls_round_tripper o args id i k in
      let long : min_session_id_length ≤ length i.session_id =
        omega (arith, gen_session_id-long random id l e, ap length given.same_id) in
      let ready : IsReady c i.session_id hops v =
        IsReady-dials c i.session_id hops v (rw given.same_id waits) dials
          (rw given.same_id spares) in
      let r = Carries-streams reparse info u over parsed long c es hops v ready serves in
      (
        copy_loop reparse info es (start_loop (hops, v)),
        handle_socks-looped o random args i es (hops, v) id e k,
        r.0,
        r.1,
        r.2,
      )
