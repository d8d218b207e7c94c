-- ===== src/Tunnel/Loop.antt =====
-- The client's loop over any round tripper that carries its requests to the server.
use meek.Base.{
  Bytes, List, [], ◌∷◌, ◌++◌, append-nil, append_assoc, none, some, ℕ, ◌≤◌, length, take, ◌≡◌, refl,
  ap, sym, ◌∙◌, arith,
}
use meek.Go.Errors.{Result, ok}
use meek.Server.Session.{Server, min_session_id_length}
use meek.Server.Stream.{received}
use meek.Client.Url.{Url}
use meek.Client.Transport.{RequestInfo, max_payload_length, send_recv, Sink}
use meek.Client.Poll.{
  Event, local, timer, closed, Loop, copy_loop, iterate, settle, poll, copy_loop-running,
  start_loop,
}
use meek.Tunnel.{Hop, chunks, replies}
use meek.Tunnel.Delivery.{Carries, IsQuiet, IsReady, Serves, send_recv-Delivered, settle-next}

abbrev Line : Type 0
Line = List Hop × Server

module _ (reparse : Url → Result Url) (info : RequestInfo Line) (u : Url) (over : Carries info u)
    (parsed : reparse info.url ≡ ok u) (long : min_session_id_length ≤ length info.session_id)
    (c : ℕ) where
  -- The loop goes on; the OR port has `up` more than before, the local connection `down`.
  record Carried (up down : Bytes) (v : Server) (l l' : Loop Line) : Type 0 where
    running : l'.result ≡ none
    upwards : received c l'.transport.1.world.sent ≡ received c v.world.sent ++ up
    downwards : l'.received ≡ l.received ++ down

  record Next (buf : Bytes) (h : Hop) (hs : List Hop) (v : Server) (l l' : Loop Line) : Type 0 where
    server : Server
    running : l'.result ≡ none
    transport : l'.transport ≡ (hs, server)
    ready : IsReady c info.session_id hs server
    upwards : received c server.world.sent ≡ received c v.world.sent ++ buf
    downwards : l'.received ≡ l.received ++ take max_payload_length h.link.or_read.0

  poll-Next :
      (buf : Bytes) (h : Hop) (hs : List Hop) (v : Server) (l : Loop Line)
      → length buf ≤ max_payload_length
      → IsQuiet h
      → IsReady c info.session_id (h ∷ hs) v
      → l.transport ≡ (h ∷ hs, v)
      → Next buf h hs v l (poll reparse info buf none l)
  unfolding poll
  poll-Next buf h hs v l small quiet ready at_hop =
      let r = send_recv reparse buf info none (h ∷ hs, v) in
      let d = send_recv-Delivered reparse info u over parsed long c buf h hs v small quiet ready in
      let n = settle-next reparse info u over parsed long c buf h hs v l r d in
      let moved : poll reparse info buf none l ≡ settle reparse info buf r l =
        ap (λ t. settle reparse info buf (send_recv reparse buf info none t) l) at_hop in
      rw moved (record {
        server = r.1.1;
        running = n.0;
        transport = n.1 ∙ ap (λ hops. (hops, r.1.1)) d.hops;
        ready = record {
          seen = some h.now;
          waits = d.waits;
          dials = λ e. absurd (cc e);
          spared = ready.spared.1;
        };
        upwards = d.heard;
        downwards = n.2;
      })

  Carried-cons :
      (buf up down : Bytes) (h : Hop) (hs : List Hop) (v : Server) (l l' l'' : Loop Line)
      (n : Next buf h hs v l l')
      → Carried up down n.server l' l''
      → Carried (buf ++ up) (take max_payload_length h.link.or_read.0 ++ down) v l l''
  Carried-cons buf up down h hs v l l' l'' n k = record {
    running = k.running;
    upwards = rw (k.upwards, n.upwards) (append_assoc (received c v.world.sent) buf up);
    downwards = rw (k.downwards, n.downwards) (append_assoc l.received _ down);
  }

  iterate-local :
      (buf : Bytes) (sink : Sink) (l : Loop Line)
      → sink ≡ none
      → iterate reparse info (local buf sink) l ≡ poll reparse info buf none l
  unfolding iterate
  iterate-local buf sink l h = ap (λ k. poll reparse info buf k l) h

  iterate-timer :
      (sink : Sink) (l : Loop Line)
      → sink ≡ none
      → iterate reparse info (timer sink) l ≡ poll reparse info [] none l
  unfolding iterate
  iterate-timer sink l h = ap (λ k. poll reparse info [] k l) h

  copy_loop-nil : (l : Loop Line) → copy_loop reparse info [] l ≡ l
  unfolding copy_loop
  copy_loop-nil l = refl

  copy_loop-Carried :
      (es : List Event) (hops : List Hop) (v : Server) (l : Loop Line)
      → l.result ≡ none
      → l.transport ≡ (hops, v)
      → IsReady c info.session_id hops v
      → Serves es hops
      → Carried (chunks es) (replies es hops) v l (copy_loop reparse info es l)
  copy_loop-Carried [] hops v l running at_hop ready s = rw (copy_loop-nil l) (record {
    running = running;
    upwards =
        ap (λ t. received c t.1.world.sent) at_hop ∙ sym (append-nil (received c v.world.sent));
    downwards = sym (append-nil l.received);
  })
  copy_loop-Carried (e ∷ es) [] v l running at_hop ready s = absurd s
  copy_loop-Carried (local buf sink ∷ es) (h ∷ hs) v l running at_hop ready s =
      let n = poll-Next buf h hs v l s.0 s.2 ready at_hop in
      let k =
        copy_loop-Carried es hs n.server (poll reparse info buf none l) n.running n.transport
          n.ready s.3 in
      rw
        (copy_loop-running reparse info (local buf sink) es l running, iterate-local buf sink l s.1)
        (Carried-cons buf (chunks es) (replies es hs) h hs v l (poll reparse info buf none l) _ n k)
  copy_loop-Carried (timer sink ∷ es) (h ∷ hs) v l running at_hop ready s =
      let n = poll-Next [] h hs v l (omega arith) s.1 ready at_hop in
      let k =
        copy_loop-Carried es hs n.server (poll reparse info [] none l) n.running n.transport n.ready
          s.2 in
      rw (copy_loop-running reparse info (timer sink) es l running, iterate-timer sink l s.0)
        (Carried-cons [] (chunks es) (replies es hs) h hs v l (poll reparse info [] none l) _ n k)
  copy_loop-Carried (closed ∷ es) (h ∷ hs) v l running at_hop ready s = absurd s

  -- The bytes of the local connection arrive at the OR port, and those of the OR port at the local
  -- connection.
  pub Carries-streams :
      (es : List Event) (hops : List Hop) (v : Server)
      → IsReady c info.session_id hops v
      → Serves es hops
      → let l = copy_loop reparse info es (start_loop (hops, v)) in
        (l.result ≡ none)
        × (received c l.transport.1.world.sent ≡ received c v.world.sent ++ chunks es)
        × (l.received ≡ replies es hops)
  unfolding start_loop
  Carries-streams es hops v ready s =
      let k = copy_loop-Carried es hops v (start_loop (hops, v)) refl refl ready s in
      (k.running, k.upwards, k.downwards)
