-- ===== src/Tunnel/Delivery.antt =====
-- Through both programs, the bytes of the local connection arrive at the OR port, and those of the
-- OR port at the local connection, whole and in order.
use meek.Base.{
  Bytes, List, [], ◌∷◌, ◌++◌, Option, none, some, ℕ, ◌≤◌, codes, take, length, length-take, ◌≡◌,
  refl, arith, ap, ◌∙◌, false,
}
use meek.Go.Errors.{GoError, Result, ok}
use meek.Go.Http.{Request, ResponseWriter, new_response, status_of, write, write_header, set_header}
use meek.Server.Session.{Server, min_session_id_length, pt_method_name}
use meek.Server.Handler.{post, is_fatal}
use meek.Server.Posts.{session_id, connection, Delivers, post-Delivers}
use meek.Server.Stream.{received}
use meek.Server.Waits.{Waits, own-Waits}
use meek.Server.Clients.{acts}
use meek.Server.Clients.Foreign.{Foreign, acts-Waits}
use meek.Client.Url.{Url}
use meek.Client.Transport.{
  ClientRequest, ClientResponse, RequestInfo, max_payload_length, make_request, fill_request,
  send_recv, copy_limited, copy_limited_short, max_tries, replied,
}
use meek.Client.Retries.{round_trip_retries-first}
use meek.Client.Poll.{Event, local, timer, closed, Loop, settle}
use meek.Tunnel.{Hop, answer}

-- The OR port takes all, and says something or stays silent; the answer gets through.
abbrev pub IsQuiet : Hop → Type 0
IsQuiet h =
    (h.link.or_write ≡ none) × (is_fatal h.link.or_read.1 ≡ false) × (h.link.client_write ≡ none)

abbrev pub Dials : ℕ → List Hop → Type 0
Dials c [] = ⊥
Dials c (h ∷ hs) = (useraddr : Bytes) → h.externals.dial_or useraddr pt_method_name ≡ ok c

-- Others leave the client with the id and the connection alone at each hop; the client was last seen at
-- the hop before.
abbrev pub Spares : Bytes → ℕ → Option ℕ → List Hop → Type 0
Spares id c seen [] = Unit
Spares id c seen (h ∷ hs) = Foreign id c seen h.others × Spares id c (some h.now) hs

-- The id has a session with the connection, or none, and then the next request dials it; nobody else
-- has the connection, nor will have.
pub record IsReady (c : ℕ) (id : Bytes) (hs : List Hop) (v : Server) : Type 0 where
  pub seen : Option ℕ
  pub waits : Waits id c seen v
  pub dials : seen ≡ none → Dials c hs
  pub spared : Spares id c seen hs

pub IsReady-dials :
    (c : ℕ) (id : Bytes) (hs : List Hop) (v : Server)
    → Waits id c none v
    → Dials c hs
    → Spares id c none hs
    → IsReady c id hs v
IsReady-dials c id hs v w d s = record { seen = none; waits = w; dials = λ _. d; spared = s }

-- Events and hops that go through: each chunk fits a request, the local connection takes what
-- comes, and there is a quiet hop for each event.
abbrev pub Serves : List Event → List Hop → Type 0
Serves [] hs = Unit
Serves (e ∷ es) [] = ⊥
Serves (local buf sink ∷ es) (h ∷ hs) =
    (length buf ≤ max_payload_length) × (sink ≡ none) × IsQuiet h × Serves es hs
Serves (timer sink ∷ es) (h ∷ hs) = (sink ≡ none) × IsQuiet h × Serves es hs
Serves (closed ∷ es) (h ∷ hs) = ⊥

Waits-connection :
    (c : ℕ) (id : Bytes) (seen : Option ℕ) (h : Hop) (hs : List Hop) (v : Server) (req : Request)
    → session_id req ≡ id
    → Waits id c seen v
    → (seen ≡ none → Dials c (h ∷ hs))
    → connection h.externals req v ≡ some c
Waits-connection c id (some t) h hs v req e w dials = rw (e, w.held)
Waits-connection c id none h hs v req e w dials = rw (e, w.held, dials refl _)

-- The answer of a request that was delivered.
abbrev reply_to : Hop → ResponseWriter
reply_to h =
    write (take max_payload_length h.link.or_read.0)
      (set_header (codes "Content-Type") (codes "application/octet-stream") new_response)

reply_to_lem :
    (h : Hop)
    → (status_of (reply_to h) ≡ 200)
      × ((reply_to h).body ≡ take max_payload_length h.link.or_read.0)
unfolding write write_header set_header
reply_to_lem h = (refl, refl)

copy_limited-reply :
    (h : Hop)
    → copy_limited none (answer (reply_to h)).body
      ≡ (take max_payload_length h.link.or_read.0, none)
copy_limited-reply h = rw ((reply_to_lem h).1) (
    copy_limited_short (take max_payload_length h.link.or_read.0)
      (omega (arith, length-take max_payload_length h.link.or_read.0)))

-- How a round tripper carries the client's requests: each arrives at the server, with its session
-- id and its body, as one POST request, and what the server answers comes back.
pub record Carries (info : RequestInfo (List Hop × Server)) (u : Url) : Type 0 where
  pub arrives : Bytes → Hop → Request
  pub session : (buf : Bytes) (h : Hop) → session_id (arrives buf h) ≡ info.session_id
  pub whole :
      (buf : Bytes) (h : Hop) → (arrives buf h).body ≡ record { bytes = buf; failure = none }
  pub carries :
      (buf : Bytes) (h : Hop) (hs : List Hop) (v : Server)
      → let r = post h.externals h.link h.now (arrives buf h) new_response (acts h.others v) in
        (req' : ClientRequest) × (resp : ClientResponse) × (info.round_tripper
            (fill_request buf info u)
            (h ∷ hs, v)
          ≡ (ok resp, req', (hs, r.1)))
        × (resp.status_code ≡ status_of r.0)
        × (resp.body ≡ record { bytes = r.0.body; failure = none })

pub record Delivered (c : ℕ) (id buf : Bytes) (h : Hop) (hs : List Hop) (v : Server)
    (r : (Bytes × Option GoError) × (List Hop × Server)) : Type 0 where
  pub got : r.0 ≡ (take max_payload_length h.link.or_read.0, none)
  pub hops : r.1.0 ≡ hs
  pub heard : received c r.1.1.world.sent ≡ received c v.world.sent ++ buf
  pub waits : Waits id c (some h.now) r.1.1

module _ (reparse : Url → Result Url) (info : RequestInfo (List Hop × Server)) (u : Url)
    (over : Carries info u) (parsed : reparse info.url ≡ ok u)
    (long : min_session_id_length ≤ length info.session_id) where
  quiet-Delivers :
      (buf : Bytes) (h : Hop)
      → length buf ≤ max_payload_length
      → IsQuiet h
      → Delivers h.link (over.arrives buf h)
  quiet-Delivers buf h small (write_ok, read_ok, client_ok) = (
    rw (over.whole buf h) (omega arith),
    ap (λ b. b.failure) (over.whole buf h),
    rw write_ok tt,
    read_ok,
    client_ok,
  )

  made : (buf : Bytes) → make_request reparse buf info ≡ ok (fill_request buf info u)
  unfolding make_request
  made buf = rw (parsed, make_request)

  send_recv-first :
      (buf : Bytes) (s : List Hop × Server) (resp : ClientResponse) (req' : ClientRequest)
      (s' : List Hop × Server)
      → info.round_tripper (fill_request buf info u) s ≡ (ok resp, req', s')
      → resp.status_code ≡ 200
      → send_recv reparse buf info none s ≡ (copy_limited none resp.body, s')
  unfolding send_recv replied
  send_recv-first buf s resp req' s' h k =
      rw (made buf, send_recv)
        (rw (
          round_trip_retries-first info.round_tripper info.sleep max_tries (fill_request buf info u)
            req' s s' resp h k))

  pub send_recv-Delivered :
      (c : ℕ) (buf : Bytes) (h : Hop) (hs : List Hop) (v : Server)
      → length buf ≤ max_payload_length
      → IsQuiet h
      → IsReady c info.session_id (h ∷ hs) v
      → Delivered c info.session_id buf h hs v (send_recv reparse buf info none (h ∷ hs, v))
  send_recv-Delivered c buf h hs v small quiet ready =
      let req = over.arrives buf h in
      let sid = over.session buf h in
      let v' : Server = acts h.others v in
      let (w, unheard) =
        acts-Waits info.session_id c ready.seen h.others v ready.spared.0 ready.waits in
      let conn = Waits-connection c info.session_id ready.seen h hs v' req sid w ready.dials in
      let d = quiet-Delivers buf h small quiet in
      let p = post-Delivers h.externals h.link h.now req new_response v' c (rw sid long) conn d in
      let own =
        own-Waits info.session_id c h.externals h.link h.now req ready.seen v' w long sid conn d in
      let r = post h.externals h.link h.now req new_response v' in
      let (req', resp, done, status, body) = over.carries buf h hs v in
      rw
        (send_recv-first buf (h ∷ hs, v) resp req' (hs, r.1) done
          (status ∙ ap status_of p.3 ∙ (reply_to_lem h).0))
        (record {
          got =
              ap (copy_limited none)
                (body ∙ ap (λ w. record { bytes = w.body; failure = none }) p.3)
              ∙ copy_limited-reply h;
          hops = refl;
          heard =
              own.1
              ∙ ap (λ b. received c v'.world.sent ++ b.bytes) (over.whole buf h)
              ∙ ap (λ g. g ++ buf) unheard;
          waits = own.0;
        })

  pub settle-next :
      (c : ℕ) (buf : Bytes) (h : Hop) (hs : List Hop) (v : Server) (l : Loop (List Hop × Server))
      (r : (Bytes × Option GoError) × (List Hop × Server))
      → Delivered c info.session_id buf h hs v r
      → let l' = settle reparse info buf r l in
        (l'.result ≡ none)
        × (l'.transport ≡ r.1)
        × (l'.received ≡ l.received ++ take max_payload_length h.link.or_read.0)
  unfolding settle
  settle-next c buf h hs v l r d = (rw d.got, refl, rw d.got)
