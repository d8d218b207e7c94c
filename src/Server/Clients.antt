-- ===== src/Server/Clients.antt =====
-- Many clients of one server, and its sweeps, in any order: each client has a stream of its own.
pub mod Foreign
pub mod Tests
use meek.Base.{
  ℕ, ◌≤◌, Bytes, List, [], ◌∷◌, ◌++◌, append-nil, append_assoc, some, false, ◌≡◌, ◌≢◌, refl, sym,
  ap, ◌∙◌, arith, if◌then◌else◌, same, same_iff, same_refl, lookup, length, ◌⊎◌, inl, inr, Unique,
  Option,
}
use meek.Go.Errors.{ok}
use meek.Go.Http.{new_response}
use meek.Server.Session.{
  Session, Server, min_session_id_length, is_expired, expire_sessions, pt_method_name,
}
use meek.Server.Handler.{post}
use meek.Server.Expiry.{keep_fresh, expire_loop-world}
use meek.Server.Posts.{session_id, Delivers, post-Delivers}
use meek.Server.Isolation.{post-other}
use meek.Server.Stream.{Arrival, received, received-cons}
use meek.Server.Steps.{Step, sweeps, step, run, post-run}
use meek.Server.Abstract.{step-Unique, expire_sessions-keep_fresh}
use meek.Server.Waits.{Waits, own-Waits, foreign-Waits, sweep-Waits}
use meek.Server.Apart.{Apart, Kept, post-Kept, expire_sessions-Apart, expire_sessions-sent}

pub data Action : Type 0 where
  request : Arrival → Action
  sweep : ℕ → Action

unfoldable pub act : Action → Server → Server
act (request a) v = (post a.externals a.link a.now a.req new_response v).1
act (sweep now) v = expire_sessions now v

unfoldable pub acts : List Action → Server → Server
unfolding act
acts [] v = v
acts (a ∷ as') v = acts as' (act a v)

-- What the client with the id sends.
abbrev pub stream : Bytes → List Action → Bytes
stream id [] = []
stream id (request a ∷ as') =
    let rest = stream id as' in
    if same (session_id a.req) id then a.req.body.bytes ++ rest else rest
stream id (sweep now ∷ as') = stream id as'

-- The client's requests are delivered, others may do what they like but are not given its connection
-- by a dial, and no sweep finds the client idle for too long, who was seen at `t`.
abbrev pub GoesOn : Bytes → ℕ → ℕ → List Action → Type 0
GoesOn id c t [] = Unit
GoesOn id c t (request a ∷ as') =
    ((session_id a.req ≡ id) × Delivers a.link a.req × GoesOn id c a.now as')
    ⊎ ((id ≢ session_id a.req)
        × ((useraddr : Bytes) → a.externals.dial_or useraddr pt_method_name ≢ ok c)
        × GoesOn id c t as')
GoesOn id c t (sweep now ∷ as') =
    (is_expired now (record { or = c; last_seen = t }) ≡ false) × GoesOn id c t as'

stream_other :
    (id : Bytes) (a : Arrival) (as' : List Action)
    → id ≢ session_id a.req
    → stream id (request a ∷ as') ≡ stream id as'
stream_other id a as' ne = ground (arith, same_iff (session_id a.req) id, ne)

module _ (id : Bytes) (c : ℕ) (long : min_session_id_length ≤ length id) where
  -- The client's session, seen at `t`; nobody else has its connection, on which `got` was received.
  record Mine (t : ℕ) (got : Bytes) (v : Server) : Type 0 where
    waits : Waits id c (some t) v
    heard : received c v.world.sent ≡ got

  own-Mine :
      (a : Arrival) (t : ℕ) (got : Bytes) (v : Server)
      → session_id a.req ≡ id
      → Delivers a.link a.req
      → Mine t got v
      → Mine a.now (got ++ a.req.body.bytes) (act (request a) v)
  unfolding act
  own-Mine a t got v same_id d m =
      let r =
        own-Waits id c a.externals a.link a.now a.req (some t) v m.waits long same_id
          (rw (same_id, m.waits.held)) d in
      record { waits = r.0; heard = r.1 ∙ ap (λ g. g ++ a.req.body.bytes) m.heard }

  foreign-Mine :
      (a : Arrival) (t : ℕ) (got : Bytes) (v : Server)
      → id ≢ session_id a.req
      → ((useraddr : Bytes) → a.externals.dial_or useraddr pt_method_name ≢ ok c)
      → Mine t got v
      → Mine t got (act (request a) v)
  unfolding act
  foreign-Mine a t got v ne new m =
      let r = foreign-Waits id c a.externals a.link a.now a.req (some t) v m.waits ne new in
      record { waits = r.0; heard = r.1 ∙ m.heard }

  sweep-Mine :
      (now t : ℕ) (got : Bytes) (v : Server)
      → is_expired now (record { or = c; last_seen = t }) ≡ false
      → Mine t got v
      → Mine t got (act (sweep now) v)
  unfolding act
  sweep-Mine now t got v fresh m =
      let r = sweep-Waits id c now (some t) v fresh m.waits in
      record { waits = r.0; heard = r.1 ∙ m.heard }

  acts-Mine :
      (as' : List Action) (t : ℕ) (got : Bytes) (v : Server)
      → GoesOn id c t as'
      → Mine t got v
      → (t' : ℕ) × Mine t' (got ++ stream id as') (acts as' v)
  unfolding acts
  acts-Mine [] t got v g m = (t, rw append-nil m)
  acts-Mine (request a ∷ as') t got v (inl (same_id, d, g)) m =
      let r = acts-Mine as' a.now _ _ g (own-Mine a t got v same_id d m) in
      (r.0, rw (same_id, same_refl id, sym (append_assoc got a.req.body.bytes (stream id as'))) r.1)
  acts-Mine (request a ∷ as') t got v (inr (ne, new, g)) m =
      let r = acts-Mine as' t got _ g (foreign-Mine a t got v ne new m) in
      (r.0, rw (stream_other id a as' ne) r.1)
  acts-Mine (sweep now ∷ as') t got v (fresh, g) m =
      acts-Mine as' t got (act (sweep now) v) g (sweep-Mine now t got v fresh m)

  -- From a server whose map has one entry for each id, and on which a client with an id of eight bytes
  -- or more has a session whose connection no other has: however the requests of other clients and the
  -- sweeps come in between, and whatever becomes of those requests, while the client's own are
  -- delivered, it is never idle for too long and nobody else is given its connection by a dial, its
  -- session lives on, and what its connection receives is the bodies of its own requests, one behind
  -- the other, and nothing else.
  pub acts-stream :
      (as' : List Action) (t : ℕ) (v : Server)
      → Unique v.session_map
      → lookup id v.session_map ≡ some (record { or = c; last_seen = t })
      → Apart id c v.session_map
      → GoesOn id c t as'
      → (received c (acts as' v).world.sent ≡ received c v.world.sent ++ stream id as')
        × ((t' : ℕ) × (lookup id (acts as' v).session_map
              ≡ some (record { or = c; last_seen = t' })))
  acts-stream as' t v u held others g =
      let m : Mine t (received c v.world.sent) v = record {
        waits = record { unique = u; held = held; others = others };
        heard = refl;
      } in
      let (t', m') = acts-Mine as' t (received c v.world.sent) v g m in
      (m'.heard, (t', m'.waits.held))
