-- ===== src/Server/Stream.antt =====
-- The bytes of one session's requests reach one connection, in order.
use meek.Base.{
  ℕ, ◌≤◌, Bytes, List, [], ◌∷◌, ◌++◌, append-nil, append_assoc, some, ◌≡◌, length, ◌==◌, ==_iff,
  if◌then◌else◌, lookup, arith, All,
}
use meek.Go.Http.{Request, new_response}
use meek.Server.Session.{Server, min_session_id_length}
use meek.Server.Handler.{Link, Externals, post}
use meek.Server.Posts.{session_id, Delivers, post-Delivers}

-- All that was written to a connection, the oldest chunk first; `sent` holds the newest first.
abbrev pub received : ℕ → List (ℕ × Bytes) → Bytes
received c [] = []
received c ((d, chunk) ∷ rest) =
    let before = received c rest in if d == c then before ++ chunk else before

pub record Arrival : Type 0 where
  pub externals : Externals
  pub link : Link
  pub now : ℕ
  pub req : Request

-- The requests of one client, one after the other.
unfoldable posts : List Arrival → Server → Server
posts [] v = v
posts (a ∷ as') v = posts as' (post a.externals a.link a.now a.req new_response v).1

abbrev bodies : List Arrival → Bytes
bodies [] = []
bodies (a ∷ as') = a.req.body.bytes ++ bodies as'

abbrev IsPart : Bytes → Arrival → Type 0
IsPart id a = (session_id a.req ≡ id) × Delivers a.link a.req

pub received-cons :
    (c : ℕ) (chunk : Bytes) (rest : List (ℕ × Bytes))
    → received c ((c, chunk) ∷ rest) ≡ received c rest ++ chunk
received-cons c chunk rest = ground (arith, ==_iff c c)

-- While a client's requests are delivered and its session is not closed in between, the OR port
-- receives the bodies one behind the other on the session's connection: the stream that the client
-- cut into requests.
received-posts :
    (id : Bytes) (c t : ℕ) (as' : List Arrival) (v : Server)
    → min_session_id_length ≤ length id
    → lookup id v.session_map ≡ some (record { or = c; last_seen = t })
    → All (IsPart id) as'
    → received c (posts as' v).world.sent ≡ received c v.world.sent ++ bodies as'
unfolding posts
received-posts id c t [] v long found parts = rw append-nil
received-posts id c t (a ∷ as') v long found (part, parts) =
    let v' : Server = (post a.externals a.link a.now a.req new_response v).1 in
    let r =
      post-Delivers a.externals a.link a.now a.req new_response v c (rw part.0 long)
        (rw (part.0, found)) part.1 in
    let next : lookup id v'.session_map ≡ some (record { or = c; last_seen = a.now }) =
      rw part.0 at r.2 in
    rw (
      received-posts id c a.now as' v' long next parts,
      r.0,
      received-cons c a.req.body.bytes v.world.sent,
      append_assoc,
    )
