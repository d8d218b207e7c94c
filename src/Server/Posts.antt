-- ===== src/Server/Posts.antt =====
-- What a POST request with a session id does, on each branch behind the test of the id.
use Prim.Native.Nat.{ℕ}
use meek.Base.{
  ◌+◌, ◌≤◌, ◌<◌, lt→ltb, Bytes, codes, ◌∷◌, Option, none, some, false, length, take, ◌≡◌, le→ltb,
  arith, Option-cases, inl, inr, lookup, insert, erase, lookup-insert, lookup-erase, same_refl,
}
use meek.Go.Errors.{GoError, Result, ok, err}
use meek.Go.Http.{Request, ResponseWriter, set_header, write, get_field}
use meek.UserAddr.{get_useraddr}
use meek.Server.Session.{
  Session, Server, max_payload_length, min_session_id_length, get_session, touch, start_session,
  close_session, close_or, pt_method_name,
}
use meek.Server.Handler.{
  Link, Externals, Transaction, transact, is_fatal, post, with_session, finish, log_error,
  http_bad_request,
}
use meek.Server.Transact.{Fits, transact-error_iff, transact_lem, transact-connections}

abbrev pub session_id : Request → Bytes
session_id req = get_field (codes "X-Session-Id") req.header

-- The connection that a request works on: that of its session, or else the one that is dialed.
abbrev pub conn_for : Option Session → Result ℕ → Option ℕ
conn_for (some s) dialed = some s.or
conn_for none (ok c) = some c
conn_for none (err e) = none

abbrev pub connection : Externals → Request → Server → Option ℕ
connection x req v =
    conn_for (lookup (session_id req) v.session_map)
      (x.dial_or (get_useraddr x.parse_ip req) pt_method_name)

-- The body is forwarded, and the answer taken, without an error.
abbrev pub Delivers : Link → Request → Type 0
Delivers link req =
    (length req.body.bytes ≤ max_payload_length + 1)
    × (req.body.failure ≡ none)
    × Fits link.or_write req.body.bytes
    × (is_fatal link.or_read.1 ≡ false)
    × (link.client_write ≡ none)

-- The server behind a successful look-up.
pub record Obtained (id : Bytes) (now c : ℕ) (v : Server) (r : Result Session × Server)
    : Type 0 where
  pub session : r.0 ≡ ok (record { or = c; last_seen = now })
  pub mapped : r.1.session_map ≡ insert id (record { or = c; last_seen = now }) v.session_map
  pub sent : r.1.world.sent ≡ v.world.sent
  pub closed : r.1.world.closed ≡ v.world.closed

pub get_session-Obtained :
    (dial_or : Bytes → Bytes → Result ℕ) (useraddr id : Bytes) (now c : ℕ) (v : Server)
    → conn_for (lookup id v.session_map) (dial_or useraddr pt_method_name) ≡ some c
    → Obtained id now c v (get_session dial_or useraddr id now v)
unfolding get_session start_session touch
get_session-Obtained dial_or useraddr id now c v h = record {
  session = ground arith;
  mapped = ground arith;
  sent = ground arith;
  closed = ground arith;
}

pub post-short :
    (x : Externals) (link : Link) (now : ℕ) (req : Request) (w : ResponseWriter) (v : Server)
    → length (session_id req) < min_session_id_length
    → post x link now req w v ≡ (http_bad_request w, v)
unfolding post
post-short x link now req w v h = rw (lt→ltb _ _ h)

pub post-long :
    (x : Externals) (link : Link) (now : ℕ) (req : Request) (w : ResponseWriter) (v : Server)
    → min_session_id_length ≤ length (session_id req)
    → post x link now req w v
      ≡ with_session link
          (session_id req)
          req
          w
          (get_session x.dial_or (get_useraddr x.parse_ip req) (session_id req) now v)
unfolding post
post-long x link now req w v h = rw (le→ltb _ _ h)

pub with_session-ok :
    (link : Link) (id : Bytes) (req : Request) (w : ResponseWriter) (s : Session)
    (r : Result Session × Server)
    → r.0 ≡ ok s
    → with_session link id req w r ≡ finish id r.1 (transact link s req w r.1.world)
unfolding with_session
with_session-ok link id req w s (ok t, v) h = ground arith
with_session-ok link id req w s (err e, v) h = cc

pub finish-ok :
    (id : Bytes) (v : Server) (t : Transaction)
    → t.error ≡ none
    → finish id v t ≡ (t.response, record v { world = t.world })
unfolding finish
finish-ok id v t h = rw h

pub finish-err :
    (id : Bytes) (v : Server) (t : Transaction) (e : GoError)
    → t.error ≡ some e
    → finish id v t ≡ (t.response, close_session id (record v { world = log_error e t.world }))
unfolding finish
finish-err id v t e h = rw h

close_session-found :
    (id : Bytes) (s : Session) (v : Server)
    → lookup id v.session_map ≡ some s
    → close_session id v
      ≡ record { session_map = erase id v.session_map; world = close_or s.or v.world }
unfolding close_session
close_session-found id s v h = rw (h, close_session)

module _ (x : Externals) (link : Link) (now : ℕ) (req : Request) (w : ResponseWriter)
    (v : Server) where
  looked_up : Result Session × Server
  looked_up = get_session x.dial_or (get_useraddr x.parse_ip req) (session_id req) now v

  -- A POST request whose session id has at least eight bytes, for which there is a connection, and
  -- which is delivered: its whole body goes to that connection, nothing is closed, the session of
  -- the id holds that connection and was seen now, and the answer is what the OR port said, at most
  -- 0x10000 bytes of it.
  pub post-Delivers :
      (c : ℕ)
      → min_session_id_length ≤ length (session_id req)
      → connection x req v ≡ some c
      → Delivers link req
      → let r = post x link now req w v in
        (r.1.world.sent ≡ (c, req.body.bytes) ∷ v.world.sent)
        × (r.1.world.closed ≡ v.world.closed)
        × (lookup (session_id req) r.1.session_map ≡ some (record { or = c; last_seen = now }))
        × (r.0
            ≡ write
                (take max_payload_length link.or_read.0)
                (set_header (codes "Content-Type") (codes "application/octet-stream") w))
  unfolding looked_up
  post-Delivers c long conn d =
      let s : Session = record { or = c; last_seen = now } in
      let o =
        get_session-Obtained x.dial_or (get_useraddr x.parse_ip req) (session_id req) now c v
          conn in
      let good = (transact-error_iff link s req w looked_up.1.world).1 d in
      let t = transact_lem link s req w looked_up.1.world good in
      rw
        (
          post-long x link now req w v long,
          with_session-ok link (session_id req) req w s looked_up o.session,
          finish-ok (session_id req) looked_up.1 (transact link s req w looked_up.1.world) good,
          t.0,
        )
        (rw o.sent, o.closed, rw (o.mapped, lookup-insert, same_refl), t.1)

  -- A POST request whose session id has at least eight bytes, for which there is a connection, and
  -- which is not delivered: the id has no session any more, and the connection is closed.
  pub post_drops :
      (c : ℕ)
      → min_session_id_length ≤ length (session_id req)
      → connection x req v ≡ some c
      → ¬ Delivers link req
      → let r = post x link now req w v in
        (r.1.world.closed ≡ c ∷ v.world.closed) × (lookup (session_id req) r.1.session_map ≡ none)
  unfolding looked_up log_error close_or
  post_drops c long conn d =
      let s : Session = record { or = c; last_seen = now } in
      let o =
        get_session-Obtained x.dial_or (get_useraddr x.parse_ip req) (session_id req) now c v
          conn in
      let t = transact link s req w looked_up.1.world in
      elim (Option-cases t.error) [
        | inl good ↦ absurd (d ((transact-error_iff link s req w looked_up.1.world).0 good))
        | inr (e, bad) ↦
            let v' : Server = record looked_up.1 { world = log_error e t.world } in
            let found : lookup (session_id req) v'.session_map ≡ some s =
              rw (o.mapped, lookup-insert, same_refl) in
            rw
              (
                post-long x link now req w v long,
                with_session-ok link (session_id req) req w s looked_up o.session,
                finish-err (session_id req) looked_up.1 t e bad,
              )
              (
                rw (close_session-found (session_id req) s v' found) (
                    ground
                      (arith, o.closed, (transact-connections link s req w looked_up.1.world).1)),
                rw (close_session-found (session_id req) s v' found, lookup-erase, same_refl),
              )
      ]
