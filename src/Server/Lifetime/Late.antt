-- ===== src/Server/Lifetime/Late.antt =====
-- What happens to a client of meek-server/meek-server.go that comes back when its session is culled.
use meek.Base.{ℕ, ◌+◌, ◌*◌, ◌/◌, ◌≤◌, ◌<◌, List, ◌∷◌, some, ◌≡◌, ap, length, take, lookup, Unique}
use meek.Go.Errors.{ok}
use meek.Go.Http.{Request, new_response, status_of, set_header, write, write_header}
use meek.UserAddr.{get_useraddr}
use meek.Server.Session.{
  Session, Server, max_payload_length, max_session_staleness, min_session_id_length, pt_method_name,
}
use meek.Server.Handler.{Externals, Link, post}
use meek.Server.Posts.{session_id, Delivers, post-Delivers}
use meek.Server.Lifetime.{expire_rounds, expire_rounds-removes}

-- A session that is not used any more is culled by the rounds of the loop, once they have passed the
-- time it was last seen by more than the limit. A later request with its id gets no sign of it: if a
-- connection can be dialed and the request is delivered, the answer has status 200 and what that
-- connection says, the body goes to that connection, and the id has a session with it.
pub late_post-restarts :
    (start : ℕ) (ls : List ℕ) (s : Session) (v : Server) (x : Externals) (link : Link) (now c : ℕ)
    (req : Request)
    → Unique v.session_map
    → lookup (session_id req) v.session_map ≡ some s
    → 1 ≤ length ls
    → s.last_seen + max_session_staleness < start + max_session_staleness / 2 * length ls
    → min_session_id_length ≤ length (session_id req)
    → x.dial_or (get_useraddr x.parse_ip req) pt_method_name ≡ ok c
    → Delivers link req
    → let swept = expire_rounds start ls v in
      let r = post x link now req new_response swept in
      (status_of r.0 ≡ 200)
      × (r.0.body ≡ take max_payload_length link.or_read.0)
      × (r.1.world.sent ≡ (c, req.body.bytes) ∷ swept.world.sent)
      × (lookup (session_id req) r.1.session_map ≡ some (record { or = c; last_seen = now }))
unfolding set_header write write_header
late_post-restarts start ls s v x link now c req u found some_round over long dial d =
    let swept : Server = expire_rounds start ls v in
    let gone = expire_rounds-removes start ls (session_id req) s v u found some_round over in
    let p = post-Delivers x link now req new_response swept c long (rw (gone, dial)) d in
    (ap status_of p.3, ap (λ r. r.body) p.3, p.0, p.2)
