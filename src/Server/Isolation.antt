-- ===== src/Server/Isolation.antt =====
-- A request touches its own session only.
use meek.Base.{
  ℕ, ◌<◌, Bytes, codes, ◌≡◌, ◌≢◌, refl, ltb, length, inl, inr, ◌∙◌, Bool-cases, Option-cases,
  lookup, lookup-insert, lookup-erase, same_iff, arith, ◌⊎◌, ltb→le, ltb→lt,
}
use meek.Go.Errors.{Result, ok, err}
use meek.Go.Http.{Request, ResponseWriter}
use meek.UserAddr.{get_useraddr}
use meek.Server.Session.{
  Session, Server, min_session_id_length, get_session, start_session, close_session,
}
use meek.Server.Handler.{
  Link, Externals, Files, Transaction, transact, post, serve_http, with_session, finish, log_error,
  http_bad_request, get,
}
use meek.Server.Posts.{session_id, post-short, post-long}

module _ (id j : Bytes) (other : id ≢ j) where
  pub get_session-other :
      (dial_or : Bytes → Bytes → Result ℕ) (useraddr : Bytes) (now : ℕ) (v : Server)
      → lookup j (get_session dial_or useraddr id now v).1.session_map ≡ lookup j v.session_map
  unfolding get_session start_session
  get_session-other dial_or useraddr now v = grind (arith, lookup-insert, same_iff)

  close_session-other :
      (v : Server) → lookup j (close_session id v).session_map ≡ lookup j v.session_map
  unfolding close_session
  close_session-other v = grind (arith, lookup-erase, same_iff)

  pub finish-other :
      (v : Server) (t : Transaction)
      → lookup j (finish id v t).1.session_map ≡ lookup j v.session_map
  unfolding finish
  finish-other v t = elim (Option-cases t.error) [
    | inl e ↦ rw (e, finish)
    | inr (e, h) ↦ rw (h, finish) (close_session-other (record v { world = log_error e t.world }))
  ]

  with_session-other :
      (link : Link) (req : Request) (w : ResponseWriter) (r : Result Session × Server)
      → lookup j (with_session link id req w r).1.session_map ≡ lookup j r.1.session_map
  unfolding with_session
  with_session-other link req w (ok s, v) = finish-other v (transact link s req w v.world)
  with_session-other link req w (err e, v) = refl

-- A POST request leaves every session but that of its own id as it was, however it ends.
pub post-other :
    (x : Externals) (link : Link) (now : ℕ) (req : Request) (w : ResponseWriter) (v : Server)
    (j : Bytes)
    → session_id req ≢ j
    → lookup j (post x link now req w v).1.session_map ≡ lookup j v.session_map
post-other x link now req w v j other =
    elim (Bool-cases (ltb (length (session_id req)) min_session_id_length)) [
      | inl short ↦ rw (post-short x link now req w v (ltb→lt _ _ short))
      | inr long ↦ rw (post-long x link now req w v (ltb→le _ _ long)) (
          with_session-other (session_id req) j other link req w _
          ∙ get_session-other (session_id req) j other x.dial_or (get_useraddr x.parse_ip req) now
              v)
    ]

-- A request changes the server only if it is a POST with a session id of eight bytes or more; any
-- other is answered from the decoy page, with 404 or with 400.
serve_http-unchanged :
    (x : Externals) (f : Files) (link : Link) (now : ℕ) (req : Request) (w : ResponseWriter)
    (v : Server)
    → (req.method ≢ codes "POST") ⊎ (length (session_id req) < min_session_id_length)
    → ((serve_http x f link now req w v).1 ≡ v)
      × (((serve_http x f link now req w v).0 ≡ get f req w)
          ⊎ ((serve_http x f link now req w v).0 ≡ http_bad_request w))
unfolding serve_http post
serve_http-unchanged x f link now req w v h =
    ground (arith, same_iff req.method (codes "GET"), same_iff req.method (codes "POST"))
