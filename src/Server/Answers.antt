-- ===== src/Server/Answers.antt =====
-- How long the body of an answer to a POST request can be.
use Prim.Native.Nat.{ℕ}
use meek.Base.{
  ◌≤◌, codes, Bytes, take, length, length-take, arith, Bool-cases, ltb, inl, inr, Option, none,
  some,
}
use meek.Go.Errors.{GoError, Result, ok, err}
use meek.Go.Http.{
  Request, ResponseWriter, new_response, http_error, write, write_header, set_header, get_field,
}
use meek.Server.Session.{
  Server, Session, World, max_payload_length, min_session_id_length, get_session,
}
use meek.UserAddr.{get_useraddr}
use meek.Server.Handler.{
  Link, Externals, Transaction, post, with_session, finish, transact, forwarded, read_back, reply,
  http_bad_request, http_internal_server_error, is_fatal,
}

abbrev pub IsShort : ResponseWriter → Type 0
IsShort w = length w.body ≤ max_payload_length

http_bad_request-IsShort : IsShort (http_bad_request new_response)
unfolding http_bad_request http_error write write_header set_header
http_bad_request-IsShort = omega arith

http_internal_server_error-IsShort : IsShort (http_internal_server_error new_response)
unfolding http_internal_server_error http_error write write_header set_header
http_internal_server_error-IsShort = omega arith

reply-IsShort :
    (buf : Bytes) (e : Option GoError) (o : World)
    → length buf ≤ max_payload_length
    → IsShort
        (reply buf e
          (set_header (codes "Content-Type") (codes "application/octet-stream") new_response)
          o).response
unfolding reply write write_header set_header
reply-IsShort buf none o h = h
reply-IsShort buf (some e) o h = omega arith

read_back-IsShort : (link : Link) (o : World) → IsShort (read_back link new_response o).response
unfolding read_back
read_back-IsShort link o = elim (Bool-cases (is_fatal link.or_read.1)) [
  | inl e ↦ rw e http_internal_server_error-IsShort
  | inr e ↦ rw e (
      reply-IsShort (take max_payload_length link.or_read.0) link.client_write o
        (omega (arith, length-take max_payload_length link.or_read.0)))
]

forwarded-IsShort :
    (link : Link) (o : World) (e : Option GoError)
    → IsShort (forwarded link new_response o e).response
unfolding forwarded
forwarded-IsShort link o none = read_back-IsShort link o
forwarded-IsShort link o (some e) = omega arith

transact-IsShort :
    (link : Link) (session : Session) (req : Request) (o : World)
    → IsShort (transact link session req new_response o).response
unfolding transact
transact-IsShort link session req o = forwarded-IsShort link _ _

finish-IsShort :
    (id : Bytes) (v : Server) (t : Transaction) → IsShort t.response → IsShort (finish id v t).0
unfolding finish
finish-IsShort id v t h = ground (arith, h)

with_session-IsShort :
    (link : Link) (id : Bytes) (req : Request) (r : Result Session × Server)
    → IsShort (with_session link id req new_response r).0
unfolding with_session
with_session-IsShort link id req (err e, v) = http_internal_server_error-IsShort
with_session-IsShort link id req (ok s, v) =
    finish-IsShort id v (transact link s req new_response v.world)
      (transact-IsShort link s req v.world)

-- An answer to a POST request has at most 0x10000 bytes.
pub post-IsShort :
    (x : Externals) (link : Link) (now : ℕ) (req : Request) (v : Server)
    → IsShort (post x link now req new_response v).0
unfolding post
post-IsShort x link now req v =
    let id = get_field (codes "X-Session-Id") req.header in
    let found = get_session x.dial_or (get_useraddr x.parse_ip req) id now v in
    elim (Bool-cases (ltb (length id) min_session_id_length)) [
      | inl e ↦ rw e http_bad_request-IsShort
      | inr e ↦ rw e (with_session-IsShort link id req found)
    ]
