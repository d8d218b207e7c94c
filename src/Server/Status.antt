-- ===== src/Server/Status.antt =====
-- The status of the answer to a transaction.
use meek.Base.{◌+◌, ◌≤◌, Option, none, some, true, length, ◌≡◌, ◌≢◌, ◌↔◌, arith}
use meek.Go.Errors.{GoError}
use meek.Go.Http.{Request, new_response, status_of, write, write_header, set_header, http_error}
use meek.Server.Session.{Session, World, max_payload_length}
use meek.Server.Handler.{
  Link, transact, is_fatal, read_back, forwarded, reply, http_internal_server_error,
}
use meek.Server.Transact.{Fits, copied, copied-error_iff, after_copy}

read_back-status :
    (link : Link) (o : World)
    → (status_of (read_back link new_response o).response ≡ 500) ↔ (is_fatal link.or_read.1 ≡ true)
unfolding read_back reply http_internal_server_error http_error write write_header set_header
read_back-status link o = ground arith

forwarded-status :
    (link : Link) (o : World) (e : Option GoError)
    → (status_of (forwarded link new_response o e).response ≡ 500)
      ↔ ((e ≡ none) × (is_fatal link.or_read.1 ≡ true))
unfolding forwarded
forwarded-status link o none = ground (arith, read_back-status link o)
forwarded-status link o (some e) = ground arith

-- The client is told of an error, by status 500, exactly if the whole body was forwarded and then
-- the read from the OR port failed otherwise than by a timeout. So where the body is too long, ends
-- in an error or is not taken by the OR port, the answer has another status.
pub transact-status_iff :
    (link : Link) (s : Session) (req : Request) (o : World)
    → (status_of (transact link s req new_response o).response ≡ 500) ↔ (
        (length req.body.bytes ≤ max_payload_length + 1)
        × (req.body.failure ≡ none)
        × Fits link.or_write req.body.bytes
        × (is_fatal link.or_read.1 ≡ true))
unfolding transact
transact-status_iff link s req o = ground (
  arith,
  forwarded-status link (after_copy link s req o) (copied (max_payload_length + 1) link req.body).1,
  copied-error_iff (max_payload_length + 1) link req.body,
)

-- Where the copy of the body fails, the transaction reports an error and sends nothing, which the
-- client receives as status 200.
transact_unforwarded :
    (link : Link) (s : Session) (req : Request) (o : World)
    → (copied (max_payload_length + 1) link req.body).1 ≢ none
    → ((transact link s req new_response o).error ≢ none)
      × ((transact link s req new_response o).response ≡ new_response)
      × (status_of (transact link s req new_response o).response ≡ 200)
unfolding transact forwarded
transact_unforwarded link s req o h = ground arith
