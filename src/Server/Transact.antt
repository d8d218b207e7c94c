-- ===== src/Server/Transact.antt =====
-- What one transaction forwards, answers and reports.
use Prim.Native.Nat.{ℕ}
use meek.Base.{
  ◌+◌, ◌≤◌, Bytes, codes, ◌∷◌, Option, none, some, false, length, take, length-take, ◌≡◌, ◌↔◌,
  arith,
}
use meek.Go.Errors.{GoError}
use meek.Go.Http.{Request, Body, ResponseWriter, set_header, write}
use meek.Server.Session.{Session, World, max_payload_length}
use meek.Server.Handler.{
  Link, transact, max_bytes_reader, io_copy, read_from, wrapped, is_fatal, read_back, forwarded,
  reply,
}

-- The OR port takes the whole text.
abbrev pub Fits : Option (ℕ × GoError) → Bytes → Type 0
Fits none b = Unit {0}
Fits (some (room, e)) b = length b ≤ room

-- What io.Copy makes of a limited body.
abbrev pub copied : ℕ → Link → Body → Bytes × Option GoError
copied limit link b = read_from link (max_bytes_reader limit b)

pub copied-error_iff :
    (limit : ℕ) (link : Link) (b : Body)
    → ((copied limit link b).1 ≡ none)
      ↔ ((length b.bytes ≤ limit) × (b.failure ≡ none) × Fits link.or_write b.bytes)
unfolding read_from wrapped io_copy max_bytes_reader
copied-error_iff limit link b = ground (arith, length-take limit b.bytes)

copied_whole :
    (limit : ℕ) (link : Link) (b : Body)
    → (copied limit link b).1 ≡ none
    → (copied limit link b).0 ≡ b.bytes
unfolding read_from wrapped io_copy max_bytes_reader
copied_whole limit link b h = ground arith

read_back-error_iff :
    (link : Link) (w : ResponseWriter) (o : World)
    → ((read_back link w o).error ≡ none)
      ↔ ((is_fatal link.or_read.1 ≡ false) × (link.client_write ≡ none))
unfolding read_back reply
read_back-error_iff link w o = ground arith

forwarded-error_iff :
    (link : Link) (w : ResponseWriter) (o : World) (e : Option GoError)
    → ((forwarded link w o e).error ≡ none) ↔ ((e ≡ none) × ((read_back link w o).error ≡ none))
unfolding forwarded
forwarded-error_iff link w o none = ground arith
forwarded-error_iff link w o (some e) = ground arith

forwarded_lem :
    (link : Link) (w : ResponseWriter) (o : World) (e : Option GoError)
    → (forwarded link w o e).error ≡ none
    → ((forwarded link w o e).world ≡ o)
      × ((forwarded link w o e).response
          ≡ write
              (take max_payload_length link.or_read.0)
              (set_header (codes "Content-Type") (codes "application/octet-stream") w))
unfolding forwarded read_back reply
forwarded_lem link w o none h = ground arith
forwarded_lem link w o (some e) h = ground arith

abbrev pub after_copy : Link → Session → Request → World → World
after_copy link s req o = record o {
  sent = (s.or, (copied (max_payload_length + 1) link req.body).0) ∷ o.sent;
}

-- A transaction succeeds exactly if the body has at most 0x10001 bytes and ends without an error,
-- the OR port takes it, the read from the OR port gives no error but a timeout, and the client
-- takes the answer.
pub transact-error_iff :
    (link : Link) (s : Session) (req : Request) (w : ResponseWriter) (o : World)
    → ((transact link s req w o).error ≡ none) ↔ (
        (length req.body.bytes ≤ max_payload_length + 1)
        × (req.body.failure ≡ none)
        × Fits link.or_write req.body.bytes
        × (is_fatal link.or_read.1 ≡ false)
        × (link.client_write ≡ none))
unfolding transact
transact-error_iff link s req w o =
    let o' = after_copy link s req o in
    ground (
      arith,
      forwarded-error_iff link w o' (copied (max_payload_length + 1) link req.body).1,
      copied-error_iff (max_payload_length + 1) link req.body,
      read_back-error_iff link w o',
    )

-- A transaction that succeeds writes the whole body to its session's connection, touches nothing
-- else of the world, and answers with what was read from the OR port, 0x10000 bytes at most.
pub transact_lem :
    (link : Link) (s : Session) (req : Request) (w : ResponseWriter) (o : World)
    → (transact link s req w o).error ≡ none
    → ((transact link s req w o).world ≡ record o { sent = (s.or, req.body.bytes) ∷ o.sent })
      × ((transact link s req w o).response
          ≡ write
              (take max_payload_length link.or_read.0)
              (set_header (codes "Content-Type") (codes "application/octet-stream") w))
unfolding transact
transact_lem link s req w o h =
    let o' = after_copy link s req o in
    ground (
      arith,
      forwarded_lem link w o' (copied (max_payload_length + 1) link req.body).1,
      forwarded-error_iff link w o' (copied (max_payload_length + 1) link req.body).1,
      copied_whole (max_payload_length + 1) link req.body,
    )

-- A transaction opens and closes no connection.
pub transact-connections :
    (link : Link) (session : Session) (req : Request) (w : ResponseWriter) (o : World)
    → ((transact link session req w o).world.opened ≡ o.opened)
      × ((transact link session req w o).world.closed ≡ o.closed)
unfolding transact
transact-connections link session req w o = ground arith

-- Whatever happens later, the copied part of the body was written to the session's connection.
pub transact-after_copy :
    (link : Link) (s : Session) (req : Request) (w : ResponseWriter) (o : World)
    → (transact link s req w o).world ≡ after_copy link s req o
unfolding transact
transact-after_copy link s req w o = ground arith
