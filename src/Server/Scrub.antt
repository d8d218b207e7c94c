-- ===== src/Server/Scrub.antt =====
-- What a failed transaction of meek-server/meek-server.go reports, and what scrubError hides of it.
use meek.Base.{ℕ, ◌+◌, ◌≤◌, ◌<◌, Bytes, codes, ◌++◌, Option, some, true, ◌≡◌, ◌⊎◌, length}
use meek.Go.Errors.{GoError, plain}
use meek.Go.Http.{Request, Body, ResponseWriter, set_header}
use meek.Server.Session.{Session, max_payload_length}
use meek.Server.Handler.{Link, scrub_error, error_text, max_bytes_reader, is_fatal}

-- The line of an error of the copying: the address of the OR port is hidden, and no text behind it.
abbrev pub copying : Link → Bytes → Bytes
copying link text =
    codes "error copying body to ORPort: readfrom tcp "
    ++ link.or_local
    ++ codes "->[scrubbed]: "
    ++ text

-- The lines that a transaction can report, by what has failed.
pub data Reports (link : Link) (req : Request) : Bytes → Type 0 where
  too_long :
      max_payload_length + 1 < length req.body.bytes
      → Reports link req (copying link (codes "http: request body too large"))
  body_failed :
      (e : GoError)
      → length req.body.bytes ≤ max_payload_length + 1
      → req.body.failure ≡ some e
      → Reports link req (copying link (error_text e))
  not_taken :
      (room : ℕ) (e : GoError)
      → link.or_write ≡ some (room, e)
      → room < length req.body.bytes
      → Reports link req (copying link (error_text e))
  not_read :
      (e : GoError)
      → link.or_read.1 ≡ some e
      → is_fatal link.or_read.1 ≡ true
      → Reports link req (codes "reading from ORPort: " ++ error_text e)
  not_answered :
      (e : GoError)
      → link.client_write ≡ some e
      → Reports link req (codes "error writing to response: " ++ error_text (scrub_error e))

-- What has failed, where the copying has.
abbrev Stopped : Link → Request → GoError → Type 0
Stopped link req e =
    ((max_payload_length + 1 < length req.body.bytes)
      × (e ≡ plain (codes "http: request body too large")))
    ⊎ (((length req.body.bytes ≤ max_payload_length + 1) × (req.body.failure ≡ some e))
        ⊎ ((room : ℕ) × (link.or_write ≡ some (room, e)) × (room < length req.body.bytes)))

module _ (link : Link) (req : Request) where
  Told : Option GoError → Type 0
  Told r = (e : GoError) → r ≡ some e → Reports link req (error_text e)

  abbrev typed : ResponseWriter → ResponseWriter
  typed w = set_header (codes "Content-Type") (codes "application/octet-stream") w

  abbrev limited : Body
  limited = max_bytes_reader (max_payload_length + 1) req.body
