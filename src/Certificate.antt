-- ===== src/Certificate.antt =====
-- meek-server/certificate.go: the cached TLS certificate. What the file system and the clock give
-- at a call is an argument of it: os.Stat of the two files, tls.LoadX509KeyPair, time.Now. A
-- certificate is a number, a file's state its modification time; times count nanoseconds from Go's zero
-- time on. The lock
-- makes a reload one step, but for the two calls of os.Stat, which come before it and are read from
-- `Disk` as well.
pub mod Laws
pub mod Tests
use meek.Base.{
  ℕ, ◌+◌, ◌*◌, Bytes, Option, none, some, Bool, true, false, not, ◌||◌, ltb, ◌==◌, if◌then◌else◌,
  List, [], ◌∷◌,
}
use meek.Go.Errors.{GoError, Result, ok, err, ◌>>=◌}

abbrev pub cert_load_error_rate_limit : ℕ
cert_load_error_rate_limit = 60 * 1000000000

-- os.FileInfo, of which only ModTime is read.
pub record FileInfo : Type 0 where
  pub mod_time : ℕ

-- `warned` lists the times at which a failed reload was logged, the latest first.
pub record CertContext : Type 0 where
  pub cert_file : Bytes
  pub key_file : Bytes
  pub cert_file_info : Option FileInfo
  pub key_file_info : Option FileInfo
  pub cached_cert : Option ℕ
  pub last_warn_at : ℕ
  pub warned : List ℕ

-- What the calls out of one reload return.
pub record Disk : Type 0 where
  pub stat : Bytes → Result FileInfo
  pub load_x509_key_pair : Bytes → Bytes → Result ℕ

-- os.Stat of the certificate's file, then, if that worked, of the key's.
stat_both : Disk → CertContext → Result (FileInfo × FileInfo)
stat_both d ctx = do cf ← d.stat ctx.cert_file; kf ← d.stat ctx.key_file; ok (cf, kf)

-- !old.ModTime().Equal(new.ModTime()); without an old FileInfo, the call panics.
abbrev is_modified : Option FileInfo → FileInfo → Option Bool
is_modified none new = none
is_modified (some old) new = some (not (old.mod_time == new.mod_time))

-- The second operand is looked at only where the first is false.
abbrev either : Option Bool → Option Bool → Option Bool
either none other = none
either (some true) other = some true
either (some false) other = other

abbrev do_reload : CertContext → Option ℕ → FileInfo × FileInfo → Option Bool
do_reload ctx none infos = some true
do_reload ctx (some cert) (cf, kf) =
    either (is_modified ctx.cert_file_info cf) (is_modified ctx.key_file_info kf)

-- What a reload returns, a certificate and an error, and the context behind it.
abbrev pub Reloaded : Type 0
Reloaded = (Option ℕ × Option GoError) × CertContext

loaded : CertContext → FileInfo × FileInfo → Result ℕ → Reloaded
loaded ctx infos (err e) = ((ctx.cached_cert, some e), ctx)
loaded ctx (cf, kf) (ok cert) = (
  (some cert, none),
  record ctx { cached_cert = some cert; cert_file_info = some cf; key_file_info = some kf },
)

decided : Disk → CertContext → FileInfo × FileInfo → Option Bool → Option Reloaded
unfolding loaded
decided d ctx infos none = none
decided d ctx infos (some false) = some ((ctx.cached_cert, none), ctx)
decided d ctx infos (some true) =
    some (loaded ctx infos (d.load_x509_key_pair ctx.cert_file ctx.key_file))

after_stat : Disk → CertContext → Result (FileInfo × FileInfo) → Option Reloaded
unfolding decided
after_stat d ctx (err e) = some ((ctx.cached_cert, some e), ctx)
after_stat d ctx (ok infos) = decided d ctx infos (do_reload ctx ctx.cached_cert infos)

-- `none` is the panic on a missing FileInfo.
unfoldable pub reload_certificate : Disk → CertContext → Option Reloaded
unfolding stat_both after_stat
reload_certificate d ctx = after_stat d ctx (stat_both d ctx)

abbrev pub empty_context : Bytes → Bytes → CertContext
empty_context cert_file key_file = record {
  cert_file = cert_file;
  key_file = key_file;
  cert_file_info = none;
  key_file_info = none;
  cached_cert = none;
  last_warn_at = 0;
  warned = [];
}

made : Option Reloaded → Option (Result CertContext)
made none = none
made (some ((cert, none), ctx)) = some (ok ctx)
made (some ((cert, some e), ctx)) = some (err e)

-- `none` is the panic of the reload.
unfoldable pub new_cert_context : Disk → Bytes → Bytes → Option (Result CertContext)
unfolding made
new_cert_context d cert_file key_file =
    made (reload_certificate d (empty_context cert_file key_file))

-- The rate limit of the warning: now.After(last.Add(limit)).
warn : ℕ → Option GoError → CertContext → CertContext
warn now none ctx = ctx
warn now (some e) ctx =
    if ltb (ctx.last_warn_at + cert_load_error_rate_limit) now
    then record ctx { last_warn_at = now; warned = now ∷ ctx.warned }
    else ctx

-- A certificate, or a panic, of the reload or for want of a certificate. The reload is one step under
-- the lock; the test and the setting of lastWarnAt are not under it.
answered : ℕ → CertContext → Option Reloaded → Option ℕ × CertContext
unfolding warn
answered now ctx none = (none, ctx)
answered now ctx (some ((cert, e), ctx')) = (cert, warn now e ctx')

unfoldable pub get_certificate : Disk → ℕ → CertContext → Option ℕ × CertContext
unfolding answered
get_certificate d now ctx = answered now ctx (reload_certificate d ctx)

pub record Handshake : Type 0 where
  pub disk : Disk
  pub now : ℕ

-- The handshakes of a server, one after the other: the certificates used, and the context.
unfoldable pub handshakes : List Handshake → CertContext → List (Option ℕ) × CertContext
handshakes [] ctx = ([], ctx)
handshakes (h ∷ hs) ctx =
    let (cert, ctx') = get_certificate h.disk h.now ctx in
    let (certs, last) = handshakes hs ctx' in (cert ∷ certs, last)
