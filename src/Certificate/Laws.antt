-- ===== src/Certificate/Laws.antt =====
-- The certificate cache never loses a certificate or the states of its files.
use meek.Base.{ℕ, ◌≡◌, ◌≢◌, List, [], ◌∷◌, Option, none, some, All, arith, Bytes}
use meek.Go.Errors.{Result, ok}
use meek.Certificate.{
  FileInfo, CertContext, Disk, reload_certificate, new_cert_context, get_certificate, Handshake,
  handshakes, stat_both, after_stat, decided, answered, Reloaded, loaded, warn,
}

-- A certificate is cached, with the states of the two files that it was loaded from.
pub record IsLoaded (ctx : CertContext) : Type 0 where
  pub cert : ctx.cached_cert ≢ none
  pub cert_info : ctx.cert_file_info ≢ none
  pub key_info : ctx.key_file_info ≢ none

-- A reload returns, and with a certificate.
abbrev KeepsLoaded : Option Reloaded → Type 0
KeepsLoaded none = ⊥
KeepsLoaded (some ((cert, e), ctx)) = IsLoaded ctx × (cert ≢ none)

after_stat-KeepsLoaded :
    (d : Disk) (ctx : CertContext) (r : Result (FileInfo × FileInfo))
    → IsLoaded ctx
    → KeepsLoaded (after_stat d ctx r)
unfolding after_stat decided loaded
after_stat-KeepsLoaded d ctx r l = ground arith

answered-IsLoaded :
    (now : ℕ) (ctx : CertContext) (r : Option Reloaded)
    → KeepsLoaded r
    → IsLoaded (answered now ctx r).1 × ((answered now ctx r).0 ≢ none)
unfolding answered warn
answered-IsLoaded now ctx none k = absurd k
answered-IsLoaded now ctx (some r) k = ground arith

handshakes-IsLoaded :
    (hs : List Handshake) (ctx : CertContext)
    → IsLoaded ctx
    → All (λ cert. cert ≢ none) (handshakes hs ctx).0
unfolding handshakes get_certificate reload_certificate
handshakes-IsLoaded [] ctx l = tt
handshakes-IsLoaded (h ∷ hs) ctx l =
    let g =
      answered-IsLoaded h.now ctx (reload_certificate h.disk ctx)
        (after_stat-KeepsLoaded h.disk ctx (stat_both h.disk ctx) l) in
    (g.1, handshakes-IsLoaded hs (get_certificate h.disk h.now ctx).1 g.0)

new_cert_context-IsLoaded :
    (d : Disk) (cert_file key_file : Bytes) {ctx : CertContext}
    → new_cert_context d cert_file key_file ≡ some (ok ctx)
    → IsLoaded ctx
unfolding new_cert_context reload_certificate after_stat decided loaded stat_both
new_cert_context-IsLoaded d cert_file key_file h = ground arith

-- Once a context was made, no handshake panics, whatever becomes of the files: neither for want of a
-- certificate, nor because a file's recorded state is looked at that is not there.
pub handshakes-no_panic :
    (d : Disk) (cert_file key_file : Bytes) (ctx : CertContext) (hs : List Handshake)
    → new_cert_context d cert_file key_file ≡ some (ok ctx)
    → All (λ cert. cert ≢ none) (handshakes hs ctx).0
handshakes-no_panic d cert_file key_file ctx hs h =
    handshakes-IsLoaded hs ctx (new_cert_context-IsLoaded d cert_file key_file h)
