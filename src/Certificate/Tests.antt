-- ===== src/Certificate/Tests.antt =====
-- The certificate cache at concrete inputs.
use meek.Base.{ℕ, codes, List, [], ◌∷◌, none, some, All, ◌≡◌, ◌≢◌, refl}
use meek.Go.Errors.{plain, ok, err}
use meek.Certificate.{
  FileInfo, CertContext, Disk, Handshake, reload_certificate, new_cert_context, get_certificate,
  handshakes,
}
use meek.Certificate.Laws.{handshakes-no_panic}

cache : Unit {0}
unfolding handshakes get_certificate new_cert_context reload_certificate
cache = tt

abbrev info : ℕ → FileInfo
info t = record { mod_time = t }

abbrev disk : ℕ → ℕ → Disk
disk t cert = record { stat = λ f. ok (info t); load_x509_key_pair = λ c k. ok cert }

abbrev lost : Disk
lost = record {
  stat = λ f. err (plain (codes "no such file"));
  load_x509_key_pair = λ c k. err (plain (codes "no such file"));
}

abbrev loaded : CertContext
loaded = record {
  cert_file = codes "cert.pem";
  key_file = codes "key.pem";
  cert_file_info = some (info 1);
  key_file_info = some (info 1);
  cached_cert = some 10;
  last_warn_at = 0;
  warned = [];
}

abbrev shakes : List Handshake
shakes =
    record { disk = lost; now = 100000000000 }
    ∷ record { disk = lost; now = 120000000000 }
    ∷ record { disk = disk 2 11; now = 130000000000 }
    ∷ record { disk = lost; now = 170000000000 }
    ∷ []

shakes_certs : (handshakes shakes loaded).0 ≡ some 10 ∷ some 10 ∷ some 11 ∷ some 11 ∷ []
unfolding cache
shakes_certs = refl

shakes_warned : (handshakes shakes loaded).1.warned ≡ 170000000000 ∷ 100000000000 ∷ []
unfolding cache
shakes_warned = refl

handshakes-no_panic_example : All (λ cert. cert ≢ none) (handshakes shakes loaded).0
unfolding cache
handshakes-no_panic_example =
    handshakes-no_panic (disk 1 10) (codes "cert.pem") (codes "key.pem") loaded shakes refl

-- Without the states of the files, the reload panics.
panics : (get_certificate (disk 2 11) 5 (record loaded { cert_file_info = none })).0 ≡ none
unfolding cache
panics = refl
