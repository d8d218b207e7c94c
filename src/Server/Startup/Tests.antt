-- ===== src/Server/Startup/Tests.antt =====
-- The server's start-up at concrete inputs.
use meek.Base.{
  ℕ, Bytes, codes, List, [], ◌∷◌, Option, none, some, true, false, ◌≡◌, ◌≤◌, refl, same,
  if◌then◌else◌,
}
use meek.Go.Errors.{GoError, ok}
use meek.Go.Text.{split}
use meek.Go.Path.{clean}
use meek.Client.Transport.{decimal}
use meek.Server.Startup.{
  environment, certificate_cache_dir, Flags, acme, Addr, Bindaddr, Event, smethod, smethod_error,
  responder, server, smethods_done, Listening, set_up_tls, start_servers, start,
}
use meek.Server.Startup.Laws.{reported, methods, responders, listening, start_lem}

opened : Unit {0}
unfolding set_up_tls start_servers start same
opened = tt

abbrev flags : Flags
flags = record {
  acme_email = [];
  acme_hostnames = codes "meek.example";
  disable_tls = false;
  cert_filename = [];
  key_filename = [];
}

abbrev readable : Bytes → Bytes → Option GoError
readable cert key = none

abbrev any : ℕ → Addr
any p = record { ip = codes "0.0.0.0"; port = p }

abbrev addrs : List Bindaddr
addrs =
    record { method_name = codes "meek"; addr = any 4455 }
    ∷ record { method_name = codes "obfs4"; addr = any 1 }
    ∷ record { method_name = codes "meek"; addr = any 443 }
    ∷ []

-- Port 80 is taken.
abbrev taken : Listening
taken = record {
  configure = none;
  responder = λ a. some (codes "address already in use");
  server = λ t a. none;
}

abbrev events : List Event
events =
    responder (any 80)
    ∷ smethod_error (codes "meek") (codes "HTTP-01 ACME listener: address already in use")
    ∷ smethod_error (codes "obfs4") (codes "no such method")
    ∷ server true (any 443)
    ∷ smethod (codes "meek") (any 443)
    ∷ smethods_done
    ∷ []

start_test :
    start readable (ok (codes "/var/lib/meek/")) taken flags 0 addrs ≡ ok (events, any 443 ∷ [])
unfolding opened
start_test = refl

start_lem_example :
    (reported events ≡ methods addrs)
    × (listening events ≡ any 443 ∷ [])
    × (responders events ≤ (if same flags.acme_hostnames [] then 0 else 1))
start_lem_example =
    start_lem readable (ok (codes "/var/lib/meek/")) taken flags 0 addrs events (any 443 ∷ [])
      start_test

-- A certificate file without its key is not refused, and not used.
set_up_tls_one_file :
    set_up_tls readable
      (ok (codes "/var/lib/meek/"))
      (record flags { cert_filename = codes "cert.pem" })
    ≡ ok (acme [] (codes "meek.example" ∷ []) (some (codes "/var/lib/meek/meek-certificate-cache")))
unfolding opened split certificate_cache_dir clean
set_up_tls_one_file = refl

environment_test :
    environment (record {
      mask = [];
      redirect = [];
      external_service = [];
      socks_port = codes "1080";
      port = 4455;
    })
    ≡ (
      (codes "TOR_PT_MANAGED_TRANSPORT_VER", codes "1")
          ∷ (codes "TOR_PT_SERVER_TRANSPORTS", codes "meek")
          ∷ (codes "MASK_DOC", [])
          ∷ (codes "MASK_REDIRECT", [])
          ∷ (codes "TOR_PT_SERVER_BINDADDR", codes "meek-0.0.0.0:4455")
          ∷ (codes "TOR_PT_ORPORT", codes "127.0.0.1:1080")
          ∷ [],
      true,
    )
unfolding environment decimal same
environment_test = refl
