-- ===== src/Server/Startup.antt =====
-- initServer and main of meek-server/meek-server.go: the ways of setting up TLS, and the loop over
-- the bind addresses. Flags are parsed already; listening is a parameter.
pub mod Laws
pub mod Tests
use meek.Base.{
  ℕ, Bytes, codes, List, [], ◌∷◌, ◌++◌, Option, none, some, Bool, true, false, not, ◌&&◌, ◌||◌,
  ◌==◌, if◌then◌else◌, same, Map,
}
use meek.Go.Errors.{GoError, plain, Result, ok, err, ◌>>=◌}
use meek.Client.Transport.{decimal}
use meek.Go.Text.{split}
use meek.Go.Path.{clean}
use meek.Server.Session.{pt_method_name}

pub record Flags : Type 0 where
  pub acme_email : Bytes
  pub acme_hostnames : Bytes
  pub disable_tls : Bool
  pub cert_filename : Bytes
  pub key_filename : Bytes

-- Where certificates come from; `cert_files` stands for a certContext that could be made.
pub data Tls : Type 0 where
  no_tls : Tls
  cert_files : (cert key : Bytes) → Tls
  acme : (email : Bytes) (hostnames : List Bytes) (cache : Option Bytes) → Tls

-- getCertificateCacheDir, from what pt.MakeStateDir returns; filepath.Join leaves an empty name out.
unfoldable pub certificate_cache_dir : Result Bytes → Result Bytes
certificate_cache_dir state_dir = state_dir >>= (λ dir.
    ok (clean ((if same dir [] then [] else dir ++ codes "/") ++ codes "meek-certificate-cache")))

-- Without a directory there is no cache.
abbrev cache_of : Result Bytes → Option Bytes
cache_of (ok dir) = some dir
cache_of (err e) = none

abbrev is_set : Bytes → Bool
is_set s = not (same s [])

abbrev fatal {ℓ} : {A : Type ℓ} → Bytes → Result A
fatal text = err (plain text)

-- An error ends the program. `make_context` is the error of newCertContext.
unfoldable pub set_up_tls : (Bytes → Bytes → Option GoError) → Result Bytes → Flags → Result Tls
set_up_tls make_context state_dir f =
    if f.disable_tls
    then if is_set f.acme_email
        || is_set f.acme_hostnames
        || is_set f.cert_filename
        || is_set f.key_filename
      then fatal (
          codes
            "The --acme-email, --acme-hostnames, --cert, and --key options are not allowed with --disable-tls.")
      else ok no_tls
    else if is_set f.cert_filename && is_set f.key_filename
    then if is_set f.acme_email || is_set f.acme_hostnames
      then fatal (
          codes
            "The --cert and --key options are not allowed with --acme-email or --acme-hostnames.")
      else elim (make_context f.cert_filename f.key_filename) [
        | none ↦ ok (cert_files f.cert_filename f.key_filename)
        | some e ↦ err e
      ]
    else if is_set f.acme_hostnames
    then ok (
        acme f.acme_email (split b',' f.acme_hostnames)
          (cache_of (certificate_cache_dir state_dir)))
    else fatal (codes "You must use either --acme-hostnames, or --cert and --key.")

-- needHTTP01Listener
abbrev pub needs_responder : Tls → Bool
needs_responder no_tls = false
needs_responder (cert_files cert key) = false
needs_responder (acme email hostnames cache) = true

pub record Addr : Type 0 where
  pub ip : Bytes
  pub port : ℕ

pub record Bindaddr : Type 0 where
  pub method_name : Bytes
  pub addr : Addr

-- What happens, in order: the messages to the one that started the program, the attempts to listen
-- for the ACME responder, those to start a server, and server.Close at the end.
pub data Event : Type 0 where
  smethod : (method : Bytes) (addr : Addr) → Event
  smethod_error : (method text : Bytes) → Event
  responder : Addr → Event
  server : (with_tls : Bool) (addr : Addr) → Event
  smethods_done : Event
  close : Addr → Event

-- The loop at the end of main, over the servers that were started.
abbrev pub closings : List Addr → List Event
closings [] = []
closings (a ∷ as') = close a ∷ closings as'

abbrev pub at_port : ℕ → Bindaddr → Bindaddr
at_port port b = if port == 0 then b else record b { addr = record { ip = b.addr.ip; port = port } }

abbrev at_80 : Addr → Addr
at_80 a = record { ip = a.ip; port = 80 }

-- Whether a try to listen, or http2.ConfigureServer, fails, and with which text.
pub record Listening : Type 0 where
  pub configure : Option Bytes
  pub responder : Addr → Option Bytes
  pub server : Bool → Addr → Option Bytes

abbrev uses_tls : Tls → Bool
uses_tls no_tls = false
uses_tls (cert_files cert key) = true
uses_tls (acme email hostnames cache) = true

abbrev port_zero : Bytes
port_zero = codes "cannot listen on port 0; configure a port using ServerTransportListenAddr"

-- initServer: the events, and the error if there is one. `l.server` is what the listener returns
-- within the time that is waited for it.
unfoldable init_server : Listening → Bool → Addr → List Event × Option Bytes
init_server l with_tls a = if a.port == 0 then ([], some port_zero) else elim l.configure [
  | some text ↦ ([], some text)
  | none ↦ (server with_tls a ∷ [], l.server with_tls a)
]

abbrev report : Bindaddr → Option Bytes → Event
report b (some text) = smethod_error b.method_name text
report b none = smethod b.method_name b.addr

-- Whether a server is kept, to be closed at the end.
abbrev kept_server : Addr → Option Bytes → List Addr
kept_server a (some text) = []
kept_server a none = a ∷ []

-- What happens, and the server if it was started.
unfoldable start_server : Listening → Tls → Bindaddr → List Event × List Addr
unfolding init_server
start_server l tls b =
    let (events, failure) = init_server l (uses_tls tls) b.addr in
    (events ++ report b failure ∷ [], kept_server b.addr failure)

-- One address; the flag says whether the responder is still to be started, and it is cleared before
-- the try.
unfoldable start_one : Listening → Tls → Bool → Bindaddr → List Event × List Addr
unfolding start_server
start_one l tls false b = start_server l tls b
start_one l tls true b = elim (l.responder (at_80 b.addr)) [
  | some text ↦ (
    responder (at_80 b.addr)
        ∷ smethod_error b.method_name (codes "HTTP-01 ACME listener: " ++ text)
        ∷ [],
    [],
  )
  | none ↦
      let (events, servers) = start_server l tls b in (responder (at_80 b.addr) ∷ events, servers)
]

-- The loop over the bind addresses; `needed` is needHTTP01Listener.
unfoldable pub start_servers : Listening → Tls → ℕ → Bool → List Bindaddr → List Event × List Addr
unfolding start_one
start_servers l tls port needed [] = (smethods_done ∷ [], [])
start_servers l tls port needed (b ∷ bs) =
    let rest = start_servers l tls port false bs in
    let others = start_servers l tls port needed bs in
    let one = start_one l tls needed (at_port port b) in
    if same b.method_name pt_method_name
    then (one.0 ++ rest.0, one.1 ++ rest.1)
    else (smethod_error b.method_name (codes "no such method") ∷ others.0, others.1)

-- From the flags to what happens, and the servers that were started.
unfoldable pub start :
    (Bytes → Bytes → Option GoError)
    → Result Bytes
    → Listening
    → Flags
    → ℕ
    → List Bindaddr
    → Result (List Event × List Addr)
unfolding set_up_tls start_servers
start make_context state_dir l f port bs =
    set_up_tls make_context state_dir f
    >>= (λ tls. ok (start_servers l tls port (needs_responder tls) bs))

-- The options that main passes on through the environment.
pub record Service : Type 0 where
  pub mask : Bytes
  pub redirect : Bytes
  pub external_service : Bytes
  pub socks_port : Bytes
  pub port : ℕ

-- The variables that are set, the first two before the flags are parsed, and whether the internal
-- SOCKS proxy is run.
unfoldable pub environment : Service → Map Bytes × Bool
environment o = (
  (codes "TOR_PT_MANAGED_TRANSPORT_VER", codes "1")
      ∷ (codes "TOR_PT_SERVER_TRANSPORTS", codes "meek")
      ∷ (codes "MASK_DOC", o.mask)
      ∷ (codes "MASK_REDIRECT", o.redirect)
      ∷ (codes "TOR_PT_SERVER_BINDADDR", codes "meek-0.0.0.0:" ++ decimal o.port)
      ∷ (
        codes "TOR_PT_ORPORT",
        if same o.external_service []
            then codes "127.0.0.1:" ++ o.socks_port
            else o.external_service,
      )
      ∷ [],
  same o.external_service [],
)
