-- ===== src/Server/Startup/Laws.antt =====
-- What start-up leaves behind.
pub mod Closing
use meek.Base.{
  ℕ, ◌≤◌, Bytes, List, [], ◌∷◌, ◌++◌, Option, Bool, true, false, if◌then◌else◌, same, same_iff, ◌≡◌,
  ◌≢◌, ap, ◌⊎◌, inl, inr, refl, arith, ◌∙◌, sym, length, length-append, append_assoc, append-nil,
}
use meek.Go.Errors.{GoError, Result, ok, Result-cases}
use meek.Go.Text.{split}
use meek.Server.Startup.{
  Flags, Tls, no_tls, cert_files, acme, set_up_tls, Addr, Bindaddr, Event, smethod, smethod_error,
  responder, close, Listening, start_server, init_server, at_port, start_one, start_servers, start,
  needs_responder, closings,
}

-- What the events give, in order.
abbrev collect {ℓ} : {A : Type ℓ} → (Event → List A) → List Event → List A
collect f [] = []
collect f (e ∷ es) = f e ++ collect f es

collect-append {ℓ} :
    {A : Type ℓ} (f : Event → List A) (xs ys : List Event)
    → collect f (xs ++ ys) ≡ collect f xs ++ collect f ys
collect-append f [] ys = refl
collect-append f (x ∷ xs) ys =
    ap (◌++◌ (f x)) (collect-append f xs ys)
    ∙ sym (append_assoc (f x) (collect f xs) (collect f ys))

-- The method of a line that reports, whether a server listens or there is an error.
abbrev pub method_of : Event → List Bytes
method_of (smethod m addr) = m ∷ []
method_of (smethod_error m text) = m ∷ []
method_of _ = []

-- The address of a line that says that a server listens.
abbrev pub address_of : Event → List Addr
address_of (smethod m addr) = addr ∷ []
address_of _ = []

abbrev pub responder_of : Event → List Addr
responder_of (responder addr) = addr ∷ []
responder_of _ = []

-- A server that is closed.
abbrev closed_of : Event → List Addr
closed_of (close addr) = addr ∷ []
closed_of _ = []

abbrev pub closed_by : List Event → List Addr
closed_by = collect closed_of

abbrev pub reported : List Event → List Bytes
reported = collect method_of

abbrev pub listening : List Event → List Addr
listening = collect address_of

abbrev pub responders : List Event → ℕ
responders es = length (collect responder_of es)

abbrev pub methods : List Bindaddr → List Bytes
methods [] = []
methods (b ∷ bs) = b.method_name ∷ methods bs

-- One server: its report, no responder, and it is kept exactly if its report says that it listens.
start_server_lem :
    (l : Listening) (tls : Tls) (b : Bindaddr)
    → (reported (start_server l tls b).0 ≡ b.method_name ∷ [])
      × (listening (start_server l tls b).0 ≡ (start_server l tls b).1)
      × (collect responder_of (start_server l tls b).0 ≡ [])
unfolding start_server init_server
start_server_lem l tls b = ground arith

start_one_lem :
    (l : Listening) (tls : Tls) (needed : Bool) (b : Bindaddr)
    → (reported (start_one l tls needed b).0 ≡ b.method_name ∷ [])
      × (listening (start_one l tls needed b).0 ≡ (start_one l tls needed b).1)
      × (responders (start_one l tls needed b).0 ≡ (if needed then 1 else 0))
unfolding start_one
start_one_lem l tls false b = let t = start_server_lem l tls b in (t.0, t.1, rw t.2 (omega arith))
start_one_lem l tls true b = ground (arith, start_server_lem l tls b)

start_servers-reported :
    (l : Listening) (tls : Tls) (port : ℕ) (needed : Bool) (bs : List Bindaddr)
    → reported (start_servers l tls port needed bs).0 ≡ methods bs
unfolding start_servers
start_servers-reported l tls port needed [] = refl
start_servers-reported l tls port needed (b ∷ bs) = ground (
  arith,
  collect-append method_of (start_one l tls needed (at_port port b)).0
      (start_servers l tls port false bs).0,
  start_one_lem l tls needed (at_port port b),
  start_servers-reported l tls port false bs,
  start_servers-reported l tls port needed bs,
)

start_servers-listening :
    (l : Listening) (tls : Tls) (port : ℕ) (needed : Bool) (bs : List Bindaddr)
    → listening (start_servers l tls port needed bs).0 ≡ (start_servers l tls port needed bs).1
unfolding start_servers
start_servers-listening l tls port needed [] = refl
start_servers-listening l tls port needed (b ∷ bs) = ground (
  arith,
  collect-append address_of (start_one l tls needed (at_port port b)).0
      (start_servers l tls port false bs).0,
  start_one_lem l tls needed (at_port port b),
  start_servers-listening l tls port false bs,
  start_servers-listening l tls port needed bs,
)

start_servers-responders :
    (l : Listening) (tls : Tls) (port : ℕ) (needed : Bool) (bs : List Bindaddr)
    → responders (start_servers l tls port needed bs).0 ≤ (if needed then 1 else 0)
unfolding start_servers
start_servers-responders l tls port needed [] = omega arith
start_servers-responders l tls port needed (b ∷ bs) =
    let one = (start_one l tls needed (at_port port b)).0 in
    let rest = (start_servers l tls port false bs).0 in
    ground (
      arith,
      ap length (collect-append responder_of one rest),
      length-append (collect responder_of one) (collect responder_of rest),
      start_one_lem l tls needed (at_port port b),
      start_servers-responders l tls port false bs,
      start_servers-responders l tls port needed bs,
    )

-- The configurations that the program takes. With the ACME host names, one of the certificate's two
-- files may be named; it is not used.
abbrev pub Legal : Flags → Tls → Type 0
Legal f no_tls =
    (f.disable_tls ≡ true)
    × (f.acme_email ≡ [])
    × (f.acme_hostnames ≡ [])
    × (f.cert_filename ≡ [])
    × (f.key_filename ≡ [])
Legal f (cert_files cert key) =
    (f.disable_tls ≡ false)
    × (f.acme_email ≡ [])
    × (f.acme_hostnames ≡ [])
    × (cert ≡ f.cert_filename)
    × (key ≡ f.key_filename)
    × (cert ≢ [])
    × (key ≢ [])
Legal f (acme email hostnames cache) =
    (f.disable_tls ≡ false)
    × (email ≡ f.acme_email)
    × (hostnames ≡ split b',' f.acme_hostnames)
    × (f.acme_hostnames ≢ [])
    × ((f.cert_filename ≡ []) ⊎ (f.key_filename ≡ []))

-- Start-up takes only legal configurations, and reads off each what its options say.
pub set_up_tls-Legal :
    (mk : Bytes → Bytes → Option GoError) (state_dir : Result Bytes) (f : Flags) (tls : Tls)
    → set_up_tls mk state_dir f ≡ ok tls
    → Legal f tls
unfolding set_up_tls
set_up_tls-Legal mk state_dir f no_tls h = ground (
  arith,
  same_iff f.acme_email [],
  same_iff f.acme_hostnames [],
  same_iff f.cert_filename [],
  same_iff f.key_filename [],
)
set_up_tls-Legal mk state_dir f (cert_files cert key) h = ground (
  arith,
  same_iff f.acme_email [],
  same_iff f.acme_hostnames [],
  same_iff f.cert_filename [],
  same_iff f.key_filename [],
)
set_up_tls-Legal mk state_dir f (acme email hostnames cache) h = ground (
  arith,
  same_iff f.acme_email [],
  same_iff f.acme_hostnames [],
  same_iff f.cert_filename [],
  same_iff f.key_filename [],
)

needs_responder_le :
    (f : Flags) (tls : Tls)
    → Legal f tls
    → (if needs_responder tls then 1 else 0) ≤ (if same f.acme_hostnames [] then 0 else 1)
needs_responder_le f no_tls h = omega arith
needs_responder_le f (cert_files cert key) h = omega arith
needs_responder_le f (acme email hostnames cache) h = ground (arith, same_iff f.acme_hostnames [])

-- Where start-up is not refused: each bind address is answered exactly once, in order, with a line
-- that it listens or one that says why not; the servers that are kept, to be closed at the end, are
-- exactly those whose line says that they listen; and a responder for ACME is tried at most once, and
-- not at all without host names for ACME.
pub start_lem :
    (mk : Bytes → Bytes → Option GoError) (state_dir : Result Bytes) (l : Listening) (f : Flags)
    (port : ℕ) (bs : List Bindaddr) (es : List Event) (servers : List Addr)
    → start mk state_dir l f port bs ≡ ok (es, servers)
    → (reported es ≡ methods bs)
      × (listening es ≡ servers)
      × (responders es ≤ (if same f.acme_hostnames [] then 0 else 1))
unfolding start
start_lem mk state_dir l f port bs es servers h = elim (Result-cases (set_up_tls mk state_dir f)) [
  | inl (tls, k) ↦
      let made : start_servers l tls port (needs_responder tls) bs ≡ (es, servers) =
        ground (arith, h, k) in
      (
        ap (λ r. reported r.0) (sym made)
            ∙ start_servers-reported l tls port (needs_responder tls) bs,
        ap (λ r. listening r.0) (sym made)
            ∙ start_servers-listening l tls port (needs_responder tls) bs
            ∙ ap (λ r. r.1) made,
        omega (
          arith,
          needs_responder_le f tls (set_up_tls-Legal mk state_dir f tls k),
          start_servers-responders l tls port (needs_responder tls) bs,
          ap (λ r. responders r.0) made,
        ),
      )
  | inr (e, k) ↦ absurd (ground (arith, k))
]
