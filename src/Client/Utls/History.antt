-- ===== src/Client/Utls/History.antt =====
-- A UTLSRoundTripper over all its requests. What an internal transport does with a request is a
-- parameter: the addresses that it dials by dialTLS, and then an exchange over what it was given.
use meek.Base.{
  Bytes, codes, List, [], ◌∷◌, ◌++◌, Option, none, some, Bool, true, same, ◌≡◌, ◌∙◌, sym, ap, refl,
  arith, All, All-append, inl, inr, Bool-cases,
}
use meek.Go.Errors.{Result, ok, err}
use meek.Client.Url.{Url}
use meek.Client.Transport.{ClientRequest, ClientResponse}
use meek.Client.Utls.{
  Conn, Inner, next_proto_tls, dial_tls, make_round_tripper, utls_round_trip, passed_on,
}
use meek.Client.Utls.Laws.{Fits, dial_tls_lem, make_round_tripper_lem}

-- A connection that was given to a transport, and whether that is an http2.Transport.
abbrev pub Given : Type 0
Given = Bool × Conn

abbrev given : Bool → List (Result Conn) → List Given
given kind [] = []
given kind (err e ∷ rs) = given kind rs
given kind (ok c ∷ rs) = (kind, c) ∷ given kind rs

-- A transport of this kind, with a connection of its protocol.
abbrev pub IsOf : Bool → Given → Type 0
IsOf kind g = (g.0 ≡ kind) × (same g.1.protocol next_proto_tls ≡ kind)

module _ {W : Type 0} (dial : Bytes → W → Result Conn × W)
    (http_rt : ClientRequest → W → Result ClientResponse × W)
    (asks : ClientRequest → W → List Bytes)
    (exchange : Bool → ClientRequest → List (Result Conn) → W → Result ClientResponse × W) where
  unfoldable dialed : List Bytes → Inner → W → List (Result Conn) × Inner × W
  dialed [] i w = ([], i, w)
  dialed (addr ∷ addrs) i w =
      let (r, i', w') = dial_tls dial addr i w in
      let (rs, i'', w'') = dialed addrs i' w' in (r ∷ rs, i'', w'')

  abbrev logged_dial : Bytes → W × List Given → Result Conn × (W × List Given)
  logged_dial addr (w, log) = let (r, w') = dial addr w in (r, (w', log))

  abbrev logged_http : ClientRequest → W × List Given → Result ClientResponse × (W × List Given)
  logged_http req (w, log) = let (r, w') = http_rt req w in (r, (w', log))

  -- The transport, which notes the connections that it is given.
  unfoldable transport :
      Inner → ClientRequest → W × List Given → Result ClientResponse × Inner × (W × List Given)
  unfolding dialed
  transport i req (w, log) =
      let (rs, i', w') = dialed (asks req w) i w in
      let (r, w'') = exchange i.http2 req rs w' in (r, i', (w'', log ++ given i.http2 rs))

  -- The requests, one after the other.
  unfoldable pub round_trips :
      List ClientRequest → Option Inner → W × List Given → Option Inner × (W × List Given)
  unfolding transport
  round_trips [] rt s = (rt, s)
  round_trips (req ∷ reqs) rt s =
      let (r, rt', s') = utls_round_trip logged_dial logged_http transport req rt s in
      round_trips reqs rt' s'

  record IsSound (i : Inner) : Type 0 where
    fits : Fits logged_dial i
    kind : i.http2 ≡ same i.protocol next_proto_tls

  given-All :
      (kind : Bool) (r : Result Conn) (rs : List (Result Conn))
      → ((c : Conn) → r ≡ ok c → same c.protocol next_proto_tls ≡ kind)
      → All (IsOf kind) (given kind rs)
      → All (IsOf kind) (given kind (r ∷ rs))
  given-All kind (err e) rs h t = t
  given-All kind (ok c) rs h t = ((refl, h c refl), t)

  dial_tls-http2 : (addr : Bytes) (i : Inner) (w : W) → (dial_tls dial addr i w).1.http2 ≡ i.http2
  unfolding dial_tls
  dial_tls-http2 addr i w = ground arith

  record Sound (i : Inner) (r : List (Result Conn) × Inner × W) : Type 0 where
    after : IsSound r.1
    same_kind : r.1.http2 ≡ i.http2
    all : All (IsOf i.http2) (given i.http2 r.0)

  dialed-Sound : (addrs : List Bytes) (i : Inner) (w : W) → IsSound i → Sound i (dialed addrs i w)
  unfolding dialed
  dialed-Sound [] i w h = record { after = h; same_kind = refl; all = tt }
  dialed-Sound (addr ∷ addrs) i w h =
      let (r, i', w') = dial_tls dial addr i w in
      let t = dial_tls_lem dial addr i w h.fits in
      let k = dial_tls-http2 addr i w in
      let rest =
        dialed-Sound addrs i' w'
          (record { fits = t.1; kind = k ∙ h.kind ∙ ap (λ p. same p next_proto_tls) (sym t.0) }) in
      record {
        after = rest.after;
        same_kind = rest.same_kind ∙ k;
        all =
            given-All i.http2 r (dialed addrs i' w').0
              (λ c e. ap (λ p. same p next_proto_tls) (t.2 c e) ∙ sym h.kind) (rw k at rest.all);
      }

  -- No transport was given a connection before there was one, and the transport is sound.
  abbrev Steady : Option Inner → List Given → Type 0
  Steady none log = log ≡ []
  Steady (some i) log = IsSound i × All (IsOf i.http2) log

  transport-Steady :
      (i : Inner) (req : ClientRequest) (w : W) (log : List Given)
      → Steady (some i) log
      → let r = transport i req (w, log) in Steady (some r.1) r.2.1
  unfolding transport
  transport-Steady i req w log h =
      let s = dialed-Sound (asks req w) i w h.0 in
      (s.after, rw s.same_kind (All-append (IsOf i.http2) log _ h.1 s.all))

  make_round_tripper-log :
      (u : Url) (w : W) (log : List Given) → (make_round_tripper logged_dial u (w, log)).1.1 ≡ log
  unfolding make_round_tripper
  make_round_tripper-log u w log = ground arith

  passed_on-Steady :
      (req : ClientRequest) (r : Result Inner) (w : W) (log : List Given)
      → log ≡ []
      → ((i : Inner) → r ≡ ok i → IsSound i)
      → let t = passed_on logged_dial logged_http transport req (r, (w, log)) in Steady t.1 t.2.1
  unfolding passed_on
  passed_on-Steady req (err e) w log h k = h
  passed_on-Steady req (ok i) w log h k = transport-Steady i req w log (k i refl, rw h tt)

  make_round_tripper-IsSound :
      (u : Url) (s : W × List Given) (i : Inner)
      → (make_round_tripper logged_dial u s).0 ≡ ok i
      → IsSound i
  make_round_tripper-IsSound u s i h =
      let t = make_round_tripper_lem logged_dial u s i h in record { fits = t.0; kind = t.1 }

  utls_round_trip-Steady :
      (req : ClientRequest) (rt : Option Inner) (w : W) (log : List Given)
      → Steady rt log
      → let t = utls_round_trip logged_dial logged_http transport req rt (w, log) in
        Steady t.1 t.2.1
  unfolding utls_round_trip
  utls_round_trip-Steady req none w log h =
      let (r, (w', log')) = make_round_tripper logged_dial req.url (w, log) in
      let made =
        passed_on-Steady req r w' log' (make_round_tripper-log req.url w log ∙ h)
          (λ i e. make_round_tripper-IsSound req.url (w, log) i e) in
      elim (Bool-cases (same req.url.scheme (codes "http"))) [
        | inl plain ↦ rw plain h
        | inr tls ↦ elim (Bool-cases (same req.url.scheme (codes "https"))) [
          | inl safe ↦ rw (tls, safe) made
          | inr other ↦ rw (tls, other) h
        ]
      ]
  utls_round_trip-Steady req (some i) w log h =
      elim (Bool-cases (same req.url.scheme (codes "http"))) [
        | inl plain ↦ rw plain h
        | inr tls ↦ elim (Bool-cases (same req.url.scheme (codes "https"))) [
          | inl safe ↦ rw (tls, safe) (unfold passed_on in transport-Steady i req w log h)
          | inr other ↦ rw (tls, other) h
        ]
      ]

  round_trips-Steady :
      (reqs : List ClientRequest) (rt : Option Inner) (w : W) (log : List Given)
      → Steady rt log
      → let t = round_trips reqs rt (w, log) in Steady t.0 t.1.1
  unfolding round_trips
  round_trips-Steady [] rt w log h = h
  round_trips-Steady (req ∷ reqs) rt w log h =
      let (r, rt', (w', log')) =
        utls_round_trip logged_dial logged_http transport req rt (w, log) in
      round_trips-Steady reqs rt' w' log' (utls_round_trip-Steady req rt w log h)

  Steady-one_kind :
      (rt : Option Inner) (log : List Given) → Steady rt log → (kind : Bool) × All (IsOf kind) log
  Steady-one_kind none log h = (true, rw h tt)
  Steady-one_kind (some i) log h = (i.http2, h.1)

  -- Over all its requests, of whatever schemes and hosts, whichever fail, and whatever the transports do:
  -- all connections that a UTLSRoundTripper lets its transports have are given to transports of one
  -- kind, and have that kind's protocol, h2 for an http2.Transport and another for an http.Transport.
  pub round_trips-one_kind :
      (reqs : List ClientRequest) (w : W)
      → (kind : Bool) × All (IsOf kind) (round_trips reqs none (w, [])).1.1
  round_trips-one_kind reqs w =
      let (rt, (w', log)) = round_trips reqs none (w, []) in
      Steady-one_kind rt log (round_trips-Steady reqs none w [] refl)
