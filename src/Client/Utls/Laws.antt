-- ===== src/Client/Utls/Laws.antt =====
-- The connections that an internal transport is given.
use meek.Base.{
  Bytes, List, [], ◌∷◌, none, some, same, same_iff, ◌≡◌, ◌∙◌, sym, ap, refl, arith, All, inl, inr,
  Option-cases,
}
use meek.Go.Errors.{Result, ok, err, Result-cases}
use meek.Client.Url.{Url}
use meek.Client.Utls.{
  Conn, Inner, next_proto_tls, make_round_tripper, expect_protocol, dial_tls, addr_for_dial,
}

-- The connections of the results.
abbrev pub conns : List (Result Conn) → List Conn
conns [] = []
conns (err e ∷ rs) = conns rs
conns (ok c ∷ rs) = c ∷ conns rs

conns-All :
    (P : Conn → Type 0) (r : Result Conn) (rs : List (Result Conn))
    → ((c : Conn) → r ≡ ok c → P c)
    → All P (conns rs)
    → All P (conns (r ∷ rs))
conns-All P (err e) rs h t = t
conns-All P (ok c) rs h t = (h c refl, t)

All-map : (P Q : Conn → Type 0) (cs : List Conn) → ((c : Conn) → P c → Q c) → All P cs → All Q cs
All-map P Q [] f h = tt
All-map P Q (c ∷ cs) f h = (f c h.0, All-map P Q cs f h.1)

module _ {W : Type 0} (dial : Bytes → W → Result Conn × W) where
  -- A transport dials an address each time it needs a connection.
  unfoldable pub dials : List Bytes → Inner → W → List (Result Conn) × W
  dials [] i w = ([], w)
  dials (addr ∷ addrs) i w =
      let (r, i', w') = dial_tls dial addr i w in let (rs, w'') = dials addrs i' w' in (r ∷ rs, w'')

  abbrev pub Fits : Inner → Type 0
  Fits i = (c : Conn) → i.bootstrap ≡ some c → c.protocol ≡ i.protocol

  expect_protocol_lem :
      (i : Inner) (r : Result Conn) (c : Conn)
      → expect_protocol dial i r ≡ ok c
      → c.protocol ≡ i.protocol
  unfolding expect_protocol
  expect_protocol_lem i (err e) c q = absurd (ground arith)
  expect_protocol_lem i (ok d) c q = ground (arith, same_iff d.protocol i.protocol)

  pub dial_tls_lem :
      (addr : Bytes) (i : Inner) (w : W)
      → Fits i
      → ((dial_tls dial addr i w).1.protocol ≡ i.protocol)
        × Fits (dial_tls dial addr i w).1
        × ((c : Conn) → (dial_tls dial addr i w).0 ≡ ok c → c.protocol ≡ i.protocol)
  unfolding dial_tls
  dial_tls_lem addr i w h = elim (Option-cases i.bootstrap) [
    | inl n ↦ ground (arith, n, h, expect_protocol_lem i (dial addr w).0)
    | inr (c, e) ↦ ground (arith, e, h c e)
  ]

  dials-All :
      (addrs : List Bytes) (i : Inner) (w : W)
      → Fits i
      → All (λ c. c.protocol ≡ i.protocol) (conns (dials addrs i w).0)
  unfolding dials
  dials-All [] i w h = tt
  dials-All (addr ∷ addrs) i w h =
      let t = dial_tls_lem addr i w h in
      let rest = dials-All addrs (dial_tls dial addr i w).1 (dial_tls dial addr i w).2 t.1 in
      conns-All (λ c. c.protocol ≡ i.protocol) (dial_tls dial addr i w).0 _ t.2
        (All-map _ _ _ (λ c p. p ∙ t.0) rest)

  pub make_round_tripper_lem :
      (u : Url) (w : W) (i : Inner)
      → (make_round_tripper dial u w).0 ≡ ok i
      → Fits i × (i.http2 ≡ same i.protocol next_proto_tls)
  unfolding make_round_tripper
  make_round_tripper_lem u w i h = elim (Result-cases (addr_for_dial u)) [
    | inl (addr, k) ↦ elim (Result-cases (dial addr w).0) [
      | inl (c, l) ↦ ground (arith, k, l)
      | inr (x, l) ↦ absurd (ground (arith, k, l))
    ]
    | inr (x, k) ↦ absurd (ground (arith, k))
  ]

  -- Every connection that the transport is given has the protocol for which the transport was made:
  -- an http2.Transport is only given connections that negotiated h2, and an http.Transport none that
  -- did.
  make_round_tripper-protocol :
      (u : Url) (w : W) (i : Inner) (addrs : List Bytes)
      → (make_round_tripper dial u w).0 ≡ ok i
      → All
          (λ c. same c.protocol next_proto_tls ≡ i.http2)
          (conns (dials addrs i (make_round_tripper dial u w).1).0)
  make_round_tripper-protocol u w i addrs h =
      let t = make_round_tripper_lem u w i h in
      All-map _ _ _ (λ c p. ap (λ q. same q next_proto_tls) p ∙ sym t.1)
        (dials-All addrs i (make_round_tripper dial u w).1 t.0)

  made :
      (u : Url) (w : W) (i : Inner) (addr : Bytes) (c : Conn)
      → addr_for_dial u ≡ ok addr
      → (dial addr w).0 ≡ ok c
      → (make_round_tripper dial u w).0 ≡ ok i
      → (dial addr w ≡ (ok c, (make_round_tripper dial u w).1)) × (i.bootstrap ≡ some c)
  unfolding make_round_tripper
  made u w i addr c k l h = ground (arith, k, l)

  again :
      (c : Conn) (i : Inner) (w : W) (asked : Bytes) (addrs : List Bytes)
      → i.bootstrap ≡ some c
      → (dials (asked ∷ addrs) i w).0 ≡ ok c ∷ (dials addrs (record i { bootstrap = none }) w).0
  unfolding dials dial_tls
  again c i w asked addrs e = rw e

  -- The connection made to learn the protocol is not lost: it is the first that the transport is
  -- given, whatever address the transport asks for, and only later ones are dialed.
  pub make_round_tripper-reuses :
      (u : Url) (w : W) (i : Inner) (asked : Bytes) (addrs : List Bytes)
      → (make_round_tripper dial u w).0 ≡ ok i
      → (addr : Bytes) × (c : Conn) × (addr_for_dial u ≡ ok addr)
        × (dial addr w ≡ (ok c, (make_round_tripper dial u w).1))
        × ((dials (asked ∷ addrs) i (make_round_tripper dial u w).1).0
            ≡ ok c
              ∷ (dials addrs (record i { bootstrap = none }) (make_round_tripper dial u w).1).0)
  make_round_tripper-reuses u w i asked addrs h = elim (Result-cases (addr_for_dial u)) [
    | inl (addr, k) ↦ elim (Result-cases (dial addr w).0) [
      | inl (c, l) ↦
          let m = made u w i addr c k l h in (addr, c, k, m.0, again c i _ asked addrs m.1)
      | inr (x, l) ↦ absurd (unfold make_round_tripper in ground (arith, k, l))
    ]
    | inr (x, k) ↦ absurd (unfold make_round_tripper in ground (arith, k))
  ]
