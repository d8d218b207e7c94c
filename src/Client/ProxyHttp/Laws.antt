-- ===== src/Client/ProxyHttp/Laws.antt =====
-- What becomes of a connection to a proxy.
use meek.Base.{
  ℕ, Bytes, [], ◌∷◌, Option, none, some, ◌==◌, ◌≡◌, ◌≢◌, refl, arith, inl, inr, Bool-cases,
}
use meek.Go.Errors.{GoError, Result, ok, err, Result-cases}
use meek.Client.Utls.{Auth}
use meek.Client.ProxyHttp.{
  ConnectRequest, Reading, connected, failed, panicked, Dialed, proxy_answer, after_reading,
  after_dial, after_write, connect_request, http_proxy_dial,
}

-- A connection is handed out and open, or Dial fails and it is closed, or Dial panics.
abbrev pub Accounted : ℕ → Dialed → Type 0
Accounted c (connected d, closed) = (d ≡ c) × (closed ≡ [])
Accounted c (failed e, closed) = closed ≡ c ∷ []
Accounted c (panicked n, closed) = (n ≢ 0) × (closed ≡ [])

after_reading-Accounted : (c : ℕ) (r : Reading) → Accounted c (after_reading c r)
unfolding after_reading proxy_answer
after_reading-Accounted c r = elim (Bool-cases (r.buffered == 0)) [
  | inl empty ↦ elim (Result-cases r.response) [
    | inl (resp, h) ↦ elim (Bool-cases (resp.status_code == 200)) [
      | inl good ↦ rw (empty, h, good) (refl, refl)
      | inr bad ↦ rw (empty, h, bad)
    ]
    | inr (e, h) ↦ rw (empty, h)
  ]
  | inr full ↦ rw full (ground arith)
]

module _ {W : Type 0} (forward : Bytes → W → Result ℕ × W)
    (write_request : ℕ → ConnectRequest → W → Option GoError × W)
    (read_response : ℕ → W → Reading × W) where
  after_write-Accounted :
      (c : ℕ) (r : Option GoError × W)
      → Accounted c (after_write forward write_request read_response c r).0
  unfolding after_write
  after_write-Accounted c (some e, w) = refl
  after_write-Accounted c (none, w) = after_reading-Accounted c (read_response c w).0

  after_dial-Accounted :
      (req : ConnectRequest) (c : ℕ) (r : Result ℕ × W)
      → r.0 ≡ ok c
      → Accounted c (after_dial forward write_request read_response req r).0
  unfolding after_dial
  after_dial-Accounted req c (err e, w) h = absurd (ground arith)
  after_dial-Accounted req c (ok d, w) h =
      rw (same_conn h) (after_write-Accounted d (write_request d req w))
    where
      same_conn : ok d ≡ ok c → c ≡ d
      same_conn e = ground arith

  -- A connection that the forward dialer has handed to Dial is handed out as it is and not closed, or
  -- it is closed, it and no other, when Dial returns an error; the one way around both is the
  -- panic on bytes that the buffer still holds.
  pub http_proxy_dial-Accounted :
      (proxy : Bytes) (auth : Option Auth) (addr : Bytes) (w : W) (c : ℕ)
      → (forward proxy w).0 ≡ ok c
      → Accounted c (http_proxy_dial forward write_request read_response proxy auth addr w).0
  unfolding http_proxy_dial
  http_proxy_dial-Accounted proxy auth addr w c h =
      after_dial-Accounted (connect_request auth addr) c (forward proxy w) h
