-- ===== src/Client/Retries.antt =====
-- How often a request is tried, and with what end.
use Prim.Native.Nat.{max}
use meek.Base.{
  ℕ, zero, suc, List, ◌∷◌, ◌++◌, All, length, ◌+◌, ◌*◌, ◌<◌, ◌≤◌, ◌≡◌, arith, ◌⊎◌, lt→ltb, ◌≢◌,
}
use meek.Go.Errors.{Result, ok}
use meek.Client.Transport.{
  RoundTripper, ClientRequest, ClientResponse, round_trip_retries, checked, retry_delay,
}

-- The state, with a count of the tries, the time that was slept, and the answers, the newest first.
abbrev pub Counts {ℓ} : Type ℓ → Type ℓ
Counts S = ℕ × ℕ × List (Result ClientResponse) × S

module _ {ℓ} {S : Type ℓ} where
  abbrev pub counted : RoundTripper S → RoundTripper (Counts S)
  counted rt req (n, slept, answers, s) =
      let (r, req', s') = rt req s in (r, req', (suc n, slept, r ∷ answers, s'))

  abbrev pub timed : (ℕ → S → S) → ℕ → Counts S → Counts S
  timed sleep d (n, slept, answers, s) = (n, slept + d, answers, sleep d s)

-- A status other than 200, and no error.
abbrev pub IsRefusal : Result ClientResponse → Type 0
IsRefusal r = (resp : ClientResponse) × (r ≡ ok resp) × (resp.status_code ≢ 200)

module _ {ℓ} {S : Type ℓ} (rt : RoundTripper S) (sleep : ℕ → S → S) where
  -- From tries before, and answers to them, to the end.
  pub record Tried (limit n slept : ℕ) (old : List (Result ClientResponse))
      (o : Result ClientResponse × ClientRequest × Counts S) : Type ℓ where
    pub answer : Result ClientResponse
    pub refusals : List (Result ClientResponse)
    pub answers : o.2.2 ≡ answer ∷ refusals ++ old
    pub all_refused : All IsRefusal refusals
    pub result : o.0 ≡ checked answer
    pub tries : o.2.0 ≡ n + suc (length refusals)
    pub at_most : suc (length refusals) ≤ max 1 limit
    pub early : (suc (length refusals) ≡ max 1 limit) ⊎ (¬ IsRefusal answer)
    pub paused : o.2.1 ≡ slept + retry_delay * length refusals

  -- A first answer with status 200 is the result.
  pub round_trip_retries-first :
      (limit : ℕ) (req req' : ClientRequest) (s s' : S) (resp : ClientResponse)
      → rt req s ≡ (ok resp, req', s')
      → resp.status_code ≡ 200
      → round_trip_retries rt sleep limit req s ≡ (ok resp, req', s')
  unfolding round_trip_retries
  round_trip_retries-first zero req req' s s' resp h k = rw (h, k)
  round_trip_retries-first (suc limit) req req' s s' resp h k = rw (h, k)

  -- A first answer with another status is followed by the next try, on what is left of the request.
  pub round_trip_retries-again :
      (limit : ℕ) (req req' : ClientRequest) (s s' : S) (resp : ClientResponse)
      → 0 < limit
      → rt req s ≡ (ok resp, req', s')
      → resp.status_code ≢ 200
      → round_trip_retries rt sleep (suc limit) req s
        ≡ round_trip_retries rt sleep limit req' (sleep retry_delay s')
  unfolding round_trip_retries
  round_trip_retries-again limit req req' s s' resp n h k = rw (h, lt→ltb 0 limit n) (ground arith)
