-- ===== src/Client/Intervals.antt =====
-- How the polling interval moves.
use meek.Base.{
  Bytes, ℕ, zero, suc, ◌<◌, ◌≤◌, List, [], ◌∷◌, ◌≡◌, refl, Bool, false, arith, Option, none, some,
  inl, inr, ◌⊎◌, Option-cases,
}
use meek.Go.Errors.{GoError, Result}
use meek.Client.Url.{Url}
use meek.Client.Transport.{RequestInfo, send_recv}
use meek.Client.Poll.{
  next_interval, init_poll_interval, max_poll_interval, Event, local, timer, closed, Loop, iterate,
  copy_loop, start_loop, settle, poll, copy_loop-running, copy_loop-returned,
}

next_interval-le : (active : Bool) (i : ℕ) → next_interval active i ≤ max_poll_interval
unfolding next_interval
next_interval-le active i = ground arith

-- `n` polls at which nothing is sent and nothing comes.
abbrev pub idle : ℕ → ℕ → ℕ
idle zero i = i
idle (suc n) i = idle n (next_interval false i)

next_interval_mono : (i j : ℕ) → 0 < i → i ≤ j → next_interval false i ≤ next_interval false j
unfolding next_interval
next_interval_mono i j p h = ground arith

next_interval-pos : (i : ℕ) → 0 < next_interval false i
unfolding next_interval
next_interval-pos i = ground arith

idle_mono : (n i j : ℕ) → 0 < i → i ≤ j → idle n i ≤ idle n j
idle_mono zero i j p h = h
idle_mono (suc n) i j p h =
    idle_mono n (next_interval false i) (next_interval false j) (next_interval-pos i)
      (next_interval_mono i j p h)

idle-le : (n i : ℕ) → i ≤ max_poll_interval → idle n i ≤ max_poll_interval
idle-le zero i h = h
idle-le (suc n) i h = idle-le n (next_interval false i) (next_interval-le false i)

idle-max_stays : (n : ℕ) → idle n max_poll_interval ≡ max_poll_interval
unfolding next_interval
idle-max_stays zero = refl
idle-max_stays (suc n) = idle-max_stays n

idle_from_init : idle 12 init_poll_interval ≡ max_poll_interval
unfolding next_interval
idle_from_init = refl

idle_from_zero : idle 12 0 ≡ max_poll_interval
unfolding next_interval
idle_from_zero = refl

idle_twelve :
    (i : ℕ)
    → (i ≡ 0) ⊎ (init_poll_interval ≤ i)
    → i ≤ max_poll_interval
    → idle 12 i ≡ max_poll_interval
idle_twelve i (inl e) k = rw e idle_from_zero
idle_twelve i (inr h) k =
    omega (arith, idle_from_init, idle-le 12 i k, idle_mono 12 init_poll_interval i (omega arith) h)

-- From any interval that the loop can have, twelve idle polls in a row bring it to the maximum, and
-- any further ones leave it there.
idle-max :
    (n i : ℕ)
    → (i ≡ 0) ⊎ (init_poll_interval ≤ i)
    → i ≤ max_poll_interval
    → idle n (idle 12 i) ≡ max_poll_interval
idle-max n i h k = rw (idle_twelve i h k) (idle-max_stays n)

-- The intervals that the loop can have.
abbrev pub IsInterval : ℕ → Type 0
IsInterval i = ((i ≡ 0) ⊎ (init_poll_interval ≤ i)) × (i ≤ max_poll_interval)

next_interval-IsInterval :
    (active : Bool) (i : ℕ) → IsInterval i → IsInterval (next_interval active i)
unfolding next_interval
next_interval-IsInterval active i h = ground arith

module _ {ℓ} (reparse : Url → Result Url) {S : Type ℓ} (info : RequestInfo S) where
  settle-interval :
      (buf : Bytes) (r : (Bytes × Option GoError) × S) (l : Loop S)
      → IsInterval l.interval
      → IsInterval (settle reparse info buf r l).interval
  unfolding settle
  settle-interval buf ((got, none), s) l h = next_interval-IsInterval _ l.interval h
  settle-interval buf ((got, some e), s) l h = h

  iterate-interval :
      (e : Event) (l : Loop S)
      → IsInterval l.interval
      → IsInterval (iterate reparse info e l).interval
  unfolding iterate poll
  iterate-interval (local buf sink) l h =
      settle-interval buf (send_recv reparse buf info sink l.transport) l h
  iterate-interval (timer sink) l h =
      settle-interval [] (send_recv reparse [] info sink l.transport) l h
  iterate-interval closed l h = h

  copy_loop-interval_from :
      (es : List Event) (l : Loop S)
      → IsInterval l.interval
      → IsInterval (copy_loop reparse info es l).interval
  copy_loop-interval_from [] l h = unfold copy_loop in h
  copy_loop-interval_from (e ∷ es) l h = elim (Option-cases l.result) [
    | inl running ↦
        rw (copy_loop-running reparse info e es l running)
          (copy_loop-interval_from es (iterate reparse info e l) (iterate-interval e l h))
    | inr (r, returned) ↦ rw (copy_loop-returned reparse info (e ∷ es) l r returned) h
  ]

  -- Whatever happens, the time the loop waits before it polls is zero or from 100 milliseconds to 5
  -- seconds.
  pub copy_loop-interval :
      (es : List Event) (s : S) → IsInterval (copy_loop reparse info es (start_loop s)).interval
  unfolding start_loop
  copy_loop-interval es s =
      copy_loop-interval_from es (start_loop s) (inr (omega arith), omega arith)
