-- ===== src/Client/Poll.antt =====
-- copyLoop of meek-client/meek-client.go. The reading goroutine and the timer are events: a chunk
-- came from the local connection, the timer fired, or the channel was closed. Each event comes with
-- what the local connection does with the answer. Times count nanoseconds.
use meek.Base.{
  ℕ, ◌*◌, ◌/◌, Bytes, List, [], ◌∷◌, ◌≡◌, refl, arith, ◌++◌, Option, none, some, Bool, ◌||◌, ltb,
  ◌==◌, if◌then◌else◌, length,
}
use meek.Go.Errors.{GoError, Result}
use meek.Client.Url.{Url}
use meek.Client.Transport.{Sink, RequestInfo, send_recv}

abbrev pub millisecond : ℕ
millisecond = 1000000

abbrev pub init_poll_interval : ℕ
init_poll_interval = 100 * millisecond

abbrev pub max_poll_interval : ℕ
max_poll_interval = 5000 * millisecond

pub data Event : Type 0 where
  local : Bytes → Sink → Event
  timer : Sink → Event
  closed : Event

-- float64(interval) * 1.5 is exact for the intervals of the loop, and the conversion drops a half.
unfoldable pub next_interval : Bool → ℕ → ℕ
next_interval active interval =
    let next =
      if active then 0 else if interval == 0 then init_poll_interval else interval * 3 / 2 in
    if ltb max_poll_interval next then max_poll_interval else next

-- How the loop stands: the interval it waits for at most, what the local connection
-- has received, and the round tripper's state. `result` is set when the loop has
-- returned: `some none` is a nil error.
pub record Loop {ℓ} (S : Type ℓ) : Type ℓ where
  pub interval : ℕ
  pub received : Bytes
  pub transport : S
  pub result : Option (Option GoError)

unfoldable pub start_loop {ℓ} : {S : Type ℓ} → S → Loop S
start_loop s = record { interval = init_poll_interval; received = []; transport = s; result = none }

module _ {ℓ} (reparse : Url → Result Url) {S : Type ℓ} (info : RequestInfo S) where
  -- Behind sendRecv.
  unfoldable pub settle : Bytes → (Bytes × Option GoError) × S → Loop S → Loop S
  settle buf ((got, e), s) l = record {
    interval = elim e [
      | none ↦ next_interval (ltb 0 (length got) || ltb 0 (length buf)) l.interval
      | some _ ↦ l.interval
    ];
    received = l.received ++ got;
    transport = s;
    result = elim e [ none ↦ none | some e' ↦ some (some e') ];
  }

  unfoldable pub poll : Bytes → Sink → Loop S → Loop S
  unfolding settle
  poll buf sink l = settle buf (send_recv reparse buf info sink l.transport) l

  unfoldable pub iterate : Event → Loop S → Loop S
  unfolding poll
  iterate (local buf sink) l = poll buf sink l
  iterate (timer sink) l = poll [] sink l
  iterate closed l = record l { result = some none }

  -- The loop runs until it has returned.
  unfoldable pub copy_loop : List Event → Loop S → Loop S
  unfolding iterate
  copy_loop [] l = l
  copy_loop (e ∷ es) l =
      let next = copy_loop es (iterate e l) in elim l.result [ none ↦ next | some r ↦ l ]

  pub copy_loop-running :
      (e : Event) (es : List Event) (l : Loop S)
      → l.result ≡ none
      → copy_loop (e ∷ es) l ≡ copy_loop es (iterate e l)
  unfolding copy_loop
  copy_loop-running e es l h = ground arith

  pub copy_loop-returned :
      (es : List Event) (l : Loop S) (r : Option GoError) → l.result ≡ some r → copy_loop es l ≡ l
  unfolding copy_loop
  copy_loop-returned [] l r h = refl
  copy_loop-returned (e ∷ es) l r h = ground arith
