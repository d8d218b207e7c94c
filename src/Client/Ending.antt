-- ===== src/Client/Ending.antt =====
-- What copyLoop has done with its transport when it ends, and why it ends.
use meek.Base.{Option, Bytes, List, [], ◌∷◌, ◌++◌, none, some, ◌≡◌}
use meek.Go.Errors.{GoError, Result}
use meek.Client.Url.{Url}
use meek.Client.Transport.{RequestInfo, Sink, send_recv}
use meek.Client.Poll.{Event, local, timer, closed, Loop}

-- What an event asks for: its chunk, or an empty one when the timer fires.
pub data Asks : Event → Bytes → Sink → Type 0 where
  chunk : (buf : Bytes) (sink : Sink) → Asks (local buf sink) buf sink
  empty : (sink : Sink) → Asks (timer sink) [] sink

-- What the loop returns for the error of a call.
abbrev returned : Option GoError → Option (Option GoError)
returned none = none
returned (some e) = some (some e)

module _ (reparse : Url → Result Url) {S : Type 0} (info : RequestInfo S) where
  -- The calls of sendRecv for these events, each with the event's payload, in order, from one state of
  -- the transport to another: all go well, and give these bytes.
  pub data Sends : List Event → S → Bytes → S → Type 0 where
    done : {s : S} → Sends [] s [] s
    sends :
        {ev : Event} {buf : Bytes} {sink : Sink} {es : List Event} {s s' t : S} {got more : Bytes}
        → Asks ev buf sink
        → send_recv reparse buf info sink s ≡ ((got, none), s')
        → Sends es s' more t
        → Sends (ev ∷ es) s (got ++ more) t

  -- Why the loop stands where it does, with these events left, the transport in this state and these
  -- bytes received before: none is left; the channel is closed; or the call of sendRecv for the next
  -- event failed, and its error is what the loop returns.
  pub data Why : List Event → S → Bytes → Loop S → Type 0 where
    waits :
        {s : S} {r : Bytes} {l : Loop S}
        → l.result ≡ none
        → l.transport ≡ s
        → l.received ≡ r
        → Why [] s r l
    at_end :
        {rest : List Event} {s : S} {r : Bytes} {l : Loop S}
        → l.result ≡ some none
        → l.transport ≡ s
        → l.received ≡ r
        → Why (closed ∷ rest) s r l
    fails :
        {ev : Event} {buf : Bytes} {sink : Sink} {rest : List Event} {s : S} {r : Bytes}
        {l : Loop S} {got : Bytes} {e : GoError}
        → Asks ev buf sink
        → send_recv reparse buf info sink s ≡ ((got, some e), l.transport)
        → l.result ≡ some (some e)
        → l.received ≡ r ++ got
        → Why (ev ∷ rest) s r l

  pub record Ended (es : List Event) (l l' : Loop S) : Type 0 where
    pub before : List Event
    pub after : List Event
    pub split : es ≡ before ++ after
    pub between : S
    pub got : Bytes
    pub sends : Sends before l.transport got between
    pub why : Why after between (l.received ++ got) l'
