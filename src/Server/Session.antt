-- ===== src/Server/Session.antt =====
-- The session map of meek-server/meek-server.go: Session, State, GetSession, CloseSession and a
-- sweep of ExpireSessions. The OR connections live outside the program: a connection is a number,
-- and `World` records which were opened and closed, and what was written to them. Time counts
-- nanoseconds. The methods that hold the lock are single steps.
use meek.Base.{
  ℕ, ◌-◌, ◌*◌, Bytes, codes, List, [], ◌∷◌, none, some, Bool, ltb, if◌then◌else◌, Map, lookup,
  insert, erase,
}
use meek.Go.Errors.{GoError, Result, ok, err}

abbrev pub second : ℕ
second = 1000000000

abbrev pub millisecond : ℕ
millisecond = 1000000

abbrev pub min_session_id_length : ℕ
min_session_id_length = 8

abbrev pub max_payload_length : ℕ
max_payload_length = 0x10000

abbrev pub max_session_staleness : ℕ
max_session_staleness = 120 * second

abbrev pub pt_method_name : Bytes
pt_method_name = codes "meek"

pub record Session : Type 0 where
  pub or : ℕ
  pub last_seen : ℕ

unfoldable pub touch : ℕ → Session → Session
touch now s = record s { last_seen = now }

unfoldable pub is_expired : ℕ → Session → Bool
is_expired now s = ltb max_session_staleness (now - s.last_seen)

-- `log` holds the errors that were logged, newest first; `sent` the chunks written to connections.
pub record World : Type 0 where
  pub opened : List ℕ
  pub closed : List ℕ
  pub sent : List (ℕ × Bytes)
  pub log : List GoError

abbrev pub State : Type 0
State = Map Session

pub record Server : Type 0 where
  pub session_map : State
  pub world : World

abbrev pub new_world : World
new_world = record { opened = []; closed = []; sent = []; log = [] }

unfoldable pub new_state : Server
new_state = record { session_map = []; world = new_world }

unfoldable pub close_or : ℕ → World → World
close_or c w = record w { closed = c ∷ w.closed }

-- `dialed` is what pt.DialOr returns.
unfoldable pub start_session : Bytes → ℕ → Server → Result ℕ → Result Session × Server
unfolding touch
start_session id now v (err e) = (err e, v)
start_session id now v (ok c) =
    let session = touch now (record { or = c; last_seen = 0 }) in
    (
      ok session,
      record {
        session_map = insert id session v.session_map;
        world = record v.world { opened = c ∷ v.world.opened };
      },
    )

-- A session is one object that the map points to: touching it is an update of its entry.
unfoldable pub get_session :
    (dial_or : Bytes → Bytes → Result ℕ) (useraddr id : Bytes) (now : ℕ)
    → Server
    → Result Session × Server
unfolding start_session touch
get_session dial_or useraddr id now v = elim (lookup id v.session_map) [
  | none ↦ start_session id now v (dial_or useraddr pt_method_name)
  | some s ↦ (ok (touch now s), record v { session_map = insert id (touch now s) v.session_map })
]

unfoldable pub close_session : Bytes → Server → Server
unfolding close_or
close_session id v = elim (lookup id v.session_map) [
  | none ↦ v
  | some s ↦ record { session_map = erase id v.session_map; world = close_or s.or v.world }
]

-- The loop over the map in one round of ExpireSessions, over the entries left to visit.
unfoldable pub expire_loop : ℕ → State → World → State × World
unfolding close_or
expire_loop now [] w = ([], w)
expire_loop now ((id, s) ∷ m) w =
    let dropped = expire_loop now m (close_or s.or w) in
    let kept = expire_loop now m w in
    if is_expired now s then dropped else ((id, s) ∷ kept.0, kept.1)

unfoldable pub expire_sessions : ℕ → Server → Server
unfolding expire_loop
expire_sessions now v =
    let (m, w) = expire_loop now v.session_map v.world in record { session_map = m; world = w }
