-- ===== src/Server/Clients/Tests.antt =====
-- Two clients and a sweep at a concrete input; the other client's requests fail.
use meek.Base.{
  ℕ, ◌*◌, Bytes, codes, List, [], ◌∷◌, none, some, ◌≡◌, refl, arith, inl, inr, lookup, same,
  same_iff,
}
use meek.Go.Errors.{plain, ok}
use meek.Go.Http.{Request, get_field}
use meek.Server.Session.{Session, Server, second, is_expired}
use meek.Server.Handler.{Link}
use meek.Server.Stream.{Arrival, received}
use meek.Server.Clients.{Action, request, sweep, acts, acts-stream}

opened : Unit {0}
unfolding get_field lookup same is_expired
opened = tt

abbrev mine : Bytes
mine = codes "AAECAwQFBgc"

abbrev theirs : Bytes
theirs = codes "CAkKCwwNDg8"

abbrev session : Session
session = record { or = 7; last_seen = 5 }

abbrev held : Server
held = record {
  session_map = (mine, session) ∷ [];
  world = record { opened = 7 ∷ []; closed = []; sent = []; log = [] };
}

abbrev asks : Bytes → Bytes → Request
asks id text = record {
  method = codes "POST";
  path = codes "/";
  header = (codes "X-Session-Id", id ∷ []) ∷ [];
  remote_addr = codes "192.0.2.1:4000";
  body = record { bytes = text; failure = none };
}

abbrev arrives : Bytes → Bytes → ℕ → Link → Arrival
arrives id text now link = record {
  externals = record { parse_ip = λ host. some host; dial_or = λ useraddr method. ok 8 };
  link = link;
  now = now;
  req = asks id text;
}

abbrev works : Link
works = record {
  or_local = codes "127.0.0.1:40000";
  or_remote = codes "127.0.0.1:9001";
  or_write = none;
  or_read = ([], none);
  client_write = none;
}

abbrev breaks : Link
breaks = record {
  or_local = codes "127.0.0.1:40000";
  or_remote = codes "127.0.0.1:9001";
  or_write = none;
  or_read = ([], some (plain (codes "EOF")));
  client_write = none;
}

abbrev actions : List Action
actions =
    request (arrives mine (codes "pi") (6 * second) works)
    ∷ request (arrives theirs (codes "x") (7 * second) breaks)
    ∷ sweep (100 * second)
    ∷ request (arrives mine (codes "ng") (101 * second) works)
    ∷ []

acts-stream_example :
    (received 7 (acts actions held).world.sent ≡ codes "ping")
    × ((t' : ℕ) × (lookup mine (acts actions held).session_map
          ≡ some (record { or = 7; last_seen = t' })))
unfolding opened
acts-stream_example =
    acts-stream mine 7 (omega arith) actions 5 held (refl, tt) refl
      (λ j ne s h. absurd (ground (arith, same_iff mine j)))
      (inl (
        refl,
        (omega arith, refl, tt, refl, refl),
        inr (
          ground arith,
          (λ useraddr e. cc e),
          (refl, inl (refl, (omega arith, refl, tt, refl, refl), tt)),
        ),
      ))
