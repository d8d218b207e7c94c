-- ===== src/Tunnel/Reflected/Tests.antt =====
-- A tunnel through the reflector at a concrete input.
use meek.Base.{Bytes, codes, List, [], ◌∷◌, none, some, ◌≡◌, refl, arith, lookup}
use meek.Go.Errors.{plain, ok, err}
use meek.Server.Session.{Server, new_state}
use meek.Server.Stream.{received}
use meek.Server.Waits.{new_state-Waits}
use meek.Client.Url.{Url}
use meek.Client.Transport.{RequestInfo}
use meek.Client.Poll.{local, timer, start_loop, copy_loop, Loop}
use meek.Reflect.{Fetch}
use meek.Tunnel.{Hop}
use meek.Tunnel.Delivery.{IsReady-dials}
use meek.Tunnel.Reflected.{over_reflector, copy_loop-streams_reflected}

abbrev app : Url
app = record { scheme = codes "https"; user = none; host = codes "meek.example"; path = codes "/" }

abbrev bridge : Url
bridge = record { scheme = codes "http"; user = none; host = codes "bridge:7002"; path = codes "/" }

abbrev fetch : Fetch
fetch = record { parse_url = λ text. ok bridge; reparse = λ u. ok bridge }

abbrev info : RequestInfo (List Hop × Server)
info = record {
  session_id = codes "AAECAwQFBgc";
  url = app;
  host = [];
  round_tripper = over_reflector fetch;
  sleep = λ d s. s;
}

abbrev hop : Bytes → Hop
hop said = record {
  externals = record { parse_ip = λ host. some host; dial_or = λ useraddr method. ok 7 };
  files = record { getenv = λ name. []; read_file = λ name. err (plain (codes "no such file")) };
  link = record {
    or_local = codes "127.0.0.1:40000";
    or_remote = codes "127.0.0.1:9001";
    or_write = none;
    or_read = (said, none);
    client_write = none;
  };
  now = 5;
  remote_addr = codes "192.0.2.1:4000";
  others = [];
}

abbrev final : Loop (List Hop × Server)
final =
    copy_loop (λ u. ok u) info (local (codes "ping") none ∷ timer none ∷ [])
      (start_loop (hop [] ∷ hop (codes "pong") ∷ [], new_state))

copy_loop-streams_reflected_example :
    (final.result ≡ none)
    × (received 7 final.transport.1.world.sent ≡ codes "ping")
    × (final.received ≡ codes "pong")
unfolding new_state lookup
copy_loop-streams_reflected_example =
    copy_loop-streams_reflected fetch bridge bridge (λ u. ok u) info app refl refl refl refl
      (omega arith) 7 (local (codes "ping") none ∷ timer none ∷ [])
      (hop [] ∷ hop (codes "pong") ∷ []) new_state
      (IsReady-dials 7 (codes "AAECAwQFBgc") (hop [] ∷ hop (codes "pong") ∷ []) new_state
        (new_state-Waits (codes "AAECAwQFBgc") 7) (λ useraddr. refl) (tt, (tt, tt)))
      (omega arith, refl, (refl, refl, refl), (refl, (refl, refl, refl), tt))
