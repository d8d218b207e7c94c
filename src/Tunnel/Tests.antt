-- ===== src/Tunnel/Tests.antt =====
-- A tunnel at a concrete input.
use meek.Base.{Bytes, codes, List, [], ◌∷◌, none, some, ◌≡◌, refl, arith, lookup, same, ◌*◌}
use meek.Go.Errors.{plain, ok, err}
use meek.Server.Session.{Server, new_state}
use meek.Server.Stream.{received}
use meek.Server.Session.{second, is_expired}
use meek.Server.Clients.{Action, request, sweep}
use meek.Server.Waits.{new_state-Waits}
use meek.Go.Http.{get_field}
use meek.Tunnel.Delivery.{IsReady-dials}
use meek.Client.Url.{Url}
use meek.Client.Transport.{RequestInfo}
use meek.Client.Poll.{Event, local, timer, start_loop, copy_loop, Loop}
use meek.Tunnel.{Hop, over_http}
use meek.Tunnel.Stream.{copy_loop-streams}

abbrev url : Url
url = record { scheme = codes "https"; user = none; host = codes "meek.example"; path = codes "/" }

abbrev info : RequestInfo (List Hop × Server)
info = record {
  session_id = codes "AAECAwQFBgc";
  url = url;
  host = [];
  round_tripper = over_http;
  sleep = λ d s. s;
}

-- Another client, whose request fails, and a sweep.
abbrev theirs : Bytes
theirs = codes "CAkKCwwNDg8"

abbrev intrusion : List Action
intrusion =
    request (record {
      externals = record { parse_ip = λ host. some host; dial_or = λ useraddr method. ok 8 };
      link = record {
        or_local = codes "127.0.0.1:40000";
        or_remote = codes "127.0.0.1:9001";
        or_write = none;
        or_read = ([], some (plain (codes "EOF")));
        client_write = none;
      };
      now = 6;
      req = record {
        method = codes "POST";
        path = codes "/";
        header = (codes "X-Session-Id", theirs ∷ []) ∷ [];
        remote_addr = codes "192.0.2.2:4000";
        body = record { bytes = codes "noise"; failure = none };
      };
    })
    ∷ sweep (100 * second)
    ∷ []

abbrev hop : List Action → Bytes → Hop
hop others said = record {
  externals = record { parse_ip = λ host. some host; dial_or = λ useraddr method. ok 7 };
  files = record { getenv = λ name. []; read_file = λ name. err (plain (codes "no such file")) };
  link = record {
    or_local = codes "127.0.0.1:40000";
    or_remote = codes "127.0.0.1:9001";
    or_write = none;
    or_read = (said, none);
    client_write = none;
  };
  now = 5;
  remote_addr = codes "192.0.2.1:4000";
  others = others;
}

abbrev events : List Event
events = local (codes "pi") none ∷ timer none ∷ local (codes "ng") none ∷ []

abbrev hops : List Hop
hops = hop [] [] ∷ hop intrusion (codes "po") ∷ hop [] (codes "ng") ∷ []

abbrev final : Loop (List Hop × Server)
final = copy_loop (λ u. ok u) info events (start_loop (hops, new_state))

copy_loop-streams_example :
    (final.result ≡ none)
    × (received 7 final.transport.1.world.sent ≡ codes "ping")
    × (final.received ≡ codes "pong")
unfolding new_state lookup get_field same is_expired
copy_loop-streams_example =
    copy_loop-streams (λ u. ok u) info url refl refl (omega arith) 7 events hops new_state
      (IsReady-dials 7 (codes "AAECAwQFBgc") hops new_state
        (new_state-Waits (codes "AAECAwQFBgc") 7) (λ useraddr. refl)
        (tt, ((ground arith, (λ useraddr e. cc e), (refl, tt)), (tt, tt))))
      (
        omega arith,
        refl,
        (refl, refl, refl),
        (refl, (refl, refl, refl), (omega arith, refl, (refl, refl, refl), tt)),
      )
