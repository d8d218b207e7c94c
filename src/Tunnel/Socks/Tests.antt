-- ===== src/Tunnel/Socks/Tests.antt =====
-- A SOCKS connection from its request to its streams, at a concrete input.
use meek.Base.{
  ℕ, Bytes, codes, List, [], ◌∷◌, ◌++◌, Option, none, some, false, ◌≡◌, refl, arith, lookup, same,
}
use meek.Go.Errors.{plain, Result, ok, err}
use meek.Go.Text.{trim_right}
use meek.Go.Base64.{encode, letter}
use meek.Server.Session.{Server, new_state}
use meek.Server.Stream.{received}
use meek.Server.Waits.{new_state-Waits}
use meek.Client.Url.{Url}
use meek.Client.SessionId.{gen_session_id}
use meek.Client.Transport.{RoundTripper}
use meek.Client.Poll.{Event, local, timer, Loop}
use meek.Client.Config.{Options, Choice, Info, native, configure, choose, arg_or_option, fronted}
use meek.Client.Socks.{looped, panicked, refused, Handled, handle_socks, request_info}
use meek.Tunnel.{Hop, over_http}
use meek.Tunnel.Stream.{over_http-Carries}
use meek.Tunnel.Socks.{handle_socks-streams}

opened : Unit {0}
unfolding gen_session_id trim_right encode letter configure choose arg_or_option fronted lookup same
    handle_socks
opened = tt

abbrev random : Bytes
random = 0 ∷ 1 ∷ 2 ∷ 3 ∷ 4 ∷ 5 ∷ 6 ∷ 7 ∷ []

abbrev server : Url
server = record {
  scheme = codes "https";
  user = none;
  host = codes "meek.example";
  path = codes "/";
}

abbrev options : Options
options = record {
  url = codes "https://meek.example/";
  front = codes "www.example";
  proxy_url = none;
  use_helper = false;
  utls_name = [];
}

abbrev parse : Bytes → Result Url
parse text = ok server

abbrev no_utls : Bytes → Option Url → Result (Unit {0})
no_utls name p = err (plain (codes "no uTLS Client Hello ID named " ++ name))

abbrev tripper : Choice (Unit {0}) → RoundTripper (List Hop × Server)
tripper choice = over_http

abbrev fronted_url : Url
fronted_url = record server { host = codes "www.example" }

abbrev info : Info (Unit {0})
info = record {
  session_id = codes "AAECAwQFBgc";
  url = fronted_url;
  host = codes "meek.example";
  round_tripper = native;
}

abbrev hop : Bytes → Hop
hop said = record {
  externals = record { parse_ip = λ host. some host; dial_or = λ useraddr method. ok 7 };
  files = record { getenv = λ name. []; read_file = λ name. err (plain (codes "no such file")) };
  link = record {
    or_local = codes "127.0.0.1:40000";
    or_remote = codes "127.0.0.1:9001";
    or_write = none;
    or_read = (said, none);
    client_write = none;
  };
  now = 5;
  remote_addr = codes "192.0.2.1:4000";
  others = [];
}

abbrev events : List Event
events = local (codes "ping") none ∷ timer none ∷ []

abbrev hops : List Hop
hops = hop [] ∷ hop (codes "pong") ∷ []

abbrev sleep : ℕ → List Hop × Server → List Hop × Server
sleep d s = s

abbrev handled : Handled (List Hop × Server)
handled =
    handle_socks parse (λ u. ok u) no_utls tripper sleep options none (ok random) [] events
      (hops, new_state)

handle_socks-streams_example :
    (l : Loop (List Hop × Server)) × (handled ≡ looped l)
    × (l.result ≡ none)
    × (received 7 l.transport.1.world.sent ≡ codes "ping")
    × (l.received ≡ codes "pong")
unfolding opened new_state
handle_socks-streams_example =
    handle_socks-streams parse (λ u. ok u) no_utls tripper sleep options random [] info fronted_url
      7 events hops (codes "AAECAwQFBgc") new_state refl refl refl
      (over_http-Carries (request_info parse (λ u. ok u) no_utls tripper sleep info) fronted_url
        refl)
      refl (new_state-Waits (codes "AAECAwQFBgc") 7) (λ useraddr. refl) (tt, (tt, tt))
      (omega arith, refl, (refl, refl, refl), (refl, (refl, refl, refl), tt))

handle_socks_failures :
    (handle_socks parse
        (λ u. ok u)
        no_utls
        tripper
        sleep
        options
        none
        (err (plain (codes "EIO")))
        []
        events
        (hops, new_state)
      ≡ panicked)
    × (handle_socks parse
          (λ u. ok u)
          no_utls
          tripper
          sleep
          (record options { url = [] })
          none
          (ok random)
          []
          events
          (hops, new_state)
        ≡ refused (plain (codes "no URL for SOCKS request")))
unfolding opened
handle_socks_failures = (refl, refl)
