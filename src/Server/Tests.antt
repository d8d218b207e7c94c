-- ===== src/Server/Tests.antt =====
-- The server at concrete inputs.
use meek.Base.{
  ◌*◌, ◌+◌, ◌≤◌, Bytes, codes, List, [], ◌∷◌, Option, none, some, ◌≡◌, refl, ◌↔◌, true, arith,
  length, lookup, insert, erase, same, Unique, total, count, false,
}
use meek.Go.Errors.{tcp_addr, op_error, plain, GoError, ok, err}
use meek.Go.Path.{clean}
use meek.Go.Http.{
  not_found, Request, new_response, status_of, get_field, write, write_header, set_header,
  set_field, http_error,
}
use meek.Server.Session.{
  second, Session, Server, new_world, new_state, max_payload_length, get_session, close_session,
  expire_sessions,
}
use meek.Server.Handler.{
  Externals, Files, Link, post, serve_http, transact, get, is_fatal, http_bad_request,
  http_internal_server_error, happy_page, error_text, scrub_error,
}
use meek.Server.Transact.{Fits, transact-error_iff}
use meek.Server.Status.{transact-status_iff}
use meek.Server.Posts.{session_id, post-Delivers, post_drops}
use meek.Server.Lifetime.{expire_rounds, expire_rounds-removes, expire_rounds-keeps}
use meek.Server.Lifetime.Late.{late_post-restarts}
use meek.Server.Steps.{Step, looks_up, transacts, closes, run}
use meek.Server.Steps.Requests.{Does, post-Does}
use meek.Server.Conservation.{owns, run-conserves, run-closes_once}

-- What a test on the server computes with.
server : Unit {0}
unfolding run new_state get_session close_session expire_sessions get_field same lookup insert erase
    transact post set_field write write_header set_header http_error serve_http get http_bad_request
    http_internal_server_error clean not_found
server = tt

abbrev id : Bytes
id = codes "AAECAwQFBgc"

abbrev externals : Externals
externals = record { parse_ip = λ host. some host; dial_or = λ useraddr method. ok 7 }

abbrev files : Files
files = record { getenv = λ name. []; read_file = λ name. err (plain (codes "no such file")) }

abbrev link : Link
link = record {
  or_local = codes "127.0.0.1:40000";
  or_remote = codes "127.0.0.1:9001";
  or_write = none;
  or_read = (codes "pong", none);
  client_write = none;
}

abbrev broken : Link
broken = record {
  or_local = codes "127.0.0.1:40000";
  or_remote = codes "127.0.0.1:9001";
  or_write = none;
  or_read = ([], some (plain (codes "EOF")));
  client_write = none;
}

abbrev ask : Bytes → Request
ask sid = record {
  method = codes "POST";
  path = codes "/";
  header = (codes "X-Session-Id", sid ∷ []) ∷ [];
  remote_addr = codes "192.0.2.1:4000";
  body = record { bytes = codes "ping"; failure = none };
}

abbrev session : Session
session = record { or = 7; last_seen = 5 }

-- One session, opened at time 5.
abbrev held : Server
held = record { session_map = (id, session) ∷ []; world = record new_world { opened = 7 ∷ [] } }

abbrev steps : List Step
steps = looks_up externals.dial_or [] id 5 ∷ transacts link session (ask id) new_response ∷ []

post_existing : (post externals link 9 (ask id) new_response held).0.body ≡ codes "pong"
unfolding server
post_existing = refl

answers_500 :
    (status_of (post externals broken 9 (ask id) new_response held).0 ≡ 500)
    × ((post externals broken 9 (ask id) new_response held).1.session_map ≡ [])
unfolding server
answers_500 = (refl, refl)

get_page :
    (serve_http externals files link 9
      (record (ask id) { method = codes "GET"; path = codes "/" })
      new_response
      held).0.body
    ≡ happy_page
unfolding server
get_page = refl

get_lost :
    status_of
      (serve_http externals files link 9
        (record (ask id) { method = codes "GET"; path = codes "/a" })
        new_response
        held).0
    ≡ 404
unfolding server
get_lost = refl

run-conserves_example :
    Unique (run (looks_up externals.dial_or [] id 5 ∷ closes id ∷ []) new_state).session_map
    × (count 7 (run (looks_up externals.dial_or [] id 5 ∷ closes id ∷ []) new_state).world.opened
        ≡ total
            (owns 7)
            (run (looks_up externals.dial_or [] id 5 ∷ closes id ∷ []) new_state).session_map
          + count 7
              (run (looks_up externals.dial_or [] id 5 ∷ closes id ∷ []) new_state).world.closed)
run-conserves_example = run-conserves 7 (looks_up externals.dial_or [] id 5 ∷ closes id ∷ [])

run-closes_once_example : count 7 (run steps new_state).world.closed ≡ 0
unfolding server
run-closes_once_example = run-closes_once steps id session (omega arith) refl

post-Does_example :
    (ss : List Step) × Does externals link 9 (ask id) new_response held ss
    × ((post externals link 9 (ask id) new_response held).1 ≡ run ss held)
post-Does_example = post-Does externals link 9 (ask id) new_response held

post-Delivers_example :
    (post externals link 9 (ask id) new_response held).1.world.sent ≡ (7, codes "ping") ∷ []
unfolding server
post-Delivers_example =
    (post-Delivers externals link 9 (ask id) new_response held 7 (omega arith) refl
      (omega arith, refl, tt, refl, refl)).0

post_drops_example :
    ((post externals broken 9 (ask id) new_response held).1.world.closed ≡ 7 ∷ [])
    × (lookup
          (session_id (ask id))
          (post externals broken 9 (ask id) new_response held).1.session_map
        ≡ none)
unfolding server
post_drops_example =
    post_drops externals broken 9 (ask id) new_response held 7 (omega arith) refl (λ d. cc (d.3))

expire_rounds-removes_example :
    lookup id (expire_rounds 10 (0 ∷ 3 ∷ 0 ∷ []) held).session_map ≡ none
unfolding server
expire_rounds-removes_example =
    expire_rounds-removes 10 (0 ∷ 3 ∷ 0 ∷ []) id session held (refl, tt) refl (omega arith)
      (omega arith)

expire_rounds-keeps_example :
    lookup id (expire_rounds 2 (0 ∷ 3 ∷ []) held).session_map ≡ some session
unfolding server
expire_rounds-keeps_example =
    expire_rounds-keeps 2 (0 ∷ 3 ∷ []) id session held (refl, tt) refl (omega arith)

transact-error_iff_example :
    ((transact broken session (ask id) new_response new_world).error ≡ none) ↔ (
      (length (codes "ping") ≤ max_payload_length + 1)
      × (◌≡◌ {A = Option GoError} none none)
      × Fits none (codes "ping")
      × (is_fatal (some (plain (codes "EOF"))) ≡ false)
      × (◌≡◌ {A = Option GoError} none none))
transact-error_iff_example = transact-error_iff broken session (ask id) new_response new_world

-- The body fails with an error that names the client.
abbrev cut_off : Request
cut_off = record (ask id) {
  body = record {
    bytes = codes "pi";
    failure = some (
        op_error (codes "read") (codes "tcp") (some (tcp_addr (codes "10.0.0.1:443")))
          (some (tcp_addr (codes "192.0.2.1:4000"))) (plain (codes "reset")));
  };
}

-- Its address is in what is reported.
abbrev reported : GoError
reported = plain (
    codes
      "error copying body to ORPort: readfrom tcp 127.0.0.1:40000->[scrubbed]: read tcp 10.0.0.1:443->192.0.2.1:4000: reset")

reported_test : (transact link session cut_off new_response new_world).error ≡ some reported
unfolding server error_text scrub_error
reported_test = refl

transact-status_iff_example :
    (status_of (transact broken session (ask id) new_response new_world).response ≡ 500) ↔ (
      (length (codes "ping") ≤ max_payload_length + 1)
      × (◌≡◌ {A = Option GoError} none none)
      × Fits none (codes "ping")
      × (is_fatal (some (plain (codes "EOF"))) ≡ true))
transact-status_iff_example = transact-status_iff broken session (ask id) new_world

-- The OR port takes two bytes only.
abbrev clogged : Link
clogged = record {
  or_local = codes "127.0.0.1:40000";
  or_remote = codes "127.0.0.1:9001";
  or_write = some (2, plain (codes "broken pipe"));
  or_read = (codes "pong", none);
  client_write = none;
}

-- Another connection is dialed for the request that comes too late.
abbrev later : Externals
later = record externals { dial_or = λ useraddr method. ok 8 }

late_post-restarts_example :
    let swept = expire_rounds 10 (0 ∷ 3 ∷ 0 ∷ []) held in
    let r = post later link (200 * second) (ask id) new_response swept in
    (status_of r.0 ≡ 200)
    × (r.0.body ≡ codes "pong")
    × (r.1.world.sent ≡ (8, codes "ping") ∷ swept.world.sent)
    × (lookup id r.1.session_map ≡ some (record { or = 8; last_seen = 200 * second }))
unfolding server
late_post-restarts_example =
    late_post-restarts 10 (0 ∷ 3 ∷ 0 ∷ []) session held later link (200 * second) 8 (ask id)
      (refl, tt) refl (omega arith) (omega arith) (omega arith) refl
      (omega arith, refl, tt, refl, refl)
