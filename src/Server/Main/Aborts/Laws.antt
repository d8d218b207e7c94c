-- ===== src/Server/Main/Aborts/Laws.antt =====
-- What can end the server, and what it has said by then.
use meek.Base.{
  ℕ, suc, zero, ◌≤◌, Bytes, List, [], ◌∷◌, ◌++◌, Option, none, some, true, if◌then◌else◌, same,
  same_iff, ◌≡◌, ◌≢◌, refl, arith, inl, inr, take, ap, Option-cases, Bool-cases,
}
use meek.Go.Errors.{Result, ok, err}
use meek.Lifecycle.{log_failure, is_over}
use meek.Server.Startup.Laws.Closing.{append-closings}
use meek.Server.Startup.{
  Flags, Addr, Bindaddr, Event, smethod, smethod_error, responder, server, smethods_done, close,
  Listening, Service, start, environment,
}
use meek.Server.Startup.Laws.{responders, start_lem}
use meek.Server.Main.{Process, Ending, served, started, with_addrs, server_main}
use meek.Server.Main.Aborts.{
  Goroutine, internal_proxy, acme_responder, Failure, Run, by_main, panicked, log_fatal,
  serves_acme, is_started, aborted, is_over_by, server_run, stopped,
}

-- At most one for ACME, and none without host names for it.
abbrev allowed : Flags → ℕ
allowed f = if same f.acme_hostnames [] then 0 else 1

served-responders :
    (p : Process) (f : Flags) (es : List Event) (servers : List Addr)
    → responders es ≤ allowed f
    → responders (served p (es, servers)).0 ≤ allowed f
unfolding served
served-responders p f es servers h = elim (Bool-cases (is_over p.exit_on_stdin_close p.incoming)) [
  | inl over ↦ rw (over, (append-closings es servers).2) h
  | inr waiting ↦ rw waiting h
]

started-responders :
    (p : Process) (port : ℕ) (f : Flags) (bs : List Bindaddr) (r : Result (List Event × List Addr))
    → start p.make_context p.state_dir p.listening f port bs ≡ r
    → responders (started p r).0 ≤ allowed f
unfolding started
started-responders p port f bs (err e) h = omega arith
started-responders p port f bs (ok (es, servers)) h =
    served-responders p f es servers
      (start_lem p.make_context p.state_dir p.listening f port bs es servers h).2

with_addrs-responders :
    (p : Process) (port : ℕ) (f : Flags) (log_name : Bytes) (r : Result (List Bindaddr))
    → responders (with_addrs p port f log_name r).0 ≤ allowed f
unfolding with_addrs
with_addrs-responders p port f log_name (err e) = omega arith
with_addrs-responders p port f log_name (ok bs) =
    elim (Option-cases (log_failure p.open_log log_name)) [
      | inl n ↦ rw (n, with_addrs) (started-responders p port f bs _ refl)
      | inr (e, h) ↦ rw (h, with_addrs) (omega arith)
    ]

server_main-responders :
    (p : Process) (o : Service) (f : Flags) (log_name : Bytes)
    → responders (server_main p o f log_name).0 ≤ allowed f
unfolding server_main
server_main-responders p o f log_name =
    with_addrs-responders p o.port f log_name (p.server_setup (environment o).0)

serves_acme-take :
    (l : Listening) (n : ℕ) (es : List Event) → serves_acme l (take n es) ≡ true → 1 ≤ responders es
serves_acme-take l zero es h = absurd (cc h)
serves_acme-take l (suc n) [] h = absurd (cc h)
serves_acme-take l (suc n) (responder a ∷ es) h = omega arith
serves_acme-take l (suc n) (smethod m a ∷ es) h = serves_acme-take l n es h
serves_acme-take l (suc n) (smethod_error m t ∷ es) h = serves_acme-take l n es h
serves_acme-take l (suc n) (server b a ∷ es) h = serves_acme-take l n es h
serves_acme-take l (suc n) (smethods_done ∷ es) h = serves_acme-take l n es h
serves_acme-take l (suc n) (close a ∷ es) h = serves_acme-take l n es h

-- The beginning of a list.
abbrev pub Starts : List Event → List Event → Type 0
Starts told es = (rest : List Event) × (told ++ rest ≡ es)

take-Starts : (n : ℕ) (es : List Event) → Starts (take n es) es
take-Starts zero es = (es, refl)
take-Starts (suc n) [] = ([], refl)
take-Starts (suc n) (e ∷ es) = let (rest, h) = take-Starts n es in (rest, ap (◌∷◌ e) h)

-- How the program came to its end.
abbrev pub Explained : Service → Flags → List Event × Ending → List Event × Run → Type 0
Explained o f r (told, by_main ending) = (told ≡ r.0) × (ending ≡ r.1)
Explained o f r (told, panicked e) = (o.external_service ≡ []) × Starts told r.0
Explained o f r (told, log_fatal e) = (f.acme_hostnames ≢ []) × Starts told r.0

aborted-Explained :
    (p : Process) (o : Service) (f : Flags) (r : List Event × Ending) (x : Failure)
    → responders r.0 ≤ allowed f
    → is_started p o (take x.after r.0) x.by ≡ true
    → (by : Goroutine) → x.by ≡ by
    → Explained o f r (take x.after r.0, aborted by x.error)
unfolding environment
aborted-Explained p o f r x h s internal_proxy k =
    (ground (arith, same_iff o.external_service [], k, s), take-Starts x.after r.0)
aborted-Explained p o f r x h s acme_responder k = (
  (λ e.
      ground (arith, same_iff f.acme_hostnames [], serves_acme-take p.listening x.after r.0, k, s)),
  take-Starts x.after r.0,
)

stopped-Explained :
    (p : Process) (o : Service) (f : Flags) (r : List Event × Ending) (x : Failure)
    → responders r.0 ≤ allowed f
    → Explained o f r (stopped p o r x)
unfolding stopped
stopped-Explained p o f r x h = elim (Bool-cases (is_started p o (take x.after r.0) x.by)) [
  | inl s ↦ elim (Bool-cases (is_over_by x.after r)) [
    | inl l ↦ rw (s, l, stopped) (refl, refl)
    | inr l ↦ rw (s, l, stopped) (aborted-Explained p o f r x h s x.by refl)
  ]
  | inr s ↦ rw (s, stopped) (refl, refl)
]

-- Whether and whenever the internal SOCKS proxy or the responder for ACME fails: either the program
-- has said and does all that main does, or it has said a beginning of that; a panic then comes from the
-- internal proxy, which runs only without an external service, and a fatal line of the log from the
-- responder, which is there only with host names for ACME. So a server for an external service with
-- its own certificate or without TLS is ended by nothing but main.
pub server_run-Explained :
    (p : Process) (o : Service) (f : Flags) (log_name : Bytes) (failure : Option Failure)
    → Explained o f (server_main p o f log_name) (server_run p o f log_name failure)
unfolding server_run
server_run-Explained p o f log_name none = (refl, refl)
server_run-Explained p o f log_name (some x) =
    stopped-Explained p o f (server_main p o f log_name) x (server_main-responders p o f log_name)
