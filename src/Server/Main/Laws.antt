-- ===== src/Server/Main/Laws.antt =====
-- What the server holds and closes.
use meek.Base.{
  ℕ, Bytes, List, [], ◌++◌, true, false, ◌≡◌, refl, ap, sym, ◌∙◌, inl, inr, Option-cases,
  Bool-cases,
}
use meek.Go.Errors.{Result, ok, err}
use meek.Lifecycle.{log_failure, is_over}
use meek.Server.Startup.{Flags, Addr, Bindaddr, Event, Service, start, environment}
use meek.Server.Startup.Laws.{listening, closed_by, start_lem}
use meek.Server.Startup.Laws.Closing.{start-closed, append-closings}
use meek.Server.Main.{
  Process, Ending, fatal, running, finished, served, started, with_addrs, server_main,
}

-- What has become of the servers at each ending.
abbrev pub Settled : Process → List Event × Ending → Type 0
Settled p (es, fatal e) = (listening es ≡ []) × (closed_by es ≡ [])
Settled p (es, running servers) =
    (is_over p.exit_on_stdin_close p.incoming ≡ false)
    × (listening es ≡ servers)
    × (closed_by es ≡ [])
Settled p (es, finished) =
    (is_over p.exit_on_stdin_close p.incoming ≡ true) × (closed_by es ≡ listening es)

served-Settled :
    (p : Process) (es : List Event) (servers : List Addr)
    → listening es ≡ servers
    → closed_by es ≡ []
    → Settled p (served p (es, servers))
unfolding served
served-Settled p es servers l c = elim (Bool-cases (is_over p.exit_on_stdin_close p.incoming)) [
  | inl over ↦
      let a = append-closings es servers in
      rw over (over, a.1 ∙ ap (λ b. b ++ servers) c ∙ sym l ∙ sym a.0)
  | inr waiting ↦ rw waiting (waiting, l, c)
]

started-Settled :
    (p : Process) (port : ℕ) (f : Flags) (bs : List Bindaddr) (r : Result (List Event × List Addr))
    → start p.make_context p.state_dir p.listening f port bs ≡ r
    → Settled p (started p r)
unfolding started
started-Settled p port f bs (err e) h = (refl, refl)
started-Settled p port f bs (ok (es, servers)) h =
    served-Settled p es servers
      (start_lem p.make_context p.state_dir p.listening f port bs es servers h).1
      (start-closed p.make_context p.state_dir p.listening f port bs es servers h)

with_addrs-Settled :
    (p : Process) (port : ℕ) (f : Flags) (log_name : Bytes) (r : Result (List Bindaddr))
    → Settled p (with_addrs p port f log_name r)
unfolding with_addrs
with_addrs-Settled p port f log_name (err e) = (refl, refl)
with_addrs-Settled p port f log_name (ok bs) =
    elim (Option-cases (log_failure p.open_log log_name)) [
      | inl n ↦ rw (n, with_addrs) (started-Settled p port f bs _ refl)
      | inr (e, h) ↦ rw (h, with_addrs) (refl, refl)
    ]

-- Whatever the flags and whatever fails: where main ends by an error, it has said of no server that it
-- listens, and closed none; while it waits for a signal, it holds exactly the servers that it said
-- are listening, and has closed none; and where the wait is over, it closes exactly those, in order.
pub server_main-Settled :
    (p : Process) (o : Service) (f : Flags) (log_name : Bytes)
    → Settled p (server_main p o f log_name)
unfolding server_main
server_main-Settled p o f log_name =
    with_addrs-Settled p o.port f log_name (p.server_setup (environment o).0)
