-- ===== src/Server/Waits.antt =====
-- A client of the server between its requests: what its own requests, those of others and sweeps do
-- to its session and its connection.
use meek.Base.{
  ℕ, ◌≤◌, Bytes, ◌++◌, Option, none, some, false, ◌≡◌, ◌≢◌, refl, sym, ap, ◌∙◌, List, [], ◌∷◌,
  lookup, length, Unique,
}
use meek.Go.Errors.{ok}
use meek.Go.Http.{Request, new_response}
use meek.Server.Session.{
  Session, Server, new_state, min_session_id_length, is_expired, expire_sessions, pt_method_name,
}
use meek.Server.Handler.{Externals, Link, post}
use meek.Server.Expiry.{keep_fresh}
use meek.Server.Posts.{session_id, connection, Delivers, post-Delivers}
use meek.Server.Isolation.{post-other}
use meek.Server.Stream.{received, received-cons}
use meek.Server.Steps.{Step, sweeps, step, run, post-run}
use meek.Server.Abstract.{step-Unique, expire_sessions-keep_fresh}
use meek.Server.Apart.{Apart, post-Kept, expire_sessions-Apart, expire_sessions-sent}

-- The session of a client that was seen at that time, or never.
abbrev pub session_at : ℕ → Option ℕ → Option Session
session_at c none = none
session_at c (some t) = some (record { or = c; last_seen = t })

-- A sweep does not find the client idle for too long.
abbrev pub IsFresh : ℕ → ℕ → Option ℕ → Type 0
IsFresh c now none = Unit
IsFresh c now (some t) = is_expired now (record { or = c; last_seen = t }) ≡ false

run-Unique : (ss : List Step) (v : Server) → Unique v.session_map → Unique (run ss v).session_map
unfolding run
run-Unique [] v u = u
run-Unique (s ∷ ss) v u = run-Unique ss (step s v) (step-Unique s v u)

keep_fresh-session_at :
    (c now : ℕ) (seen : Option ℕ)
    → IsFresh c now seen
    → keep_fresh now (session_at c seen) ≡ session_at c seen
keep_fresh-session_at c now none fresh = refl
keep_fresh-session_at c now (some t) fresh = rw fresh refl

module _ (id : Bytes) (c : ℕ) where
  -- The client's session, if it was seen; nobody else has its connection.
  pub record Waits (seen : Option ℕ) (v : Server) : Type 0 where
    pub unique : Unique v.session_map
    pub held : lookup id v.session_map ≡ session_at c seen
    pub others : Apart id c v.session_map

  pub new_state-Waits : Waits none new_state
  unfolding new_state lookup
  new_state-Waits = record { unique = tt; held = refl; others = λ j ne s h. absurd (cc h) }

  module _ (x : Externals) (link : Link) (now : ℕ) (req : Request) (seen : Option ℕ) (v : Server)
      (w : Waits seen v) where
    -- The client's own request, which is delivered.
    pub own-Waits :
        min_session_id_length ≤ length id
        → session_id req ≡ id
        → connection x req v ≡ some c
        → Delivers link req
        → let v' = (post x link now req new_response v).1 in
          Waits (some now) v'
          × (received c v'.world.sent ≡ received c v.world.sent ++ req.body.bytes)
    own-Waits long same_id conn d =
        let r = post-Delivers x link now req new_response v c (rw same_id long) conn d in
        let (ss, e) = post-run x link now req new_response v in
        (
          record {
            unique = rw e (run-Unique ss v w.unique);
            held = rw same_id at r.2;
            others = λ j ne s h.
                w.others j ne s (
                  sym (post-other x link now req new_response v j (λ e. ne (sym same_id ∙ e))) ∙ h);
          },
          ap (received c) r.0 ∙ received-cons c req.body.bytes v.world.sent,
        )

    pub foreign-Waits :
        id ≢ session_id req
        → ((useraddr : Bytes) → x.dial_or useraddr pt_method_name ≢ ok c)
        → let v' = (post x link now req new_response v).1 in
          Waits seen v' × (received c v'.world.sent ≡ received c v.world.sent)
    foreign-Waits ne new =
        let k = post-Kept id c x link now req new_response v ne new w.unique w.others in
        (
          record {
            unique = k.unique;
            held = post-other x link now req new_response v id (λ e. ne (sym e)) ∙ w.held;
            others = k.others;
          },
          k.unheard,
        )

  pub sweep-Waits :
      (now : ℕ) (seen : Option ℕ) (v : Server)
      → IsFresh c now seen
      → Waits seen v
      → Waits seen (expire_sessions now v)
        × (received c (expire_sessions now v).world.sent ≡ received c v.world.sent)
  unfolding step
  sweep-Waits now seen v fresh w = (
    record {
      unique = step-Unique (sweeps now) v w.unique;
      held =
          expire_sessions-keep_fresh now v id w.unique
          ∙ ap (keep_fresh now) w.held
          ∙ keep_fresh-session_at c now seen fresh;
      others = expire_sessions-Apart id c now v w.unique w.others;
    },
    ap (received c) (expire_sessions-sent now v),
  )
