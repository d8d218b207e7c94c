-- ===== src/Server/Apart.antt =====
-- What requests of other clients leave of a connection.
use meek.Base.{
  Option, sym, ℕ, Bytes, some, ◌≡◌, ◌≢◌, refl, ap, ◌∙◌, arith, same, lookup, insert, erase,
  lookup-insert, lookup-erase, Unique, Bool-cases, Option-cases, inl, inr, ==_iff, ltb, length,
  ltb→lt, ltb→le,
}
use meek.Go.Errors.{Result, ok, err}
use meek.Go.Http.{Request, ResponseWriter}
use meek.UserAddr.{get_useraddr}
use meek.Server.Session.{
  expire_sessions, Session, Server, State, World, get_session, start_session, touch, close_session,
  close_or, min_session_id_length, pt_method_name,
}
use meek.Server.Handler.{
  Link, Externals, Transaction, transact, post, with_session, finish, log_error,
}
use meek.Server.Transact.{transact-after_copy}
use meek.Server.Posts.{session_id, post-short, post-long}
use meek.Server.Stream.{received}
use meek.Server.Abstract.{get_session-Unique, close_session-Unique, expire_sessions-keep_fresh}
use meek.Server.Expiry.{keep_fresh, expire_loop-world}

-- The sessions of other ids have other connections.
abbrev pub Apart : Bytes → ℕ → State → Type 0
Apart id c m = (j : Bytes) → id ≢ j → (s : Session) → lookup j m ≡ some s → s.or ≢ c

insert-Apart :
    (id : Bytes) (c : ℕ) (k : Bytes) (s : Session) (m : State)
    → s.or ≢ c
    → Apart id c m
    → Apart id c (insert k s m)
insert-Apart id c k s m new apart j ne t h = elim (Bool-cases (same k j)) [
  | inl e ↦ ground (arith, lookup-insert k j s m, e, new)
  | inr e ↦ apart j ne t (ground (arith, lookup-insert k j s m, e))
]

erase-Apart : (id : Bytes) (c : ℕ) (k : Bytes) (m : State) → Apart id c m → Apart id c (erase k m)
erase-Apart id c k m apart j ne t h = elim (Bool-cases (same k j)) [
  | inl e ↦ absurd (ground (arith, lookup-erase k j m, e))
  | inr e ↦ apart j ne t (ground (arith, lookup-erase k j m, e))
]

close_session-Apart :
    (id : Bytes) (c : ℕ) (k : Bytes) (v : Server)
    → Apart id c v.session_map
    → Apart id c (close_session k v).session_map
unfolding close_session
close_session-Apart id c k v apart = elim (Option-cases (lookup k v.session_map)) [
  | inl e ↦ rw (e, close_session) apart
  | inr (s, e) ↦ rw (e, close_session) (erase-Apart id c k v.session_map apart)
]

close_session-sent : (k : Bytes) (v : Server) → (close_session k v).world.sent ≡ v.world.sent
unfolding close_session close_or
close_session-sent k v = ground arith

keep_fresh-some :
    (now : ℕ) (o : Option Session) (s : Session) → keep_fresh now o ≡ some s → o ≡ some s
keep_fresh-some now o s h = ground arith

pub expire_sessions-sent :
    (now : ℕ) (v : Server) → (expire_sessions now v).world.sent ≡ v.world.sent
unfolding expire_sessions
expire_sessions-sent now v = (expire_loop-world now v.session_map v.world).1

pub expire_sessions-Apart :
    (id : Bytes) (c now : ℕ) (v : Server)
    → Unique v.session_map
    → Apart id c v.session_map
    → Apart id c (expire_sessions now v).session_map
expire_sessions-Apart id c now v u apart j ne s h =
    apart j ne s (keep_fresh-some now _ s (sym (expire_sessions-keep_fresh now v j u) ∙ h))

module _ (id : Bytes) (c : ℕ) where
  -- The session that a look-up gives, and the server behind it.
  pub record Found (v : Server) (r : Result Session × Server) : Type 0 where
    pub session : (s : Session) → r.0 ≡ ok s → s.or ≢ c
    pub others : Apart id c r.1.session_map
    pub unsent : r.1.world.sent ≡ v.world.sent

  start_session-Found :
      (k : Bytes) (now : ℕ) (v : Server) (r : Result ℕ)
      → r ≢ ok c
      → Apart id c v.session_map
      → Found v (start_session k now v r)
  unfolding start_session
  start_session-Found k now v (err e) ne apart = record {
    session = λ s h. absurd (cc h);
    others = apart;
    unsent = refl;
  }
  start_session-Found k now v (ok d) ne apart = record {
    session = λ s h. ground (arith, h, ne);
    others =
        insert-Apart id c k (record { or = d; last_seen = now }) v.session_map (λ e. ne (ap ok e))
          apart;
    unsent = refl;
  }

  pub get_session-Found :
      (dial_or : Bytes → Bytes → Result ℕ) (useraddr k : Bytes) (now : ℕ) (v : Server)
      → id ≢ k
      → dial_or useraddr pt_method_name ≢ ok c
      → Apart id c v.session_map
      → Found v (get_session dial_or useraddr k now v)
  unfolding get_session touch
  get_session-Found dial_or useraddr k now v ne new apart =
      elim (Option-cases (lookup k v.session_map)) [
        | inl e ↦
            rw (e, get_session)
              (start_session-Found k now v (dial_or useraddr pt_method_name) new apart)
        | inr (s, e) ↦
            let other : s.or ≢ c = apart k ne s e in
            rw (e, get_session)
              (record {
                session = λ t h. ground (arith, h, other);
                others = insert-Apart id c k (touch now s) v.session_map other apart;
                unsent = refl;
              })
      ]

  -- A server behind which the connection has received nothing more.
  pub record Kept (v v' : Server) : Type 0 where
    pub unique : Unique v'.session_map
    pub others : Apart id c v'.session_map
    pub unheard : received c v'.world.sent ≡ received c v.world.sent

  close_session-Kept : (k : Bytes) (v v' : Server) → Kept v v' → Kept v (close_session k v')
  close_session-Kept k v v' kept = record {
    unique = close_session-Unique k v' kept.unique;
    others = close_session-Apart id c k v' kept.others;
    unheard = ap (received c) (close_session-sent k v') ∙ kept.unheard;
  }

  pub finish-Kept :
      (k : Bytes) (v v' : Server) (t : Transaction)
      → ((w : World) → w.sent ≡ t.world.sent → Kept v (record v' { world = w }))
      → Kept v (finish k v' t).1
  unfolding finish log_error
  finish-Kept k v v' t h = elim (Option-cases t.error) [
    | inl e ↦ rw (e, finish) (h t.world refl)
    | inr (e, n) ↦
        rw (n, finish)
          (close_session-Kept k v (record v' { world = log_error e t.world })
            (h (log_error e t.world) refl))
  ]

  pub unheard_copy :
      (link : Link) (s : Session) (req : Request) (w : ResponseWriter) (o : World)
      → s.or ≢ c
      → received c (transact link s req w o).world.sent ≡ received c o.sent
  unheard_copy link s req w o ne =
      ap (λ x. received c x.sent) (transact-after_copy link s req w o)
      ∙ ground (arith, ==_iff s.or c, ne)

  with_session-Kept :
      (link : Link) (k : Bytes) (req : Request) (w : ResponseWriter) (v : Server)
      (r : Result Session × Server)
      → Unique r.1.session_map
      → Found v r
      → Kept v (with_session link k req w r).1
  unfolding with_session log_error
  with_session-Kept link k req w v (err e, v') u f = record {
    unique = u;
    others = f.others;
    unheard = ap (received c) f.unsent;
  }
  with_session-Kept link k req w v (ok s, v') u f =
      finish-Kept k v v' (transact link s req w v'.world) (λ o e. record {
        unique = u;
        others = f.others;
        unheard =
            ap (received c) e
            ∙ unheard_copy link s req w v'.world (f.session s refl)
            ∙ ap (received c) f.unsent;
      })

  -- A request with another id, whatever becomes of it, leaves the connection alone.
  pub post-Kept :
      (x : Externals) (link : Link) (now : ℕ) (req : Request) (w : ResponseWriter) (v : Server)
      → id ≢ session_id req
      → ((useraddr : Bytes) → x.dial_or useraddr pt_method_name ≢ ok c)
      → Unique v.session_map
      → Apart id c v.session_map
      → Kept v (post x link now req w v).1
  post-Kept x link now req w v ne new u apart =
      let k = session_id req in
      let useraddr = get_useraddr x.parse_ip req in
      elim (Bool-cases (ltb (length k) min_session_id_length)) [
        | inl short ↦
            rw (post-short x link now req w v (ltb→lt _ _ short))
              (record { unique = u; others = apart; unheard = refl })
        | inr long ↦ rw (post-long x link now req w v (ltb→le _ _ long)) (
            with_session-Kept link k req w v (get_session x.dial_or useraddr k now v)
              (get_session-Unique x.dial_or useraddr k now v u)
              (get_session-Found x.dial_or useraddr k now v ne (new useraddr) apart))
      ]
