-- ===== src/Server/Steps/Requests.antt =====
-- State.Post of meek-server/meek-server.go as a sequence of the steps of Server/Steps.
use meek.Base.{
  ℕ, ◌≤◌, ◌<◌, Bytes, List, [], ◌∷◌, none, some, ◌≡◌, refl, sym, ap, ◌∙◌, arith, Bool-cases, inl,
  inr, Option-cases, length, lookup, ltb, ltb→lt, ltb→le,
}
use meek.Go.Errors.{GoError, Result, err, Result-cases}
use meek.Go.Http.{Request, ResponseWriter}
use meek.UserAddr.{get_useraddr}
use meek.Server.Session.{
  Session, Server, min_session_id_length, get_session, start_session, pt_method_name,
}
use meek.Server.Handler.{Link, Externals, transact, with_session, finish, post, log_error}
use meek.Server.Transact.{transact-error_iff}
use meek.Server.Posts.{
  session_id, connection, Delivers, get_session-Obtained, post-short, post-long, finish-ok,
  finish-err, with_session-ok,
}
use meek.Server.Steps.{Step, looks_up, transacts, logs, closes, run}

missed :
    (dial_or : Bytes → Bytes → Result ℕ) (useraddr id : Bytes) (now : ℕ) (v : Server) (e : GoError)
    → lookup id v.session_map ≡ none
    → dial_or useraddr pt_method_name ≡ err e
    → get_session dial_or useraddr id now v ≡ (err e, v)
unfolding get_session start_session
missed dial_or useraddr id now v e free dial = ground (arith, free, dial)

apart : {A : Type 0} (a : A) → ¬ (none ≡ some a)
apart a h = absurd (cc h)

module _ (x : Externals) (link : Link) (now : ℕ) (req : Request) (w : ResponseWriter)
    (v : Server) where
  -- The look-up of the request's own session.
  abbrev own : Step
  own = looks_up x.dial_or (get_useraddr x.parse_ip req) (session_id req) now

  -- The work on a session with this connection, which was touched by the look-up.
  abbrev work : ℕ → Step
  work c = transacts link (record { or = c; last_seen = now }) req w

  -- The steps of a request, by what comes of it.
  pub data Does : List Step → Type 0 where
    too_short : length (session_id req) < min_session_id_length → Does []
    no_connection :
        (e : GoError)
        → min_session_id_length ≤ length (session_id req)
        → lookup (session_id req) v.session_map ≡ none
        → x.dial_or (get_useraddr x.parse_ip req) pt_method_name ≡ err e
        → Does (own ∷ logs e ∷ [])
    delivers :
        (c : ℕ)
        → min_session_id_length ≤ length (session_id req)
        → connection x req v ≡ some c
        → Delivers link req
        → Does (own ∷ work c ∷ [])
    drops :
        (c : ℕ) (e : GoError)
        → min_session_id_length ≤ length (session_id req)
        → connection x req v ≡ some c
        → ¬ Delivers link req
        → Does (own ∷ work c ∷ logs e ∷ closes (session_id req) ∷ [])

  looked_up : Result Session × Server
  looked_up = get_session x.dial_or (get_useraddr x.parse_ip req) (session_id req) now v

  worked :
      (c : ℕ)
      → min_session_id_length ≤ length (session_id req)
      → connection x req v ≡ some c
      → (ss : List Step) × Does ss × ((post x link now req w v).1 ≡ run ss v)
  unfolding run looked_up
  worked c long conn =
      let s : Session = record { or = c; last_seen = now } in
      let o =
        get_session-Obtained x.dial_or (get_useraddr x.parse_ip req) (session_id req) now c v
          conn in
      let t = transact link s req w looked_up.1.world in
      let fine = transact-error_iff link s req w looked_up.1.world in
      let made : post x link now req w v ≡ finish (session_id req) looked_up.1 t =
        post-long x link now req w v long
        ∙ with_session-ok link (session_id req) req w s looked_up o.session in
      elim (Option-cases t.error) [
        | inl good ↦ (
          own ∷ work c ∷ [],
          delivers c long conn (fine.0 good),
          ap (λ r. r.1) (made ∙ finish-ok (session_id req) looked_up.1 t good),
        )
        | inr (e, bad) ↦ (
          own ∷ work c ∷ logs e ∷ closes (session_id req) ∷ [],
          drops c e long conn (λ d. apart e (sym (fine.1 d) ∙ bad)),
          ap (λ r. r.1) (made ∙ finish-err (session_id req) looked_up.1 t e bad),
        )
      ]

  no_session :
      (e : GoError)
      → lookup (session_id req) v.session_map ≡ none
      → x.dial_or (get_useraddr x.parse_ip req) pt_method_name ≡ err e
      → looked_up ≡ (err e, v)
  unfolding looked_up
  no_session e free dial =
      missed x.dial_or (get_useraddr x.parse_ip req) (session_id req) now v e free dial

  unconnected :
      (e : GoError)
      → min_session_id_length ≤ length (session_id req)
      → lookup (session_id req) v.session_map ≡ none
      → x.dial_or (get_useraddr x.parse_ip req) pt_method_name ≡ err e
      → (ss : List Step) × Does ss × ((post x link now req w v).1 ≡ run ss v)
  unfolding run looked_up with_session
  unconnected e long free dial = (
    own ∷ logs e ∷ [],
    no_connection e long free dial,
    ap (λ r. r.1) (post-long x link now req w v long)
        ∙ ap (λ q. (with_session link (session_id req) req w q).1) (no_session e free dial)
        ∙ sym (ap (λ q. record q.1 { world = log_error e q.1.world }) (no_session e free dial)),
  )

  -- A request, handled with no other step in between, is one of these sequences of steps: none, where
  -- its session id has less than eight bytes; else the look-up of that id, and behind it the log of the
  -- error where there is no session and no connection can be dialed; the transaction, on the session's
  -- connection or the one that was dialed, where it delivers; and where it does not, the transaction,
  -- the log of an error and the closing of the session of that id.
  pub post-Does : (ss : List Step) × Does ss × ((post x link now req w v).1 ≡ run ss v)
  post-Does = elim (Bool-cases (ltb (length (session_id req)) min_session_id_length)) [
    | inl short ↦ (
      [],
      too_short (ltb→lt _ _ short),
      unfold run in ap (λ r. r.1) (post-short x link now req w v (ltb→lt _ _ short)),
    )
    | inr long ↦ elim (Option-cases (lookup (session_id req) v.session_map)) [
      | inl free ↦ elim (Result-cases (x.dial_or (get_useraddr x.parse_ip req) pt_method_name)) [
        | inl (c, dial) ↦ worked c (ltb→le _ _ long) (rw (free, dial) refl)
        | inr (e, dial) ↦ unconnected e (ltb→le _ _ long) free dial
      ]
      | inr (s, held) ↦ worked s.or (ltb→le _ _ long) (rw held refl)
    ]
  ]
