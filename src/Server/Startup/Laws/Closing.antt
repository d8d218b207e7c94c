-- ===== src/Server/Startup/Laws/Closing.antt =====
-- Start-up closes no server, and what it adds that main closes them.
use meek.Base.{
  ℕ, Bytes, List, [], ◌∷◌, ◌++◌, Option, Bool, false, ◌≡◌, ap, inl, inr, refl, arith, ◌∙◌, sym,
  length, append-nil,
}
use meek.Go.Errors.{GoError, Result, ok, Result-cases}
use meek.Server.Startup.{
  Flags, Tls, set_up_tls, Addr, Bindaddr, Event, Listening, start_server, init_server, at_port,
  start_one, start_servers, start, needs_responder, closings,
}
use meek.Server.Startup.Laws.{
  collect, collect-append, address_of, responder_of, listening, responders, closed_of, closed_by,
}

start_one-closed :
    (l : Listening) (tls : Tls) (needed : Bool) (b : Bindaddr)
    → closed_by (start_one l tls needed b).0 ≡ []
unfolding start_one start_server init_server
start_one-closed l tls needed b = ground arith

start_servers-closed :
    (l : Listening) (tls : Tls) (port : ℕ) (needed : Bool) (bs : List Bindaddr)
    → closed_by (start_servers l tls port needed bs).0 ≡ []
unfolding start_servers
start_servers-closed l tls port needed [] = refl
start_servers-closed l tls port needed (b ∷ bs) = ground (
  arith,
  collect-append closed_of (start_one l tls needed (at_port port b)).0
      (start_servers l tls port false bs).0,
  start_one-closed l tls needed (at_port port b),
  start_servers-closed l tls port false bs,
  start_servers-closed l tls port needed bs,
)

-- Start-up closes nothing.
pub start-closed :
    (mk : Bytes → Bytes → Option GoError) (state_dir : Result Bytes) (l : Listening) (f : Flags)
    (port : ℕ) (bs : List Bindaddr) (es : List Event) (servers : List Addr)
    → start mk state_dir l f port bs ≡ ok (es, servers)
    → closed_by es ≡ []
unfolding start
start-closed mk state_dir l f port bs es servers h =
    elim (Result-cases (set_up_tls mk state_dir f)) [
      | inl (tls, k) ↦
          let made : start_servers l tls port (needs_responder tls) bs ≡ (es, servers) =
            ground (arith, h, k) in
          ap (λ r. closed_by r.0) (sym made)
          ∙ start_servers-closed l tls port (needs_responder tls) bs
      | inr (e, k) ↦ absurd (ground (arith, k))
    ]

closings_lem :
    (as' : List Addr)
    → (listening (closings as') ≡ [])
      × (closed_by (closings as') ≡ as')
      × (collect responder_of (closings as') ≡ [])
closings_lem [] = (refl, refl, refl)
closings_lem (a ∷ as') = let c = closings_lem as' in (c.0, ap (◌∷◌ a) c.1, c.2)

pub append-closings :
    (es : List Event) (as' : List Addr)
    → (listening (es ++ closings as') ≡ listening es)
      × (closed_by (es ++ closings as') ≡ closed_by es ++ as')
      × (responders (es ++ closings as') ≡ responders es)
append-closings es as' =
    let c = closings_lem as' in
    (
      collect-append address_of es (closings as')
          ∙ ap (◌++◌ (listening es)) c.0
          ∙ append-nil (listening es),
      collect-append closed_of es (closings as') ∙ ap (◌++◌ (closed_by es)) c.1,
      ap length (
          collect-append responder_of es (closings as')
          ∙ ap (◌++◌ (collect responder_of es)) c.2
          ∙ append-nil (collect responder_of es)),
    )
