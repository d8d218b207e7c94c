-- ===== src/Server/Clients/Foreign.antt =====
-- What others do while a client waits, none of it to the client's session or connection.
use meek.Base.{ℕ, Bytes, List, [], ◌∷◌, Option, ◌≡◌, ◌≢◌, refl, ◌∙◌}
use meek.Go.Errors.{ok}
use meek.Server.Session.{Server, pt_method_name}
use meek.Server.Posts.{session_id}
use meek.Server.Stream.{received}
use meek.Server.Waits.{Waits, IsFresh, foreign-Waits, sweep-Waits}
use meek.Server.Clients.{Action, request, sweep, act, acts}

-- Requests with other ids, for which no dial gives the client's connection, and sweeps that do not find
-- the client idle for too long.
abbrev pub Foreign : Bytes → ℕ → Option ℕ → List Action → Type 0
Foreign id c seen [] = Unit
Foreign id c seen (request a ∷ as') =
    (id ≢ session_id a.req)
    × ((useraddr : Bytes) → a.externals.dial_or useraddr pt_method_name ≢ ok c)
    × Foreign id c seen as'
Foreign id c seen (sweep now ∷ as') = IsFresh c now seen × Foreign id c seen as'

pub acts-Waits :
    (id : Bytes) (c : ℕ) (seen : Option ℕ) (as' : List Action) (v : Server)
    → Foreign id c seen as'
    → Waits id c seen v
    → Waits id c seen (acts as' v) × (received c (acts as' v).world.sent ≡ received c v.world.sent)
unfolding acts
acts-Waits id c seen [] v f w = (w, refl)
acts-Waits id c seen (request a ∷ as') v (ne, new, f) w =
    let (w', unheard) = foreign-Waits id c a.externals a.link a.now a.req seen v w ne new in
    let r = acts-Waits id c seen as' (act (request a) v) f w' in (r.0, r.1 ∙ unheard)
acts-Waits id c seen (sweep now ∷ as') v (fresh, f) w =
    let (w', unheard) = sweep-Waits id c now seen v fresh w in
    let r = acts-Waits id c seen as' (act (sweep now) v) f w' in (r.0, r.1 ∙ unheard)
