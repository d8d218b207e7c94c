-- ===== src/Server/Order/Tests.antt =====
-- Two orders of a map at a concrete input.
use mathlib.Core.Quot
use meek.Base.{
  ◌↔◌, ◌*◌, codes, List, [], ◌∷◌, none, some, ◌≡◌, refl, arith, lookup, insert, erase, same,
  same_iff,
}
use meek.Go.Errors.{ok}
use meek.Server.Session.{
  Session, Server, World, second, new_state, get_session, expire_sessions, close_session,
  is_expired,
}
use meek.Server.Steps.{Step, looks_up, sweeps, closes, run, step}
use meek.Server.Abstract.{sessions, replay, run_refines}
use meek.Server.Order.Classes.{AnyOrder, Outcome, run_any, sessions_of, outcome-one}
use meek.Server.Order.{Alike}

opened : Unit {0}
unfolding run new_state get_session expire_sessions close_session lookup insert erase same
opened = tt

abbrev early : Session
early = record { or = 7; last_seen = 0 }

abbrev late : Session
late = record { or = 8; last_seen = 100 * second }

abbrev world : World
world = record { opened = 8 ∷ 7 ∷ []; closed = []; sent = []; log = [] }

abbrev one_way : Server
one_way = record {
  session_map = (codes "AAECAwQFBgc", early) ∷ (codes "CAkKCwwNDg8", late) ∷ [];
  world = world;
}

abbrev other_way : Server
other_way = record {
  session_map = (codes "CAkKCwwNDg8", late) ∷ (codes "AAECAwQFBgc", early) ∷ [];
  world = world;
}

orders-Alike : Alike one_way other_way
unfolding opened
orders-Alike = record {
  unique_left = (refl, (refl, tt));
  unique_right = (refl, (refl, tt));
  mapped =
      λ id. ground (arith, same_iff (codes "AAECAwQFBgc") id, same_iff (codes "CAkKCwwNDg8") id);
  worlds = record { opened = refl; sent = refl; log = refl; closed = λ c. refl };
}

abbrev swept : Server
swept = record {
  session_map = (codes "CAkKCwwNDg8", late) ∷ [];
  world = record world { closed = 7 ∷ [] };
}

swept-Alike : Alike (step (sweeps (130 * second)) other_way) swept
unfolding opened step is_expired
swept-Alike = record {
  unique_left = (refl, tt);
  unique_right = (refl, tt);
  mapped = λ id. refl;
  worlds = record { opened = refl; sent = refl; log = refl; closed = λ c. refl };
}

abbrev visits : List Step
visits =
    looks_up (λ useraddr method. ok 7) [] (codes "AAECAwQFBgc") 5
    ∷ looks_up (λ useraddr method. ok 8) [] (codes "CAkKCwwNDg8") 6
    ∷ closes (codes "AAECAwQFBgc")
    ∷ []

run_refines_example : sessions (run visits new_state) ≡ replay visits (λ id. none)
run_refines_example = run_refines visits

run_refines_test :
    sessions (run visits new_state) (codes "CAkKCwwNDg8") ≡ some (record { or = 8; last_seen = 6 })
unfolding opened
run_refines_test = refl

-- The two orders are one class.
abbrev one_class : AnyOrder
one_class = Quot.mk (one_way, orders-Alike.unique_left)

other_class : one_class ≡ Quot.mk (other_way, orders-Alike.unique_right)
other_class = Quot.sound orders-Alike

abbrev swept_class : AnyOrder
swept_class = Quot.mk (swept, swept-Alike.unique_right)

outcome-one_example :
    (Outcome (sweeps (130 * second) ∷ []) one_class swept_class
      ↔ (run_any (sweeps (130 * second) ∷ []) one_class ≡ swept_class))
    × ((run_any (sweeps (130 * second) ∷ []) one_class ≡ swept_class)
        ↔ Alike (run (sweeps (130 * second) ∷ []) one_way) swept)
    × (sessions_of (run_any (sweeps (130 * second) ∷ []) one_class)
        ≡ replay (sweeps (130 * second) ∷ []) (sessions one_way))
outcome-one_example =
    outcome-one (sweeps (130 * second) ∷ []) (one_way, orders-Alike.unique_left)
      (swept, swept-Alike.unique_right)
