-- ===== src/Server/Order/Classes.antt =====
-- A server up to the order in which Go walks its map: a quotient, on which the runs are a function.
use mathlib.Core.Path.{fun_ext, subst}
use mathlib.Core.Logic.{∥∥₁_elim}
use mathlib.Core.Quot
use mathlib.Core.Quot.{Quot, Quot-set}
use meek.Go.Errors.{GoError}
use meek.Base.{ℕ, Bytes, count, List, [], ◌∷◌, ◌≡◌, refl, sym, ap, ◌∙◌, ◌↔◌, Unique}
use meek.Server.Session.{Server}
use meek.Server.Steps.{Step, step, run}
use meek.Server.Abstract.{Sessions, sessions, replay, step-Unique, run-replay}
use meek.Server.Order.{Alike, Alike-refl, run-step-Alike, Runs, done, next, run-Alike}

-- A server whose map has one entry for an id.
abbrev pub Mapped : Type 0
Mapped = (v : Server) × Unique v.session_map

abbrev SameMap : Mapped → Mapped → Type 0
SameMap v w = Alike v.0 w.0

abbrev pub AnyOrder : Type 0
AnyOrder = Quot SameMap

run-Unique : (ss : List Step) (v : Server) → Unique v.session_map → Unique (run ss v).session_map
unfolding run
run-Unique [] v u = u
run-Unique (s ∷ ss) v u = run-Unique ss (step s v) (step-Unique s v u)

abbrev run_mapped : List Step → Mapped → Mapped
run_mapped ss v = (run ss v.0, run-Unique ss v.0 v.1)

pub run_any : List Step → AnyOrder → AnyOrder
run_any ss =
    Quot.lift Quot-set (λ v. Quot.mk (run_mapped ss v))
      (λ v w a. Quot.sound (run-step-Alike ss v.0 w.0 a))

number-set : IsSet ℕ
number-set = hlevel

numbers-set : IsSet (List ℕ)
numbers-set = hlevel

sent-set : IsSet (List (ℕ × Bytes))
sent-set = hlevel

log-set : IsSet (List GoError)
log-set = hlevel

Sessions-set : IsSet Sessions
Sessions-set = hlevel

-- The sessions do not depend on the order.
pub sessions_of : AnyOrder → Sessions
sessions_of = Quot.lift Sessions-set (λ v. sessions v.0) (λ v w a. fun_ext a.mapped)

Runs-run : (ss : List Step) (v : Server) → Unique v.session_map → Runs ss v (run ss v)
unfolding run
Runs-run [] v u = done (Alike-refl v u)
Runs-run (s ∷ ss) v u = next (Alike-refl v u) (Runs-run ss (step s v) (step-Unique s v u))

-- What a run in changing orders leads from and to.
abbrev pub Outcome : List Step → AnyOrder → AnyOrder → Type 0
Outcome ss p q =
    ∥ ((v : Mapped) × (w : Mapped) × (Quot.mk v ≡ p) × Runs ss v.0 w.0 × (Quot.mk w ≡ q)) ∥₁

run_any-outcome : (ss : List Step) (p : AnyOrder) → Outcome ss p (run_any ss p)
unfolding run_any
run_any-outcome ss =
    Quot.ind (λ p. hlevel) (λ v. ∣ (v, run_mapped ss v, refl, Runs-run ss v.0 v.1, refl) ∣₁)

outcome-run_any : (ss : List Step) (p q : AnyOrder) → Outcome ss p q → run_any ss p ≡ q
unfolding run_any
outcome-run_any ss p q h =
    ∥∥₁_elim h (Quot-set _ _)
      (λ (v, w, e, r, k). ap (run_any ss) (sym e) ∙ Quot.sound (run-Alike ss v.0 w.0 r) ∙ k)

sessions_of-run_any :
    (ss : List Step) (p : AnyOrder) → sessions_of (run_any ss p) ≡ replay ss (sessions_of p)
unfolding sessions_of run_any
sessions_of-run_any ss =
    Quot.ind (λ q. Sessions-set (sessions_of (run_any ss q)) (replay ss (sessions_of q)))
      (λ v. run-replay ss v.0 v.1)

-- What else does not depend on the order.
opened_of : AnyOrder → List ℕ
opened_of = Quot.lift numbers-set (λ v. v.0.world.opened) (λ v w a. a.worlds.opened)

closed_of : ℕ → AnyOrder → ℕ
closed_of c = Quot.lift number-set (λ v. count c v.0.world.closed) (λ v w a. a.worlds.closed c)

sent_of : AnyOrder → List (ℕ × Bytes)
sent_of = Quot.lift sent-set (λ v. v.0.world.sent) (λ v w a. a.worlds.sent)

log_of : AnyOrder → List GoError
log_of = Quot.lift log-set (λ v. v.0.world.log) (λ v w a. a.worlds.log)

-- A class holds no servers but those that are alike.
class-Alike : (v w : Mapped) → ◌≡◌ {A = AnyOrder} (Quot.mk v) (Quot.mk w) → Alike v.0 w.0
unfolding sessions_of opened_of closed_of sent_of log_of
class-Alike v w e = record {
  unique_left = v.1;
  unique_right = w.1;
  mapped = λ id. ap (λ q. sessions_of q id) e;
  worlds = record {
    opened = ap opened_of e;
    sent = ap sent_of e;
    log = ap log_of e;
    closed = λ c. ap (closed_of c) e;
  };
}

run_any-Alike :
    (ss : List Step) (v w : Mapped) → (run_any ss (Quot.mk v) ≡ Quot.mk w) ↔ Alike (run ss v.0) w.0
unfolding run_any
run_any-Alike ss v w = (class-Alike (run_mapped ss v) w, λ a. Quot.sound a)

-- Up to the order in which Go walks its map, runs of handlers and sweeps are a function: from the
-- class of a server, the runs in which the order may change before each step lead to one class and to
-- no other, which holds the servers that differ from the one behind the run in a fixed order by the
-- order of the map's entries and of the closed connections alone; and the sessions of that class are
-- those that the abstract changes give.
pub outcome-one :
    (ss : List Step) (v w : Mapped)
    → (Outcome ss (Quot.mk v) (Quot.mk w) ↔ (run_any ss (Quot.mk v) ≡ Quot.mk w))
      × ((run_any ss (Quot.mk v) ≡ Quot.mk w) ↔ Alike (run ss v.0) w.0)
      × (sessions_of (run_any ss (Quot.mk v)) ≡ replay ss (sessions v.0))
unfolding sessions_of
outcome-one ss v w = (
  (
    outcome-run_any ss (Quot.mk v) (Quot.mk w),
    λ e. subst (Outcome ss (Quot.mk v)) e (run_any-outcome ss (Quot.mk v)),
  ),
  run_any-Alike ss v w,
  sessions_of-run_any ss (Quot.mk v),
)
