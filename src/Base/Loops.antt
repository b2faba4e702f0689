-- ===== src/Base/Loops.antt =====
-- What follows from the two loops of the Kubernetes libraries.
use Prim.Native.Nat.{ℕ, suc}
use mathlib.Core.Path.{◌≡◌, refl, sym, ap, subst, ◌∙◌}
use mathlib.Core.Logic.{◌≢◌}
use mathlib.Core.Bool.{Bool, true, false}
use cluster_fabric_operator.Base.Results.{ApiError.conflict, Error.api}
use cluster_fabric_operator.Base.Action.{
  Outcome, returns, fails, Action, Retried, last_round, after_conflict, Polled, met, failed,
  panicked, ran_on, given_up, again,
}

-- The result of a retry is that of a round, from some state.
pub Retried-round :
    {W A : Type 0} {call : Action W A} {w : W} {r : Outcome A × W}
    → Retried call w r
    → (v : W) × (r ≡ call v)
Retried-round (last_round {w}) = (w, refl)
Retried-round (after_conflict e more) = Retried-round more

-- What every round keeps, a retry keeps.
pub Retried-keeps :
    {W A : Type 0} {call : Action W A} (P : W → Type 0) {w : W} {r : Outcome A × W}
    → ((v : W) → P v → P (call v).1)
    → Retried call w r
    → P w
    → P r.1
Retried-keeps P keep (last_round {w}) p = keep w p
Retried-keeps P keep (after_conflict {w} e more) p =
    Retried-keeps P keep more (subst (λ x. P x.1) e (keep w p))

-- A first round that ends otherwise than with a conflict is the only one.
pub Retried-once :
    {W A : Type 0} {call : Action W A} {w : W} {r : Outcome A × W}
    → (call w).0 ≢ fails (api conflict)
    → Retried call w r
    → r ≡ call w
Retried-once other last_round = refl
Retried-once other (after_conflict e more) = absurd (other (ap (λ x. x.0) e))

-- What every round keeps, a polling keeps.
pub Polled-keeps :
    {W : Type 0} {condition : Action W Bool} (P : W → Type 0) {n : ℕ} {w : W}
    {r : Outcome (Unit {0}) × W}
    → ((v : W) → P v → P (condition v).1)
    → Polled condition n w r
    → P w
    → P r.1
Polled-keeps P keep (met {w = w} e) p = subst (λ x. P x.1) e (keep w p)
Polled-keeps P keep (failed {w = w} e) p = subst (λ x. P x.1) e (keep w p)
Polled-keeps P keep (panicked {w = w} e) p = subst (λ x. P x.1) e (keep w p)
Polled-keeps P keep (ran_on {w = w} e) p = subst (λ x. P x.1) e (keep w p)
Polled-keeps P keep (given_up {w} e) p = subst (λ x. P x.1) e (keep w p)
Polled-keeps P keep (again {w = w} e more) p =
    Polled-keeps P keep more (subst (λ x. P x.1) e (keep w p))

-- A polling that returns has called a condition that was met, where the state had what every round
-- keeps.
pub Polled-met :
    {W : Type 0} {condition : Action W Bool} (P : W → Type 0) {n : ℕ} {w w' : W}
    {r : Outcome (Unit {0}) × W}
    → ((v : W) → P v → P (condition v).1)
    → Polled condition n w r
    → P w
    → r ≡ (returns tt, w')
    → (v : W) × P v × (condition v ≡ (returns true, w'))
Polled-met P keep (met {w = w} {w' = u} e) p h = (w, p, e ∙ ap (λ x. (returns true, x.1)) h)
Polled-met P keep (failed e) p h = absurd (cc h)
Polled-met P keep (panicked e) p h = absurd (cc h)
Polled-met P keep (ran_on e) p h = absurd (cc h)
Polled-met P keep (given_up e) p h = absurd (cc h)
Polled-met P keep (again {w = w} e more) p h =
    Polled-met P keep more (subst (λ x. P x.1) e (keep w p)) h

-- How a polling goes on from the outcome of its first round.
pub Polled-true :
    {W : Type 0} {condition : Action W Bool} {n : ℕ} {w w' : W} {r : Outcome (Unit {0}) × W}
    → condition w ≡ (returns true, w')
    → Polled condition n w r
    → r ≡ (returns tt, w')
Polled-true h (met e) = cc (h, e)
Polled-true h (failed e) = absurd (cc (h, e))
Polled-true h (panicked e) = absurd (cc (h, e))
Polled-true h (ran_on e) = absurd (cc (h, e))
Polled-true h (given_up e) = absurd (cc (h, e))
Polled-true h (again e more) = absurd (cc (h, e))

pub Polled-false :
    {W : Type 0} {condition : Action W Bool} {n : ℕ} {w w' : W} {r : Outcome (Unit {0}) × W}
    → condition w ≡ (returns false, w')
    → Polled condition (suc (suc n)) w r
    → Polled condition (suc n) w' r
Polled-false h (met e) = absurd (cc (h, e))
Polled-false h (failed e) = absurd (cc (h, e))
Polled-false h (panicked e) = absurd (cc (h, e))
Polled-false h (ran_on e) = absurd (cc (h, e))
Polled-false {condition = condition} {n = n} {r = r} h (again e more) =
    subst (λ x. Polled condition (suc n) x r) (ap (λ x. x.1) (sym e ∙ h)) more
