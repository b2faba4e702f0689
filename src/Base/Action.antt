-- ===== src/Base/Action.antt =====
-- Calls that change a state: the answer and the new state. What was changed before an error stays
-- changed. The two loops of the Kubernetes libraries, over such calls, are relations here.
use Prim.Native.Nat.{ℕ, zero, suc}
use mathlib.Core.Path.{◌≡◌, refl, ap}
use mathlib.Core.Bool.{Bool, true, false}
use mathlib.Core.List.{List, [], ◌∷◌}
use cluster_fabric_operator.Base.Results.{
  ApiError.conflict, Error, Error.api, Error.wait_timeout, Result, ok, err,
}

-- How a call ends. `runs_on` stands for a model's loop that was given too few rounds.
pub data Outcome {ℓ} (A : Type ℓ) : Type ℓ where
  returns : A → Outcome A
  fails : Error → Outcome A
  panics runs_on : Outcome A

abbrev pub Action {ℓ κ} : Type ℓ → Type κ → Type (ℓ ⊔ κ)
Action W A = W → Outcome A × W

module _ {ℓ κ} {W : Type ℓ} {A : Type κ} where
  abbrev pub pure : A → Action W A
  pure a w = (returns a, w)

  abbrev pub raise : Error → Action W A
  raise e w = (fails e, w)

  abbrev pub of_result : Result A → Action W A
  of_result (ok a) w = (returns a, w)
  of_result (err e) w = (fails e, w)

infixl 5 ◌>>=◌ ◌>>◌
-- What follows an outcome: the next call only after a value.
abbrev pub next {ℓ κ μ} :
    {W : Type ℓ} {A : Type κ} {B : Type μ} → Outcome A → W → (A → Action W B) → Outcome B × W
next (returns a) w f = f a w
next (fails e) w f = (fails e, w)
next panics w f = (panics, w)
next runs_on w f = (runs_on, w)

abbrev pub ◌>>=◌ {ℓ κ μ} :
    {W : Type ℓ} {A : Type κ} {B : Type μ} → Action W A → (A → Action W B) → Action W B
(m >>= f) w = let (o, w') = m w in next o w' f

abbrev pub ◌>>◌ {ℓ κ μ} :
    {W : Type ℓ} {A : Type κ} {B : Type μ} → Action W A → Action W B → Action W B
m >> k = m >>= λ _. k

-- Where two calls in turn return, both did.
pub next-returns {ℓ κ μ} :
    {W : Type ℓ} {A : Type κ} {B : Type μ} (o : Outcome A) (w w' : W) (f : A → Action W B) (b : B)
    → next o w f ≡ (returns b, w')
    → (a : A) × (o ≡ returns a) × (f a w ≡ (returns b, w'))
next-returns (returns a) w w' f b h = (a, refl, h)
next-returns (fails e) w w' f b h = absurd (cc h)
next-returns panics w w' f b h = absurd (cc h)
next-returns runs_on w w' f b h = absurd (cc h)

pub bind-returns {ℓ κ μ} :
    {W : Type ℓ} {A : Type κ} {B : Type μ} (m : Action W A) (f : A → Action W B) {w w' : W} {b : B}
    → (m >>= f) w ≡ (returns b, w')
    → (a : A) × (v : W) × (m w ≡ (returns a, v)) × (f a v ≡ (returns b, w'))
bind-returns m f {w} {w'} {b} h =
    let (a, e, rest) = next-returns (m w).0 (m w).1 w' f b h in
    (a, (m w).1, ap (λ o. (o, (m w).1)) e, rest)

pub of_result-returns {ℓ κ} :
    {W : Type ℓ} {A : Type κ} (r : Result A) {w w' : W} {a : A}
    → of_result r w ≡ (returns a, w')
    → (r ≡ ok a) × (w ≡ w')
of_result-returns (ok a) h = (cc h, ap (λ x. x.1) h)
of_result-returns (err e) h = absurd (cc h)

-- Calls in turn, up to the first that does not return.
unfoldable pub in_turn : {W : Type 0} → List (Action W (Unit {0})) → Action W (Unit {0})
in_turn [] w = (returns tt, w)
in_turn (m ∷ ms) w = let (o, w') = m w in next o w' λ _. in_turn ms

-- A call of the API server, which answers with a value or an error.
abbrev pub Call : Type 0 → Type 0 → Type 0
Call W A = W → Result A × W

-- The states that a call, made again and again, passes through.
pub data Reached {W A : Type 0} (call : Call W A) (w : W) : W → Type 0 where
  start : Reached call w w
  next_call : {v : W} → Reached call w v → Reached call w (call v).1

abbrev pub ask : {W A : Type 0} → Call W A → Action W A
ask call w = let (r, w') = call w in of_result r w'

-- `retry.RetryOnConflict`: the call is made again while it fails with a conflict. The result is that
-- of the last round; the ones before it all ended with a conflict.
pub data Retried {W A : Type 0} (call : Action W A) : W → Outcome A × W → Type 0 where
  last_round : {w : W} → Retried call w (call w)
  after_conflict :
      {w w' : W} {r : Outcome A × W}
      → call w ≡ (fails (api conflict), w')
      → Retried call w' r
      → Retried call w r

-- `wait.ExponentialBackoff` and `wait.PollImmediate` with so many rounds: the condition is called
-- until it is met or fails; after the last round the result is the time-out.
pub data Polled {W : Type 0} (condition : Action W Bool)
    : ℕ → W → Outcome (Unit {0}) × W → Type 0 where
  met :
      {n : ℕ} {w w' : W}
      → condition w ≡ (returns true, w')
      → Polled condition (suc n) w (returns tt, w')
  failed :
      {n : ℕ} {w w' : W} {e : Error}
      → condition w ≡ (fails e, w')
      → Polled condition (suc n) w (fails e, w')
  panicked :
      {n : ℕ} {w w' : W} → condition w ≡ (panics, w') → Polled condition (suc n) w (panics, w')
  ran_on :
      {n : ℕ} {w w' : W} → condition w ≡ (runs_on, w') → Polled condition (suc n) w (runs_on, w')
  given_up :
      {w w' : W}
      → condition w ≡ (returns false, w')
      → Polled condition (suc zero) w (fails wait_timeout, w')
  again :
      {n : ℕ} {w w' : W} {r : Outcome (Unit {0}) × W}
      → condition w ≡ (returns false, w')
      → Polled condition (suc n) w' r
      → Polled condition (suc (suc n)) w r

-- The two loops, and what is documented of them.
pub record Loops : Type 1 where
  pub retry_on_conflict : {W A : Type 0} → Action W A → Action W A
  pub poll : {W : Type 0} → ℕ → Action W Bool → Action W (Unit {0})
  pub retries :
      {W A : Type 0} (call : Action W A) (w : W) → Retried call w (retry_on_conflict call w)
  pub polls :
      {W : Type 0} (n : ℕ) (condition : Action W Bool) (w : W)
      → Polled condition (suc n) w (poll (suc n) condition w)
