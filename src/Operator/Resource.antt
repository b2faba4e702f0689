-- ===== src/Operator/Resource.antt =====
-- controllers/ensures/operator/submarinercr/ensure.go: the custom resource of Submariner is deleted,
-- and made anew. The API server is a parameter.
pub mod Recreated
use cluster_fabric_operator.Base.{ℕ, Bool, true, false, Result, ok, err, Error}
use cluster_fabric_operator.Base.{Error.api, ApiError.not_found}
use cluster_fabric_operator.Base.Action.{Outcome, returns, fails, Action, Call, of_result, Loops}

-- The calls for the one resource. A read tells whether the resource is being deleted.
pub record ResourceClient (W Spec : Type 0) : Type 0 where
  pub get : Call W Bool
  pub create : Spec → Call W (Unit {0})
  pub delete : Call W (Unit {0})

-- What a round comes to after the creation, and after the deletion, whose error is dropped if it says
-- that there is nothing.
abbrev pub created : Result (Unit {0}) → Outcome Bool
created (ok _) = returns true
created (err e) = fails e

abbrev pub deleted : Result (Unit {0}) → Outcome Bool
deleted (ok _) = returns false
deleted (err (api not_found)) = returns false
deleted (err e) = fails e

module _ {W Spec : Type 0} (client : ResourceClient W Spec) where
  unfoldable pub create_round : Spec → Action W Bool
  create_round spec w = let (r, w') = client.create spec w in (created r, w')

  unfoldable pub delete_round : Action W Bool
  delete_round w = let (r, w') = client.delete w in (deleted r, w')

  -- The part of a round behind its read.
  unfoldable pub after_get : Spec → Result Bool → Action W Bool
  after_get spec (err (api not_found)) w = create_round spec w
  after_get spec (err e) w = (fails e, w)
  -- The resource is being deleted.
  after_get spec (ok true) w = (returns false, w)
  after_get spec (ok false) w = delete_round w

  -- The condition of `Ensure`.
  unfoldable pub resource_round : Spec → Action W Bool
  resource_round spec w = let (r, w') = client.get w in after_get spec r w'

  -- `Ensure`. The cap on the delay makes the rounds fewer than the twenty steps.
  unfoldable pub ensure_resource : Loops → ℕ → Spec → Action W (Unit {0})
  ensure_resource loops rounds spec = loops.poll rounds (resource_round spec)
