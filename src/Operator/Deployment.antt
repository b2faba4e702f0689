-- ===== src/Operator/Deployment.antt =====
-- controllers/ensures/operator/common/operatorpod/ensure.go and common/deployments/utils.go: the
-- operator's deployment, and the wait for it.
pub mod Ready
use cluster_fabric_operator.Base.{
  ℕ, Bool, true, false, ◌&&◌, ◌||◌, Text, codes, text_eq, has_suffix, List, [], ◌∷◌, Result, ok,
  err, Error, if◌then◌else◌,
}
use cluster_fabric_operator.Base.{Error.api, ApiError.not_found, Error.waiting_for_deployment}
use cluster_fabric_operator.Base.Action.{
  Outcome, returns, fails, panics, runs_on, Action, Call, next, ◌>>◌, Loops,
}
use cluster_fabric_operator.Operator.{
  PullPolicy, pull_always, pull_if_not_present, EnvVar, from_field, literal, DeploymentSpec,
  deployment, Server,
}

-- `NewDeployment`: one replica, selected by the label that its template has.
unfoldable pub new_deployment : Text → Text → Bool → DeploymentSpec
new_deployment operator_name image debug = record {
  replicas = 1;
  selector = operator_name;
  name_label = operator_name;
  service_account_name = operator_name;
  container_name = operator_name;
  image = image;
  command =
      operator_name
      ∷ codes "-alsologtostderr"
      ∷ (if debug then codes "-v=3" else codes "-v=1")
      ∷ [];
  -- A local image is not pulled from a registry.
  image_pull_policy =
      if has_suffix image (codes ":local") then pull_if_not_present else pull_always;
  env =
      from_field (codes "WATCH_NAMESPACE") (codes "metadata.namespace")
      ∷ from_field (codes "POD_NAME") (codes "metadata.name")
      ∷ literal (codes "OPERATOR_NAME") operator_name
      ∷ [];
}

-- The type and the status of each condition of a deployment.
abbrev pub Conditions : Type 0
Conditions = List (Text × Text)

-- The loop over the conditions.
unfoldable pub is_available : Conditions → Bool
is_available [] = false
is_available ((type, status) ∷ rest) =
    if text_eq type (codes "Available") && text_eq status (codes "True")
    then true
    else is_available rest

-- What is left of a wait's state.
abbrev pub forget : {W L A : Type 0} → Outcome A × (W × L) → Outcome A × W
forget (o, (w, l)) = (o, w)

-- What a round whose read failed answers: one that finds no deployment goes by the last.
abbrev pub missing_or_error : Error → Conditions → Outcome Bool
missing_or_error (api not_found) last = returns (is_available last)
missing_or_error e last = fails waiting_for_deployment

module _ {W : Type 0} (get_deployment : Text → Text → Call W Conditions) where
  -- The condition of `WaitForReady`. The deployment that the rounds share is what was read last: a
  -- read that fails leaves it as it was.
  unfoldable pub ready_round : Text → Text → Action (W × Conditions) Bool
  ready_round namespace name (w, last) =
      let (r, w') = get_deployment namespace name w in
      elim r [
        | ok conditions ↦ (returns (is_available conditions), (w', conditions))
        | err e ↦ (missing_or_error e last, (w', last))
      ]

module _ {W : Type 0} (get_deployment : Text → Text → Call W Conditions) (loops : Loops)
    (rounds : ℕ) where
  -- `WaitForReady`
  unfoldable pub wait_for_ready : Text → Text → Action W (Unit {0})
  wait_for_ready namespace name w =
      let (r, w') = get_deployment namespace name w in
      elim r [
        | err e ↦ (fails e, w')
        | ok conditions ↦
            forget (loops.poll rounds (ready_round get_deployment namespace name) (w', conditions))
      ]

  -- `Ensure` of operatorpod.
  unfoldable pub ensure_deployment : Server W → Text → Text → Text → Bool → Action W (Unit {0})
  ensure_deployment server namespace operator_name image debug =
      server.create_or_update
        (deployment namespace operator_name (new_deployment operator_name image debug))
      >> wait_for_ready namespace operator_name
