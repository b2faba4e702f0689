-- ===== src/Broker/Ensure.antt =====
-- controllers/ensures/broker/ensure.go: `Ensure`, with the branch that sets up the definitions.
use cluster_fabric_operator.Base.{
  ℕ, suc, ◌≡◌, ◌∙◌, ap, inl, inr, Bool, true, ◌||◌, Text, Option, none, Result, ok, ApiError,
  if◌then◌else◌,
}
use cluster_fabric_operator.Base.{Error.api, ApiError.already_exists}
use cluster_fabric_operator.Base.Action.{
  Outcome, returns, fails, Action, Call, pure, of_result, ask, ◌>>◌, Loops, bind-returns,
}
use cluster_fabric_operator.Broker.Rbac.{
  Request, admin_name, ensure_rbac, cluster_sa_name, create_sa_for_cluster,
}
use cluster_fabric_operator.Broker.Token.{wait_for_client_token, wait_for_client_token-IsAnswered}
use cluster_fabric_operator.Operator.{Server}
use cluster_fabric_operator.Operator.Crds.{ensure_gateway_crds, ensure_lighthouse_crds}

-- The calls of the set-up. A token is read by the name of its account.
pub record BrokerCalls (W Secret : Type 0) : Type 0 where
  pub crd_updater : Result (Unit {0})
  pub server : Server W
  pub delete_crd : Text → Call W (Unit {0})
  pub answer : Request → W → Option ApiError × W
  pub get_token : Text → Call W Secret
  pub more_rounds : ℕ

module _ {W Secret : Type 0} (loops : Loops) (calls : BrokerCalls W Secret) where
  -- The definitions: those of Lighthouse where service discovery or globalnet needs them.
  unfoldable pub ensure_crds : Bool → Bool → Action W (Unit {0})
  ensure_crds service_discovery globalnet =
      of_result calls.crd_updater
      >> (ensure_gateway_crds calls.server
          >> (if service_discovery || globalnet
              then ensure_lighthouse_crds calls.server calls.delete_crd true
              else pure tt))

  abbrev pub crds_if : Bool → Bool → Bool → Action W (Unit {0})
  crds_if crds service_discovery globalnet =
      if crds then ensure_crds service_discovery globalnet else pure tt

  -- `Ensure`
  unfoldable pub ensure_broker : Bool → Bool → Bool → Action W (Unit {0})
  ensure_broker service_discovery globalnet crds =
      crds_if crds service_discovery globalnet
      >> (ask (ensure_rbac calls.answer)
          >> (wait_for_client_token (calls.get_token admin_name) loops (suc calls.more_rounds)
              >> pure tt))

  -- An error of the wait that says that something exists is dropped, and the token is nil.
  abbrev pub unless_exists_token : Outcome (Option Secret) → Outcome (Option Secret)
  unless_exists_token (fails (api already_exists)) = returns none
  unless_exists_token o = o

  -- `CreateSAForCluster`, with the wait for the token of the account.
  unfoldable pub wait_for_account : Text → Action W (Option Secret)
  wait_for_account cluster_id w =
      let (o, w') =
        wait_for_client_token (calls.get_token (cluster_sa_name cluster_id)) loops
          (suc calls.more_rounds) w in
      (unless_exists_token o, w')

  unfoldable pub create_account : Text → Action W (Option Secret)
  create_account cluster_id =
      ask (create_sa_for_cluster calls.answer cluster_id) >> wait_for_account cluster_id

  -- Where the set-up succeeds, its last call read the administrator's token.
  pub ensure_broker-token :
      (service_discovery globalnet crds : Bool) (w w' : W)
      → ensure_broker service_discovery globalnet crds w ≡ (returns tt, w')
      → (v : W) × (secret : Secret) × (calls.get_token admin_name v ≡ (ok secret, w'))
  unfolding ensure_broker
  ensure_broker-token service_discovery globalnet crds w w' h =
      let (_, w1, e1, h1) = bind-returns (crds_if crds service_discovery globalnet) _ h in
      let (_, w2, e2, h2) = bind-returns (ask (ensure_rbac calls.answer)) _ h1 in
      let wait = wait_for_client_token (calls.get_token admin_name) loops (suc calls.more_rounds) in
      let (token, w3, e3, h3) = bind-returns wait _ h2 in
      elim (wait_for_client_token-IsAnswered (calls.get_token admin_name) loops calls.more_rounds
        w2) [
          | inl (v, secret, _, read, _) ↦
              (v, secret, read ∙ ap (λ x. (ok secret, x)) (ap (λ x. x.1) e3 ∙ ap (λ x. x.1) h3))
          | inr (v, e, _, read, failed) ↦ absurd (cc (ap (λ x. x.0) e3, failed))
        ]
