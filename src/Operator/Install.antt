-- ===== src/Operator/Install.antt =====
-- The installation of the operator: `Ensure` of submarinerop, with its parts submarinerop/{serviceaccount,
-- scc,deployment}, lighthouse and common/namespace of controllers/ensures/operator.
use cluster_fabric_operator.Base.{
  ℕ, suc, Bool, true, false, ◌||◌, Text, codes, List, [], ◌∷◌, map, Result, ok, err, ◌>>=◌,
}
use cluster_fabric_operator.Base.{Error.api, ApiError.already_exists}
use cluster_fabric_operator.Base.Action
use cluster_fabric_operator.Base.Action.{
  Outcome, returns, fails, Action, Call, pure, of_result, next, ◌>>◌, in_turn, Loops,
}
use cluster_fabric_operator.Operator.{
  Component, operator, gateway, route_agent, globalnet, networkplugin_syncer, lighthouse_agent,
  lighthouse_coredns, Manifest, account_of, role_of, binding_of, cluster_role_of,
  cluster_binding_of, Server, ensure_service_account, ensure_role, ensure_role_binding,
  ensure_cluster_role, ensure_cluster_role_binding,
}
use cluster_fabric_operator.Operator.Scc.{SccClient, update_scc}
use cluster_fabric_operator.Operator.Deployment.{Conditions, ensure_deployment}
use cluster_fabric_operator.Operator.Crds.{ensure_operator_crds}

-- The calls that the installation makes, and the rounds of its wait behind the first.
pub record Cluster (W : Type 0) : Type 0 where
  pub server : Server W
  pub get_namespace : Text → Call W (Unit {0})
  pub get_deployment : Text → Text → Call W Conditions
  pub scc : SccClient W
  pub more_rounds : ℕ

-- The components whose accounts submarinerop sets up; all but the last have a role; and those of
-- lighthouse.
abbrev pub with_role : List Component
with_role = operator ∷ gateway ∷ route_agent ∷ globalnet ∷ []

abbrev pub with_account : List Component
with_account = operator ∷ gateway ∷ route_agent ∷ globalnet ∷ networkplugin_syncer ∷ []

abbrev pub of_lighthouse : List Component
of_lighthouse = lighthouse_agent ∷ lighthouse_coredns ∷ []

abbrev pub operator_image : Text
operator_image = codes "quay.io/submariner/submariner-operator:0.9.1"

abbrev pub operator_component : Text
operator_component = codes "submariner-operator"

-- `Ensure` of common/namespace, from the answer to its read: it creates nothing.
abbrev pub ensured_namespace : Result (Unit {0}) → Outcome Bool
ensured_namespace (ok _) = returns true
ensured_namespace (err (api already_exists)) = returns false
ensured_namespace (err e) = fails e

-- The names in the manifests, up to the first that has none.
unfoldable pub names_of : (Manifest → Result Text) → List Manifest → Result (List Text)
names_of get_name [] = ok []
names_of get_name (yaml ∷ rest) =
    get_name yaml >>= λ name. names_of get_name rest >>= λ names. ok (name ∷ names)

module _ {W : Type 0} (loops : Loops) (cluster : Cluster W) where
  unfoldable pub ensure_namespace : Text → Action W Bool
  ensure_namespace namespace w =
      let (r, w') = cluster.get_namespace namespace w in (ensured_namespace r, w')

  -- The parts of `Ensure` of submarinerop/serviceaccount and of lighthouse/serviceaccount, for the
  -- components of either.
  abbrev pub ensure_service_accounts : List Component → Text → Action W (Unit {0})
  ensure_service_accounts components namespace =
      in_turn (map (λ c. ensure_service_account cluster.server namespace (account_of c)) components)

  abbrev pub ensure_cluster_roles : List Component → Action W (Unit {0})
  ensure_cluster_roles components =
      in_turn (map (λ c. ensure_cluster_role cluster.server (cluster_role_of c)) components)

  abbrev pub ensure_cluster_role_bindings : List Component → Text → Action W (Unit {0})
  ensure_cluster_role_bindings components namespace = in_turn (
      map (λ c. ensure_cluster_role_binding cluster.server namespace (cluster_binding_of c))
        components)

  abbrev pub ensure_roles : Text → Action W (Unit {0})
  ensure_roles namespace =
      in_turn (map (λ c. ensure_role cluster.server namespace (role_of c)) with_role)

  abbrev pub ensure_role_bindings : Text → Action W (Unit {0})
  ensure_role_bindings namespace =
      in_turn (map (λ c. ensure_role_binding cluster.server namespace (binding_of c)) with_role)

  -- `Ensure` of submarinerop/serviceaccount.
  unfoldable pub ensure_accounts : Text → Action W (Unit {0})
  ensure_accounts namespace =
      ensure_service_accounts with_account namespace
      >> (ensure_roles namespace
          >> (ensure_role_bindings namespace
              >> (ensure_cluster_roles with_account
                  >> ensure_cluster_role_bindings with_account namespace)))

  -- `Ensure` of lighthouse/serviceaccount.
  unfoldable pub ensure_lighthouse_accounts : Text → Action W (Unit {0})
  ensure_lighthouse_accounts namespace =
      ensure_service_accounts of_lighthouse namespace
      >> (ensure_cluster_roles of_lighthouse
          >> ensure_cluster_role_bindings of_lighthouse namespace)

  -- `UpdateSCC` for every name: whether one was added.
  unfoldable pub update_each : Text → List Text → Action W Bool
  update_each namespace [] = pure false
  update_each namespace (name ∷ rest) =
      Action.◌>>=◌ (update_scc cluster.scc loops namespace name)
        λ added. Action.◌>>=◌ (update_each namespace rest) λ more. pure (added || more)

  -- The constraints for the accounts of the components: all names are read before the first update.
  unfoldable pub ensure_scc : List Component → Text → Action W Bool
  ensure_scc components namespace =
      Action.◌>>=◌ (of_result (names_of cluster.server.get_object_name (map account_of components)))
        (update_each namespace)

  -- `Ensure` of submarinerop/scc, which nothing calls, and of lighthouse/scc.
  abbrev pub ensure_submariner_scc : Text → Action W Bool
  ensure_submariner_scc = ensure_scc with_account

  abbrev pub ensure_lighthouse_scc : Text → Action W Bool
  ensure_lighthouse_scc = ensure_scc of_lighthouse

  -- `Ensure` of lighthouse.
  unfoldable pub ensure_lighthouse : Text → Action W Bool
  ensure_lighthouse namespace =
      ensure_lighthouse_accounts namespace >> (ensure_lighthouse_scc namespace >> pure true)

  -- `Ensure` of submarinerop, in the given namespace.
  unfoldable pub ensure_operator : Text → Bool → Action W (Unit {0})
  ensure_operator namespace debug =
      ensure_operator_crds cluster.server
      >> (ensure_namespace namespace
          >> (ensure_accounts namespace
              >> (ensure_lighthouse namespace
                  >> ensure_deployment cluster.get_deployment loops (suc cluster.more_rounds)
                      cluster.server namespace operator_component operator_image debug)))
