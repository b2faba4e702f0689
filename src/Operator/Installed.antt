-- ===== src/Operator/Installed.antt =====
-- What an installation of the operator keeps and makes, in a view that its calls keep.
use cluster_fabric_operator.Base.{
  has_suffix, text_eq, suc, ◌≡◌, Bool, Text, List, [], ◌∷◌, ◌++◌, map, All,
}
use cluster_fabric_operator.Base.Action.{returns, Action, ◌>>◌, in_turn, Loops}
use cluster_fabric_operator.Operator.{
  Component, account_of, role_of, binding_of, cluster_role_of, cluster_binding_of, Object, crd,
  deployment, ensure_service_account, ensure_role, ensure_role_binding, ensure_cluster_role,
  ensure_cluster_role_binding, create_or_update_embedded_crd,
}
use cluster_fabric_operator.Operator.Crds.{operator_crds, ensure_operator_crds}
use cluster_fabric_operator.Operator.Deployment.{ensure_deployment, new_deployment}
use cluster_fabric_operator.Operator.Install.{
  Cluster, with_role, with_account, of_lighthouse, operator_image, operator_component,
  ensure_namespace, ensure_accounts, ensure_lighthouse_accounts, ensure_lighthouse, ensure_operator,
}
use cluster_fabric_operator.Operator.Present.{
  Target, fixed, IsThere, Makes, then-Makes, in_turn-Makes, KeptLaws,
}
use cluster_fabric_operator.Operator.Asked.{crd_of, definitions, Asks}
use cluster_fabric_operator.Operator.Needs.{
  crd_target, account_target, role_target, binding_target, cluster_role_target,
  cluster_binding_target, operator_needs,
}
use cluster_fabric_operator.Operator.Keeps.{
  put_named-Makes, quiet, ensure_scc-Keeps, wait_for_ready-Keeps,
}

-- What the accounts of the operator's components need, and those of lighthouse.
abbrev pub cluster_targets : Text → List Component → List Target
cluster_targets namespace cs =
    map cluster_role_target cs ++ map (cluster_binding_target namespace) cs

abbrev pub binding_targets : Text → List Target
binding_targets namespace =
    map (binding_target namespace) with_role ++ cluster_targets namespace with_account

abbrev pub role_targets : Text → List Target
role_targets namespace = map (role_target namespace) with_role ++ binding_targets namespace

abbrev pub account_targets : Text → List Target
account_targets namespace = map (account_target namespace) with_account ++ role_targets namespace

abbrev pub lighthouse_targets : Text → List Target
lighthouse_targets namespace =
    map (account_target namespace) of_lighthouse ++ cluster_targets namespace of_lighthouse

abbrev pub deployment_target : Text → Bool → Target
deployment_target namespace debug = fixed (
    deployment namespace operator_component
      (new_deployment operator_component operator_image debug))

abbrev operator_targets : Text → Bool → List Target
operator_targets namespace debug =
    map crd_target operator_crds
    ++ (account_targets namespace
        ++ (lighthouse_targets namespace ++ (deployment_target namespace debug ∷ [])))

module _ {W : Type 0} {Asked : Object → Type 0} (loops : Loops) (cluster : Cluster W)
    (Present : Object → W → Type 0) (laws : KeptLaws cluster Present Asked) (namespace : Text)
    (debug : Bool) (asks : Asks cluster namespace debug Asked) where
  abbrev Leaves : {A : Type 0} → List Target → Action W A → Type 0
  Leaves = Makes cluster.server Present

  abbrev and_then :
      {A B : Type 0} (ts us : List Target) {m : Action W A} {k : Action W B}
      → Leaves ts m
      → Leaves us k
      → Leaves (ts ++ us) (m >> k)
  and_then ts us {m} {k} first second =
      then-Makes cluster.server Present ts us (λ _. k) (λ _. second) m first

  ensure_operator_crds-Makes :
      Leaves (map crd_target operator_crds) (ensure_operator_crds cluster.server)
  unfolding ensure_operator_crds create_or_update_embedded_crd
  ensure_operator_crds-Makes =
      in_turn-Makes cluster.server Present (λ i. crd_target (crd_of i)) _
        (λ i.
          put_named-Makes loops cluster Present laws (crd_of i) (λ name. crd name (crd_of i))
            (asks.definition i))
        definitions

  accounts-Makes :
      (cs : List Component)
      → Leaves
          (map (account_target namespace) cs)
          (in_turn (map (λ c. ensure_service_account cluster.server namespace (account_of c)) cs))
  unfolding ensure_service_account
  accounts-Makes cs =
      in_turn-Makes cluster.server Present (account_target namespace) _
        (λ c. put_named-Makes loops cluster Present laws (account_of c) _ (asks.account c)) cs

  cluster-Makes :
      (cs : List Component)
      → Leaves (cluster_targets namespace cs) (
          in_turn (map (λ c. ensure_cluster_role cluster.server (cluster_role_of c)) cs)
          >> in_turn (
              map
                (λ c. ensure_cluster_role_binding cluster.server namespace (cluster_binding_of c))
                cs))
  unfolding ensure_cluster_role ensure_cluster_role_binding
  cluster-Makes cs =
      and_then (map cluster_role_target cs) (map (cluster_binding_target namespace) cs)
        (in_turn-Makes cluster.server Present cluster_role_target _
          (λ c.
            put_named-Makes loops cluster Present laws (cluster_role_of c) _
              (asks.of_cluster_role c))
          cs)
        (in_turn-Makes cluster.server Present (cluster_binding_target namespace) _
          (λ c.
            put_named-Makes loops cluster Present laws (cluster_binding_of c) _
              (asks.of_cluster_binding c))
          cs)

  ensure_accounts-Makes :
      Leaves (account_targets namespace) (ensure_accounts loops cluster namespace)
  unfolding ensure_accounts ensure_role ensure_role_binding
  ensure_accounts-Makes =
      and_then (map (account_target namespace) with_account) (role_targets namespace)
        (accounts-Makes with_account)
        (and_then (map (role_target namespace) with_role) (binding_targets namespace)
          (in_turn-Makes cluster.server Present (role_target namespace) _
            (λ c. put_named-Makes loops cluster Present laws (role_of c) _ (asks.of_role c))
            with_role)
          (and_then (map (binding_target namespace) with_role)
            (cluster_targets namespace with_account)
            (in_turn-Makes cluster.server Present (binding_target namespace) _
              (λ c. put_named-Makes loops cluster Present laws (binding_of c) _ (asks.of_binding c))
              with_role)
            (cluster-Makes with_account)))

  ensure_lighthouse-Makes :
      Leaves (lighthouse_targets namespace) (ensure_lighthouse loops cluster namespace)
  unfolding ensure_lighthouse ensure_lighthouse_accounts
  ensure_lighthouse-Makes =
      and_then (lighthouse_targets namespace) []
        (and_then (map (account_target namespace) of_lighthouse)
          (cluster_targets namespace of_lighthouse) (accounts-Makes of_lighthouse)
          (cluster-Makes of_lighthouse))
        (and_then [] [] (ensure_scc-Keeps loops cluster Present laws of_lighthouse namespace)
          (quiet loops cluster Present laws (λ o w p. p)))

  deployment-Makes : Leaves (deployment_target namespace debug ∷ []) (
      ensure_deployment cluster.get_deployment loops
        (suc cluster.more_rounds)
        cluster.server
        namespace
        operator_component
        operator_image
        debug)
  unfolding ensure_deployment
  deployment-Makes =
      let o =
        deployment namespace operator_component
          (new_deployment operator_component operator_image debug) in
      and_then (fixed o ∷ []) []
        (laws.put_keeps o asks.operator_there, λ w a h. (laws.puts o asks.operator_there w h, tt))
        (wait_for_ready-Keeps loops cluster Present laws namespace operator_component
          cluster.more_rounds)

  ensure_operator-Makes :
      Leaves (operator_targets namespace debug) (ensure_operator loops cluster namespace debug)
  unfolding ensure_operator ensure_namespace
  ensure_operator-Makes =
      and_then (map crd_target operator_crds)
        (account_targets namespace
          ++ (lighthouse_targets namespace ++ (deployment_target namespace debug ∷ [])))
        ensure_operator_crds-Makes
        (and_then []
          (account_targets namespace
            ++ (lighthouse_targets namespace ++ (deployment_target namespace debug ∷ [])))
          (quiet loops cluster Present laws (λ o w p. laws.namespace_keeps o namespace w p))
          (and_then (account_targets namespace)
            (lighthouse_targets namespace ++ (deployment_target namespace debug ∷ []))
            (ensure_accounts-Makes)
            (and_then (lighthouse_targets namespace) (deployment_target namespace debug ∷ [])
              (ensure_lighthouse-Makes) (deployment-Makes))))

  -- An installation keeps what the view has; if it succeeds, the view has all that it is to make.
  pub ensure_operator-Kept :
      (w : W)
      → (ensure_operator loops cluster namespace debug w).0 ≡ returns tt
      → ((o : Object) → Present o w → Present o (ensure_operator loops cluster namespace debug w).1)
        × All
            (IsThere cluster.server Present (ensure_operator loops cluster namespace debug w).1)
            (operator_needs namespace debug)
  unfolding new_deployment has_suffix text_eq
  ensure_operator-Kept w done =
      let (keep, make) = ensure_operator-Makes in (λ o. keep o w, make w tt done)
