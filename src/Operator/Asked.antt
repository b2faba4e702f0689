-- ===== src/Operator/Asked.antt =====
-- Which objects an installation of the operator asks for, for a predicate that holds of them.
use cluster_fabric_operator.Base.{◌≡◌, Bool, Text, List, [], ◌∷◌, ok}
use cluster_fabric_operator.Operator.{
  Component, Manifest, submariners, servicediscoveries, brokers, account_of, role_of, binding_of,
  cluster_role_of, cluster_binding_of, Object, crd, service_account, role, role_binding,
  cluster_role, cluster_role_binding, deployment,
}
use cluster_fabric_operator.Operator.Deployment.{new_deployment}
use cluster_fabric_operator.Operator.Install.{Cluster, operator_image, operator_component}

-- The definitions, in the order in which they are put.
pub data Definition : Type 0 where
  of_submariners of_service_discoveries of_brokers : Definition

abbrev pub crd_of : Definition → Manifest
crd_of of_submariners = submariners
crd_of of_service_discoveries = servicediscoveries
crd_of of_brokers = brokers

abbrev pub definitions : List Definition
definitions = of_submariners ∷ of_service_discoveries ∷ of_brokers ∷ []

-- The object is asked for under the name in the manifest.
abbrev pub AskedOf :
    {W : Type 0} → Cluster W → (Object → Type 0) → Manifest → (Text → Object) → Type 0
AskedOf cluster Asked yaml object =
    (name : Text) → cluster.server.get_object_name yaml ≡ ok name → Asked (object name)

-- The objects that an installation asks for, each under the name in its manifest.
pub record Asks {W : Type 0} (cluster : Cluster W) (namespace : Text) (debug : Bool)
    (Asked : Object → Type 0) : Type 0 where
  pub definition : (i : Definition) → AskedOf cluster Asked (crd_of i) (λ n. crd n (crd_of i))
  pub account :
      (c : Component)
      → AskedOf cluster Asked (account_of c) (λ n. service_account namespace n (account_of c))
  pub of_role :
      (c : Component) → AskedOf cluster Asked (role_of c) (λ n. role namespace n (role_of c))
  pub of_binding :
      (c : Component)
      → AskedOf cluster Asked (binding_of c) (λ n. role_binding namespace n (binding_of c))
  pub of_cluster_role :
      (c : Component)
      → AskedOf cluster Asked (cluster_role_of c) (λ n. cluster_role n (cluster_role_of c))
  pub of_cluster_binding :
      (c : Component)
      → AskedOf cluster Asked
          (cluster_binding_of c)
          (λ n. cluster_role_binding n namespace (cluster_binding_of c))
  pub operator_there : Asked (
      deployment namespace operator_component
        (new_deployment operator_component operator_image debug))
