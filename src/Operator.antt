-- ===== src/Operator.antt =====
-- controllers/ensures/operator: the operator's definitions, accounts, roles and deployment. The API
-- server, `ctrl.CreateOrUpdate` and the YAML decoder are parameters.
pub mod Scc
pub mod Deployment
pub mod Crds
pub mod Install
pub mod Resource
pub mod Present
pub mod Needs
pub mod Asked
pub mod Keys
pub mod Named
pub mod Keeps
pub mod Installed
pub mod Custom
use cluster_fabric_operator.Base.{ℕ, Text, List, [], ◌∷◌, map, Result}
use cluster_fabric_operator.Base.Action.{Action, Call, of_result, next, ◌>>=◌, ◌>>◌, in_turn}

pub data Component : Type 0 where
  operator gateway route_agent globalnet networkplugin_syncer : Component
  lighthouse_agent lighthouse_coredns : Component

-- The constants of `embeddedyamls`, each a YAML document.
pub data Manifest : Type 0 where
  submariners servicediscoveries brokers clusters endpoints gateways : Manifest
  serviceimports serviceexports : Manifest
  account_of role_of binding_of cluster_role_of cluster_binding_of : Component → Manifest

pub data PullPolicy : Type 0 where
  pull_always pull_if_not_present : PullPolicy

pub data EnvVar : Type 0 where
  from_field literal : Text → Text → EnvVar

-- What `NewDeployment` sets; the selector and the template's label are both of the key `name`.
pub record DeploymentSpec : Type 0 where
  pub replicas : ℕ
  pub selector : Text
  pub name_label : Text
  pub service_account_name : Text
  pub container_name : Text
  pub image : Text
  pub command : List Text
  pub image_pull_policy : PullPolicy
  pub env : List EnvVar

-- The objects, with namespace, name, and where their contents come from.
pub data Object : Type 0 where
  crd : Text → Manifest → Object
  service_account role role_binding : Text → Text → Manifest → Object
  cluster_role : Text → Manifest → Object
  -- The name, and the namespace that is set in the binding's first subject.
  cluster_role_binding : Text → Text → Manifest → Object
  deployment : Text → Text → DeploymentSpec → Object

-- `GetObjectName`, and `ctrl.CreateOrUpdate` with the function that sets the object's contents, which
-- panics where a binding of a cluster role has no subject.
pub record Server (W : Type 0) : Type 0 where
  pub get_object_name : Manifest → Result Text
  pub create_or_update : Object → Action W (Unit {0})

module _ {W : Type 0} (server : Server W) where
  -- The name comes from the manifest.
  unfoldable pub put_named : Manifest → (Text → Object) → Action W (Unit {0})
  put_named yaml object =
      of_result (server.get_object_name yaml) >>= λ name. server.create_or_update (object name)

  -- `Ensure` of common/serviceaccount, and its siblings.
  unfoldable pub ensure_service_account : Text → Manifest → Action W (Unit {0})
  ensure_service_account namespace yaml = put_named yaml λ name. service_account namespace name yaml

  unfoldable pub ensure_role : Text → Manifest → Action W (Unit {0})
  ensure_role namespace yaml = put_named yaml λ name. role namespace name yaml

  unfoldable pub ensure_role_binding : Text → Manifest → Action W (Unit {0})
  ensure_role_binding namespace yaml = put_named yaml λ name. role_binding namespace name yaml

  unfoldable pub ensure_cluster_role : Manifest → Action W (Unit {0})
  ensure_cluster_role yaml = put_named yaml λ name. cluster_role name yaml

  unfoldable pub ensure_cluster_role_binding : Text → Manifest → Action W (Unit {0})
  ensure_cluster_role_binding namespace yaml =
      put_named yaml λ name. cluster_role_binding name namespace yaml

  -- `CreateOrUpdateEmbeddedCRD`
  unfoldable pub create_or_update_embedded_crd : Manifest → Action W (Unit {0})
  create_or_update_embedded_crd yaml = put_named yaml λ name. crd name yaml
