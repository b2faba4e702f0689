-- ===== src/Broker/Rbac.antt =====
-- controllers/ensures/broker/rbac.go and ensure.go: the service accounts, roles and bindings of the
-- broker. The API server is a parameter: what it answers to a request, and what it is then.
pub mod Present
pub mod Bound
use cluster_fabric_operator.Base.{
  ℕ, zero, suc, Bool, true, false, Text, codes, has_prefix, List, [], ◌∷◌, ◌++◌, Option, none, some,
  Result, ok, err, Error, ApiError, if◌then◌else◌,
}
use cluster_fabric_operator.Base.{
  Error.api, Error.no_secret, ApiError.already_exists, ApiError.not_found, ApiError.conflict,
  ApiError.other,
}

pub record PolicyRule : Type 0 where
  pub verbs : List Text
  pub api_groups : List Text
  pub resources : List Text

-- The objects, each in the broker's namespace.
pub data Object : Type 0 where
  broker_namespace : Object
  service_account : Text → Object
  role : Text → List PolicyRule → Object
  -- The name, the account and the role.
  role_binding : Text → Text → Text → Object

-- `client.Create` and `ctrl.CreateOrUpdate`
pub data Request : Type 0 where
  create put : Object → Request

abbrev pub all_verbs : List Text
all_verbs =
    codes "create"
    ∷ codes "get"
    ∷ codes "list"
    ∷ codes "watch"
    ∷ codes "patch"
    ∷ codes "update"
    ∷ codes "delete"
    ∷ []

abbrev pub cluster_role : Text
cluster_role = codes "submariner-k8s-broker-cluster"

-- The name of the administrator's role and of its account.
abbrev pub admin_name : Text
admin_name = codes "submariner-k8s-broker-admin"

abbrev pub default_account : Text
default_account = codes "submariner-k8s-broker-client"

-- `NewBrokerClusterRole`
unfoldable pub new_broker_cluster_role : Object
new_broker_cluster_role = role cluster_role (
    record {
      verbs = all_verbs;
      api_groups = codes "submariner.io" ∷ [];
      resources = codes "clusters" ∷ codes "endpoints" ∷ [];
    }
    ∷ record {
      verbs = all_verbs;
      api_groups = codes "multicluster.x-k8s.io" ∷ [];
      resources = codes "*" ∷ [];
    }
    ∷ record {
      verbs = all_verbs;
      api_groups = codes "discovery.k8s.io" ∷ [];
      resources = codes "endpointslices" ∷ [];
    }
    ∷ [])

-- `NewBrokerAdminRole`
unfoldable pub new_broker_admin_role : Object
new_broker_admin_role = role admin_name (
    record {
      verbs = all_verbs;
      api_groups = codes "submariner.io" ∷ [];
      resources = codes "clusters" ∷ codes "endpoints" ∷ [];
    }
    ∷ record {
      verbs = codes "create" ∷ codes "get" ∷ codes "list" ∷ codes "update" ∷ codes "delete" ∷ [];
      api_groups = [] ∷ [];
      resources = codes "serviceaccounts" ∷ codes "secrets" ∷ codes "configmaps" ∷ [];
    }
    ∷ record {
      verbs = codes "create" ∷ codes "get" ∷ codes "list" ∷ codes "delete" ∷ [];
      api_groups = codes "rbac.authorization.k8s.io" ∷ [];
      resources = codes "rolebindings" ∷ [];
    }
    ∷ record {
      verbs = all_verbs;
      api_groups = codes "multicluster.x-k8s.io" ∷ [];
      resources = codes "*" ∷ [];
    }
    ∷ record {
      verbs = all_verbs;
      api_groups = codes "discovery.k8s.io" ∷ [];
      resources = codes "endpointslices" ∷ [];
    }
    ∷ [])

-- `NewBrokerRoleBinding`
unfoldable pub new_broker_role_binding : Text → Text → Object
new_broker_role_binding account r = role_binding (account ++ (b'-' ∷ r)) account r

-- `NewBrokerSA`
unfoldable pub new_broker_sa : Text → Object
new_broker_sa account = service_account account

-- `fmt.Sprintf("cluster-%s", clusterID)`
unfoldable pub cluster_sa_name : Text → Text
cluster_sa_name cluster_id = codes "cluster-" ++ cluster_id

-- The first secret of the account whose name begins with the prefix.
unfoldable pub find_token : Text → List Text → Option Text
find_token prefix [] = none
find_token prefix (name ∷ rest) =
    if has_prefix name prefix then some name else find_token prefix rest

-- The loop of `GetClientTokenSecret` over the account's secrets, and the read of the one found.
unfoldable pub get_client_token_secret {ℓ} :
    {Secret : Type ℓ} → (Text → Result (List Text)) → (Text → Result Secret) → Text → Result Secret
get_client_token_secret get_account get_secret account = elim (get_account account) [
  | err e ↦ err e
  | ok secrets ↦ elim secrets [
    | [] ↦ err no_secret
    | first ∷ more ↦ elim (find_token (account ++ codes "-token-") (first ∷ more)) [
      | none ↦ err no_secret
      | some name ↦ get_secret name
    ]
  ]
]

-- The result of a first part, and that of the second unless the first failed.
abbrev pub after {ℓ} :
    {W : Type ℓ} → Result (Unit {0}) → Result (Unit {0}) × W → W → Result (Unit {0}) × W
after (ok u) next w = next
after (err e) next w = (err e, w)

-- `err != nil`
abbrev pub strict : Option ApiError → Result (Unit {0})
strict none = ok tt
strict (some e) = err (api e)

-- `err != nil && !apierrors.IsAlreadyExists(err)`
abbrev pub unless_exists : ApiError → Result (Unit {0})
unless_exists already_exists = ok tt
unless_exists not_found = err (api not_found)
unless_exists conflict = err (api conflict)
unless_exists other = err (api other)

abbrev pub tolerant : Option ApiError → Result (Unit {0})
tolerant none = ok tt
tolerant (some e) = unless_exists e

module _ {ℓ} {W : Type ℓ} (answer : Request → W → Option ApiError × W) where
  -- A request whose error ends the run.
  unfoldable pub must : Request → W → Result (Unit {0}) × W
  must r w = let (e, w') = answer r w in (strict e, w')

  -- A request for an object that may exist.
  unfoldable pub may_exist : Request → W → Result (Unit {0}) × W
  may_exist r w = let (e, w') = answer r w in (tolerant e, w')

  -- One part, and the next unless it failed.
  unfoldable pub and_then :
      (W → Result (Unit {0}) × W) → (W → Result (Unit {0}) × W) → W → Result (Unit {0}) × W
  and_then first second w = let (r, w') = first w in after r (second w') w'

  -- `createBrokerAdministratorRoleAndSA`
  unfoldable pub create_broker_administrator_role_and_sa : W → Result (Unit {0}) × W
  create_broker_administrator_role_and_sa =
      and_then (may_exist (create (new_broker_sa admin_name))) (
        and_then (must (put new_broker_admin_role))
          (may_exist (create (new_broker_role_binding admin_name admin_name))))

  -- `createBrokerClusterRoleAndDefaultSA`
  unfoldable pub create_broker_cluster_role_and_default_sa : W → Result (Unit {0}) × W
  create_broker_cluster_role_and_default_sa =
      and_then (may_exist (create (new_broker_sa default_account))) (
        and_then (may_exist (put new_broker_cluster_role))
          (may_exist (create (new_broker_role_binding default_account cluster_role))))

  -- `Ensure` without the CRDs, as its one caller asks for it, up to the wait for the token.
  unfoldable pub ensure_rbac : W → Result (Unit {0}) × W
  ensure_rbac =
      and_then (may_exist (create broker_namespace))
        (and_then create_broker_administrator_role_and_sa create_broker_cluster_role_and_default_sa)

  -- `CreateSAForCluster` up to the wait for the token.
  unfoldable pub create_sa_for_cluster : Text → W → Result (Unit {0}) × W
  create_sa_for_cluster cluster_id =
      and_then (may_exist (create (new_broker_sa (cluster_sa_name cluster_id))))
        (may_exist (create (new_broker_role_binding (cluster_sa_name cluster_id) cluster_role)))
