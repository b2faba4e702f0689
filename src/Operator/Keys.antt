-- ===== src/Operator/Keys.antt =====
-- How the API server tells objects apart, and how manifests are told apart.
use cluster_fabric_operator.Base.{◌≡◌, Text, Result, ok}
use cluster_fabric_operator.Operator.{
  Manifest, submariners, servicediscoveries, brokers, clusters, endpoints, gateways, serviceimports,
  serviceexports, account_of, role_of, binding_of, cluster_role_of, cluster_binding_of, Object, crd,
  service_account, role, role_binding, cluster_role, cluster_role_binding, deployment,
}

-- The kind of an object, its namespace, if it has one, and its name.
pub data Key : Type 0 where
  crd_key cluster_role_key cluster_binding_key : Text → Key
  account_key role_key binding_key deployment_key : Text → Text → Key

abbrev pub key_of : Object → Key
key_of (crd name yaml) = crd_key name
key_of (service_account namespace name yaml) = account_key namespace name
key_of (role namespace name yaml) = role_key namespace name
key_of (role_binding namespace name yaml) = binding_key namespace name
key_of (cluster_role name yaml) = cluster_role_key name
key_of (cluster_role_binding name namespace yaml) = cluster_binding_key name
key_of (deployment namespace name spec) = deployment_key namespace name

pub data Kind : Type 0 where
  definition account a_role a_binding a_cluster_role a_cluster_binding : Kind

abbrev pub kind_of : Manifest → Kind
kind_of submariners = definition
kind_of servicediscoveries = definition
kind_of brokers = definition
kind_of clusters = definition
kind_of endpoints = definition
kind_of gateways = definition
kind_of serviceimports = definition
kind_of serviceexports = definition
kind_of (account_of c) = account
kind_of (role_of c) = a_role
kind_of (binding_of c) = a_binding
kind_of (cluster_role_of c) = a_cluster_role
kind_of (cluster_binding_of c) = a_cluster_binding

-- No two manifests of one kind have the same name: kind and name determine the manifest.
pub record NamesApart (get_object_name : Manifest → Result Text) : Type 0 where
  pub manifest_named : Kind → Text → Manifest
  pub apart :
      (yaml : Manifest) (name : Text)
      → get_object_name yaml ≡ ok name
      → manifest_named (kind_of yaml) name ≡ yaml
