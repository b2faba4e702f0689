-- ===== src/Operator/Needs.antt =====
-- What an installation of the operator is to make, written out: the objects, one by one.
use cluster_fabric_operator.Base.{Bool, Text, codes, List, [], ◌∷◌, if◌then◌else◌}
use cluster_fabric_operator.Operator.{
  Component, operator, gateway, route_agent, globalnet, networkplugin_syncer, lighthouse_agent,
  lighthouse_coredns, Manifest, submariners, servicediscoveries, brokers, account_of, role_of,
  binding_of, cluster_role_of, cluster_binding_of, crd, service_account, role, role_binding,
  cluster_role, cluster_role_binding, deployment, DeploymentSpec, from_field, literal, pull_always,
}
use cluster_fabric_operator.Operator.Present.{Target, named, fixed}

abbrev pub crd_target : Manifest → Target
crd_target yaml = named yaml λ name. crd name yaml

abbrev pub account_target : Text → Component → Target
account_target namespace c =
    named (account_of c) λ name. service_account namespace name (account_of c)

abbrev pub role_target : Text → Component → Target
role_target namespace c = named (role_of c) λ name. role namespace name (role_of c)

abbrev pub binding_target : Text → Component → Target
binding_target namespace c = named (binding_of c) λ name. role_binding namespace name (binding_of c)

abbrev pub cluster_role_target : Component → Target
cluster_role_target c = named (cluster_role_of c) λ name. cluster_role name (cluster_role_of c)

abbrev pub cluster_binding_target : Text → Component → Target
cluster_binding_target namespace c =
    named (cluster_binding_of c) λ name. cluster_role_binding name namespace (cluster_binding_of c)

-- The deployment of the operator, one replica, with its three variables.
abbrev pub operator_spec : Bool → DeploymentSpec
operator_spec debug = record {
  replicas = 1;
  selector = codes "submariner-operator";
  name_label = codes "submariner-operator";
  service_account_name = codes "submariner-operator";
  container_name = codes "submariner-operator";
  image = codes "quay.io/submariner/submariner-operator:0.9.1";
  command =
      codes "submariner-operator"
      ∷ codes "-alsologtostderr"
      ∷ (if debug then codes "-v=3" else codes "-v=1")
      ∷ [];
  image_pull_policy = pull_always;
  env =
      from_field (codes "WATCH_NAMESPACE") (codes "metadata.namespace")
      ∷ from_field (codes "POD_NAME") (codes "metadata.name")
      ∷ literal (codes "OPERATOR_NAME") (codes "submariner-operator")
      ∷ [];
}

-- Three definitions; five accounts, with four roles and their bindings, five cluster roles and their
-- bindings; the two accounts of lighthouse with a cluster role and a binding each; the deployment.
abbrev pub operator_needs : Text → Bool → List Target
operator_needs ns debug =
    crd_target submariners
    ∷ crd_target servicediscoveries
    ∷ crd_target brokers
    ∷ account_target ns operator
    ∷ account_target ns gateway
    ∷ account_target ns route_agent
    ∷ account_target ns globalnet
    ∷ account_target ns networkplugin_syncer
    ∷ role_target ns operator
    ∷ role_target ns gateway
    ∷ role_target ns route_agent
    ∷ role_target ns globalnet
    ∷ binding_target ns operator
    ∷ binding_target ns gateway
    ∷ binding_target ns route_agent
    ∷ binding_target ns globalnet
    ∷ cluster_role_target operator
    ∷ cluster_role_target gateway
    ∷ cluster_role_target route_agent
    ∷ cluster_role_target globalnet
    ∷ cluster_role_target networkplugin_syncer
    ∷ cluster_binding_target ns operator
    ∷ cluster_binding_target ns gateway
    ∷ cluster_binding_target ns route_agent
    ∷ cluster_binding_target ns globalnet
    ∷ cluster_binding_target ns networkplugin_syncer
    ∷ account_target ns lighthouse_agent
    ∷ account_target ns lighthouse_coredns
    ∷ cluster_role_target lighthouse_agent
    ∷ cluster_role_target lighthouse_coredns
    ∷ cluster_binding_target ns lighthouse_agent
    ∷ cluster_binding_target ns lighthouse_coredns
    ∷ fixed (deployment ns (codes "submariner-operator") (operator_spec debug))
    ∷ []
