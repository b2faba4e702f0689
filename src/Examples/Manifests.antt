-- ===== src/Examples/Manifests.antt =====
-- Names of manifests, by which those of one kind can be told apart.
use cluster_fabric_operator.Base.{◌≡◌, refl, ◌∙◌, ap, Text, codes, text_eq, ok, if◌then◌else◌}
use cluster_fabric_operator.Operator.{
  Component, operator, gateway, route_agent, globalnet, networkplugin_syncer, lighthouse_agent,
  lighthouse_coredns, Manifest, submariners, servicediscoveries, brokers, clusters, endpoints,
  gateways, serviceimports, serviceexports, account_of, role_of, binding_of, cluster_role_of,
  cluster_binding_of,
}
use cluster_fabric_operator.Operator.Keys.{
  Kind, definition, account, a_role, a_binding, a_cluster_role, a_cluster_binding, kind_of,
  NamesApart,
}

abbrev component_name : Component → Text
component_name operator = codes "submariner-operator"
component_name gateway = codes "submariner-gateway"
component_name route_agent = codes "submariner-routeagent"
component_name globalnet = codes "submariner-globalnet"
component_name networkplugin_syncer = codes "submariner-networkplugin-syncer"
component_name lighthouse_agent = codes "submariner-lighthouse-agent"
component_name lighthouse_coredns = codes "submariner-lighthouse-coredns"

abbrev component_named : Text → Component
component_named t =
    if text_eq t (codes "submariner-operator")
    then operator
    else if text_eq t (codes "submariner-gateway")
    then gateway
    else if text_eq t (codes "submariner-routeagent")
    then route_agent
    else if text_eq t (codes "submariner-globalnet")
    then globalnet
    else if text_eq t (codes "submariner-networkplugin-syncer")
    then networkplugin_syncer
    else if text_eq t (codes "submariner-lighthouse-agent")
    then lighthouse_agent
    else lighthouse_coredns

abbrev pub name_of : Manifest → Text
name_of submariners = codes "submariners.submariner.io"
name_of servicediscoveries = codes "servicediscoveries.submariner.io"
name_of brokers = codes "brokers.submariner.io"
name_of clusters = codes "clusters.submariner.io"
name_of endpoints = codes "endpoints.submariner.io"
name_of gateways = codes "gateways.submariner.io"
name_of serviceimports = codes "serviceimports.multicluster.x-k8s.io"
name_of serviceexports = codes "serviceexports.multicluster.x-k8s.io"
name_of (account_of c) = component_name c
name_of (role_of c) = component_name c
name_of (binding_of c) = component_name c
name_of (cluster_role_of c) = component_name c
name_of (cluster_binding_of c) = component_name c

abbrev definition_named : Text → Manifest
definition_named t =
    if text_eq t (codes "submariners.submariner.io")
    then submariners
    else if text_eq t (codes "servicediscoveries.submariner.io")
    then servicediscoveries
    else if text_eq t (codes "brokers.submariner.io")
    then brokers
    else if text_eq t (codes "clusters.submariner.io")
    then clusters
    else if text_eq t (codes "endpoints.submariner.io")
    then endpoints
    else if text_eq t (codes "gateways.submariner.io")
    then gateways
    else if text_eq t (codes "serviceimports.multicluster.x-k8s.io")
    then serviceimports
    else serviceexports

abbrev manifest_named : Kind → Text → Manifest
manifest_named definition t = definition_named t
manifest_named account t = account_of (component_named t)
manifest_named a_role t = role_of (component_named t)
manifest_named a_binding t = binding_of (component_named t)
manifest_named a_cluster_role t = cluster_role_of (component_named t)
manifest_named a_cluster_binding t = cluster_binding_of (component_named t)

component_named-component_name : (c : Component) → component_named (component_name c) ≡ c
unfolding text_eq
component_named-component_name operator = refl
component_named-component_name gateway = refl
component_named-component_name route_agent = refl
component_named-component_name globalnet = refl
component_named-component_name networkplugin_syncer = refl
component_named-component_name lighthouse_agent = refl
component_named-component_name lighthouse_coredns = refl

manifest_named-name_of : (yaml : Manifest) → manifest_named (kind_of yaml) (name_of yaml) ≡ yaml
unfolding text_eq
manifest_named-name_of submariners = refl
manifest_named-name_of servicediscoveries = refl
manifest_named-name_of brokers = refl
manifest_named-name_of clusters = refl
manifest_named-name_of endpoints = refl
manifest_named-name_of gateways = refl
manifest_named-name_of serviceimports = refl
manifest_named-name_of serviceexports = refl
manifest_named-name_of (account_of c) = ap account_of (component_named-component_name c)
manifest_named-name_of (role_of c) = ap role_of (component_named-component_name c)
manifest_named-name_of (binding_of c) = ap binding_of (component_named-component_name c)
manifest_named-name_of (cluster_role_of c) = ap cluster_role_of (component_named-component_name c)
manifest_named-name_of (cluster_binding_of c) =
    ap cluster_binding_of (component_named-component_name c)

pub name_of-NamesApart : NamesApart (λ yaml. ok (name_of yaml))
name_of-NamesApart = record {
  manifest_named = manifest_named;
  apart = λ yaml name e.
      let same : name ≡ name_of yaml = cc e in
      ap (manifest_named (kind_of yaml)) same ∙ manifest_named-name_of yaml;
}
