-- ===== src/Join/Sequence/Discovery.antt =====
-- A join to a broker that has service discovery and no connectivity.
use cluster_fabric_operator.Base.{ℕ, ◌≡◌, sym, ◌∙◌, ap, true, false, Text, codes, Option, some, ok}
use cluster_fabric_operator.Base.Action.{returns, next-returns, of_result-returns}
use cluster_fabric_operator.Broker.GlobalnetMap.{value_at}
use cluster_fabric_operator.Broker.Info.{
  BrokerInfo, Secret, is_connectivity_enabled, is_service_discovery_enabled, is_globalnet_enabled,
}
use cluster_fabric_operator.Join.Settings.{get_image_overrides}
use cluster_fabric_operator.Join.Specs.{
  JoinConfig, ServiceDiscoverySpec, service_discovery_spec, populate_service_discovery_spec,
  with_overrides-ok,
}
use cluster_fabric_operator.Join.Sequence.{JoinParts, join_submariner_cluster, deploy_resource}
use cluster_fabric_operator.Join.Sequence.Joined.{join-IsDeployed, with_token-returns}
use cluster_fabric_operator.Operator.Custom.{CreateOrUpdate, ensure_service_discovery}
use cluster_fabric_operator.Operator.Custom.Written.{Writes}

ensure_service_discovery-returns :
    {W : Type 0} (create_or_update : CreateOrUpdate W ServiceDiscoverySpec)
    (held : W → Text → Text → Option ServiceDiscoverySpec)
    → Writes create_or_update held
    → (namespace : Text) (spec : ServiceDiscoverySpec) (w w' : W)
    → ensure_service_discovery create_or_update namespace spec w ≡ (returns tt, w')
    → held w' (codes "service-discovery") namespace ≡ some spec
unfolding ensure_service_discovery
ensure_service_discovery-returns create_or_update held writes namespace spec w w' h =
    let call = create_or_update (codes "service-discovery") namespace (λ old. spec) w in
    let (answer, same) = of_result-returns call.0 h in
    let accepted : call ≡ (ok tt, w') = ap (λ r. (r, call.1)) answer ∙ ap (λ v. (ok tt, v)) same in
    (writes.written _ _ (λ old. spec) w w' accepted).1

-- Which cluster and which broker a spec is for.
abbrev pub IsSpecOf : ServiceDiscoverySpec → JoinConfig → BrokerInfo → Secret → Type 0
IsSpecOf spec join info token =
    (spec.cluster_id ≡ join.cluster_id)
    × (spec.broker_k8s_api_server_token ≡ value_at (codes "token") token)
    × (spec.globalnet_enabled ≡ is_globalnet_enabled info)

service_discovery_spec-IsSpecOf :
    (encode : Text → Text) (t : Secret) (join : JoinConfig) (info : BrokerInfo)
    (spec : ServiceDiscoverySpec)
    → populate_service_discovery_spec encode t join info ≡ some (ok spec)
    → IsSpecOf spec join info t
unfolding populate_service_discovery_spec service_discovery_spec
service_discovery_spec-IsSpecOf encode t join info spec h =
    let (overrides, e) =
      with_overrides-ok (service_discovery_spec encode t join info)
        (get_image_overrides join.image_override_arr) spec h in
    (
      sym (ap (λ (x : ServiceDiscoverySpec). x.cluster_id) e),
      sym (ap (λ (x : ServiceDiscoverySpec). x.broker_k8s_api_server_token) e),
      sym (ap (λ (x : ServiceDiscoverySpec). x.globalnet_enabled) e),
    )

-- If a join to a broker with service discovery and without connectivity succeeds, the server holds a
-- service-discovery resource in the operator's namespace, with the cluster's ID and the token of the
-- account that the join made at the broker. The resource is written by `Ensure`, of which it is
-- assumed that it writes what it reports to have written.
pub join_submariner_cluster-discovery :
    {W : Type 0} (parts : JoinParts W) (create_or_update : CreateOrUpdate W ServiceDiscoverySpec)
    (held : W → Text → Text → Option ServiceDiscoverySpec)
    → Writes create_or_update held
    → (parts.ensure_service_discovery
        ≡ ensure_service_discovery create_or_update (codes "submariner-operator"))
    → (fuel : ℕ) (join : JoinConfig) (info : BrokerInfo) (w w' : W)
    → is_connectivity_enabled info ≡ false
    → is_service_discovery_enabled info ≡ true
    → join_submariner_cluster parts fuel join info w ≡ (returns tt, w')
    → (spec : ServiceDiscoverySpec) × (token : Secret) × (u : W) × (v : W)
      × (parts.create_sa_for_cluster join.cluster_id u ≡ (returns (some token), v))
      × (held w' (codes "service-discovery") (codes "submariner-operator") ≡ some spec)
      × IsSpecOf spec join info token
unfolding deploy_resource
join_submariner_cluster-discovery parts create_or_update held writes wired fuel join info w w' off
      on h =
    let d = join-IsDeployed parts fuel join info w w' h in
    let (spec, built, deployed) =
      next-returns _ d.account_in w' parts.ensure_service_discovery tt
        (rw (deploy_resource, off, on) at d.last) in
    let (t, has_token, made) =
      with_token-returns (λ t. populate_service_discovery_spec parts.encode t join info) d.token
        spec built in
    (
      spec,
      t,
      d.installed_in,
      d.account_in,
      d.account ∙ ap (λ x. (returns x, d.account_in)) has_token,
      ensure_service_discovery-returns create_or_update held writes (codes "submariner-operator")
          spec d.account_in w' (ap (λ f. f spec d.account_in) (sym wired) ∙ deployed),
      service_discovery_spec-IsSpecOf parts.encode t join info spec made,
    )
