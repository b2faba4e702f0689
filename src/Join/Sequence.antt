-- ===== src/Join/Sequence.antt =====
-- controllers/join_broker.go: `JoinSubmarinerCluster`, and `AllocateAndUpdateGlobalCIDRConfigMap` with
-- its retry. What other packages do to the two clusters is a parameter.
pub mod Refused
pub mod Prepared
pub mod Allocated
pub mod Kept
pub mod Joined
pub mod Discovery
pub mod Created
use cluster_fabric_operator.Base.{
  ℕ, Bool, true, false, ◌&&◌, Text, is_empty, List, [], ◌∷◌, Option, none, some, Result, ok, err,
  Error, if◌then◌else◌,
}
use cluster_fabric_operator.Base.{Error.invalid_cluster_id, Error.failed_requirements}
use cluster_fabric_operator.Base.Action.{
  Outcome, returns, fails, panics, runs_on, Action, Call, pure, raise, of_result, ask, next, ◌>>=◌,
  ◌>>◌, Loops,
}
use cluster_fabric_operator.Globalnet.{Config}
use cluster_fabric_operator.Broker.GlobalnetMap.{ConfigMap, Json}
use cluster_fabric_operator.Broker.Info.{
  BrokerInfo, Secret, is_connectivity_enabled, is_service_discovery_enabled, is_globalnet_enabled,
}
use cluster_fabric_operator.Discovery.{ClusterNetwork}
use cluster_fabric_operator.Join.Allocation.{Plan, attempt}
use cluster_fabric_operator.Join.Gateway.{handle_node_labels}
use cluster_fabric_operator.Join.Gateway.Labels.{add_labels_to_node}
use cluster_fabric_operator.Join.Settings.{
  is_valid_custom_core_dns_config, is_valid_cluster_id, get_cidr,
}
use cluster_fabric_operator.Join.Specs.{
  JoinConfig, SubmarinerSpec, ServiceDiscoverySpec, populate_submariner_spec,
  populate_service_discovery_spec,
}

-- The calls of the joining cluster and of the broker, and the parts in other packages.
pub record JoinParts (W : Type 0) : Type 1 where
  pub loops : Loops
  pub json : Json
  pub encode : Text → Text
  -- The failed requirements, and an error or nil.
  pub check_requirements : W → (List Text × Option Error) × W
  pub list_nodes : W → Text → Result (List Text)
  pub patch_node : Text → Call W (Unit {0})
  pub label_rounds : ℕ
  pub dynamic_client : Result (Unit {0})
  pub discover : Call W (Option ClusterNetwork)
  pub get_broker_cluster : BrokerInfo → Result (Unit {0})
  pub read_map : Call W ConfigMap
  pub update_map : ConfigMap → Call W (Unit {0})
  pub ensure_operator : Action W (Unit {0})
  -- A nil secret is `none`.
  pub create_sa_for_cluster : Text → Action W (Option Secret)
  pub ensure_submariner : SubmarinerSpec → Action W (Unit {0})
  pub ensure_service_discovery : ServiceDiscoverySpec → Action W (Unit {0})

-- The checks of the settings.
unfoldable pub checked_settings : JoinConfig → Result (Unit {0})
checked_settings join = elim (is_valid_custom_core_dns_config join.coredns_custom_config_map) [
  | err e ↦ err e
  | ok _ ↦
      if is_empty join.cluster_id
      then err invalid_cluster_id
      else is_valid_cluster_id join.cluster_id
]

-- The answer to the check of the requirements.
abbrev pub requirements_met : List Text × Option Error → Result (Unit {0})
requirements_met (failed ∷ more, e) = err failed_requirements
requirements_met ([], some e) = err e
requirements_met ([], none) = ok tt

-- `GetNetworkDetails`, from the answer of the discovery, whose error is dropped.
abbrev pub network_details : Result (Option ClusterNetwork) → Option ClusterNetwork
network_details (ok found) = found
network_details (err e) = none

abbrev pub service_cidrs_of : Option ClusterNetwork → List Text
service_cidrs_of none = []
service_cidrs_of (some net) = net.service_cidrs

abbrev pub pod_cidrs_of : Option ClusterNetwork → List Text
pod_cidrs_of none = []
pod_cidrs_of (some net) = net.pod_cidrs

-- The netconfig, from the two CIDRs.
unfoldable pub netconfig_of : JoinConfig → BrokerInfo → Text × Bool → Text × Bool → Config
netconfig_of join info (service_cidr, service_auto) (cluster_cidr, cluster_auto) = record {
  cluster_id = join.cluster_id;
  globalnet_cidr = info.globalnet_cidr_range;
  service_cidr = service_cidr;
  service_cidr_auto_detected = service_auto;
  cluster_cidr = cluster_cidr;
  cluster_cidr_auto_detected = cluster_auto;
  globalnet_cluster_size = info.default_globalnet_cluster_size;
}

-- A spec that was populated; without a token its construction panics.
abbrev pub populated {ℓ} : {A : Type ℓ} → Option (Result A) → Outcome A
populated none = panics
populated (some (err e)) = fails e
populated (some (ok spec)) = returns spec

abbrev pub panic_if_built {ℓ} : {A : Type ℓ} → Outcome A → Outcome A
panic_if_built (returns spec) = panics
panic_if_built (fails e) = fails e
panic_if_built panics = panics
panic_if_built runs_on = runs_on

abbrev pub with_token {ℓ} : {A : Type ℓ} → (Secret → Option (Result A)) → Option Secret → Outcome A
with_token populate (some token) = populated (populate token)
with_token populate none = panic_if_built (populated (populate []))

module _ {W : Type 0} (parts : JoinParts W) (fuel : ℕ) where
  -- What a round's plan does to the broker.
  unfoldable pub carry_out : Plan → Config → W → Outcome (Unit {0}) × (W × Config)
  carry_out (Plan.fails e) netconfig w = (fails e, (w, netconfig))
  carry_out Plan.keeps netconfig w = (returns tt, (w, netconfig))
  carry_out Plan.panics netconfig w = (panics, (w, netconfig))
  carry_out (Plan.sends cm) netconfig w =
      let (r, w') = parts.update_map cm w in ((of_result r w').0, (w', netconfig))

  abbrev pub carry_out_plan :
      Option (Plan × Config) → Config → W → Outcome (Unit {0}) × (W × Config)
  carry_out_plan none netconfig w = (runs_on, (w, netconfig))
  carry_out_plan (some (plan, netconfig')) netconfig w = carry_out plan netconfig' w

  -- The closure that `AllocateAndUpdateGlobalCIDRConfigMap` retries. The rounds share the netconfig.
  unfoldable pub allocate_round : Text → Action (W × Config) (Unit {0})
  allocate_round id (w, netconfig) =
      let (read, w') = parts.read_map w in
      carry_out_plan (attempt parts.json fuel id netconfig read) netconfig w'

  abbrev pub keep_config : Outcome (Unit {0}) × (W × Config) → Outcome Config × W
  keep_config (returns _, (w, netconfig)) = (returns netconfig, w)
  keep_config (fails e, (w, netconfig)) = (fails e, w)
  keep_config (panics, (w, netconfig)) = (panics, w)
  keep_config (runs_on, (w, netconfig)) = (runs_on, w)

  -- `AllocateAndUpdateGlobalCIDRConfigMap`: the netconfig as it is then.
  unfoldable pub allocate_and_update : Text → Config → Action W Config
  allocate_and_update id netconfig w =
      keep_config (parts.loops.retry_on_conflict (allocate_round id) (w, netconfig))

  unfoldable pub requirements : Action W (Unit {0})
  requirements w = let (r, w') = parts.check_requirements w in of_result (requirements_met r) w'

  -- `HandleNodeLabels`
  unfoldable pub label_gateway : Action W (Unit {0})
  label_gateway w = next (of_result (handle_node_labels (parts.list_nodes w)) w).0 w λ node.
      elim node [
        | none ↦ pure tt
        | some name ↦ add_labels_to_node parts.patch_node parts.loops parts.label_rounds name
      ]

  -- `GetNetworkDetails`
  unfoldable pub get_network_details : Action W (Option ClusterNetwork)
  get_network_details = elim parts.dynamic_client [
    | err e ↦ raise e
    | ok _ ↦ λ w. let (r, w') = parts.discover w in (returns (network_details r), w')
  ]

  abbrev pub labels_if : Bool → Action W (Unit {0})
  labels_if wanted = if wanted then label_gateway else pure tt

  abbrev pub allocated_if : Bool → Text → Config → Action W Config
  allocated_if wanted id netconfig =
      if wanted then allocate_and_update id netconfig else pure netconfig

  -- The first part of `JoinSubmarinerCluster`, to the netconfig with the cluster's global CIDR.
  unfoldable pub prepare : JoinConfig → BrokerInfo → Action W Config
  prepare join info = do
    _ ← of_result (checked_settings join)
    _ ← requirements
    _ ← labels_if (is_connectivity_enabled info && join.label_gateway)
    details ← get_network_details
    services ← of_result (get_cidr join.service_cidr (service_cidrs_of details))
    pods ← of_result (get_cidr join.cluster_cidr (pod_cidrs_of details))
    _ ← of_result (parts.get_broker_cluster info)
    allocated_if (is_globalnet_enabled info) join.cluster_id (netconfig_of join info services pods)

  -- The custom resource, with the token of the cluster's account.
  unfoldable pub deploy_resource :
      JoinConfig → BrokerInfo → Config → Option Secret → Action W (Unit {0})
  deploy_resource join info netconfig token w =
      if is_connectivity_enabled info
      then next
          (with_token (λ t. populate_submariner_spec parts.encode t join info netconfig) token) w
          parts.ensure_submariner
      else if is_service_discovery_enabled info
      then next (with_token (λ t. populate_service_discovery_spec parts.encode t join info) token) w
          parts.ensure_service_discovery
      else (returns tt, w)

  -- The second part.
  unfoldable pub deploy : JoinConfig → BrokerInfo → Config → Action W (Unit {0})
  deploy join info netconfig = do
    _ ← parts.ensure_operator
    token ← parts.create_sa_for_cluster join.cluster_id
    deploy_resource join info netconfig token

  -- `JoinSubmarinerCluster`
  unfoldable pub join_submariner_cluster : JoinConfig → BrokerInfo → Action W (Unit {0})
  join_submariner_cluster join info = prepare join info >>= deploy join info
