-- ===== src/Join/Sequence/Prepared.antt =====
-- What a preparation of a join that succeeds has found.
use cluster_fabric_operator.Base.{ℕ, ◌≡◌, Bool, ◌&&◌, Text, Option, ok}
use cluster_fabric_operator.Base.Action.{returns, of_result, bind-returns, of_result-returns}
use cluster_fabric_operator.Globalnet.{Config}
use cluster_fabric_operator.Broker.Info.{BrokerInfo, is_globalnet_enabled, is_connectivity_enabled}
use cluster_fabric_operator.Join.Settings.{get_cidr}
use cluster_fabric_operator.Join.Specs.{JoinConfig}
use cluster_fabric_operator.Join.Sequence.{
  JoinParts, netconfig_of, prepare, labels_if, allocated_if, requirements, requirements_met,
  get_network_details, checked_settings, service_cidrs_of, pod_cidrs_of,
}
use cluster_fabric_operator.Discovery.{ClusterNetwork}

module _ {W : Type 0} (parts : JoinParts W) (fuel : ℕ) where
  -- What a preparation that returns went through.
  pub record IsPrepared (join : JoinConfig) (info : BrokerInfo) (netconfig : Config) (w' : W)
      : Type 0 where
    pub settled : checked_settings join ≡ ok tt
    pub services : Text × Bool
    pub pods : Text × Bool
    pub details : Option ClusterNetwork
    pub service_found : get_cidr join.service_cidr (service_cidrs_of details) ≡ ok services
    pub pod_found : get_cidr join.cluster_cidr (pod_cidrs_of details) ≡ ok pods
    pub connected : parts.get_broker_cluster info ≡ ok tt
    pub checked : W
    pub met : requirements_met (parts.check_requirements checked).0 ≡ ok tt
    pub before : W
    pub allocated :
        allocated_if parts fuel
          (is_globalnet_enabled info)
          join.cluster_id
          (netconfig_of join info services pods)
          before
        ≡ (returns netconfig, w')

  pub prepare-returns :
      (join : JoinConfig) (info : BrokerInfo) (netconfig : Config) (w w' : W)
      → prepare parts fuel join info w ≡ (returns netconfig, w')
      → IsPrepared join info netconfig w'
  unfolding prepare requirements
  prepare-returns join info netconfig w w' h =
      let (_, w1, e1, h1) = bind-returns (of_result (checked_settings join)) _ h in
      let (_, w2, e2, h2) = bind-returns (requirements parts fuel) _ h1 in
      let (_, w3, e3, h3) =
        bind-returns (labels_if parts fuel (is_connectivity_enabled info && join.label_gateway)) _
          h2 in
      let (details, w4, e4, h4) = bind-returns (get_network_details parts fuel) _ h3 in
      let (services, w5, e5, h5) =
        bind-returns (of_result (get_cidr join.service_cidr (service_cidrs_of details))) _ h4 in
      let (pods, w6, e6, h6) =
        bind-returns (of_result (get_cidr join.cluster_cidr (pod_cidrs_of details))) _ h5 in
      let (_, w7, e7, h7) = bind-returns (of_result (parts.get_broker_cluster info)) _ h6 in
      record {
        settled = (of_result-returns (checked_settings join) e1).0;
        services = services;
        pods = pods;
        details = details;
        service_found =
            (of_result-returns (get_cidr join.service_cidr (service_cidrs_of details)) e5).0;
        pod_found = (of_result-returns (get_cidr join.cluster_cidr (pod_cidrs_of details)) e6).0;
        connected = (of_result-returns (parts.get_broker_cluster info) e7).0;
        checked = w1;
        met =
            (of_result-returns (requirements_met (parts.check_requirements w1).0)
              (unfold requirements in e2)).0;
        before = w7;
        allocated = h7;
      }
