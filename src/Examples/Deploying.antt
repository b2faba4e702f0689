-- ===== src/Examples/Deploying.antt =====
-- A broker that was deployed without globalnet. The state is the config map of the CIDRs.
use cluster_fabric_operator.Base.{◌≡◌, refl, ◌≢◌, true, false, [], none, ok}
use cluster_fabric_operator.Broker.GlobalnetMap.{ConfigMap, general_globalnet_config_map}
use cluster_fabric_operator.Broker.Existing.{validate_existing_global_networks}
use cluster_fabric_operator.Broker.Info.{BrokerConfig}
use cluster_fabric_operator.Controller.{
  DeployParts, is_valid_globalnet_config, deploy_submariner_broker,
}
use cluster_fabric_operator.Controller.Switched.{
  error_of, LeavesMap, deploy_submariner_broker-switched,
}
use cluster_fabric_operator.Globalnet.Sizes.{get_valid_cluster_size, next_power_of2, smear}
use cluster_fabric_operator.Net.{parse_cidr, parse_ipv4, parse_octet, parse_dot_octet, parse_prefix}
use cluster_fabric_operator.Net.Decimal.{dtoi}
use cluster_fabric_operator.Examples.TestJson.{test_json, test_json_laws}
use cluster_fabric_operator.Examples.Scenario.{range_text}

abbrev map_parts : DeployParts ConfigMap
map_parts = record {
  ensure_broker = λ s g w. (none, w);
  ensure_operator = λ w. (none, w);
  ensure_broker_cr = λ spec w. (none, w);
  validate_existing_global_networks =
      λ w. (error_of (validate_existing_global_networks test_json (ok w)), w);
  create_globalnet_config_map =
      λ enabled range size w. (none, general_globalnet_config_map test_json enabled range size w);
  create_broker_info_config_map = λ config w. (none, w);
}

map_parts-LeavesMap : LeavesMap test_json (λ w. ok w) map_parts
map_parts-LeavesMap = record {
  broker = λ s g w. refl;
  operator = λ w. refl;
  broker_cr = λ spec w. refl;
  validation = λ w. refl;
  validates = λ w. refl;
}

abbrev with_globalnet : BrokerConfig
with_globalnet = record {
  service_discovery_enabled = true;
  globalnet_enable = true;
  globalnet_cidr_range = range_text;
  default_globalnet_cluster_size = 4;
  default_custom_domains = [];
}

abbrev off_map : ConfigMap
off_map = general_globalnet_config_map test_json false [] 0 (record { labels = []; entries = [] })

with_globalnet-valid : (is_valid_globalnet_config with_globalnet).0 ≡ true
unfolding is_valid_globalnet_config get_valid_cluster_size parse_cidr parse_ipv4 parse_octet dtoi
    parse_dot_octet parse_prefix next_power_of2 smear
with_globalnet-valid = refl

deploy_submariner_broker-switched_example :
    ((deploy_submariner_broker map_parts with_globalnet off_map).0 ≢ none)
    × (ok (deploy_submariner_broker map_parts with_globalnet off_map).1 ≡ ok off_map)
deploy_submariner_broker-switched_example =
    deploy_submariner_broker-switched test_json test_json_laws (λ w. ok w) map_parts
      map_parts-LeavesMap with_globalnet [] 0 (record { labels = []; entries = [] }) off_map refl
      with_globalnet-valid refl
