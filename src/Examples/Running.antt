-- ===== src/Examples/Running.antt =====
-- Joins of a small cluster. The state is the list of what was done.
use cluster_fabric_operator.Base.{
  ◌≡◌, refl, ◌≢◌, arith, true, false, Text, codes, text_eq, count, List, [], ◌∷◌, Option, none,
  some, ok,
}
use cluster_fabric_operator.Base.Action.{returns}
use cluster_fabric_operator.Globalnet.{Config}
use cluster_fabric_operator.Broker.Info.{
  BrokerInfo, BrokerConfig, Secret, create_broker_info, new_from_cluster, is_connectivity_enabled,
  is_service_discovery_enabled, is_globalnet_enabled, get_components,
}
use cluster_fabric_operator.StringSet.{contains, has_key, new_set_type, add_all, add}
use cluster_fabric_operator.Join.Settings.{
  is_valid_custom_core_dns_config, is_valid_cluster_id, matches_cluster_id, matches_rest, get_cidr,
  get_image_overrides, override_loop,
}
use cluster_fabric_operator.Join.Gateway.{handle_node_labels}
use cluster_fabric_operator.Join.Specs.{JoinConfig, populate_submariner_spec}
use cluster_fabric_operator.Join.Sequence.{
  JoinParts, checked_settings, requirements, label_gateway, get_network_details, netconfig_of,
  prepare, deploy_resource, deploy, join_submariner_cluster,
}
use cluster_fabric_operator.Join.Sequence.Allocated.{join_submariner_cluster-both}
use cluster_fabric_operator.Join.Sequence.Joined.{
  IsSubmariner, join_submariner_cluster-create_broker_info, join_submariner_cluster-connected,
}
use cluster_fabric_operator.Examples.Loops.{test_loops}
use cluster_fabric_operator.Examples.TestJson.{test_json}
use cluster_fabric_operator.Examples.Scenario.{range_text}

abbrev pub token : Secret
token = (codes "token", codes "t") ∷ []

abbrev test_parts : JoinParts (List Text)
test_parts = record {
  loops = test_loops;
  json = test_json;
  encode = λ t. t;
  check_requirements = λ w. (([], none), w);
  list_nodes = λ w selector. ok (codes "node" ∷ []);
  patch_node = λ node w. (ok tt, codes "patch" ∷ w);
  label_rounds = 10;
  dynamic_client = ok tt;
  discover = λ w. (ok none, w);
  get_broker_cluster = λ info. ok tt;
  read_map = λ w. (ok (record { labels = []; entries = [] }), w);
  update_map = λ cm w. (ok tt, codes "update" ∷ w);
  ensure_operator = λ w. (returns tt, codes "operator" ∷ w);
  create_sa_for_cluster = λ id w. (returns (some token), codes "account" ∷ w);
  ensure_submariner = λ spec w. (returns tt, codes "submariner" ∷ w);
  ensure_service_discovery = λ spec w. (returns tt, codes "discovery" ∷ w);
}

abbrev pub join : JoinConfig
join = record {
  cluster_id = codes "west";
  service_cidr = codes "10.0.0.0/16";
  cluster_cidr = codes "10.1.0.0/16";
  repository = [];
  image_version = [];
  natt_port = 4500;
  ike_port = 500;
  nat_traversal = true;
  preferred_server = false;
  force_udp_encaps = false;
  ipsec_debug = false;
  submariner_debug = false;
  label_gateway = true;
  cable_driver = [];
  custom_domains = none;
  image_override_arr = [];
  coredns_custom_config_map = [];
}

abbrev pub info_with : List Text → BrokerInfo
info_with components = record {
  broker_url = codes "host";
  client_token = [];
  ipsec_psk = [];
  components = components;
  custom_domains = none;
  globalnet_cidr_range = range_text;
  default_globalnet_cluster_size = 8;
}

join_submariner_cluster-both_example :
    join_submariner_cluster test_parts 16 join (info_with (codes "globalnet" ∷ [])) []
    ≢ (returns tt, codes "account" ∷ codes "operator" ∷ [])
unfolding is_globalnet_enabled contains has_key get_components new_set_type add_all add text_eq
join_submariner_cluster-both_example =
    join_submariner_cluster-both test_parts 16 join (info_with (codes "globalnet" ∷ [])) []
      (codes "account" ∷ codes "operator" ∷ []) refl refl (λ e. absurd (omega (arith, e)))

abbrev connected : BrokerInfo
connected = info_with (codes "connectivity" ∷ [])

abbrev all_done : List Text
all_done = codes "submariner" ∷ codes "account" ∷ codes "operator" ∷ []

joined : join_submariner_cluster test_parts 16 join connected [] ≡ (returns tt, all_done)
unfolding join_submariner_cluster prepare requirements label_gateway handle_node_labels
    get_network_details get_cidr deploy deploy_resource is_connectivity_enabled
    is_service_discovery_enabled is_globalnet_enabled netconfig_of populate_submariner_spec
    get_image_overrides override_loop count checked_settings is_valid_custom_core_dns_config
    is_valid_cluster_id matches_cluster_id matches_rest contains has_key get_components new_set_type
    add_all add text_eq
joined = refl

join_submariner_cluster-connected_example : IsSubmariner test_parts 16 join connected [] all_done
unfolding is_connectivity_enabled contains has_key get_components new_set_type add_all add text_eq
join_submariner_cluster-connected_example =
    join_submariner_cluster-connected test_parts 16 join connected [] all_done refl joined

abbrev config : BrokerConfig
config = record {
  service_discovery_enabled = true;
  globalnet_enable = true;
  globalnet_cidr_range = range_text;
  default_globalnet_cluster_size = 8;
  default_custom_domains = [];
}

joined_alone :
    join_submariner_cluster test_parts 16 join (info_with []) []
    ≡ (returns tt, codes "account" ∷ codes "operator" ∷ [])
unfolding join_submariner_cluster prepare requirements label_gateway handle_node_labels
    get_network_details get_cidr deploy deploy_resource is_connectivity_enabled
    is_service_discovery_enabled is_globalnet_enabled netconfig_of populate_submariner_spec
    get_image_overrides override_loop count checked_settings is_valid_custom_core_dns_config
    is_valid_cluster_id matches_cluster_id matches_rest contains has_key get_components new_set_type
    add_all add text_eq
joined_alone = refl

join_submariner_cluster-create_broker_info_example :
    (netconfig : Config) × (u : List Text) × (v : List Text) × (t : Option Secret) × (prepare
        test_parts 16 join
        (info_with [])
        []
      ≡ (returns netconfig, u))
    × (test_parts.ensure_operator u ≡ (returns tt, v))
    × (test_parts.create_sa_for_cluster (codes "west") v
        ≡ (returns t, codes "account" ∷ codes "operator" ∷ []))
unfolding create_broker_info new_from_cluster
join_submariner_cluster-create_broker_info_example =
    join_submariner_cluster-create_broker_info test_parts 16 join (info_with []) (ok []) (ok [])
      (codes "host") config [] (codes "account" ∷ codes "operator" ∷ []) refl joined_alone
