-- ===== src/Examples/Wiring.antt =====
-- The custom resources that a deployment and a join write, on servers that hold nothing else.
use cluster_fabric_operator.Base.{
  ◌≡◌, refl, sym, ap, ◌⊎◌, true, false, Text, codes, text_eq, count, [], ◌∷◌, Option, none, some,
  ok,
}
use cluster_fabric_operator.Base.Action.{returns}
use cluster_fabric_operator.Broker.Info.{
  BrokerInfo, BrokerConfig, Secret, is_connectivity_enabled, is_service_discovery_enabled,
  is_globalnet_enabled, get_components,
}
use cluster_fabric_operator.StringSet.{contains, has_key, new_set_type, add_all, add}
use cluster_fabric_operator.Controller.{
  BrokerSpec, DeployParts, populate_broker_spec, is_valid_globalnet_config, then_part, skip,
  deploy_parts, deploy_submariner_broker,
}
use cluster_fabric_operator.Join.Settings.{
  is_valid_custom_core_dns_config, is_valid_cluster_id, matches_cluster_id, matches_rest, get_cidr,
  get_image_overrides, override_loop,
}
use cluster_fabric_operator.Join.Gateway.{handle_node_labels}
use cluster_fabric_operator.Join.Specs.{
  ServiceDiscoverySpec, service_discovery_spec, populate_service_discovery_spec,
}
use cluster_fabric_operator.Join.Sequence.{
  JoinParts, checked_settings, requirements, label_gateway, get_network_details, netconfig_of,
  prepare, deploy_resource, deploy, join_submariner_cluster,
}
use cluster_fabric_operator.Join.Sequence.Discovery.{IsSpecOf, join_submariner_cluster-discovery}
use cluster_fabric_operator.Operator.Custom.{
  CreateOrUpdate, ensure_broker_cr, ensure_service_discovery,
}
use cluster_fabric_operator.Operator.Custom.Written.{Writes, deploy_submariner_broker-broker_cr}
use cluster_fabric_operator.Examples.Loops.{test_loops}
use cluster_fabric_operator.Examples.TestJson.{test_json}
use cluster_fabric_operator.Examples.Running.{join, info_with, token}

-- The state is the one resource.
abbrev spec_or : {A : Type 0} → A → Option A → A
spec_or empty none = empty
spec_or empty (some old) = old

abbrev put_one : {A : Type 0} → A → CreateOrUpdate (Option A) A
put_one empty name namespace change w = (ok tt, some (change (spec_or empty w)))

abbrev held_one : {A : Type 0} → Option A → Text → Text → Option A
held_one w name namespace = w

put_one-Writes : {A : Type 0} (empty : A) → Writes (put_one empty) held_one
put_one-Writes empty = record {
  written = λ name namespace change w w' e. (spec_or empty w, sym (ap (λ p. p.1) e));
}

-- The spec of the configuration below.
abbrev plain_spec : BrokerSpec
plain_spec = record {
  globalnet_enabled = false;
  globalnet_cidr_range = [];
  default_globalnet_cluster_size = 4;
  default_custom_domains = codes "example.org" ∷ [];
}

abbrev no_broker : BrokerSpec
no_broker = record {
  globalnet_enabled = false;
  globalnet_cidr_range = [];
  default_globalnet_cluster_size = 0;
  default_custom_domains = [];
}

abbrev broker_parts : DeployParts (Option BrokerSpec)
broker_parts = record {
  ensure_broker = λ s g w. (none, w);
  ensure_operator = λ w. (none, w);
  ensure_broker_cr = ensure_broker_cr (put_one no_broker);
  validate_existing_global_networks = λ w. (none, w);
  create_globalnet_config_map = λ enabled range size w. (none, w);
  create_broker_info_config_map = λ config w. (none, w);
}

abbrev plain_config : BrokerConfig
plain_config = record {
  service_discovery_enabled = true;
  globalnet_enable = false;
  globalnet_cidr_range = [];
  default_globalnet_cluster_size = 4;
  default_custom_domains = codes "example.org" ∷ [];
}

deployed_broker :
    deploy_submariner_broker broker_parts plain_config (some no_broker) ≡ (none, some plain_spec)
unfolding deploy_submariner_broker is_valid_globalnet_config deploy_parts then_part skip
    ensure_broker_cr populate_broker_spec
deployed_broker = refl

deploy_submariner_broker-broker_cr_example :
    ((is_valid_globalnet_config plain_config ≡ (false, none)) × (some plain_spec ≡ some no_broker))
    ⊎ (some plain_spec ≡ some plain_spec)
deploy_submariner_broker-broker_cr_example =
    deploy_submariner_broker-broker_cr (put_one no_broker) held_one (put_one-Writes no_broker)
      broker_parts
      (record {
        broker_cr = refl;
        validation = λ w. refl;
        cidrs = λ on range size w. refl;
        info = λ config w. refl;
      })
      plain_config (some no_broker) (some plain_spec) deployed_broker

abbrev no_discovery : ServiceDiscoverySpec
no_discovery = record {
  repository = [];
  version = [];
  broker_k8s_ca = [];
  broker_k8s_remote_namespace = [];
  broker_k8s_api_server_token = [];
  broker_k8s_api_server = [];
  debug = false;
  cluster_id = [];
  namespace = [];
  image_overrides = [];
  core_dns_custom_config = none;
  custom_domains = [];
  globalnet_enabled = false;
}

abbrev discovery_parts : JoinParts (Option ServiceDiscoverySpec)
discovery_parts = record {
  loops = test_loops;
  json = test_json;
  encode = λ t. t;
  check_requirements = λ w. (([], none), w);
  list_nodes = λ w selector. ok (codes "node" ∷ []);
  patch_node = λ node w. (ok tt, w);
  label_rounds = 10;
  dynamic_client = ok tt;
  discover = λ w. (ok none, w);
  get_broker_cluster = λ info. ok tt;
  read_map = λ w. (ok (record { labels = []; entries = [] }), w);
  update_map = λ cm w. (ok tt, w);
  ensure_operator = λ w. (returns tt, w);
  create_sa_for_cluster = λ id w. (returns (some token), w);
  ensure_submariner = λ spec w. (returns tt, w);
  ensure_service_discovery =
      ensure_service_discovery (put_one no_discovery) (codes "submariner-operator");
}

abbrev discovery_info : BrokerInfo
discovery_info = info_with (codes "service-discovery" ∷ [])

abbrev discovered : Option ServiceDiscoverySpec
discovered = some (service_discovery_spec (λ t. t) token join discovery_info [])

joined_discovery :
    join_submariner_cluster discovery_parts 16 join discovery_info none ≡ (returns tt, discovered)
unfolding join_submariner_cluster prepare requirements label_gateway handle_node_labels
    get_network_details get_cidr deploy deploy_resource is_connectivity_enabled
    is_service_discovery_enabled is_globalnet_enabled netconfig_of populate_service_discovery_spec
    get_image_overrides override_loop count checked_settings is_valid_custom_core_dns_config
    is_valid_cluster_id matches_cluster_id matches_rest contains has_key get_components new_set_type
    add_all add text_eq ensure_service_discovery
joined_discovery = refl

join_submariner_cluster-discovery_example :
    (spec : ServiceDiscoverySpec) × (t : Secret) × (u : Option ServiceDiscoverySpec) × (v : Option
      ServiceDiscoverySpec)
    × (discovery_parts.create_sa_for_cluster (codes "west") u ≡ (returns (some t), v))
    × (discovered ≡ some spec)
    × IsSpecOf spec join discovery_info t
unfolding is_connectivity_enabled is_service_discovery_enabled contains has_key get_components
    new_set_type add_all add text_eq
join_submariner_cluster-discovery_example =
    join_submariner_cluster-discovery discovery_parts (put_one no_discovery) held_one
      (put_one-Writes no_discovery) refl 16 join discovery_info none discovered refl refl
      joined_discovery
