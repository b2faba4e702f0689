-- ===== src/Examples/Replacing.antt =====
-- A join of a cluster that has a Submariner resource already, on a server that holds nothing else.
use cluster_fabric_operator.Base.{
  ◌≡◌, refl, ap, false, codes, text_eq, count, [], ◌∷◌, Option, none, some, ok,
}
use cluster_fabric_operator.Base.Action.{Outcome, returns, Call}
use cluster_fabric_operator.Base.{Error.api, ApiError.not_found, Bool, err}
use cluster_fabric_operator.Broker.Info.{
  BrokerInfo, is_connectivity_enabled, is_service_discovery_enabled, is_globalnet_enabled,
  get_components,
}
use cluster_fabric_operator.StringSet.{contains, has_key, new_set_type, add_all, add}
use cluster_fabric_operator.Join.Settings.{
  is_valid_custom_core_dns_config, is_valid_cluster_id, matches_cluster_id, matches_rest, get_cidr,
  get_image_overrides, override_loop,
}
use cluster_fabric_operator.Join.Gateway.{handle_node_labels}
use cluster_fabric_operator.Join.Specs.{SubmarinerSpec, submariner_spec, populate_submariner_spec}
use cluster_fabric_operator.Join.Sequence.{
  JoinParts, checked_settings, requirements, label_gateway, get_network_details, netconfig_of,
  prepare, deploy_resource, deploy, join_submariner_cluster,
}
use cluster_fabric_operator.Join.Sequence.Joined.{IsSubmariner}
use cluster_fabric_operator.Join.Sequence.Created.{join_submariner_cluster-IsCreated}
use cluster_fabric_operator.Operator.Resource.{
  ResourceClient, ensure_resource, resource_round, after_get, create_round, delete_round,
}
use cluster_fabric_operator.Operator.Resource.Recreated.{IsCreated}
use cluster_fabric_operator.Examples.Loops.{test_loops}
use cluster_fabric_operator.Examples.TestJson.{test_json}
use cluster_fabric_operator.Examples.Running.{join, info_with, token}
use cluster_fabric_operator.Examples.Scenario.{west}

-- The state is the resource.
abbrev get_one : {A : Type 0} → Call (Option A) Bool
get_one none = (err (api not_found), none)
get_one (some spec) = (ok false, some spec)

abbrev one_submariner : ResourceClient (Option SubmarinerSpec) SubmarinerSpec
one_submariner = record {
  get = get_one;
  create = λ spec w. (ok tt, some spec);
  delete = λ w. (ok tt, none);
}

abbrev submariner_parts : JoinParts (Option SubmarinerSpec)
submariner_parts = record {
  loops = test_loops;
  json = test_json;
  encode = λ t. t;
  check_requirements = λ w. (([], none), w);
  list_nodes = λ w selector. ok (codes "node" ∷ []);
  patch_node = λ node w. (ok tt, w);
  label_rounds = 10;
  dynamic_client = ok tt;
  discover = λ w. (ok none, w);
  get_broker_cluster = λ info. ok tt;
  read_map = λ w. (ok (record { labels = []; entries = [] }), w);
  update_map = λ cm w. (ok tt, w);
  ensure_operator = λ w. (returns tt, w);
  create_sa_for_cluster = λ id w. (returns (some token), w);
  ensure_submariner = ensure_resource one_submariner test_loops 20;
  ensure_service_discovery = λ spec w. (returns tt, w);
}

abbrev connectivity : BrokerInfo
connectivity = info_with (codes "connectivity" ∷ [])

abbrev old_submariner : Option SubmarinerSpec
old_submariner = some (submariner_spec (λ t. t) [] join (info_with []) west [])

abbrev rejoined : Outcome (Unit {0}) × Option SubmarinerSpec
rejoined = join_submariner_cluster submariner_parts 16 join connectivity old_submariner

rejoined-returns : rejoined.0 ≡ returns tt
unfolding join_submariner_cluster prepare requirements label_gateway handle_node_labels
    get_network_details get_cidr deploy deploy_resource is_connectivity_enabled
    is_service_discovery_enabled is_globalnet_enabled netconfig_of populate_submariner_spec
    get_image_overrides override_loop count checked_settings is_valid_custom_core_dns_config
    is_valid_cluster_id matches_cluster_id matches_rest contains has_key get_components new_set_type
    add_all add text_eq ensure_resource resource_round after_get create_round delete_round
rejoined-returns = refl

join_submariner_cluster-IsCreated_example :
    (s : IsSubmariner submariner_parts 16 join connectivity old_submariner rejoined.1) × IsCreated
      one_submariner s.spec rejoined.1
unfolding is_connectivity_enabled contains has_key get_components new_set_type add_all add text_eq
join_submariner_cluster-IsCreated_example =
    join_submariner_cluster-IsCreated submariner_parts one_submariner test_loops 19 refl 16 join
      connectivity old_submariner rejoined.1 refl (ap (λ o. (o, rejoined.1)) rejoined-returns)
