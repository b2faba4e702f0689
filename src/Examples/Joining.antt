-- ===== src/Examples/Joining.antt =====
-- The theorems on the broker's map and the joining of clusters at work: the range 242.0.0.0/28.
use cluster_fabric_operator.Base.{
  ◌^◌, ◌≤◌, ◌≡◌, refl, ◌⊎◌, arith, true, Text, codes, text_eq, [], ◌∷◌, some, map, ok, Error,
}
use cluster_fabric_operator.Net.{value, host_bits}
use cluster_fabric_operator.Globalnet.{Config}
use cluster_fabric_operator.Globalnet.Assign.{find_network, first_cidr}
use cluster_fabric_operator.Globalnet.Assign.Validate.{IsAccepted}
use cluster_fabric_operator.Broker.GlobalnetMap.{
  ConfigMap, general_globalnet_config_map, get_global_networks,
}
use cluster_fabric_operator.Broker.Separation.{entry_of}
use cluster_fabric_operator.Broker.Stored.{
  Holds, IsStored, info_of, general_globalnet_config_map-Holds,
  get_global_networks-general_globalnet_config_map,
}
use cluster_fabric_operator.Join.Allocation.{fails, keeps, sends, with_cidr, attempt}
use cluster_fabric_operator.Join.Allocation.Round.{IsUpdate, IsFailure, attempt_cases}
use cluster_fabric_operator.Join.Allocation.Retry.{attempt-after_sends}
use cluster_fabric_operator.Join.Allocation.Clients.{
  Steps, one_more, none_left, reads, accepts, Steps-Holds,
}
use cluster_fabric_operator.Examples.TestJson.{test_json, test_json_laws}
use cluster_fabric_operator.Examples.Scenario.{
  range_text, range_ip, range_net, parse_range, above, west,
}
use cluster_fabric_operator.Broker.GlobalnetMap.{
  or_bad_json, value_at, read_settings, networks_of, has_cluster, merge_cluster, put_network,
  set_cidrs, set_value, updated_map,
}
use cluster_fabric_operator.Join.Allocation.{after_validation, assign_and_plan, plan_update}
use cluster_fabric_operator.Globalnet.Assign.{
  validate_globalnet_configuration, validate_rest, assign_globalnet_ips,
}
use cluster_fabric_operator.Globalnet.Allocate.{
  allocate_global_cidr, after_call, allocate_by_cidr, allocate_by_cluster_size, allocate_unless,
  conflict, enter_cidrs, enter_networks, net_string, retry,
}
use cluster_fabric_operator.Globalnet.Sizes.{bit_len, cidr_mask, leading_zeros, print_int, sub_int}
use cluster_fabric_operator.Globalnet.{ip_to_uint, last_ip, new_cidr, uint_to_ip}
use cluster_fabric_operator.Net.Decimal.{digits_from, dtoi, print_nat}
use cluster_fabric_operator.Net.{
  parse_cidr, contains, ip_of, mask_ip, parse_dot_octet, parse_ipv4, parse_octet, parse_prefix,
  prefix_of, print_cidr, print_ip,
}

abbrev no_map : ConfigMap
no_map = record { labels = []; entries = [] }

abbrev first_map : ConfigMap
first_map = general_globalnet_config_map test_json true range_text 4 no_map

general_globalnet_config_map-Holds_example :
    (h : Holds test_json range_net [] first_map) × (h.stored.infos ≡ [])
    × (h.stored.size ≡ 4)
    × (h.stored.range_text ≡ range_text)
general_globalnet_config_map-Holds_example =
    general_globalnet_config_map-Holds test_json test_json_laws no_map range_text 4 range_ip
      range_net parse_range above (omega arith) (omega arith)

first_Holds : Holds test_json range_net [] first_map
first_Holds =
    (general_globalnet_config_map-Holds test_json test_json_laws no_map range_text 4 range_ip
      range_net parse_range above (omega arith) (omega arith)).0

abbrev first_stored : IsStored test_json first_map
first_stored = first_Holds.stored

get_global_networks-general_globalnet_config_map_example :
    get_global_networks test_json first_map
    ≡ ok (record {
      globalnet_enabled = true;
      globalnet_cidr_range = range_text;
      globalnet_cluster_size = 4;
      global_cidr_info = [];
    })
get_global_networks-general_globalnet_config_map_example =
    get_global_networks-general_globalnet_config_map test_json test_json_laws no_map true range_text
      4

-- A netconfig with a cluster size.
abbrev sized : Config
sized = record west { globalnet_cluster_size = 4 }

first_range : 2 ^ host_bits first_stored.range ≤ 16
first_range = rw first_Holds.same_range (omega arith)

attempt_cases_example :
    ((e : Error) × (attempt test_json 16 (codes "west") west (ok first_map)
        ≡ some (fails e, with_cidr west []))
      × IsFailure first_stored.range (info_of test_json first_stored) west e)
    ⊎ ((t : Text) × (attempt test_json 16 (codes "west") west (ok first_map)
          ≡ some (keeps, with_cidr west t))
        × (first_cidr (find_network (codes "west") (map entry_of first_stored.infos)) ≡ some t))
    ⊎ ((cm' : ConfigMap) × (netconfig' : Config) × (attempt test_json 16
            (codes "west")
            west
            (ok first_map)
          ≡ some (sends cm', netconfig'))
        × IsUpdate test_json west first_map first_stored cm' netconfig'
        × IsAccepted west)
attempt_cases_example =
    attempt_cases test_json test_json_laws 16 west first_map first_stored first_range (omega arith)

abbrev second_map : ConfigMap
second_map = record {
  labels = (codes "component", codes "submariner-globalnet") ∷ [];
  entries =
      (codes "globalnetEnabled", codes "true")
      ∷ (codes "globalnetCidrRange", range_text)
      ∷ (codes "globalnetClusterSize", 4 ∷ [])
      ∷ (
        codes "clusterinfo",
        test_json.marshal_clusters
            (record { cluster_id = codes "west"; global_cidr = codes "242.0.0.0/30" ∷ [] } ∷ []),
      )
      ∷ [];
}

first_sends :
    attempt test_json 16 (codes "west") sized (ok first_map)
    ≡ some (sends second_map, with_cidr sized (codes "242.0.0.0/30"))
unfolding attempt get_global_networks text_eq general_globalnet_config_map first_cidr find_network
    value or_bad_json value_at read_settings networks_of has_cluster merge_cluster put_network
    set_cidrs set_value updated_map after_validation assign_and_plan plan_update
    validate_globalnet_configuration validate_rest assign_globalnet_ips allocate_global_cidr
    after_call allocate_by_cidr allocate_by_cluster_size allocate_unless conflict enter_cidrs
    enter_networks net_string retry bit_len cidr_mask leading_zeros print_int sub_int ip_to_uint
    last_ip new_cidr uint_to_ip digits_from dtoi print_nat parse_cidr contains ip_of mask_ip
    parse_dot_octet parse_ipv4 parse_octet parse_prefix prefix_of print_cidr print_ip
first_sends = refl

attempt-after_sends_example :
    (e : Error) × (again : Config) × (attempt test_json 16
        (codes "west")
        (with_cidr sized (codes "242.0.0.0/30"))
        (ok first_map)
      ≡ some (fails e, again))
attempt-after_sends_example =
    attempt-after_sends test_json test_json_laws 16 sized (with_cidr sized (codes "242.0.0.0/30"))
      first_map second_map first_stored (ok first_map) first_range (omega arith)
      (λ e. absurd (omega (arith, e))) first_sends

joined-Steps :
    Steps test_json 16
      (record { version = 7; current = first_map; pending = [] })
      (record { version = 8; current = second_map; pending = [] })
joined-Steps =
    one_more
      (one_more none_left
        (reads sized (with_cidr sized (codes "242.0.0.0/30")) second_map (omega arith) first_sends))
      (accepts [] [] second_map)

Steps-Holds_example : Holds test_json range_net [] second_map
Steps-Holds_example =
    Steps-Holds test_json test_json_laws 16 range_net [] (omega arith) 7 first_map
      (record { version = 8; current = second_map; pending = [] }) joined-Steps first_Holds
