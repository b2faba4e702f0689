-- ===== src/Broker/Existing.antt =====
-- controllers/discovery/globalnet/globalnet.go: `ValidateExistingGlobalNetworks`, from the answer to its
-- read of the config map.
use cluster_fabric_operator.Base.{ℕ, ◌≡◌, refl, false, Text, Result, ok, err, ◌>>=◌}
use cluster_fabric_operator.Base.{Error.api, ApiError.not_found, Error.invalid_cidr_text}
use cluster_fabric_operator.Globalnet.Assign.{is_valid_cidr}
use cluster_fabric_operator.Net.{parse_cidr, parse_ipv4, parse_octet}
use cluster_fabric_operator.Net.Decimal.{dtoi}
use cluster_fabric_operator.Broker.GlobalnetMap.{
  ConfigMap, Json, get_global_networks, general_globalnet_config_map,
}
use cluster_fabric_operator.Broker.Stored.{
  JsonLaws, get_global_networks-general_globalnet_config_map,
}

unfoldable pub validate_existing_global_networks : Json → Result ConfigMap → Result (Unit {0})
validate_existing_global_networks json (err (api not_found)) = ok tt
validate_existing_global_networks json (err e) = err e
validate_existing_global_networks json (ok cm) =
    get_global_networks json cm >>= λ info. is_valid_cidr info.globalnet_cidr_range

-- The map of a broker without globalnet has no range, and is refused.
pub validate_existing_global_networks-general_globalnet_config_map :
    (json : Json) (laws : JsonLaws json) (range : Text) (size : ℕ) (cm : ConfigMap)
    → validate_existing_global_networks json
        (ok (general_globalnet_config_map json false range size cm))
      ≡ err invalid_cidr_text
unfolding validate_existing_global_networks is_valid_cidr parse_cidr parse_ipv4 parse_octet dtoi
validate_existing_global_networks-general_globalnet_config_map json laws range size cm =
    rw (get_global_networks-general_globalnet_config_map json laws cm false range size) refl
