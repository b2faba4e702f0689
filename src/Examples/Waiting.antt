-- ===== src/Examples/Waiting.antt =====
-- The waits, the requirements, the discovery and the broker's information at work.
use cluster_fabric_operator.Base.{
  ℕ, zero, suc, ◌≤◌, ◌<◌, ◌≡◌, refl, ◌↔◌, ◌⊎◌, inr, arith, Bool, true, false, Text, codes, text_eq,
  drop, List, [], ◌∷◌, ◌++◌, Option, none, some, Result, ok, err,
}
use cluster_fabric_operator.Base.{
  Error.api, ApiError.not_found, ApiError.conflict, Error.no_secret, Error.bad_json,
}
use cluster_fabric_operator.Base.Action.{returns, Call}
use cluster_fabric_operator.Operator.Resource.{
  ResourceClient, resource_round, after_get, create_round, delete_round, ensure_resource,
}
use cluster_fabric_operator.Operator.Resource.Recreated.{
  IsCreated, Vanishes, gone, going, alive, ensure_resource-IsCreated, ensure_resource-returns,
}
use cluster_fabric_operator.Broker.Token.{
  IsAnswered, wait_for_client_token, wait_for_client_token-IsAnswered,
}
use cluster_fabric_operator.Join.Gateway.Labels.{add_labels_to_node, add_labels_to_node-conflicts}
use cluster_fabric_operator.Requirements.{ℤ, pos, check_requirements, check_requirements_iff}
use cluster_fabric_operator.Discovery.ServiceRange.{
  find_cluster_ip_range_from_service_creation, parse_service_cidr_from-marker,
}
use cluster_fabric_operator.Broker.GlobalnetMap.{ConfigMap}
use cluster_fabric_operator.Broker.Info.{BrokerInfo}
use cluster_fabric_operator.Broker.Codec.{
  Codec, CodecLaws, info_map, to_string, write_config_map, new_from_config_map,
  new_from_config_map-write_config_map,
}
use cluster_fabric_operator.Examples.Loops.{test_loops}

-- The resource of the old spec, or of a new one; one under deletion goes after so many reads.
data Stored : Type 0 where
  no_resource : Stored
  resource : ℕ → Stored
  under_deletion : ℕ → Stored

abbrev get_stored : Stored → Result Bool × Stored
get_stored no_resource = (err (api not_found), no_resource)
get_stored (resource spec) = (ok false, resource spec)
get_stored (under_deletion zero) = (err (api not_found), no_resource)
get_stored (under_deletion (suc n)) = (ok true, under_deletion n)

abbrev test_resource : ResourceClient Stored ℕ
test_resource = record {
  get = get_stored;
  create = λ spec w. (ok tt, resource spec);
  delete = λ w. (ok tt, under_deletion 2);
}

replaced : ensure_resource test_resource test_loops 11 7 (resource 3) ≡ (returns tt, resource 7)
unfolding ensure_resource resource_round after_get create_round delete_round
replaced = refl

ensure_resource-IsCreated_example : IsCreated test_resource 7 (resource 7)
ensure_resource-IsCreated_example =
    ensure_resource-IsCreated test_resource 7 test_loops 10 (resource 3) (resource 7) replaced

old-Vanishes : Vanishes test_resource 7 3 (resource 3)
old-Vanishes = alive refl refl (going refl (going refl (gone refl refl)))

ensure_resource-returns_example :
    (ensure_resource test_resource test_loops 11 7 (resource 3)).0 ≡ returns tt
ensure_resource-returns_example =
    ensure_resource-returns test_resource 7 test_loops 3 10 (resource 3) (omega arith) old-Vanishes

-- The token is there after so many reads.
abbrev read_token : ℕ → Result Text × ℕ
read_token zero = (ok (codes "secret"), zero)
read_token (suc n) = (err no_secret, n)

wait_for_client_token-IsAnswered_example :
    IsAnswered read_token 3 (wait_for_client_token read_token test_loops 10 3)
wait_for_client_token-IsAnswered_example =
    wait_for_client_token-IsAnswered read_token test_loops 9 3

abbrev busy_patch : Text → ℕ → Result (Unit {0}) × ℕ
busy_patch node n = (err (api conflict), suc n)

add_labels_to_node-conflicts_example :
    (add_labels_to_node busy_patch test_loops 10 (codes "worker") 0).0 ≡ returns tt
add_labels_to_node-conflicts_example =
    add_labels_to_node-conflicts busy_patch test_loops 9 (codes "worker") 0 (λ v. refl)

abbrev read_number : Text → Option ℤ
read_number t = elim (text_eq t (codes "1")) [ true ↦ some (pos 1) | false ↦ some (pos 20) ]

check_requirements_iff_example :
    (check_requirements read_number (ok tt) (ok (record { major = codes "1"; minor = codes "20+" }))
      ≡ ([], none))
    ↔ ((1 < 1) ⊎ (◌≡◌ {A = ℕ} 1 1 × (15 ≤ 20)))
unfolding text_eq
check_requirements_iff_example =
    check_requirements_iff read_number (record { major = codes "1"; minor = codes "20+" })
      (codes "20") 1 20 (inr refl) (refl, (refl, tt)) refl refl

parse_service_cidr_from-marker_example :
    find_cluster_ip_range_from_service_creation
      (some (codes "The range of " ++ (codes "valid IPs is " ++ codes "10.45.0.0/16")))
    ≡ ok (codes "10.45.0.0/16")
parse_service_cidr_from-marker_example =
    parse_service_cidr_from-marker (codes "The range of ") (codes "10.45.0.0/16")
      (
        refl,
        (refl, (refl, (refl, (refl, (refl, (refl, (refl, (refl, (refl, (refl, (refl, tt))))))))))),
      )
      (
        refl,
        (refl, (refl, (refl, (refl, (refl, (refl, (refl, (refl, (refl, (refl, (refl, tt))))))))))),
      )

-- The information that has nothing but its URL.
abbrev plain_info : Text → BrokerInfo
plain_info url = record {
  broker_url = url;
  client_token = [];
  ipsec_psk = [];
  components = [];
  custom_domains = none;
  globalnet_cidr_range = [];
  default_globalnet_cluster_size = 0;
}

-- JSON of the information that has nothing but its URL.
abbrev marshal_fields :
    Text
    → List (Text × Text)
    → List (Text × Text)
    → List Text
    → Option (List Text)
    → Text
    → ℕ
    → Result Text
marshal_fields url [] [] [] none [] zero = ok url
marshal_fields url token psk components domains range size = err bad_json

abbrev test_codec : Codec
test_codec = record {
  marshal = λ info.
      marshal_fields info.broker_url info.client_token info.ipsec_psk info.components
        info.custom_domains info.globalnet_cidr_range info.default_globalnet_cluster_size;
  unmarshal = λ t. ok (plain_info t);
  encode = λ t. b'e' ∷ t;
  decode = λ t. ok (drop 1 t);
}

marshal_fields-plain :
    (url : Text) (token psk : List (Text × Text)) (components : List Text)
    (domains : Option (List Text)) (range : Text) (size : ℕ) (t : Text)
    → marshal_fields url token psk components domains range size ≡ ok t
    → ◌≡◌ {A = Result BrokerInfo} (ok (plain_info t)) (
        ok (record {
          broker_url = url;
          client_token = token;
          ipsec_psk = psk;
          components = components;
          custom_domains = domains;
          globalnet_cidr_range = range;
          default_globalnet_cluster_size = size;
        }))
marshal_fields-plain url [] [] [] none [] zero t h = let same : t ≡ url = cc h in rw same refl
marshal_fields-plain url token psk components domains range size t h = absurd (cc h)

abbrev put_config : ConfigMap → Call ConfigMap (Unit {0})
put_config cm w = (ok tt, cm)

abbrev get_config : Call ConfigMap ConfigMap
get_config w = (ok w, w)

test_codec-laws : CodecLaws test_codec put_config get_config
test_codec-laws = record {
  decoded = λ t. refl;
  unmarshalled = λ info t.
      marshal_fields-plain info.broker_url info.client_token info.ipsec_psk info.components
        info.custom_domains info.globalnet_cidr_range info.default_globalnet_cluster_size t;
  stored = λ cm w e. refl;
}

abbrev no_config : ConfigMap
no_config = record { labels = []; entries = [] }

new_from_config_map-write_config_map_example :
    (new_from_config_map test_codec put_config get_config
      (write_config_map test_codec put_config get_config
        (codes "fabric")
        (codes "default")
        (plain_info (codes "https://host"))
        no_config).1).0
    ≡ ok (plain_info (codes "https://host"))
unfolding write_config_map info_map to_string
new_from_config_map-write_config_map_example =
    new_from_config_map-write_config_map test_codec put_config get_config test_codec-laws
      (codes "fabric") (codes "default") (plain_info (codes "https://host")) no_config refl
