-- ===== src/Broker/Info.antt =====
-- controllers/ensures/broker/brokerinfo_cm.go: what a joining cluster has to know of the broker; and
-- the components of controllers/components/consts.go.
use cluster_fabric_operator.Base.{
  ℕ, ◌≡◌, refl, sym, ap, Bool, false, Text, codes, List, [], ◌∷◌, Option, none, some, Result, ok,
  err, ◌>>=◌,
}
use cluster_fabric_operator.StringSet.{SetType, new_set_type, contains, elements, add_all, has_key}

-- The data of a secret.
abbrev pub Secret : Type 0
Secret = List (Text × Text)

-- `BrokerInfo`
pub record BrokerInfo : Type 0 where
  pub broker_url : Text
  pub client_token : Secret
  pub ipsec_psk : Secret
  pub components : List Text
  pub custom_domains : Option (List Text)
  pub globalnet_cidr_range : Text
  pub default_globalnet_cluster_size : ℕ

-- `BrokerConfig`
pub record BrokerConfig : Type 0 where
  pub service_discovery_enabled : Bool
  pub globalnet_enable : Bool
  pub globalnet_cidr_range : Text
  pub default_globalnet_cluster_size : ℕ
  pub default_custom_domains : List Text

unfoldable pub set_components : SetType → BrokerInfo → BrokerInfo
set_components set info = record info { components = elements set }

unfoldable pub get_components : BrokerInfo → SetType
get_components info = new_set_type info.components

unfoldable pub is_connectivity_enabled : BrokerInfo → Bool
is_connectivity_enabled info = contains (get_components info) (codes "connectivity")

unfoldable pub is_service_discovery_enabled : BrokerInfo → Bool
is_service_discovery_enabled info = contains (get_components info) (codes "service-discovery")

unfoldable pub is_globalnet_enabled : BrokerInfo → Bool
is_globalnet_enabled info = contains (get_components info) (codes "globalnet")

-- `NewFromCluster`, from the answers to its reads: the token's secret, and a fresh key.
unfoldable pub new_from_cluster : Result Secret → Result Secret → Text → Result BrokerInfo
new_from_cluster token psk url = do
  client_token ← token
  ipsec_psk ← psk
  ok (record {
    broker_url = url;
    client_token = client_token;
    ipsec_psk = ipsec_psk;
    components = [];
    custom_domains = none;
    globalnet_cidr_range = [];
    default_globalnet_cluster_size = 0;
  })

abbrev pub domains_of : List Text → Option (List Text)
domains_of [] = none
domains_of (d ∷ ds) = some (d ∷ ds)

-- `CreateBrokerInfoConfigMap`, up to the write.
unfoldable pub create_broker_info :
    Result Secret → Result Secret → Text → BrokerConfig → Result BrokerInfo
create_broker_info token psk url config = do
  info ← new_from_cluster token psk url
  ok (record info {
    globalnet_cidr_range = config.globalnet_cidr_range;
    default_globalnet_cluster_size = config.default_globalnet_cluster_size;
    custom_domains = domains_of config.default_custom_domains;
  })

abbrev components_of : Result BrokerInfo → List Text
components_of (err e) = []
components_of (ok info) = info.components

-- Whatever components the broker is deployed with, the information written for the clusters has
-- none of them: to a joining cluster, connectivity, service discovery and globalnet are all off.
pub create_broker_info-disabled :
    (token psk : Result Secret) (url : Text) (config : BrokerConfig) (info : BrokerInfo)
    → create_broker_info token psk url config ≡ ok info
    → (is_connectivity_enabled info ≡ false)
      × (is_service_discovery_enabled info ≡ false)
      × (is_globalnet_enabled info ≡ false)
unfolding create_broker_info new_from_cluster is_connectivity_enabled is_service_discovery_enabled
    is_globalnet_enabled get_components new_set_type contains add_all has_key
create_broker_info-disabled (err e) psk url config info h = absurd (cc h)
create_broker_info-disabled (ok t) (err e) url config info h = absurd (cc h)
create_broker_info-disabled (ok t) (ok k) url config info h =
    let none_set : info.components ≡ [] = sym (ap components_of h) in
    (rw none_set refl, rw none_set refl, rw none_set refl)
