-- ===== src/Join/Specs.antt =====
-- controllers/join_broker.go: `populateSubmarinerSpec` and `populateServiceDiscoverySpec`. The base64
-- encoding is a parameter. A null list of domains is `none`. Where the code panics, the result is
-- `none`.
use cluster_fabric_operator.Base.{
  ℕ, ◌≡◌, refl, ◌∙◌, sym, ap, Bool, true, false, Text, codes, is_empty, List, [], ◌∷◌, Option, none,
  some, Result, ok, err, if◌then◌else◌,
}
use cluster_fabric_operator.Globalnet.{Config}
use cluster_fabric_operator.Broker.GlobalnetMap.{value_at}
use cluster_fabric_operator.Broker.Info.{
  BrokerInfo, Secret, is_service_discovery_enabled, is_globalnet_enabled,
}
use cluster_fabric_operator.Join.Settings.{
  remove_schema_prefix, get_image_overrides, get_custom_core_dns_params, get_image_version,
  get_image_repo, get_cidr,
}

-- `JoinConfig`
pub record JoinConfig : Type 0 where
  pub cluster_id : Text
  pub service_cidr : Text
  pub cluster_cidr : Text
  pub repository : Text
  pub image_version : Text
  pub natt_port : ℕ
  pub ike_port : ℕ
  pub nat_traversal : Bool
  pub preferred_server : Bool
  pub force_udp_encaps : Bool
  pub ipsec_debug : Bool
  pub submariner_debug : Bool
  pub label_gateway : Bool
  pub cable_driver : Text
  pub custom_domains : Option (List Text)
  pub image_override_arr : List Text
  pub coredns_custom_config_map : Text

-- `SubmarinerSpec`, as far as it is set. The fields that both specs have come first.
pub record SubmarinerSpec : Type 0 where
  pub repository : Text
  pub version : Text
  pub broker_k8s_ca : Text
  pub broker_k8s_remote_namespace : Text
  pub broker_k8s_api_server_token : Text
  pub broker_k8s_api_server : Text
  pub debug : Bool
  pub cluster_id : Text
  pub namespace : Text
  pub image_overrides : List (Text × Text)
  pub core_dns_custom_config : Option (Text × Text)
  pub custom_domains : List Text
  pub ce_ipsec_natt_port : ℕ
  pub ce_ipsec_ike_port : ℕ
  pub ce_ipsec_debug : Bool
  pub ce_ipsec_force_udp_encaps : Bool
  pub ce_ipsec_preferred_server : Bool
  pub ce_ipsec_psk : Text
  pub broker : Text
  pub nat_enabled : Bool
  pub service_cidr : Text
  pub cluster_cidr : Text
  pub cable_driver : Text
  pub service_discovery_enabled : Bool
  pub global_cidr : Text

-- `ServiceDiscoverySpec`
pub record ServiceDiscoverySpec : Type 0 where
  pub repository : Text
  pub version : Text
  pub broker_k8s_ca : Text
  pub broker_k8s_remote_namespace : Text
  pub broker_k8s_api_server_token : Text
  pub broker_k8s_api_server : Text
  pub debug : Bool
  pub cluster_id : Text
  pub namespace : Text
  pub image_overrides : List (Text × Text)
  pub core_dns_custom_config : Option (Text × Text)
  pub custom_domains : List Text
  pub globalnet_enabled : Bool

abbrev pub operator_namespace : Text
operator_namespace = codes "submariner-operator"

-- The namespace and the name of the CoreDNS config map, where one is set.
unfoldable pub core_dns_of : Text → Option (Text × Text)
core_dns_of config = if is_empty config then none else some (get_custom_core_dns_params config)

-- A CIDR that was discovered is left out.
unfoldable pub cr_cidr : Bool → Text → Text
cr_cidr auto_detected cidr = if auto_detected then [] else cidr

abbrev pub list_of : Option (List Text) → List Text
list_of none = []
list_of (some ds) = ds

-- `customDomains` of `populateServiceDiscoverySpec`: the broker's, unless the cluster has its own.
abbrev pub service_domains : Option (List Text) → Option (List Text) → List Text
service_domains (some own) brokers = []
service_domains none brokers = list_of brokers

-- What follows the call of `getImageOverrides`.
abbrev pub with_overrides {ℓ} :
    {A : Type ℓ}
    → (List (Text × Text) → A)
    → Option (Result (List (Text × Text)))
    → Option (Result A)
with_overrides build none = none
with_overrides build (some (err e)) = some (err e)
with_overrides build (some (ok overrides)) = some (ok (build overrides))

pub with_overrides-ok {ℓ} :
    {A : Type ℓ} (build : List (Text × Text) → A) (r : Option (Result (List (Text × Text))))
    (spec : A)
    → with_overrides build r ≡ some (ok spec)
    → (overrides : List (Text × Text)) × (build overrides ≡ spec)
with_overrides-ok build none spec h = absurd (cc h)
with_overrides-ok build (some (err e)) spec h = absurd (cc h)
with_overrides-ok build (some (ok overrides)) spec h = (overrides, cc h)

cr_cidr-get_cidr :
    (given : Text) (discovered : List Text) (cidr : Text) (auto_detected : Bool)
    → get_cidr given discovered ≡ ok (cidr, auto_detected)
    → cr_cidr auto_detected cidr ≡ given
unfolding get_cidr cr_cidr
cr_cidr-get_cidr [] [] cidr auto_detected h = absurd (cc h)
cr_cidr-get_cidr [] (d ∷ ds) cidr auto_detected h =
    let auto : auto_detected ≡ true = cc h in rw auto refl
cr_cidr-get_cidr (c ∷ s) discovered cidr auto_detected h =
    let auto : auto_detected ≡ false = cc h in let same : cidr ≡ c ∷ s = cc h in rw auto same

module _ (encode : Text → Text) (client_token : Secret) where
  unfoldable pub submariner_spec :
      JoinConfig → BrokerInfo → Config → List (Text × Text) → SubmarinerSpec
  submariner_spec join info netconfig overrides = record {
    repository = get_image_repo join.repository;
    version = get_image_version join.image_version;
    broker_k8s_ca = encode (value_at (codes "ca.crt") info.client_token);
    broker_k8s_remote_namespace = value_at (codes "namespace") info.client_token;
    broker_k8s_api_server_token = value_at (codes "token") client_token;
    broker_k8s_api_server = remove_schema_prefix info.broker_url;
    debug = join.submariner_debug;
    cluster_id = join.cluster_id;
    namespace = operator_namespace;
    image_overrides = overrides;
    core_dns_custom_config = core_dns_of join.coredns_custom_config_map;
    custom_domains = list_of info.custom_domains;
    ce_ipsec_natt_port = join.natt_port;
    ce_ipsec_ike_port = join.ike_port;
    ce_ipsec_debug = join.ipsec_debug;
    ce_ipsec_force_udp_encaps = join.force_udp_encaps;
    ce_ipsec_preferred_server = join.preferred_server;
    ce_ipsec_psk = encode (value_at (codes "psk") info.ipsec_psk);
    broker = codes "k8s";
    nat_enabled = join.nat_traversal;
    service_cidr = cr_cidr netconfig.service_cidr_auto_detected netconfig.service_cidr;
    cluster_cidr = cr_cidr netconfig.cluster_cidr_auto_detected netconfig.cluster_cidr;
    cable_driver = join.cable_driver;
    service_discovery_enabled = is_service_discovery_enabled info;
    global_cidr =
        if is_empty netconfig.globalnet_cidr
        then info.globalnet_cidr_range
        else netconfig.globalnet_cidr;
  }

  -- `populateSubmarinerSpec`
  unfoldable pub populate_submariner_spec :
      JoinConfig → BrokerInfo → Config → Option (Result SubmarinerSpec)
  populate_submariner_spec join info netconfig =
      with_overrides (submariner_spec join info netconfig)
        (get_image_overrides join.image_override_arr)

  unfoldable pub service_discovery_spec :
      JoinConfig → BrokerInfo → List (Text × Text) → ServiceDiscoverySpec
  service_discovery_spec join info overrides = record {
    repository = join.repository;
    version = join.image_version;
    broker_k8s_ca = encode (value_at (codes "ca.crt") info.client_token);
    broker_k8s_remote_namespace = value_at (codes "namespace") info.client_token;
    broker_k8s_api_server_token = value_at (codes "token") client_token;
    broker_k8s_api_server = remove_schema_prefix info.broker_url;
    debug = join.submariner_debug;
    cluster_id = join.cluster_id;
    namespace = operator_namespace;
    image_overrides = overrides;
    core_dns_custom_config = core_dns_of join.coredns_custom_config_map;
    custom_domains = service_domains join.custom_domains info.custom_domains;
    globalnet_enabled = is_globalnet_enabled info;
  }

  -- `populateServiceDiscoverySpec`
  unfoldable pub populate_service_discovery_spec :
      JoinConfig → BrokerInfo → Option (Result ServiceDiscoverySpec)
  populate_service_discovery_spec join info =
      with_overrides (service_discovery_spec join info)
        (get_image_overrides join.image_override_arr)

  -- The spec has exactly the service CIDR and the pod CIDR that the user gave, and none where they
  -- were discovered, whatever the discovery found.
  pub populate_submariner_spec-get_cidr :
      (join : JoinConfig) (info : BrokerInfo) (netconfig : Config) (spec : SubmarinerSpec)
      (services pods : List Text)
      → get_cidr join.service_cidr services
        ≡ ok (netconfig.service_cidr, netconfig.service_cidr_auto_detected)
      → get_cidr join.cluster_cidr pods
        ≡ ok (netconfig.cluster_cidr, netconfig.cluster_cidr_auto_detected)
      → populate_submariner_spec join info netconfig ≡ some (ok spec)
      → (spec.service_cidr ≡ join.service_cidr) × (spec.cluster_cidr ≡ join.cluster_cidr)
  populate_submariner_spec-get_cidr join info netconfig spec services pods got_services got_pods
        populated =
      let (overrides, made) =
        with_overrides-ok (submariner_spec join info netconfig)
          (get_image_overrides join.image_override_arr) spec
          (unfold populate_submariner_spec in populated) in
      (
        sym (ap (λ (x : SubmarinerSpec). x.service_cidr) made)
            ∙ (unfold submariner_spec in
                cr_cidr-get_cidr join.service_cidr services netconfig.service_cidr
                  netconfig.service_cidr_auto_detected got_services),
        sym (ap (λ (x : SubmarinerSpec). x.cluster_cidr) made)
            ∙ (unfold submariner_spec in
                cr_cidr-get_cidr join.cluster_cidr pods netconfig.cluster_cidr
                  netconfig.cluster_cidr_auto_detected got_pods),
      )
