-- ===== src/Discovery/Plugins.antt =====
-- controllers/discovery/network: the discovery of each network plugin, in openshift4.go, weavenet.go,
-- canal.go, flannel.go, ovnkubernetes.go and calico.go. What the cluster answers is a parameter.
pub mod Openshift
use cluster_fabric_operator.Base.{
  ℕ, ◌==◌, ◌-◌, leb, Bool, true, false, not, ◌&&◌, Text, codes, text_eq, is_empty, List, [], ◌∷◌,
  ◌++◌, map, Option, none, some, Result, ok, err, Error, if◌then◌else◌,
}
use cluster_fabric_operator.Base.{Error.api, ApiError.not_found, Error.ovn_service_not_found}
use cluster_fabric_operator.Discovery.{
  ClusterNetwork, Outcome, Discovered, list_of_text, network_of, is_nil,
}

-- A network of the plugin, with nothing but its pods' CIDRs.
unfoldable pub pod_network : Text → List Text → ClusterNetwork
pod_network plugin pods = record {
  pod_cidrs = pods;
  service_cidrs = [];
  network_plugin = plugin;
  plugin_settings = [];
  global_cidr = [];
}

abbrev pub with_service_range : ClusterNetwork → Text → ClusterNetwork
with_service_range net range = record net { service_cidrs = list_of_text range }

-- The environment of each container of a pod: names and values.
abbrev pub Env : Type 0
Env = List (Text × Text)

-- The first value of the variable.
unfoldable pub env_value : Text → Env → Option Text
env_value name [] = none
env_value name ((n, v) ∷ rest) = if text_eq n name then some v else env_value name rest

-- The loop of `discoverWeaveNetwork`: a later container that has the variable replaces an earlier.
unfoldable pub weave_range : Option Text → List Env → Option Text
weave_range last [] = last
weave_range last (env ∷ rest) = elim (env_value (codes "IPALLOC_RANGE") env) [
  | none ↦ weave_range last rest
  | some range ↦ weave_range (some range) rest
]

-- The service range of a discovery that drops the error of the search.
unfoldable pub with_found_range : ClusterNetwork → Outcome → Option Discovered
with_found_range net none = none
with_found_range net (some (err e)) = some (ok (some net))
with_found_range net (some (ok range)) = some (ok (some (with_service_range net range)))

-- The part of `discoverWeaveNetwork` behind the loop.
unfoldable pub weave_network : Option Text → Outcome → Option Discovered
weave_network none services = some (ok none)
weave_network (some range) services =
    with_found_range (pod_network (codes "weave-net") (range ∷ [])) services

-- `discoverWeaveNetwork`, from the pod and from the search for the service range.
unfoldable pub discover_weave_network : Result (Option (List Env)) → Outcome → Option Discovered
discover_weave_network (err e) services = some (err e)
discover_weave_network (ok none) services = some (ok none)
discover_weave_network (ok (some envs)) services = weave_network (weave_range none envs) services

-- `extractPodCIDRFromNetConfigJSON`, over the decoder of the field `Network`.
unfoldable pub extract_pod_cidr_from_net_config_json : (Text → Option Text) → Text → Option Text
extract_pod_cidr_from_net_config_json decode net_conf =
    if is_empty net_conf then none else decode net_conf

-- The service range of a discovery that fails if the search fails.
unfoldable pub with_checked_range : ClusterNetwork → Outcome → Option Discovered
with_checked_range net none = none
with_checked_range net (some (err e)) = some (err e)
with_checked_range net (some (ok range)) = some (ok (some (with_service_range net range)))

abbrev pub flannel_network : Text → Option Text → Outcome → Option Discovered
flannel_network plugin none services = some (ok none)
flannel_network plugin (some cidr) services =
    with_checked_range (pod_network plugin (cidr ∷ [])) services

-- A config map that is not there is no error.
abbrev pub unless_missing : Error → Discovered
unless_missing (api not_found) = ok none
unless_missing e = err e

-- `discoverCanalFlannelNetwork` and `discoverFlannelNetwork`, from the value of `net-conf.json` in
-- the plugin's config map. They differ by the config map and by the plugin's name.
unfoldable pub discover_flannel_config :
    Text → (Text → Option Text) → Result Text → Outcome → Option Discovered
discover_flannel_config plugin decode (err e) services = some (unless_missing e)
discover_flannel_config plugin decode (ok net_conf) services =
    flannel_network plugin (extract_pod_cidr_from_net_config_json decode net_conf) services

unfoldable pub discover_canal_flannel_network :
    (Text → Option Text) → Result Text → Outcome → Option Discovered
discover_canal_flannel_network = discover_flannel_config (codes "canal-flannel")

unfoldable pub discover_flannel_network :
    (Text → Option Text) → Result Text → Outcome → Option Discovered
discover_flannel_network = discover_flannel_config (codes "flannel")

-- `strings.ToUpper`, of the letters.
abbrev pub to_upper : Text → Text
to_upper = map λ c. if leb b'a' c && leb c b'z' then c - 32 else c

-- The loop over the variables of one container, and over the containers: whether the databases are
-- reached by SSL. It is never switched off again.
unfoldable pub ssl_in : Bool → Env → Bool
ssl_in ssl [] = ssl
ssl_in ssl ((name, v) ∷ rest) =
    if text_eq name (codes "OVN_SSL_ENABLE") && not (text_eq (to_upper v) (codes "NO"))
    then ssl_in true rest
    else ssl_in ssl rest

unfoldable pub ssl_of : Bool → List Env → Bool
ssl_of ssl [] = ssl
ssl_of ssl (env ∷ rest) = ssl_of (ssl_in ssl env) rest

-- `fmt.Sprintf("%s:%s.%s:%d", ...)`
unfoldable pub ovn_address : Bool → Text → Text → Text
ovn_address ssl namespace port =
    (if ssl then codes "ssl" else codes "tcp")
    ++ (codes ":ovnkube-db." ++ (namespace ++ (b':' ∷ port)))

abbrev pub one_or_none : Option Text → List Text
one_or_none none = []
one_or_none (some t) = t ∷ []

-- The CIDRs of the config map, whose error is dropped.
abbrev pub config_cidrs : Text → Result Env → List Text
config_cidrs key (err e) = []
config_cidrs key (ok entries) = one_or_none (env_value key entries)

unfoldable pub ovn_network : Text → List Env → Result Env → ClusterNetwork
ovn_network namespace envs config = record {
  pod_cidrs = config_cidrs (codes "net_cidr") config;
  service_cidrs = config_cidrs (codes "svc_cidr") config;
  network_plugin = codes "OVNKubernetes";
  plugin_settings =
      (codes "OVN_NBDB", ovn_address (ssl_of false envs) namespace (codes "6641"))
      ∷ (codes "OVN_SBDB", ovn_address (ssl_of false envs) namespace (codes "6642"))
      ∷ [];
  global_cidr = [];
}

-- `discoverOvnKubernetesNetwork`, from the pod, with its namespace, and the reads of the service and
-- of the config map.
unfoldable pub discover_ovn_kubernetes_network :
    Result (Option (Text × List Env))
    → (Text → Result (Unit {0}))
    → (Text → Result Env)
    → Discovered
discover_ovn_kubernetes_network (err e) service config = err e
discover_ovn_kubernetes_network (ok none) service config = ok none
discover_ovn_kubernetes_network (ok (some (namespace, envs))) service config =
    elim (service namespace) [
      | err e ↦ err ovn_service_not_found
      | ok _ ↦ ok (some (ovn_network namespace envs (config namespace)))
    ]

-- The loop over the names of the config maps.
unfoldable pub has_name : Text → List Text → Bool
has_name name [] = false
has_name name (n ∷ rest) = if text_eq n name then true else has_name name rest

abbrev pub named_calico : Discovered → Discovered
named_calico (err e) = err e
named_calico (ok none) = ok none
named_calico (ok (some net)) = ok (some (record net { network_plugin = codes "calico" }))

abbrev pub named_calico_or_panic : Option Discovered → Option Discovered
named_calico_or_panic none = none
named_calico_or_panic (some d) = some (named_calico d)

-- `discoverCalicoNetwork`, from the names of the config maps and the generic discovery.
unfoldable pub discover_calico_network : Result (List Text) → Option Discovered → Option Discovered
discover_calico_network (err e) generic = some (err e)
discover_calico_network (ok names) generic =
    if has_name (codes "calico-config") names then named_calico_or_panic generic else some (ok none)
