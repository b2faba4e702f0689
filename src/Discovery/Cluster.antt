-- ===== src/Discovery/Cluster.antt =====
-- controllers/discovery/network/network.go: `networkPluginsDiscovery` and `Discover` over the answers
-- of a cluster, with the panics of the plugins. A later plugin is not asked once one has answered.
use cluster_fabric_operator.Base.{
  ◌≡◌, refl, inl, inr, Bool-cases, Text, List, [], ◌∷◌, map, Option, none, some, Result, ok, err,
  if◌then◌else◌,
}
use cluster_fabric_operator.Discovery.{
  ClusterNetwork, Answers, Discovered, find_cluster_ip_range, discover_generic_network,
  network_plugins_discovery, is_complete, complete_with, or_empty, discover,
}
use cluster_fabric_operator.Discovery.Plugins.{
  Env, discover_weave_network, discover_canal_flannel_network, discover_ovn_kubernetes_network,
  discover_calico_network,
}
use cluster_fabric_operator.Discovery.Plugins.Openshift.{
  NetworkResource, present, discover_open_shift4_network, discover_open_shift4_network-all,
}

-- What the plugins read.
pub record PluginReads : Type 0 where
  pub network_resource : Option (Result NetworkResource)
  pub weave_pod : Result (Option (List Env))
  pub decode_network : Text → Option Text
  pub canal_config : Result Text
  pub ovn_pod : Result (Option (Text × List Env))
  pub ovn_service : Text → Result (Unit {0})
  pub ovn_config : Text → Result Env
  pub config_map_names : Result (List Text)
  pub global_cidr : Result Text

-- The first plugin that answers, or panics.
unfoldable pub first_answer : List (Option Discovered) → Option Discovered
first_answer [] = some (ok none)
first_answer (none ∷ rest) = none
first_answer (some (err e) ∷ rest) = some (err e)
first_answer (some (ok none) ∷ rest) = first_answer rest
first_answer (some (ok (some net)) ∷ rest) = some (ok (some net))

module _ (answers : Answers) (reads : PluginReads) where
  -- The plugins in the order of `networkPluginsDiscovery`.
  unfoldable pub plugins_in_order : List (Option Discovered)
  plugins_in_order =
      let services = find_cluster_ip_range answers in
      discover_open_shift4_network reads.network_resource
      ∷ discover_weave_network reads.weave_pod services
      ∷ discover_canal_flannel_network reads.decode_network reads.canal_config services
      ∷ some (discover_ovn_kubernetes_network reads.ovn_pod reads.ovn_service reads.ovn_config)
      ∷ discover_calico_network reads.config_map_names (discover_generic_network answers)
      ∷ []

  abbrev pub completed_by : ClusterNetwork → Option Discovered → Option Discovered
  completed_by net none = none
  completed_by net (some generic) = some (complete_with net generic)

  abbrev pub finished : Option Discovered → Option Discovered
  finished none = none
  finished (some (err e)) = some (err e)
  finished (some (ok none)) = discover_generic_network answers
  finished (some (ok (some net))) =
      let named : ClusterNetwork = record net { global_cidr = or_empty reads.global_cidr } in
      if is_complete named
      then some (ok (some named))
      else completed_by named (discover_generic_network answers)

  -- `Discover`
  unfoldable pub discover_cluster : Option Discovered
  discover_cluster = finished (first_answer plugins_in_order)

first_answer-some :
    (ds : List Discovered)
    → first_answer (map (λ d. some d) ds) ≡ some (network_plugins_discovery ds)
unfolding first_answer network_plugins_discovery
first_answer-some [] = refl
first_answer-some (err e ∷ ds) = refl
first_answer-some (ok none ∷ ds) = first_answer-some ds
first_answer-some (ok (some net) ∷ ds) = refl

-- Where no plugin panics, nor the generic discovery, the discovery is `discover` of their answers.
pub discover_cluster-discover :
    (answers : Answers) (reads : PluginReads) (ds : List Discovered) (generic : Discovered)
    → plugins_in_order answers reads ≡ map (λ d. some d) ds
    → discover_generic_network answers ≡ some generic
    → discover_cluster answers reads ≡ some (discover ds generic reads.global_cidr)
unfolding discover_cluster discover
discover_cluster-discover answers reads ds generic asked found =
    rw (discover_cluster, asked, first_answer-some ds)
      (by_first (network_plugins_discovery ds) refl)
  where
    by_first :
        (d : Discovered)
        → network_plugins_discovery ds ≡ d
        → finished answers reads (some (network_plugins_discovery ds))
          ≡ some (discover ds generic reads.global_cidr)
    by_first (err e) h = rw (h, discover) refl
    by_first (ok none) h = rw (h, discover) found
    by_first (ok (some net)) h =
        let named : ClusterNetwork = record net { global_cidr = or_empty reads.global_cidr } in
        elim (Bool-cases (is_complete named)) [
          | inl all ↦ rw (h, discover, all) refl
          | inr part ↦ rw (h, discover, part, found) refl
        ]

-- On a cluster with OpenShift's network resource, which has at least one cluster network and one
-- service network and all its fields, the discovery gives exactly its CIDRs, in order, its type as
-- the plugin, and the global CIDR that was read, whatever the other plugins would find.
pub discover_cluster-openshift :
    (answers : Answers) (reads : PluginReads) (pod service : Text) (pods services : List Text)
    (plugin : Text)
    → reads.network_resource
      ≡ some (
          ok (record {
            cluster_network = present (map (λ c. present c) (pod ∷ pods));
            service_network = present (map (λ c. some c) (service ∷ services));
            network_type = present plugin;
          }))
    → discover_cluster answers reads
      ≡ some (
          ok (
            some (record {
              pod_cidrs = pod ∷ pods;
              service_cidrs = service ∷ services;
              network_plugin = plugin;
              plugin_settings = [];
              global_cidr = or_empty reads.global_cidr;
            })))
unfolding discover_cluster plugins_in_order first_answer is_complete
discover_cluster-openshift answers reads pod service pods services plugin resource =
    rw
      (
        discover_cluster,
        plugins_in_order,
        resource,
        discover_open_shift4_network-all (pod ∷ pods) (service ∷ services) plugin,
      )
      refl
