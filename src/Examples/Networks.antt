-- ===== src/Examples/Networks.antt =====
-- The order of the discovery, and the search for a parameter, at work.
use cluster_fabric_operator.Base.{err, Error.bad_json}
use cluster_fabric_operator.Discovery.{Answers}
use cluster_fabric_operator.Discovery.Plugins.Openshift.{present}
use cluster_fabric_operator.Discovery.Cluster.{
  PluginReads, discover_cluster, discover_cluster-openshift,
}
use cluster_fabric_operator.Base.{◌≡◌, refl, codes, has_prefix, split, [], ◌∷◌, none, some, ok}
use cluster_fabric_operator.Discovery.{
  ClusterNetwork, discover, find_pod_command_parameter, in_containers, in_args, in_arg, value_of,
  first_with,
}
use cluster_fabric_operator.Base.{Text, List, Result, text_eq, if◌then◌else◌}
use cluster_fabric_operator.Join.Gateway.{handle_node_labels, get_worker_node_for_gateway}
use cluster_fabric_operator.Discovery.Order.{discover-first}

abbrev weave : ClusterNetwork
weave = record {
  pod_cidrs = codes "10.32.0.0/12" ∷ [];
  service_cidrs = [];
  network_plugin = codes "weave-net";
  plugin_settings = [];
  global_cidr = [];
}

abbrev generic : ClusterNetwork
generic = record {
  pod_cidrs = codes "10.1.0.0/16" ∷ [];
  service_cidrs = codes "10.2.0.0/16" ∷ [];
  network_plugin = codes "generic";
  plugin_settings = [];
  global_cidr = [];
}

discover-first_example :
    discover (ok none ∷ ok (some weave) ∷ []) (ok (some generic)) (ok [])
    ≡ ok (
        some (record {
          pod_cidrs = codes "10.32.0.0/12" ∷ [];
          service_cidrs = codes "10.2.0.0/16" ∷ [];
          network_plugin = codes "weave-net";
          plugin_settings = [];
          global_cidr = [];
        }))
discover-first_example = discover-first (ok none ∷ []) [] weave (some generic) (ok []) (refl, tt)

-- The parameter is found in a command that a shell runs.
shell_command :
    find_pod_command_parameter
      (ok (some ((codes "/bin/sh" ∷ codes "run --cluster-cidr=10.1.0.0/16 -v" ∷ []) ∷ [])))
      (codes "--cluster-cidr")
    ≡ some (ok (codes "10.1.0.0/16"))
unfolding find_pod_command_parameter in_containers in_args in_arg value_of first_with has_prefix
    split
shell_command = refl

-- A cluster of two nodes, neither of them labelled as a worker.
abbrev nodes_by_label : Text → Result (List Text)
nodes_by_label selector =
    if text_eq selector (codes "!node-role.kubernetes.io/master")
    then ok (codes "node-2" ∷ [])
    else ok []

chosen_node : handle_node_labels nodes_by_label ≡ ok (some (codes "node-2"))
unfolding handle_node_labels get_worker_node_for_gateway text_eq
chosen_node = refl

abbrev no_answers : Answers
no_answers = record {
  pods = λ label. err bad_json;
  node_cidrs = ok [];
  service_range = err bad_json;
}

abbrev openshift_reads : PluginReads
openshift_reads = record {
  network_resource = some (
      ok (record {
        cluster_network = present (present (codes "10.128.0.0/14") ∷ []);
        service_network = present (some (codes "172.30.0.0/16") ∷ []);
        network_type = present (codes "OpenShiftSDN");
      }));
  weave_pod = err bad_json;
  decode_network = λ t. none;
  canal_config = err bad_json;
  ovn_pod = err bad_json;
  ovn_service = λ namespace. err bad_json;
  ovn_config = λ namespace. err bad_json;
  config_map_names = err bad_json;
  global_cidr = ok (codes "242.0.0.0/8");
}

discover_cluster-openshift_example :
    discover_cluster no_answers openshift_reads
    ≡ some (
        ok (
          some (record {
            pod_cidrs = codes "10.128.0.0/14" ∷ [];
            service_cidrs = codes "172.30.0.0/16" ∷ [];
            network_plugin = codes "OpenShiftSDN";
            plugin_settings = [];
            global_cidr = codes "242.0.0.0/8";
          })))
discover_cluster-openshift_example =
    discover_cluster-openshift no_answers openshift_reads (codes "10.128.0.0/14")
      (codes "172.30.0.0/16") [] [] (codes "OpenShiftSDN") refl
