-- ===== src/Discovery.antt =====
-- controllers/discovery/network: network.go, generic.go and pods.go. What the cluster answers is a
-- parameter; nil is `none`. Where the code panics, the result is `none` too.
pub mod Order
pub mod Plugins
pub mod ServiceRange
pub mod Cluster
use cluster_fabric_operator.Base.{
  ℕ, ◌==◌, Bool, true, false, not, ◌&&◌, ◌||◌, Text, codes, is_empty, has_prefix, split, List, [],
  ◌∷◌, ◌++◌, Option, none, some, Result, ok, err, ◌>>=◌, Error, if◌then◌else◌,
}

-- `ClusterNetwork`
pub record ClusterNetwork : Type 0 where
  pub pod_cidrs : List Text
  pub service_cidrs : List Text
  pub network_plugin : Text
  pub plugin_settings : List (Text × Text)
  pub global_cidr : Text

abbrev pub is_nil : List Text → Bool
is_nil [] = true
is_nil (x ∷ xs) = false

-- `IsComplete` of a network that is there.
unfoldable pub is_complete : ClusterNetwork → Bool
is_complete cn = not (is_nil cn.service_cidrs) && not (is_nil cn.pod_cidrs)

abbrev pub part_1 : List Text → Option Text
part_1 [] = none
part_1 (p ∷ []) = none
part_1 (p ∷ q ∷ ps) = some q

-- What a search for the parameter comes to.
pub data Found : Type 0 where
  nothing panics : Found
  found : Text → Found

-- `strings.Split(arg, "=")[1]`
unfoldable pub value_of : Text → Found
value_of arg = elim (part_1 (split b'=' arg)) [ none ↦ panics | some value ↦ found value ]

-- The first of the arguments that begins with the parameter.
unfoldable pub first_with : Text → List Text → Found
first_with parameter [] = nothing
first_with parameter (arg ∷ rest) =
    if has_prefix arg parameter then value_of arg else first_with parameter rest

-- One argument of a command, with those in it where it has spaces. A text without a space is its
-- own one part, which has not the prefix.
unfoldable pub in_arg : Text → Text → Found
in_arg parameter arg =
    if has_prefix arg parameter then value_of arg else first_with parameter (split b' ' arg)

-- The loops of `findPodCommandParameter` over the commands of the pod's containers.
unfoldable pub in_args : Text → List Text → Found
in_args parameter [] = nothing
in_args parameter (arg ∷ rest) = elim (in_arg parameter arg) [
  | nothing ↦ in_args parameter rest
  | panics ↦ panics
  | found value ↦ found value
]

unfoldable pub in_containers : Text → List (List Text) → Found
in_containers parameter [] = nothing
in_containers parameter (command ∷ rest) = elim (in_args parameter command) [
  | nothing ↦ in_containers parameter rest
  | panics ↦ panics
  | found value ↦ found value
]

-- A result, or a panic.
abbrev pub Outcome : Type 0
Outcome = Option (Result Text)

-- `findPodCommandParameter`, from the commands of the pod that was found, if any.
unfoldable pub find_pod_command_parameter : Result (Option (List (List Text))) → Text → Outcome
find_pod_command_parameter (err e) parameter = some (err e)
find_pod_command_parameter (ok none) parameter = some (ok [])
find_pod_command_parameter (ok (some commands)) parameter =
    elim (in_containers parameter commands) [
      | nothing ↦ some (ok [])
      | panics ↦ none
      | found value ↦ some (ok value)
    ]

-- `if err != nil || range != "" { return }` before what follows.
abbrev pub or_next : Outcome → Outcome → Outcome
or_next none next = none
or_next (some (err e)) next = some (err e)
or_next (some (ok [])) next = next
or_next (some (ok (c ∷ s))) next = some (ok (c ∷ s))

-- `parseToPodCidr`
unfoldable pub parse_to_pod_cidr : List Text → Text
parse_to_pod_cidr [] = []
parse_to_pod_cidr (cidr ∷ rest) = if is_empty cidr then parse_to_pod_cidr rest else cidr

-- What the cluster answers: the pods by label, the pod CIDRs of the nodes, the error that the
-- creation of an invalid service gives.
pub record Answers : Type 0 where
  pub pods : Text → Result (Option (List (List Text)))
  pub node_cidrs : Result (List Text)
  pub service_range : Result Text

module _ (answers : Answers) where
  -- `findPodIPRangeFromNodeSpec`
  unfoldable pub find_pod_ip_range_from_node_spec : Outcome
  find_pod_ip_range_from_node_spec =
      some (answers.node_cidrs >>= λ nodes. ok (parse_to_pod_cidr nodes))

  -- `findPodIPRange`
  unfoldable pub find_pod_ip_range : Outcome
  find_pod_ip_range =
      or_next
        (find_pod_command_parameter (answers.pods (codes "component=kube-controller-manager"))
          (codes "--cluster-cidr"))
        (or_next
          (find_pod_command_parameter (answers.pods (codes "component=kube-proxy"))
            (codes "--cluster-cidr"))
          find_pod_ip_range_from_node_spec)

  -- `findClusterIPRange`
  unfoldable pub find_cluster_ip_range : Outcome
  find_cluster_ip_range =
      or_next
        (find_pod_command_parameter (answers.pods (codes "component=kube-apiserver"))
          (codes "--service-cluster-ip-range"))
        (some answers.service_range)

-- A list of the text, unless it is empty.
abbrev pub list_of_text : Text → List Text
list_of_text [] = []
list_of_text (c ∷ s) = (c ∷ s) ∷ []

-- The end of `discoverNetwork`: nothing, if neither range was found.
unfoldable pub network_of : Text → Text → Option ClusterNetwork
network_of pods services =
    if is_empty pods && is_empty services
    then none
    else some (record {
      pod_cidrs = list_of_text pods;
      service_cidrs = list_of_text services;
      network_plugin = codes "generic";
      plugin_settings = [];
      global_cidr = [];
    })

-- The part of `discoverNetwork` behind the search for the pods' range.
abbrev pub with_services : Text → Outcome → Option (Result (Option ClusterNetwork))
with_services pods none = none
with_services pods (some (err e)) = some (err e)
with_services pods (some (ok services)) = some (ok (network_of pods services))

abbrev pub with_pods : Outcome → Outcome → Option (Result (Option ClusterNetwork))
with_pods none services = none
with_pods (some (err e)) services = some (err e)
with_pods (some (ok pods)) services = with_services pods services

-- `discoverGenericNetwork`, with `discoverNetwork`.
unfoldable pub discover_generic_network : Answers → Option (Result (Option ClusterNetwork))
discover_generic_network answers =
    with_pods (find_pod_ip_range answers) (find_cluster_ip_range answers)

-- The networks that a plugin's discovery answers with: an error, nothing, or a network.
abbrev pub Discovered : Type 0
Discovered = Result (Option ClusterNetwork)

-- `if err != nil || net != nil { return }` before the next plugin, over the plugins in order.
unfoldable pub network_plugins_discovery : List Discovered → Discovered
network_plugins_discovery [] = ok none
network_plugins_discovery (err e ∷ rest) = err e
network_plugins_discovery (ok none ∷ rest) = network_plugins_discovery rest
network_plugins_discovery (ok (some net) ∷ rest) = ok (some net)

abbrev pub or_else : List Text → List Text → List Text
or_else [] other = other
or_else (x ∷ xs) other = x ∷ xs

-- The completion of what a plugin found by what the generic discovery finds.
unfoldable pub complete_with : ClusterNetwork → Discovered → Discovered
complete_with net (err e) = err e
complete_with net (ok none) = ok (some net)
complete_with net (ok (some generic)) = ok (
    some (record net {
      service_cidrs = or_else net.service_cidrs generic.service_cidrs;
      pod_cidrs = or_else net.pod_cidrs generic.pod_cidrs;
    }))

-- The answer to the read of the global CIDR, whose error is dropped.
abbrev pub or_empty : Result Text → Text
or_empty (ok t) = t
or_empty (err e) = []

-- `Discover`, from the answers of the plugins, of the generic discovery and of the read.
unfoldable pub discover : List Discovered → Discovered → Result Text → Discovered
discover plugins generic global_cidr = elim (network_plugins_discovery plugins) [
  | err e ↦ err e
  | ok found_net ↦ elim found_net [
    | none ↦ generic
    | some net ↦
        let named : ClusterNetwork = record net { global_cidr = or_empty global_cidr } in
        if is_complete named then ok (some named) else complete_with named generic
  ]
]
