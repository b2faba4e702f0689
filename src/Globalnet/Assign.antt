-- ===== src/Globalnet/Assign.antt =====
-- controllers/discovery/globalnet/globalnet.go: the checks of a cluster's globalnet settings, and
-- the assignment of its global CIDR. Log lines are left out.
pub mod Overlap
pub mod Others
pub mod Validate
use cluster_fabric_operator.Base.{ℕ, ◌+◌, ◌-◌, ◌^◌, ◌==◌, Bool, true, false, ◌&&◌, ◌||◌, not}
use cluster_fabric_operator.Base.{Text, text_eq, is_empty, List, [], ◌∷◌, Option, none, some}
use cluster_fabric_operator.Base.{Result, ok, err, ◌>>=◌, Error, if◌then◌else◌}
use cluster_fabric_operator.Base.{Error.invalid_cidr_text, Error.cannot_validate_overlap}
use cluster_fabric_operator.Base.{Error.overlaps_with_cluster, Error.invalid_cluster_size}
use cluster_fabric_operator.Base.{Error.both_size_and_cidr, Error.invalid_specified_cidr}
use cluster_fabric_operator.Base.{Error.is_unspecified, Error.is_loopback, Error.is_link_local}
use cluster_fabric_operator.Base.{Error.is_link_local_multicast}
use cluster_fabric_operator.Net.{Ip, IpNet, contains, parse_cidr}
use cluster_fabric_operator.Globalnet.{GlobalNetwork, GlobalnetInfo, Config}
use cluster_fabric_operator.Globalnet.Sizes.{get_valid_cluster_size}
use cluster_fabric_operator.Globalnet.Allocate.{allocate_global_cidr}

-- The loop of `isOverlappingCIDR`.
unfoldable pub overlaps_any : IpNet → List Text → Result Bool
overlaps_any new_net [] = ok false
overlaps_any new_net (v ∷ rest) = elim (parse_cidr v) [
  | none ↦ err invalid_cidr_text
  | some (a, base_net) ↦
      if contains base_net new_net.ip || contains new_net base_net.ip
      then ok true
      else overlaps_any new_net rest
]

-- `isOverlappingCIDR`
unfoldable pub is_overlapping_cidr : List Text → Text → Result Bool
is_overlapping_cidr cidr_list cidr = elim (parse_cidr cidr) [
  | none ↦ err invalid_cidr_text
  | some (a, new_net) ↦ overlaps_any new_net cidr_list
]

-- One round of `CheckOverlappingCidrs`.
unfoldable pub check_network : Text → Text → Text → GlobalNetwork → Result (Unit {0})
check_network cidr cluster_id k v = elim (is_overlapping_cidr v.global_cidrs cidr) [
  | err e ↦ err cannot_validate_overlap
  | ok overlap ↦ if overlap && not (text_eq k cluster_id) then err overlaps_with_cluster else ok tt
]

unfoldable pub check_networks : Text → Text → List (Text × GlobalNetwork) → Result (Unit {0})
check_networks cidr cluster_id [] = ok tt
check_networks cidr cluster_id ((k, v) ∷ rest) =
    check_network cidr cluster_id k v >>= λ _. check_networks cidr cluster_id rest

-- `CheckOverlappingCidrs`
unfoldable pub check_overlapping_cidrs : GlobalnetInfo → Config → Result (Unit {0})
check_overlapping_cidrs info netconfig =
    check_networks netconfig.globalnet_cidr netconfig.cluster_id info.global_cidr_info

-- A map's value at a key.
unfoldable pub find_network : Text → List (Text × GlobalNetwork) → Option GlobalNetwork
find_network key [] = none
find_network key ((k, v) ∷ rest) = if text_eq k key then some v else find_network key rest

-- The first CIDR of an entry that has one; `isCIDRPreConfigured` asks whether there is one.
unfoldable pub first_cidr : Option GlobalNetwork → Option Text
first_cidr none = none
first_cidr (some v) = elim v.global_cidrs [ [] ↦ none | cidr ∷ _ ↦ some cidr ]

-- `isCIDRPreConfigured`
unfoldable pub is_cidr_preconfigured : Text → List (Text × GlobalNetwork) → Bool
is_cidr_preconfigured cluster_id networks = elim (first_cidr (find_network cluster_id networks)) [
  | none ↦ false
  | some cidr ↦ true
]

-- The guards of `ValidateGlobalnetConfiguration` behind the size's.
unfoldable pub validate_rest : GlobalnetInfo → Config → Result Text × GlobalnetInfo
validate_rest info netconfig =
    let size = netconfig.globalnet_cluster_size in
    let cidr = netconfig.globalnet_cidr in
    if not (is_empty cidr) && not (size == 0)
    then (err both_size_and_cidr, info)
    else if not (is_empty cidr)
    then elim (parse_cidr cidr) [
      | none ↦ (err invalid_specified_cidr, info)
      | some p ↦ (ok (if info.globalnet_enabled then cidr else []), info)
    ]
    else if info.globalnet_enabled
    then (ok cidr, info)
    else if not (size == 0)
    then (ok cidr, record info { globalnet_cluster_size = 0 })
    else (ok cidr, info)

-- `ValidateGlobalnetConfiguration`: the answer, and the info, whose cluster size it may change.
unfoldable pub validate_globalnet_configuration :
    GlobalnetInfo → Config → Result Text × GlobalnetInfo
validate_globalnet_configuration info netconfig =
    let size = netconfig.globalnet_cluster_size in
    if info.globalnet_enabled && (not (size == 0) && not (size == info.globalnet_cluster_size))
    then elim (get_valid_cluster_size info.globalnet_cidr_range size) [
      | err e ↦ (err invalid_cluster_size, info)
      | ok cluster_size ↦
          if cluster_size == 0
          then (err invalid_cluster_size, info)
          else validate_rest (record info { globalnet_cluster_size = cluster_size }) netconfig
    ]
    else validate_rest info netconfig

-- `AssignGlobalnetIPs`; the fuel is the allocator's.
unfoldable pub assign_globalnet_ips : ℕ → GlobalnetInfo → Config → Option (Result Text)
assign_globalnet_ips fuel info netconfig =
    let configured = first_cidr (find_network netconfig.cluster_id info.global_cidr_info) in
    if is_empty netconfig.globalnet_cidr
    then elim configured [ some cidr ↦ some (ok cidr) | none ↦ allocate_global_cidr fuel info ]
    else elim configured [
      | some cidr ↦ some (ok cidr)
      | none ↦ some (check_overlapping_cidrs info netconfig >>= λ _. ok netconfig.globalnet_cidr)
    ]

-- `IsValidCIDR`
unfoldable pub is_valid_cidr : Text → Result (Unit {0})
is_valid_cidr cidr = elim (parse_cidr cidr) [
  | none ↦ err invalid_cidr_text
  | some (ip, n) ↦
      if ip.o0 == 0 && (ip.o1 == 0 && (ip.o2 == 0 && ip.o3 == 0))
      then err is_unspecified
      else if ip.o0 == 127
      then err is_loopback
      else if ip.o0 == 169 && ip.o1 == 254
      then err is_link_local
      else if ip.o0 == 224 && (ip.o1 == 0 && ip.o2 == 0)
      then err is_link_local_multicast
      else ok tt
]
