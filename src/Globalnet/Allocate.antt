-- ===== src/Globalnet/Allocate.antt =====
-- controllers/discovery/globalnet/globalnet.go: the allocator of global CIDRs.
pub mod Spec
pub mod Conflict
pub mod Call
pub mod Search
pub mod FirstFit
pub mod Clusters
pub mod Given
use cluster_fabric_operator.Base.{ℕ, zero, suc, ◌+◌, ◌-◌, ◌*◌, ◌/◌, ◌%◌, ◌^◌, ◌==◌, leb}
use cluster_fabric_operator.Base.{Bool, true, false, Text, List, [], ◌∷◌, ◌++◌, take, codes}
use cluster_fabric_operator.Base.{Option, none, some, if◌then◌else◌}
use cluster_fabric_operator.Base.{Result, ok, err, Error, Error.not_valid_subnet}
use cluster_fabric_operator.Base.{Error.subset_of_allocated, Error.overlaps_allocated}
use cluster_fabric_operator.Base.{Error.allocation_not_available, Error.invalid_global_cidr}
use cluster_fabric_operator.Net.{Ip, IpNet, contains, parse_cidr, print_ip, print_cidr}
use mathlib.Core.Option
use cluster_fabric_operator.Base.{◌>>=◌}
use cluster_fabric_operator.Globalnet.Sizes.{leading_zeros, sub_int, print_int, cidr_mask}
use cluster_fabric_operator.Globalnet.{Cidr, GlobalCidr, GlobalNetwork, GlobalnetInfo}
use cluster_fabric_operator.Globalnet.{uint_to_ip, new_cidr}

-- What a call of `allocateByCidr` returns, and the package's variable behind it.
pub record Attempt : Type 0 where
  pub last : ℕ
  pub error : Option Error
  pub state : GlobalCidr

-- The loop over the allocated clusters: the first that meets the request, with the address to go
-- on from.
unfoldable pub conflict : Ip → IpNet → ℕ → List Cidr → Option (ℕ × Error)
conflict requested_ip requested_network last [] = none
conflict requested_ip requested_network last (allocated ∷ rest) =
    if contains allocated.network requested_ip
    then some (allocated.last_ip, subset_of_allocated)
    else if contains requested_network allocated.network.ip
    then some (last, overlaps_allocated)
    else conflict requested_ip requested_network last rest

-- `append(globalCidr.allocatedClusters, &cluster)` and `allocatedCount++`
abbrev pub add_cluster : GlobalCidr → Cidr → GlobalCidr
add_cluster g cluster = record g {
  allocated_clusters = g.allocated_clusters ++ (cluster ∷ []);
  allocated_count = g.allocated_count + 1;
}

abbrev pub refuse : GlobalCidr → ℕ → Error → Attempt
refuse g last e = record { last = last; error = some e; state = g }

-- The end of `allocateByCidr`: the new cluster is kept unless it meets an allocated one.
unfoldable pub allocate_unless : Option (ℕ × Error) → Cidr → GlobalCidr → Attempt
allocate_unless (some (last, e)) cluster g = refuse g last e
allocate_unless none cluster g = record { last = 0; error = none; state = add_cluster g cluster }

-- `allocateByCidr`. `allocatedCount` is never above the length of the list (`IsGlobal`), so the
-- indexed loop is a walk over the first `allocatedCount` clusters.
unfoldable pub allocate_by_cidr : Text → GlobalCidr → Attempt
unfolding allocate_unless
allocate_by_cidr cidr g = elim (parse_cidr cidr) [
  | none ↦ refuse g 0 not_valid_subnet
  | some (requested_ip, requested_network) ↦
      if contains g.net requested_ip
      then elim (new_cidr cidr) [
        | err e ↦ refuse g 0 e
        | ok cluster ↦
            if contains g.net (uint_to_ip cluster.last_ip)
            then allocate_unless
                (conflict requested_ip requested_network cluster.last_ip
                  (take g.allocated_count g.allocated_clusters))
                cluster g
            else refuse g 0 not_valid_subnet
      ]
      else refuse g 0 not_valid_subnet
]

-- `IPNet.String`
unfoldable pub net_string : Ip → Option ℕ → Text
net_string a none = codes "<nil>"
net_string a (some n) = print_cidr a n

-- What `allocateByClusterSize` does with the answer to `cidr`: it returns the text, returns an
-- error if there is no address to go on from, or goes on.
unfoldable pub after_call :
    (ℕ → GlobalCidr → Option (Result Text × GlobalCidr))
    → (Error → Error)
    → Text
    → Attempt
    → Option (Result Text × GlobalCidr)
after_call go on_zero cidr r =
    let again = go r.last r.state in
    elim r.error [
      | none ↦ some (ok cidr, r.state)
      | some e ↦ if r.last == 0 then some (err (on_zero e), r.state) else again
    ]

-- The loop of `allocateByClusterSize` after a conflict up to `last`. The fuel counts the rounds;
-- `none` means that it ran out.
unfoldable pub retry : ℕ → Option ℕ → ℕ → GlobalCidr → Option (Result Text × GlobalCidr)
retry zero mask last g = none
retry (suc fuel) mask last g =
    let cidr = net_string (uint_to_ip (last + 1)) mask in
    after_call (retry fuel mask) (λ e. allocation_not_available) cidr (allocate_by_cidr cidr g)

-- `allocateByClusterSize`
unfoldable pub allocate_by_cluster_size : ℕ → ℕ → GlobalCidr → Option (Result Text × GlobalCidr)
allocate_by_cluster_size fuel num_size g =
    let bit_size = leading_zeros 0 - leading_zeros ((num_size + 2 ^ 64 - 1) % 2 ^ 64) in
    let cluster_prefix = sub_int 32 bit_size in
    let cidr = print_ip g.net.ip ++ (b'/' ∷ print_int cluster_prefix) in
    after_call (retry fuel (cidr_mask cluster_prefix)) (λ e. e) cidr (allocate_by_cidr cidr g)

-- The CIDRs of one cluster are entered into the allocator.
unfoldable pub enter_cidrs : List Text → GlobalCidr → Result GlobalCidr
enter_cidrs [] g = ok g
enter_cidrs (other ∷ rest) g = do cluster ← new_cidr other; enter_cidrs rest (add_cluster g cluster)

-- The loop over the clusters of the map.
unfoldable pub enter_networks : List (Text × GlobalNetwork) → GlobalCidr → Result GlobalCidr
enter_networks [] g = ok g
enter_networks ((k, v) ∷ rest) g = do g' ← enter_cidrs v.global_cidrs g; enter_networks rest g'

-- `AllocateGlobalCIDR`: the package's variable is set anew by each call.
unfoldable pub allocate_global_cidr : ℕ → GlobalnetInfo → Option (Result Text)
allocate_global_cidr fuel info = elim (parse_cidr info.globalnet_cidr_range) [
  | none ↦ some (err invalid_global_cidr)
  | some (a, network) ↦
      let fresh : GlobalCidr = record {
        cidr = info.globalnet_cidr_range;
        net = network;
        allocated_clusters = [];
        allocated_count = 0;
      } in
      elim (enter_networks info.global_cidr_info fresh) [
        | err e ↦ some (err e)
        | ok g ↦ Option.map (λ p. p.0) (allocate_by_cluster_size fuel info.globalnet_cluster_size g)
      ]
]
