-- ===== src/Globalnet/Assign/Others.antt =====
-- The CIDR that `AssignGlobalnetIPs` gives a cluster is apart from those of the other clusters.
use cluster_fabric_operator.Base.{
  ℕ, ◌+◌, ◌-◌, ◌^◌, ◌≤◌, ◌<◌, ◌≡◌, refl, ◌∙◌, ◌≢◌, ◌⊎◌, inl, inr, true, false, not, ◌&&◌,
}
use cluster_fabric_operator.Base.{
  Text, text_eq, text_eq_iff, is_empty, List, [], ◌∷◌, ◌++◌, none, some, All, All-append, Some,
}
use cluster_fabric_operator.Base.{ok, err, Error, Error.overlaps_with_cluster, arith, Bool-cases}
use cluster_fabric_operator.Base.{Error.allocation_not_available}
use cluster_fabric_operator.Net.{Ip, IpNet, value, host_bits, parse_cidr}
use cluster_fabric_operator.Globalnet.{GlobalNetwork, GlobalnetInfo, Config}
use cluster_fabric_operator.Globalnet.Allocate.{allocate_global_cidr}
use cluster_fabric_operator.Globalnet.Allocate.Clusters.{IsCidrText, Apart, Meets, all_cidrs}
use cluster_fabric_operator.Net.Blocks.{IsAligned}
use cluster_fabric_operator.Globalnet.Allocate.FirstFit.{prefix_for}
use cluster_fabric_operator.Globalnet.Allocate.Given.{allocate_global_cidr-IsGiven}
use cluster_fabric_operator.Globalnet.Assign.{
  check_network, check_networks, check_overlapping_cidrs, first_cidr, find_network,
  assign_globalnet_ips,
}
use cluster_fabric_operator.Globalnet.Assign.Overlap.{is_overlapping_cidr_iff}

-- The CIDR shares no address with one of another cluster.
abbrev pub ApartOthers : Text → Text → List (Text × GlobalNetwork) → Type 0
ApartOthers t id [] = Unit
ApartOthers t id ((k, v) ∷ rest) = (k ≢ id → All (Apart t) v.global_cidrs) × ApartOthers t id rest

-- Every text of the map is a CIDR.
abbrev pub AllCidrs : List (Text × GlobalNetwork) → Type 0
AllCidrs [] = Unit
AllCidrs ((k, v) ∷ rest) = All IsCidrText v.global_cidrs × AllCidrs rest

check_networks_cases :
    (t id : Text) (ks : List (Text × GlobalNetwork))
    → IsCidrText t
    → AllCidrs ks
    → ((check_networks t id ks ≡ ok tt) × ApartOthers t id ks)
      ⊎ ((check_networks t id ks ≡ err overlaps_with_cluster) × ¬ ApartOthers t id ks)
unfolding check_networks check_network
check_networks_cases t id [] is _ = inl (refl, tt)
check_networks_cases t id ((k, v) ∷ ks) is (es, rest) =
    let (b, eq, iff) = is_overlapping_cidr_iff v.global_cidrs t is es in
    elim (Bool-cases (b && not (text_eq k id))) [
      | inl bad ↦ inr (
        rw (eq, check_network, bad) refl,
        λ apart.
            let other : k ≢ id = λ e. ground (arith, text_eq_iff k id, bad) in
            let clash = iff.1 (apart.0 other) in ground (arith, bad, clash),
      )
      | inr fine ↦
          let here : k ≢ id → All (Apart t) v.global_cidrs =
            λ ne. iff.0 (ground (arith, text_eq_iff k id, fine)) in
          let run : check_networks t id ((k, v) ∷ ks) ≡ check_networks t id ks =
            rw (eq, check_network, fine) refl in
          elim (check_networks_cases t id ks is rest) [
            | inl (e, a) ↦ inl (run ∙ e, (here, a))
            | inr (e, not_apart) ↦ inr (run ∙ e, λ a. not_apart a.1)
          ]
    ]

All-left : (t : Text) (xs ys : List Text) → All (Apart t) (xs ++ ys) → All (Apart t) xs
All-left t [] ys a = tt
All-left t (x ∷ xs) ys (h, a) = (h, All-left t xs ys a)

All-right : (t : Text) (xs ys : List Text) → All (Apart t) (xs ++ ys) → All (Apart t) ys
All-right t [] ys a = a
All-right t (x ∷ xs) ys (h, a) = All-right t xs ys a

ApartOthers-of_All :
    (t id : Text) (ks : List (Text × GlobalNetwork))
    → All (Apart t) (all_cidrs ks)
    → ApartOthers t id ks
ApartOthers-of_All t id [] _ = tt
ApartOthers-of_All t id ((k, v) ∷ ks) a = (
  λ _. All-left t v.global_cidrs (all_cidrs ks) a,
  ApartOthers-of_All t id ks (All-right t v.global_cidrs (all_cidrs ks) a),
)

AllCidrs-all_cidrs :
    (ks : List (Text × GlobalNetwork)) → AllCidrs ks → All IsCidrText (all_cidrs ks)
AllCidrs-all_cidrs [] _ = tt
AllCidrs-all_cidrs ((k, v) ∷ ks) (here, rest) =
    All-append IsCidrText v.global_cidrs (all_cidrs ks) here (AllCidrs-all_cidrs ks rest)

-- What the allocator asks of the map's settings: the range is a CIDR that does not contain 0.0.0.0,
-- the cluster size fits it, and the rounds can walk it.
pub record CanAllocate (fuel : ℕ) (info : GlobalnetInfo) : Type 0 where
  pub address : Ip
  pub range : IpNet
  pub parsed : parse_cidr info.globalnet_cidr_range ≡ some (address, range)
  pub above : 0 < value range.ip
  pub positive : 0 < info.globalnet_cluster_size
  pub fits : info.globalnet_cluster_size ≤ 2 ^ host_bits range
  pub enough : 2 ^ host_bits range ≤ fuel

-- The two ways in which no CIDR is assigned: every block of the range, of the least power of two that
-- holds the cluster size, meets a CIDR of the map; or the one asked for overlaps.
pub data Refused (info : GlobalnetInfo) (netconfig : Config) : Error → Type 0 where
  exhausted :
      (address : Ip) (range : IpNet)
      → is_empty netconfig.globalnet_cidr ≡ true
      → parse_cidr info.globalnet_cidr_range ≡ some (address, range)
      → ((b : ℕ)
          → IsAligned (32 - prefix_for info.globalnet_cluster_size) b
          → value range.ip ≤ b
          → b < value range.ip + 2 ^ host_bits range
          → Some
              (Meets (32 - prefix_for info.globalnet_cluster_size) b)
              (all_cidrs info.global_cidr_info))
      → Refused info netconfig allocation_not_available
  overlapping :
      is_empty netconfig.globalnet_cidr ≡ false
      → ¬ ApartOthers netconfig.globalnet_cidr netconfig.cluster_id info.global_cidr_info
      → Refused info netconfig overlaps_with_cluster

-- A cluster with no CIDR of its own gets one that is apart from the CIDRs of all other clusters,
-- and the one asked for if one was; or an error, because every block of the size in the range meets a
-- CIDR of the map, where none was asked for, or because the one asked for overlaps. It is assumed that the map's texts and the one asked for are CIDRs, and that without
-- one the allocator can work.
pub assign_globalnet_ips_cases :
    (fuel : ℕ) (info : GlobalnetInfo) (netconfig : Config)
    → AllCidrs info.global_cidr_info
    → (is_empty netconfig.globalnet_cidr ≡ false → IsCidrText netconfig.globalnet_cidr)
    → (is_empty netconfig.globalnet_cidr ≡ true → CanAllocate fuel info)
    → first_cidr (find_network netconfig.cluster_id info.global_cidr_info) ≡ none
    → ((t : Text) × (assign_globalnet_ips fuel info netconfig ≡ some (ok t))
        × IsCidrText t
        × ApartOthers t netconfig.cluster_id info.global_cidr_info
        × (is_empty netconfig.globalnet_cidr ≡ false → t ≡ netconfig.globalnet_cidr))
      ⊎ ((e : Error) × (assign_globalnet_ips fuel info netconfig ≡ some (err e))
          × Refused info netconfig e)
unfolding assign_globalnet_ips check_overlapping_cidrs
assign_globalnet_ips_cases fuel info netconfig texts given can fresh =
    elim (Bool-cases (is_empty netconfig.globalnet_cidr)) [
      | inl empty ↦
          let c = can empty in
          let run : assign_globalnet_ips fuel info netconfig ≡ allocate_global_cidr fuel info =
            rw (fresh, assign_globalnet_ips, empty) refl in
          let (_, outcome) =
            allocate_global_cidr-IsGiven info c.address c.range c.parsed fuel c.above c.positive
              c.fits c.enough (AllCidrs-all_cidrs info.global_cidr_info texts) in
          elim outcome [
            | inl (t, e, g) ↦ inl (
              t,
              run ∙ e,
              (g.address, g.network, g.parsed),
              ApartOthers-of_All t netconfig.cluster_id info.global_cidr_info g.apart,
              λ f. absurd (cc (f, empty)),
            )
            | inr (e, full) ↦
                inr (
                  allocation_not_available,
                  run ∙ e,
                  exhausted c.address c.range empty c.parsed full,
                )
          ]
      | inr asked ↦
          let t = netconfig.globalnet_cidr in
          elim (check_networks_cases t netconfig.cluster_id info.global_cidr_info (given asked)
            texts) [
              | inl (e, apart) ↦ inl (
                t,
                rw (fresh, assign_globalnet_ips, asked, e) refl,
                given asked,
                apart,
                λ f. refl,
              )
              | inr (e, not_apart) ↦ inr (
                overlaps_with_cluster,
                rw (fresh, assign_globalnet_ips, asked, e) refl,
                overlapping asked not_apart,
              )
            ]
    ]
