-- ===== src/Globalnet/Allocate/Given.antt =====
-- `AllocateGlobalCIDR` as its callers see it: texts in, a text out.
use cluster_fabric_operator.Base.{
  ℕ, ◌+◌, ◌-◌, ◌^◌, ◌≤◌, ◌<◌, ◌≡◌, refl, ◌∙◌, sym, ap, ◌⊎◌, inl, inr,
}
use cluster_fabric_operator.Base.{Text, some, List, [], All, Some}
use cluster_fabric_operator.Base.{ok, err, Error.allocation_not_available, length, arith}
use mathlib.Core.Option
use cluster_fabric_operator.Net.{Ip, IpNet, value, host_bits, ip_of, parse_cidr, print_cidr}
use cluster_fabric_operator.Net.Blocks.{IsAligned, pow_pos}
use cluster_fabric_operator.Net.RoundTrip.{value-ip_of, ip_of-IsIp, parse_cidr-print_cidr}
use cluster_fabric_operator.Net.Networks.{InNet, net_at}
use cluster_fabric_operator.Net.Parsed.{parse_cidr-IsNet}
use cluster_fabric_operator.Globalnet.{Cidr, GlobalCidr, GlobalnetInfo}
use cluster_fabric_operator.Globalnet.Allocate.{allocate_global_cidr, allocate_by_cluster_size}
use cluster_fabric_operator.Globalnet.Allocate.Spec.{IsGlobal, IsFirstFit}
use cluster_fabric_operator.Globalnet.Allocate.Conflict.{end-le}
use cluster_fabric_operator.Globalnet.Allocate.Search.{base_of_aligned}
use cluster_fabric_operator.Globalnet.Allocate.FirstFit.{
  prefix_for, allocate_by_cluster_size-IsOutcome,
}
use cluster_fabric_operator.Globalnet.Allocate.Clusters.{
  all_cidrs, IsCidrText, Apart, Meets, StandFor, enter_networks_eq, enter_cidrs-All,
  StandFor-IsCidr, Disjoint-Apart, Some-Meets,
}

-- The text is the CIDR of a block of the range that is apart from every CIDR of the map, and every
-- aligned block of the size before it meets one.
pub record IsGiven (range : IpNet) (p : ℕ) (others : List Text) (t : Text) : Type 0 where
  pub address : Ip
  pub network : IpNet
  pub parsed : parse_cidr t ≡ some (address, network)
  pub written : t ≡ print_cidr address p
  pub exact : value network.ip ≡ value address
  pub sized : network.ones ≡ p
  pub inside : (x : ℕ) → InNet network x → InNet range x
  pub apart : All (Apart t) others
  pub first :
      (b : ℕ)
      → IsAligned (32 - p) b
      → value range.ip ≤ b
      → b < value network.ip
      → Some (Meets (32 - p) b) others

module _ (info : GlobalnetInfo) (a : Ip) (range : IpNet)
    (parsed : parse_cidr info.globalnet_cidr_range ≡ some (a, range)) where
  abbrev others : List Text
  others = all_cidrs info.global_cidr_info

  abbrev fresh : GlobalCidr
  fresh = record {
    cidr = info.globalnet_cidr_range;
    net = range;
    allocated_clusters = [];
    allocated_count = 0;
  }

  IsFirstFit-IsGiven :
      (p : ℕ) (cs : List Cidr) (t : Text) (g' : GlobalCidr)
      → p ≤ 32
      → StandFor others cs
      → IsFirstFit
          (record fresh { allocated_clusters = cs; allocated_count = 0 + length cs })
          p
          t
          g'
      → IsGiven range p others t
  IsFirstFit-IsGiven p cs t g' p_le sf ff = record {
    address = ip_of ff.base;
    network = net_at (ip_of ff.base) p;
    parsed = parsed';
    written = ff.named;
    exact = at_base ∙ sym (value-ip_of ff.base lt);
    sized = refl;
    inside = λ x i. (omega (arith, i, ff.above, at_base), omega (arith, i, ff.below, at_base));
    apart =
        Disjoint-Apart t (net_at (ip_of ff.base) p) (ip_of ff.base) (32 - p) ff.base others cs sf
          parsed' (λ x i. rw at_base at i) ff.free;
    first =
        λ b al from to. Some-Meets (32 - p) b others cs sf (ff.first b al from (rw at_base at to));
  }
    where
      lt : ff.base < 2 ^ 32
      lt =
          omega
            (arith, ff.below, pow_pos (32 - p), end-le range (parse_cidr-IsNet _ a range parsed))

      at_base : value (net_at (ip_of ff.base) p).ip ≡ ff.base
      at_base = base_of_aligned p ff.base p_le lt ff.aligned

      parsed' : parse_cidr t ≡ some (ip_of ff.base, net_at (ip_of ff.base) p)
      parsed' = rw ff.named (parse_cidr-print_cidr (ip_of ff.base) p (ip_of-IsIp ff.base) p_le)

  -- The allocation ends, with a block that fits the size, lies in the range and is apart from every
  -- CIDR of the map, the first such block; or with the error, when every aligned block of the size
  -- meets a CIDR of the map. It is assumed that the size fits the range, that the range does not
  -- contain 0.0.0.0, that every text of the map is a CIDR, and that the rounds can walk the range.
  pub allocate_global_cidr-IsGiven :
      (fuel : ℕ)
      → 0 < value range.ip
      → 0 < info.globalnet_cluster_size
      → info.globalnet_cluster_size ≤ 2 ^ host_bits range
      → 2 ^ host_bits range ≤ fuel
      → All IsCidrText others
      → let p = prefix_for info.globalnet_cluster_size in
        (info.globalnet_cluster_size ≤ 2 ^ (32 - p))
        × (((t : Text) × (allocate_global_cidr fuel info ≡ some (ok t)) × IsGiven range p others t)
            ⊎ ((allocate_global_cidr fuel info ≡ some (err allocation_not_available))
                × ((b : ℕ)
                    → IsAligned (32 - p) b
                    → value range.ip ≤ b
                    → b < value range.ip + 2 ^ host_bits range
                    → Some (Meets (32 - p) b) others)))
  unfolding allocate_global_cidr
  allocate_global_cidr-IsGiven fuel above pos le enough texts =
      let (cs, sf, entered) = enter_cidrs-All others fresh texts in
      let g : GlobalCidr = record fresh {
        allocated_clusters = cs;
        allocated_count = 0 + length cs;
      } in
      let wf : IsGlobal g = record {
        net_is = parse_cidr-IsNet _ a range parsed;
        counted = omega arith;
        entries = StandFor-IsCidr others cs sf;
      } in
      let n = info.globalnet_cluster_size in
      let run : allocate_global_cidr fuel info
          ≡ Option.map (λ p. p.0) (allocate_by_cluster_size fuel n g) =
        rw (parsed, allocate_global_cidr, enter_networks_eq info.global_cidr_info fresh, entered)
          refl in
      let (room, _, outcome) = allocate_by_cluster_size-IsOutcome fuel n g wf above pos le enough in
      (
        room,
        elim outcome [
          | inl (t, g', e, ff) ↦ inl (
            t,
            run ∙ ap (Option.map (λ p. p.0)) e,
            IsFirstFit-IsGiven (prefix_for n) cs t g' (omega arith) sf ff,
          )
          | inr (e, skips) ↦ inr (
            run ∙ ap (Option.map (λ p. p.0)) e,
            λ b al from to. Some-Meets (32 - prefix_for n) b others cs sf (skips b al from to),
          )
        ],
      )
