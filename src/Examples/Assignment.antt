-- ===== src/Examples/Assignment.antt =====
-- The theorems on the global CIDRs at work: the range 242.0.0.0/28, and blocks of four addresses.
use cluster_fabric_operator.Base.{
  ℕ, ◌+◌, ◌-◌, ◌*◌, ◌/◌, ◌^◌, ◌≤◌, ◌<◌, ◌≡◌, refl, ◌↔◌, ◌⊎◌, arith, Text, codes, text_eq, [], ◌∷◌,
  none, some, All, Some, Bool, true, false, ok, err, Error,
}
use cluster_fabric_operator.Base.{Error.allocation_not_available, Error.cluster_size_too_large}
use cluster_fabric_operator.Net.{
  IpNet, value, ip_of, mask_ip, host_bits, parse_cidr, parse_ipv4, parse_octet, parse_dot_octet,
  parse_prefix, prefix_of,
}
use cluster_fabric_operator.Net.Decimal.{dtoi, digits_from}
use cluster_fabric_operator.Net.Blocks.{IsAligned}
use cluster_fabric_operator.Globalnet.{GlobalnetInfo}
use cluster_fabric_operator.Globalnet.Sizes.{get_valid_cluster_size}
use cluster_fabric_operator.Globalnet.Sizes.BitLength.{bit_size}
use cluster_fabric_operator.Globalnet.Sizes.Valid.{get_valid_cluster_size_cases}
use cluster_fabric_operator.Globalnet.Allocate.{allocate_global_cidr}
use cluster_fabric_operator.Globalnet.Allocate.FirstFit.{prefix_for}
use cluster_fabric_operator.Globalnet.Allocate.Clusters.{IsCidrText, Apart, Meets}
use cluster_fabric_operator.Globalnet.Allocate.Given.{IsGiven, allocate_global_cidr-IsGiven}
use cluster_fabric_operator.Globalnet.Assign.{
  first_cidr, find_network, is_overlapping_cidr, assign_globalnet_ips,
}
use cluster_fabric_operator.Globalnet.Assign.Overlap.{is_overlapping_cidr_iff}
use cluster_fabric_operator.Globalnet.Assign.Others.{
  ApartOthers, CanAllocate, Refused, assign_globalnet_ips_cases,
}
use cluster_fabric_operator.Examples.Scenario.{
  range_text, range_ip, range_net, parse_range, above, west,
}

abbrev east_text : Text
east_text = codes "242.0.0.0/30"

abbrev east_net : IpNet
east_net = record { ip = range_ip; ones = 30 }

parse_east : parse_cidr east_text ≡ some (range_ip, east_net)
unfolding parse_cidr parse_ipv4 parse_octet parse_dot_octet parse_prefix prefix_of mask_ip ip_of
    value dtoi digits_from
parse_east = refl

abbrev info : GlobalnetInfo
info = record {
  globalnet_enabled = true;
  globalnet_cidr_range = range_text;
  globalnet_cluster_size = 4;
  global_cidr_info =
      (codes "east", record { global_cidrs = east_text ∷ []; cluster_id = codes "east" }) ∷ [];
}

east_is : All IsCidrText (east_text ∷ [])
east_is = ((range_ip, east_net, parse_east), tt)

allocate_global_cidr-IsGiven_example :
    (4 ≤ 2 ^ (32 - prefix_for 4))
    × (((t : Text) × (allocate_global_cidr 16 info ≡ some (ok t))
          × IsGiven range_net (prefix_for 4) (east_text ∷ []) t)
        ⊎ ((allocate_global_cidr 16 info ≡ some (err allocation_not_available))
            × ((b : ℕ)
                → IsAligned (32 - prefix_for 4) b
                → value range_ip ≤ b
                → b < value range_ip + 2 ^ 4
                → Some (Meets (32 - prefix_for 4) b) (east_text ∷ []))))
allocate_global_cidr-IsGiven_example =
    allocate_global_cidr-IsGiven info range_ip range_net parse_range 16 above (omega arith)
      (omega arith) (omega arith) east_is

west_can : CanAllocate 16 info
west_can = record {
  address = range_ip;
  range = range_net;
  parsed = parse_range;
  above = above;
  positive = omega arith;
  fits = omega arith;
  enough = omega arith;
}

west_fresh : first_cidr (find_network west.cluster_id info.global_cidr_info) ≡ none
unfolding first_cidr find_network text_eq
west_fresh = refl

assign_globalnet_ips_cases_example :
    ((t : Text) × (assign_globalnet_ips 16 info west ≡ some (ok t))
      × IsCidrText t
      × ApartOthers t west.cluster_id info.global_cidr_info
      × (true ≡ false → t ≡ []))
    ⊎ ((e : Error) × (assign_globalnet_ips 16 info west ≡ some (err e)) × Refused info west e)
assign_globalnet_ips_cases_example =
    assign_globalnet_ips_cases 16 info west (east_is, tt) (λ e. absurd (cc e)) (λ e. west_can)
      west_fresh

is_overlapping_cidr_iff_example :
    (b : Bool) × (is_overlapping_cidr (east_text ∷ []) range_text ≡ ok b)
    × ((b ≡ false) ↔ All (Apart range_text) (east_text ∷ []))
is_overlapping_cidr_iff_example =
    is_overlapping_cidr_iff (east_text ∷ []) range_text (range_ip, range_net, parse_range) east_is

abbrev wanted : ℕ
wanted = 5

get_valid_cluster_size_cases_example :
    (((wanted ≡ 0) ⊎ (2 ^ 31 < wanted)) × (get_valid_cluster_size range_text wanted ≡ ok 0))
    ⊎ ((s : ℕ) × (s ≡ 2 ^ bit_size wanted)
        × (wanted ≤ s)
        × (s < 2 * wanted)
        × (((s ≤ 2 ^ host_bits range_net / 2) × (get_valid_cluster_size range_text wanted ≡ ok s))
            ⊎ ((2 ^ host_bits range_net / 2 < s)
                × (get_valid_cluster_size range_text wanted ≡ err cluster_size_too_large))))
get_valid_cluster_size_cases_example =
    get_valid_cluster_size_cases range_text range_ip range_net wanted parse_range (omega arith)
