-- ===== src/Globalnet/Allocate/Call.antt =====
-- One call of `allocateByCidr` on a printed address.
use cluster_fabric_operator.Base.{ℕ, ◌+◌, ◌-◌, ◌^◌, ◌≤◌, ◌≡◌, refl}
use cluster_fabric_operator.Base.{inl, inr, arith, take-length}
use cluster_fabric_operator.Base.{Bool-cases, ok}
use cluster_fabric_operator.Base.{Error.not_valid_subnet}
use cluster_fabric_operator.Net.{Ip, value, host_bits, mask_ip, contains, ip_of, print_cidr}
use cluster_fabric_operator.Net.Blocks.{nested_of_common, pow_pos}
use cluster_fabric_operator.Net.RoundTrip.{IsIp, value-ip_of, parse_cidr-print_cidr}
use cluster_fabric_operator.Net.Networks.{InNet, contains_iff, net_at, net_at-IsNet, net_at-InNet}
use cluster_fabric_operator.Globalnet.{Cidr, GlobalCidr, uint_to_ip, new_cidr, ip_to_uint}
use cluster_fabric_operator.Globalnet.Allocate.{conflict, allocate_by_cidr, allocate_unless, refuse}
use cluster_fabric_operator.Globalnet.Allocate.Spec.{IsCidr, IsGlobal}
use cluster_fabric_operator.Globalnet.Allocate.Conflict.{end-le}

module _ (a : Ip) (p : ℕ) (a_is : IsIp a) (p_le : p ≤ 32) where
  -- The entry that `NewCIDR` makes of the printed address.
  abbrev pub entry : Cidr
  entry = record {
    network = net_at a p;
    size = 32 - p;
    last_ip = value (mask_ip a p) + 2 ^ (32 - p) - 1;
  }

  pub new_cidr-print_cidr : new_cidr (print_cidr a p) ≡ ok entry
  unfolding new_cidr ip_to_uint
  new_cidr-print_cidr = rw (parse_cidr-print_cidr a p a_is p_le, new_cidr) refl

  pub entry-IsCidr : IsCidr entry
  entry-IsCidr = record { network_is = net_at-IsNet a p a_is p_le; last_is = refl }

  module _ (g : GlobalCidr) (wf : IsGlobal g) where
    -- An address outside the range is refused.
    pub allocate_by_cidr-outside :
        ¬ InNet g.net (value a) → allocate_by_cidr (print_cidr a p) g ≡ refuse g 0 not_valid_subnet
    unfolding allocate_by_cidr
    allocate_by_cidr-outside out = elim (Bool-cases (contains g.net a)) [
      | inl t ↦ absurd (out ((contains_iff g.net a wf.net_is).0 t))
      | inr f ↦ rw (parse_cidr-print_cidr a p a_is p_le, allocate_by_cidr, f) refl
    ]

    -- In the range, the answer hangs on the scan.
    pub allocate_by_cidr-inside :
        InNet g.net (value a)
        → g.net.ones ≤ p
        → allocate_by_cidr (print_cidr a p) g
          ≡ allocate_unless
              (conflict a
                (net_at a p)
                (value (mask_ip a p) + 2 ^ (32 - p) - 1)
                g.allocated_clusters)
              entry
              g
    unfolding allocate_by_cidr uint_to_ip
    allocate_by_cidr-inside inside fits =
        rw
          (
            parse_cidr-print_cidr a p a_is p_le,
            allocate_by_cidr,
            (contains_iff g.net a wf.net_is).1 inside,
            new_cidr-print_cidr,
            (contains_iff g.net (ip_of entry.last_ip) wf.net_is).1 last_inside,
            wf.counted,
            take-length g.allocated_clusters,
          )
          refl
      where
        nested :
            (value g.net.ip ≤ value (mask_ip a p))
            × (value (mask_ip a p) + 2 ^ (32 - p) ≤ value g.net.ip + 2 ^ host_bits g.net)
        nested =
            nested_of_common (32 - p) (host_bits g.net) (value (mask_ip a p)) (value g.net.ip)
              (value a) (omega arith) entry-IsCidr.network_is.aligned wf.net_is.aligned
              (net_at-InNet a p a_is) inside

        last_inside : InNet g.net (value (ip_of entry.last_ip))
        last_inside =
            rw
              (value-ip_of entry.last_ip
                (omega (arith, end-le g.net wf.net_is, nested, pow_pos (32 - p))))
              (omega (arith, nested, pow_pos (32 - p)), omega (arith, nested, pow_pos (32 - p)))
