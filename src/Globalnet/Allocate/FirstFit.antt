-- ===== src/Globalnet/Allocate/FirstFit.antt =====
-- `allocateByClusterSize` gives out the first free block of the size asked for, and ends, for a range
-- that does not contain 0.0.0.0 and a size that fits it.
use cluster_fabric_operator.Base.{ℕ, zero, suc, ◌+◌, ◌-◌, ◌*◌, ◌^◌, ◌≤◌, ◌<◌, ◌≡◌, refl, ◌∙◌, ap}
use cluster_fabric_operator.Base.{inl, inr, true, false, Option, some, arith, ◌==◌, leb}
use cluster_fabric_operator.Base.{Result, Text, Error}
use cluster_fabric_operator.Base.{Error.allocation_not_available, Error.not_valid_subnet}
use native.Mathlib.Decide.{dec_lt}
use cluster_fabric_operator.Net.{value, host_bits, ip_of, print_cidr}
use cluster_fabric_operator.Net.Blocks.{pow_pos, IsAligned-le}
use cluster_fabric_operator.Net.Decimal.{print_nat}
use native.Mathlib.Nat.{pow-le-pow_right}
use cluster_fabric_operator.Net.RoundTrip.{value-lt, value-ip_of_mod, ip_of-IsIp, ip_of-value}
use cluster_fabric_operator.Globalnet.{GlobalCidr, uint_to_ip}
use cluster_fabric_operator.Globalnet.Sizes.{sub_int, print_int, cidr_mask}
use cluster_fabric_operator.Globalnet.Sizes.BitLength.{bit_size, bit_size_bounds, bit_size-le}
use cluster_fabric_operator.Globalnet.Allocate.{
  Attempt, allocate_by_cidr, refuse, retry, net_string, after_call, allocate_by_cluster_size,
}
use cluster_fabric_operator.Globalnet.Allocate.Spec.{IsGlobal, Skips, Reached, end_of, IsOutcome}
use cluster_fabric_operator.Globalnet.Allocate.Conflict.{end-le}
use cluster_fabric_operator.Globalnet.Allocate.Call.{allocate_by_cidr-outside}
use cluster_fabric_operator.Globalnet.Allocate.Search.{
  Step, fit, outside, clash, call_at, IsAligned-of_Reached,
}

module _ (g : GlobalCidr) (p : ℕ) (wf : IsGlobal g) (p_le : p ≤ 32) (fits : g.net.ones ≤ p)
    (above_zero : 0 < value g.net.ip) where
  -- Behind the last address of all the search begins again at 0.0.0.0, which is out of the range.
  wrapped : allocate_by_cidr (print_cidr (ip_of (2 ^ 32)) p) g ≡ refuse g 0 not_valid_subnet
  wrapped =
      allocate_by_cidr-outside (ip_of (2 ^ 32)) p (ip_of-IsIp _) p_le g wf
        (λ i. omega (arith, value-ip_of_mod (2 ^ 32), i))

  next-Step :
      (last : ℕ)
      → value g.net.ip ≤ last
      → last < 2 ^ 32
      → Skips (32 - p) (value g.net.ip) (last + 1) g.allocated_clusters
      → Reached (32 - p) last g.allocated_clusters
      → Step g p (last + 1) (allocate_by_cidr (print_cidr (ip_of (last + 1)) p) g)
  next-Step last ge lt skips reached = elim (dec_lt (last + 1) (2 ^ 32)) [
    | yes l ↦
        call_at g p wf p_le fits (last + 1) l (omega arith) skips
          (IsAligned-of_Reached g p wf p_le fits last l reached)
    | no l ↦
        let e : last + 1 ≡ 2 ^ 32 = omega arith in
        outside (rw e wrapped) (omega (arith, end-le g.net wf.net_is))
  ]

  pub retry-IsOutcome :
      (fuel last : ℕ)
      → value g.net.ip ≤ last
      → last < 2 ^ 32
      → Skips (32 - p) (value g.net.ip) (last + 1) g.allocated_clusters
      → Reached (32 - p) last g.allocated_clusters
      → 0 < fuel
      → end_of g < last + 1 + fuel
      → IsOutcome g p allocation_not_available (retry fuel (some p) last g)
  unfolding retry net_string uint_to_ip after_call
  retry-IsOutcome zero last ge lt skips reached pos enough = absurd (omega arith)
  retry-IsOutcome (suc fuel) last ge lt skips reached pos enough =
      elim (next-Step last ge lt skips reached) [
        | fit g' e ff ↦ inl (print_cidr (ip_of (last + 1)) p, g', ap after e, ff)
        | outside e le ↦ inr (ap after e, λ b al from to. skips b al from (omega arith))
        | clash last' er e up lt' below skips' reached' ↦
            let ne : (last' == 0) ≡ false = ground arith in
            rw (ap after e ∙ going_on last' er ne) (
              retry-IsOutcome fuel last' (omega arith) lt' skips' reached' (omega arith)
                (omega arith))
      ]
    where
      after : Attempt → Option (Result Text × GlobalCidr)
      after =
          after_call (retry fuel (some p)) (λ e. allocation_not_available)
            (print_cidr (ip_of (last + 1)) p)

      going_on :
          (last' : ℕ) (er : Error)
          → (last' == 0) ≡ false
          → after (refuse g last' er) ≡ retry fuel (some p) last' g
      going_on last' er ne = rw ne refl

  -- The first call is at the first address of the range.
  pub after_first-IsOutcome :
      (fuel : ℕ)
      → 2 ^ host_bits g.net ≤ fuel
      → let cidr = print_cidr g.net.ip p in
        IsOutcome g p allocation_not_available
          (after_call (retry fuel (some p)) (λ e. e) cidr (allocate_by_cidr cidr g))
  unfolding after_call
  after_first-IsOutcome fuel enough = elim first [
    | fit g' e ff ↦ inl (print_cidr g.net.ip p, g', ap after (rw e' at e), rw e' at ff)
    | outside e le ↦ absurd (omega (arith, pow_pos (host_bits g.net)))
    | clash last er e up lt below skips reached ↦
        let ne : (last == 0) ≡ false = ground arith in
        rw (ap after (rw e' at e) ∙ going_on last er ne) (
          retry-IsOutcome fuel last up lt skips reached (omega (arith, pow_pos (host_bits g.net)))
            (omega arith))
  ]
    where
      after : Attempt → Option (Result Text × GlobalCidr)
      after = after_call (retry fuel (some p)) (λ e. e) (print_cidr g.net.ip p)

      going_on :
          (last : ℕ) (er : Error)
          → (last == 0) ≡ false
          → after (refuse g last er) ≡ retry fuel (some p) last g
      going_on last er ne = rw ne refl

      e' : ip_of (value g.net.ip) ≡ g.net.ip
      e' = ip_of-value g.net.ip wf.net_is.is_ip

      first : Step g p (value g.net.ip) (allocate_by_cidr (print_cidr (ip_of (value g.net.ip)) p) g)
      first =
          call_at g p wf p_le fits (value g.net.ip) (value-lt g.net.ip wf.net_is.is_ip)
            (omega arith) (λ b al from to. absurd (omega arith))
            (λ _.
              IsAligned-le (32 - p) (host_bits g.net) (value g.net.ip) (omega arith)
                wf.net_is.aligned)

-- A prefix length in range is printed as such, and has a mask.
print_int-sub_int : (b : ℕ) → b ≤ 32 → print_int (sub_int 32 b) ≡ print_nat (32 - b)
unfolding print_int sub_int
print_int-sub_int b h = let e : leb b 32 ≡ true = ground arith in rw e refl

cidr_mask-sub_int : (b : ℕ) → b ≤ 32 → cidr_mask (sub_int 32 b) ≡ some (32 - b)
unfolding cidr_mask sub_int
cidr_mask-sub_int b h =
    let e : leb b 32 ≡ true = ground arith in
    let e' : leb (32 - b) 32 ≡ true = ground arith in rw (e, e') refl

-- The prefix length of the blocks that hold `n` addresses.
abbrev pub prefix_for : ℕ → ℕ
prefix_for n = 32 - bit_size n

-- For a size that fits the range, given rounds enough to walk the range, the search ends. It gives
-- out the first aligned block of the least power of two that holds the size, within the range and
-- apart from every entry, and enters it; or it reports that nothing is available, and then every
-- aligned block of that size in the range meets an entry. The range must not contain 0.0.0.0.
pub allocate_by_cluster_size-IsOutcome :
    (fuel n : ℕ) (g : GlobalCidr)
    → IsGlobal g
    → 0 < value g.net.ip
    → 0 < n
    → n ≤ 2 ^ host_bits g.net
    → 2 ^ host_bits g.net ≤ fuel
    → (n ≤ 2 ^ (32 - prefix_for n))
      × (2 ^ (32 - prefix_for n) < 2 * n)
      × IsOutcome g (prefix_for n) allocation_not_available (allocate_by_cluster_size fuel n g)
unfolding allocate_by_cluster_size
allocate_by_cluster_size-IsOutcome fuel n g wf above pos le enough =
    let small : bit_size n ≤ host_bits g.net =
      bit_size-le n (host_bits g.net) pos le (omega arith) in
    let back : 32 - prefix_for n ≡ bit_size n = omega arith in
    let max : 2 ^ host_bits g.net ≤ 2 ^ 32 =
      pow-le-pow_right (omega arith) {j = 32} (omega arith) in
    let (enough_room, tight) = bit_size_bounds n pos (omega (arith, max)) in
    (
      rw back enough_room,
      rw back tight,
      rw
          (
            print_int-sub_int (bit_size n) (omega arith),
            cidr_mask-sub_int (bit_size n) (omega arith),
          )
          (unfold print_cidr in
            after_first-IsOutcome g (prefix_for n) wf (omega arith)
              (omega (arith, wf.net_is.ones_le)) above fuel enough),
    )
