-- ===== src/Globalnet/Allocate/Search.antt =====
-- The search of `allocateByClusterSize`: from address to address, until a block is free.
use cluster_fabric_operator.Base.{ℕ, ◌+◌, ◌-◌, ◌*◌, ◌/◌, ◌^◌, ◌≤◌, ◌<◌, ◌≡◌, refl, ◌∙◌, ap}
use cluster_fabric_operator.Base.{inl, inr, none, arith, Option-cases}
use cluster_fabric_operator.Base.{List, All, All-Some_clash, Error}
use cluster_fabric_operator.Base.{Error.not_valid_subnet}
use native.Mathlib.Decide.{dec_lt, ℕ_discrete}
use cluster_fabric_operator.Net.{value, host_bits, mask_ip, ip_of, print_cidr}
use cluster_fabric_operator.Net.Blocks.{IsAligned, multiple_of_aligned, nested_of_common, pow_pos}
use cluster_fabric_operator.Net.RoundTrip.{value-ip_of, ip_of-IsIp}
use cluster_fabric_operator.Net.Networks.{InNet, net_at, net_at-IsNet, net_at-InNet, value-mask_ip}
use cluster_fabric_operator.Globalnet.{Cidr, GlobalCidr}
use cluster_fabric_operator.Globalnet.Allocate.{
  Attempt, conflict, allocate_by_cidr, allocate_unless, refuse,
}
use cluster_fabric_operator.Globalnet.Allocate.Spec.{
  IsGlobal, Disjoint, Skips, Reached, end_of, IsFirstFit,
}
use cluster_fabric_operator.Globalnet.Allocate.Conflict.{conflict-none, conflict-some}
use cluster_fabric_operator.Globalnet.Allocate.Call.{
  entry, allocate_by_cidr-outside, allocate_by_cidr-inside,
}

-- What one call at the address `b` comes to: the first fit, an address outside the range, or a
-- conflict to go on behind.
pub data Step (g : GlobalCidr) (p b : ℕ) (r : Attempt) : Type 0 where
  fit :
      (g' : GlobalCidr)
      → r ≡ record { last = 0; error = none; state = g' }
      → IsFirstFit g p (print_cidr (ip_of b) p) g'
      → Step g p b r
  outside : r ≡ refuse g 0 not_valid_subnet → end_of g ≤ b → Step g p b r
  clash :
      (last : ℕ) (e : Error)
      → r ≡ refuse g last e
      → b ≤ last
      → last < 2 ^ 32
      → b < end_of g
      → Skips (32 - p) (value g.net.ip) (last + 1) g.allocated_clusters
      → Reached (32 - p) last g.allocated_clusters
      → Step g p b r

-- In an aligned block the first address is the number with the host bits cleared.
pub base_of_aligned :
    (p b : ℕ) → p ≤ 32 → b < 2 ^ 32 → IsAligned (32 - p) b → value (mask_ip (ip_of b) p) ≡ b
base_of_aligned p b p_le lt al = omega (
  arith,
  value-mask_ip (ip_of b) p (ip_of-IsIp b),
  value-ip_of b lt,
  ap (λ (t : ℕ). t / 2 ^ (32 - p) * 2 ^ (32 - p)) (value-ip_of b lt),
  multiple_of_aligned (32 - p) b al,
)

module _ (g : GlobalCidr) (p : ℕ) (wf : IsGlobal g) (p_le : p ≤ 32) (fits : g.net.ones ≤ p) where
  abbrev pub low : ℕ
  low = value g.net.ip

  abbrev pub h : ℕ
  h = 32 - p

  abbrev pub taken : List Cidr
  taken = g.allocated_clusters

  -- With no conflict behind `last`, the next address begins a block.
  pub IsAligned-of_Reached :
      (last : ℕ)
      → last + 1 < 2 ^ 32
      → Reached h last taken
      → All (Disjoint h (value (mask_ip (ip_of (last + 1)) p))) taken
      → IsAligned h (last + 1)
  IsAligned-of_Reached last lt (inl al) free = al
  IsAligned-of_Reached last lt (inr s) free =
      elim (ℕ_discrete (value (mask_ip (ip_of (last + 1)) p)) (last + 1)) [
        | yes e ↦ rw (← e) (net_at-IsNet (ip_of (last + 1)) p (ip_of-IsIp _) p_le).aligned
        | no ne ↦
            let at = net_at-InNet (ip_of (last + 1)) p (ip_of-IsIp _) in
            let v = value-ip_of (last + 1) lt in
            absurd (
              All-Some_clash _ (λ c. InNet c.network last)
                (λ c d i. d last (omega (arith, at, v, ne)) i) taken free s)
      ]

  -- A free aligned block behind taken ones is the first fit.
  first_fit :
      (b : ℕ)
      → b < 2 ^ 32
      → InNet g.net b
      → IsAligned h b
      → Skips h low b taken
      → All (Disjoint h (value (mask_ip (ip_of b) p))) taken
      → IsFirstFit g p
          (print_cidr (ip_of b) p)
          (allocate_unless none (entry (ip_of b) p (ip_of-IsIp b) p_le) g).state
  unfolding allocate_unless
  first_fit b lt inside al skips free = record {
    base = b;
    named = refl;
    aligned = al;
    above = inside.0;
    below =
        (nested_of_common h (host_bits g.net) b low b (omega arith) al wf.net_is.aligned
          (omega (arith, pow_pos h)) inside).1;
    free = rw (← base_of_aligned p b p_le lt al) free;
    first = skips;
    kept = rw (base_of_aligned p b p_le lt al) refl;
  }

  Skips-append : (b c : ℕ) → Skips h low b taken → Skips h b c taken → Skips h low c taken
  Skips-append b c s t x al lo hi = elim (dec_lt x b) [
    | yes l ↦ s x al lo l
    | no l ↦ t x al (omega arith) hi
  ]

  pub call_at :
      (b : ℕ)
      → b < 2 ^ 32
      → low ≤ b
      → Skips h low b taken
      → (All (Disjoint h (value (mask_ip (ip_of b) p))) taken → IsAligned h b)
      → Step g p b (allocate_by_cidr (print_cidr (ip_of b) p) g)
  unfolding allocate_unless
  call_at b lt lo skips aligned = elim (dec_lt b (end_of g)) [
    | no out ↦
        outside
          (allocate_by_cidr-outside (ip_of b) p (ip_of-IsIp b) p_le g wf
            (λ i. out (omega (arith, v, i))))
          (omega arith)
    | yes below ↦
        let inside : InNet g.net b = (lo, below) in
        let call =
          allocate_by_cidr-inside (ip_of b) p (ip_of-IsIp b) p_le g wf (rw v inside) fits in
        elim (Option-cases (conflict (ip_of b) (net_at (ip_of b) p) top taken)) [
          | inl e ↦
              let free = conflict-none (ip_of b) p (ip_of-IsIp b) p_le top taken wf.entries e in
              fit _ (call ∙ rw e refl) (first_fit b lt inside (aligned free) skips free)
          | inr ((last, er), e) ↦
              let (ge, lt', more, reached) =
                conflict-some (ip_of b) p (ip_of-IsIp b) p_le top taken last er wf.entries refl e in
              clash last er (call ∙ rw e refl) (omega (arith, v, ge)) lt' below
                (Skips-append b (last + 1) skips (rw v at more)) reached
        ]
  ]
    where
      v : value (ip_of b) ≡ b
      v = value-ip_of b lt

      top : ℕ
      top = value (mask_ip (ip_of b) p) + 2 ^ (32 - p) - 1
