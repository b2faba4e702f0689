-- ===== src/Globalnet/Allocate/Conflict.antt =====
-- The scan for a conflict of `allocateByCidr`.
use cluster_fabric_operator.Base.{ℕ, ◌+◌, ◌-◌, ◌^◌, ◌≤◌, ◌<◌, ◌≡◌, refl}
use cluster_fabric_operator.Base.{inl, inr, false, none, some, arith}
use cluster_fabric_operator.Base.{List, [], ◌∷◌, All, at_head, in_tail, Bool-cases, Error}
use native.Mathlib.Nat.{add-mod_right}
use cluster_fabric_operator.Net.{Ip, IpNet, value, host_bits, contains}
use cluster_fabric_operator.Net.Blocks.{IsAligned, Within, nested_of_common, pow_pos}
use cluster_fabric_operator.Net.RoundTrip.{IsIp, value-lt}
use cluster_fabric_operator.Net.Networks.{
  IsNet, InNet, apart, contains_iff, net_at, net_at-IsNet, net_at-InNet,
}
use cluster_fabric_operator.Globalnet.{Cidr}
use cluster_fabric_operator.Globalnet.Allocate.{conflict}
use cluster_fabric_operator.Globalnet.Allocate.Spec.{IsCidr, Disjoint, Skips, Reached}

-- A network ends at or below the end of the address space.
pub end-le : (n : IpNet) → IsNet n → value n.ip + 2 ^ host_bits n ≤ 2 ^ 32
end-le n w =
    (nested_of_common (host_bits n) 32 (value n.ip) 0 (value n.ip) (omega arith) w.aligned refl
      (omega (arith, pow_pos (host_bits n))) (omega (arith, value-lt n.ip w.is_ip))).1

Reached-cons :
    (h last : ℕ) (c : Cidr) (cs : List Cidr) → Reached h last cs → Reached h last (c ∷ cs)
Reached-cons h last c cs (inl al) = inl al
Reached-cons h last c cs (inr s) = inr (in_tail s)

module _ (a : Ip) (p : ℕ) (a_is : IsIp a) (p_le : p ≤ 32) where
  abbrev net : IpNet
  net = net_at a p

  net_is : IsNet net
  net_is = net_at-IsNet a p a_is p_le

  not_in : (n : IpNet) (b : Ip) → IsNet n → contains n b ≡ false → ¬ InNet n (value b)
  not_in n b w f i = cc ((contains_iff n b w).1 i)

  -- With no conflict the requested block meets no entry.
  pub conflict-none :
      (l : ℕ) (cs : List Cidr)
      → All IsCidr cs
      → conflict a net l cs ≡ none
      → All (Disjoint (32 - p) (value net.ip)) cs
  unfolding conflict
  conflict-none l [] _ h = tt
  conflict-none l (c ∷ cs) (w, ws) h = elim (Bool-cases (contains c.network a)) [
    | inl t ↦ absurd (cc (rw t at h))
    | inr f ↦ elim (Bool-cases (contains net c.network.ip)) [
      | inl t ↦ absurd (cc (rw (f, t) at h))
      | inr f' ↦ (
        λ x.
            apart net c.network (value a) x net_is w.network_is (net_at-InNet a p a_is)
              (not_in c.network a w.network_is f) (not_in net c.network.ip net_is f'),
        conflict-none l cs ws (rw (f, f') at h),
      )
    ]
  ]

  -- The requested block is the only aligned block of its size that begins in it.
  base_eq :
      (b : ℕ)
      → IsAligned (32 - p) b
      → value a ≤ b
      → b < value net.ip + 2 ^ (32 - p)
      → b ≡ value net.ip
  base_eq b al lo hi =
      let (at, _) = net_at-InNet a p a_is in
      let in_net : Within (32 - p) (value net.ip) b = (omega (arith, at), hi) in
      let w =
        nested_of_common (32 - p) (32 - p) b (value net.ip) b (omega arith) al net_is.aligned
          (omega (arith, pow_pos (32 - p))) in_net in
      omega (arith, w)

  Skips-entry :
      (c : Cidr) (cs : List Cidr)
      → IsCidr c
      → InNet c.network (value a)
      → Skips (32 - p) (value a) (c.last_ip + 1) (c ∷ cs)
  Skips-entry c cs w i b al lo hi = at_head (
    b,
    omega (arith, pow_pos (32 - p)),
    omega (arith, i, w.last_is, pow_pos (host_bits c.network)),
  )

  Skips-block :
      (c : Cidr) (cs : List Cidr)
      → InNet net (value c.network.ip)
      → Skips (32 - p) (value a) (value net.ip + 2 ^ (32 - p)) (c ∷ cs)
  Skips-block c cs i b al lo hi =
      at_head (
        value c.network.ip,
        rw (base_eq b al lo hi) i,
        omega (arith, pow_pos (host_bits c.network)),
      )

  -- A conflict names an address from the requested one on, up to which no block is free.
  pub conflict-some :
      (l : ℕ) (cs : List Cidr) (last : ℕ) (e : Error)
      → All IsCidr cs
      → l ≡ value net.ip + 2 ^ (32 - p) - 1
      → conflict a net l cs ≡ some (last, e)
      → (value a ≤ last)
        × (last < 2 ^ 32)
        × Skips (32 - p) (value a) (last + 1) cs
        × Reached (32 - p) last cs
  unfolding conflict
  conflict-some l [] last e _ l_eq h = cc
  conflict-some l (c ∷ cs) last e (w, ws) l_eq h = elim (Bool-cases (contains c.network a)) [
    | inl t ↦
        let at = (contains_iff c.network a w.network_is).0 t in
        let last_eq : c.last_ip ≡ last = cc (rw t at h) in
        (
          omega (arith, at, w.last_is),
          omega (arith, end-le c.network w.network_is, w.last_is, pow_pos (host_bits c.network)),
          rw (← last_eq) (Skips-entry c cs w at),
          inr (
              at_head (
                omega (arith, at, w.last_is),
                omega (arith, w.last_is, pow_pos (host_bits c.network)),
              )),
        )
    | inr f ↦ elim (Bool-cases (contains net c.network.ip)) [
      | inl t ↦
          let at = (contains_iff net c.network.ip net_is).0 t in
          let last_eq : l ≡ last = cc (rw (f, t) at h) in
          let end_eq : last + 1 ≡ value net.ip + 2 ^ (32 - p) = omega (arith, pow_pos (32 - p)) in
          (
            omega (arith, net_at-InNet a p a_is),
            omega (arith, end-le net net_is),
            rw end_eq (Skips-block c cs at),
            inl (rw end_eq (rw (add-mod_right (value net.ip) (2 ^ (32 - p))) net_is.aligned)),
          )
      | inr f' ↦
          let (lo, hi, skips, reached) = conflict-some l cs last e ws l_eq (rw (f, f') at h) in
          (
            lo,
            hi,
            λ b al from to. in_tail (skips b al from to),
            Reached-cons (32 - p) last c cs reached,
          )
    ]
  ]
