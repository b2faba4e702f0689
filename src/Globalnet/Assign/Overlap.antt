-- ===== src/Globalnet/Assign/Overlap.antt =====
-- `isOverlappingCIDR` and `CheckOverlappingCidrs` decide whether networks share addresses.
use cluster_fabric_operator.Base.{ℕ, ◌≡◌, refl, ◌↔◌, Bool, true, false, ◌||◌}
use cluster_fabric_operator.Base.{Text, List, [], ◌∷◌, some, All}
use cluster_fabric_operator.Base.{ok, Bool-cases, inl, inr}
use cluster_fabric_operator.Net.{Ip, IpNet, contains, parse_cidr}
use cluster_fabric_operator.Net.Networks.{IsNet, InNet, contains_iff_common}
use cluster_fabric_operator.Net.Parsed.{parse_cidr-IsNet}
use cluster_fabric_operator.Globalnet.Allocate.Clusters.{IsCidrText, Apart, same_net}
use cluster_fabric_operator.Globalnet.Assign.{overlaps_any, is_overlapping_cidr}

-- A network is apart from that of a text.
abbrev pub ApartFrom : IpNet → Text → Type 0
ApartFrom n u =
    (b : Ip) (m : IpNet) → parse_cidr u ≡ some (b, m) → (x : ℕ) → InNet n x → InNet m x → ⊥

-- Over CIDRs the loop answers, and answers no exactly if the network is apart from all of them.
overlaps_any_iff :
    (n : IpNet) (us : List Text)
    → IsNet n
    → All IsCidrText us
    → (b : Bool) × (overlaps_any n us ≡ ok b) × ((b ≡ false) ↔ All (ApartFrom n) us)
unfolding overlaps_any
overlaps_any_iff n [] w _ = (false, refl, (λ e. tt, λ a. refl))
overlaps_any_iff n (u ∷ us) w ((a, m, e), es) =
    elim (Bool-cases (contains m n.ip || contains n m.ip)) [
      | inl t ↦ (
        true,
        rw (e, overlaps_any, t) refl,
        (λ h. absurd (cc h), λ h. absurd (cc (t, common.1 (h.0 a m e)))),
      )
      | inr f ↦
          let (b, eq, iff) = overlaps_any_iff n us w es in
          (
            b,
            rw (e, overlaps_any, f) eq,
            (λ h. (λ b' m' e' x. rw (same_net e e') at (common.0 f x), iff.0 h), λ h. iff.1 h.1),
          )
    ]
  where
    common : ((contains m n.ip || contains n m.ip) ≡ false) ↔ ((x : ℕ) → InNet n x → InNet m x → ⊥)
    common = contains_iff_common n m w (parse_cidr-IsNet u a m e)

-- Over CIDRs `isOverlappingCIDR` answers, and answers no exactly if the new CIDR shares no address
-- with any of the list.
pub is_overlapping_cidr_iff :
    (us : List Text) (t : Text)
    → IsCidrText t
    → All IsCidrText us
    → (b : Bool) × (is_overlapping_cidr us t ≡ ok b) × ((b ≡ false) ↔ All (Apart t) us)
unfolding is_overlapping_cidr
is_overlapping_cidr_iff us t (a, n, e) es =
    let (b, eq, iff) = overlaps_any_iff n us (parse_cidr-IsNet t a n e) es in
    (b, rw (e, is_overlapping_cidr) eq, (λ h. widen us (iff.0 h), λ h. iff.1 (narrow us h)))
  where
    widen : (vs : List Text) → All (ApartFrom n) vs → All (Apart t) vs
    widen [] _ = tt
    widen (v ∷ vs) (h, hs) =
        (λ a1 b1 n1 m1 p q x. λ i j. h b1 m1 q x (rw (same_net p e) at i) j, widen vs hs)

    narrow : (vs : List Text) → All (Apart t) vs → All (ApartFrom n) vs
    narrow [] _ = tt
    narrow (v ∷ vs) (h, hs) = (λ b m q x. h a b n m e q x, narrow vs hs)
