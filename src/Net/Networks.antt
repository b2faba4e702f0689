-- ===== src/Net/Networks.antt =====
-- Networks as aligned blocks of addresses.
use cluster_fabric_operator.Base.{ℕ, ◌-◌, ◌*◌, ◌/◌, ◌^◌, ◌≤◌}
use cluster_fabric_operator.Base.{◌≡◌, ◌↔◌, true, arith}
use native.Mathlib.Nat.{div-mul-le_self}
use native.Mathlib.Decide.{dec_le}
use cluster_fabric_operator.Base.{◌||◌, false, ◌≢◌, ==_iff}
use cluster_fabric_operator.Net.{Ip, IpNet, value, host_bits, mask_ip, contains}
use cluster_fabric_operator.Net.Blocks.{
  IsAligned, Within, nested_of_common, pow_pos, block_iff, base-IsAligned, base-Within,
}
use cluster_fabric_operator.Net.RoundTrip.{IsIp, value-ip_of, value-lt, ip_of-IsIp}

-- A network as `ParseCIDR` makes it: a 32-bit address whose host bits are clear.
pub record IsNet (n : IpNet) : Type 0 where
  pub is_ip : IsIp n.ip
  pub ones_le : n.ones ≤ 32
  pub aligned : IsAligned (host_bits n) (value n.ip)

-- The address lies in the network.
abbrev pub InNet : IpNet → ℕ → Type 0
InNet n x = Within (host_bits n) (value n.ip) x

pub contains_iff : (n : IpNet) (a : Ip) → IsNet n → (contains n a ≡ true) ↔ InNet n (value a)
unfolding contains
contains_iff n a w =
    let i = block_iff (host_bits n) (value n.ip) (value a) w.aligned in
    let e = ==_iff (value n.ip / 2 ^ host_bits n) (value a / 2 ^ host_bits n) in
    (λ h. i.0 (e.0 h), λ h. e.1 (i.1 h))

-- The network of an address under a mask.
abbrev pub net_at : Ip → ℕ → IpNet
net_at a k = record { ip = mask_ip a k; ones = k }

pub value-mask_ip :
    (a : Ip) (k : ℕ) → IsIp a → value (mask_ip a k) ≡ value a / 2 ^ (32 - k) * 2 ^ (32 - k)
unfolding mask_ip
value-mask_ip a k h =
    value-ip_of _ (omega (arith, div-mul-le_self (value a) (2 ^ (32 - k)), value-lt a h))

pub net_at-IsNet : (a : Ip) (k : ℕ) → IsIp a → k ≤ 32 → IsNet (net_at a k)
net_at-IsNet a k h le = record {
  is_ip = unfold mask_ip in ip_of-IsIp _;
  ones_le = le;
  aligned = rw (value-mask_ip a k h) (base-IsAligned (32 - k) (value a));
}

-- An address lies in the network that its own leading bits make.
pub net_at-InNet : (a : Ip) (k : ℕ) → IsIp a → InNet (net_at a k) (value a)
net_at-InNet a k h = rw (value-mask_ip a k h) (base-Within (32 - k) (value a))

-- Two networks share no address if neither has the other's first one; for the requested one it is
-- enough to look at any of its addresses.
pub apart :
    (n m : IpNet) (a x : ℕ)
    → IsNet n
    → IsNet m
    → InNet n a
    → ¬ InNet m a
    → ¬ InNet n (value m.ip)
    → InNet n x
    → InNet m x
    → ⊥
apart n m a x nw mw na not_ma not_nm nx mx = elim (dec_le (host_bits n) (host_bits m)) [
  | yes le ↦
      let inside =
        nested_of_common (host_bits n) (host_bits m) (value n.ip) (value m.ip) x le nw.aligned
          mw.aligned nx mx in
      not_ma (omega arith)
  | no gt ↦
      let inside =
        nested_of_common (host_bits m) (host_bits n) (value m.ip) (value n.ip) x (omega arith)
          mw.aligned nw.aligned mx nx in
      not_nm (omega (arith, pow_pos (host_bits m)))
]

-- Two networks share no address exactly if neither contains the other's first one.
pub contains_iff_common :
    (n m : IpNet)
    → IsNet n
    → IsNet m
    → ((contains m n.ip || contains n m.ip) ≡ false) ↔ ((x : ℕ) → InNet n x → InNet m x → ⊥)
contains_iff_common n m nw mw = (there, back)
  where
    first : (k : IpNet) → InNet k (value k.ip)
    first k = omega (arith, pow_pos (host_bits k))

    there : (contains m n.ip || contains n m.ip) ≡ false → (x : ℕ) → InNet n x → InNet m x → ⊥
    there h x =
        apart n m (value n.ip) x nw mw (first n) (λ i. cc (h, (contains_iff m n.ip mw).1 i))
          (λ i. let e = (contains_iff n m.ip nw).1 i in ground (arith, h, e))

    back : ((x : ℕ) → InNet n x → InNet m x → ⊥) → (contains m n.ip || contains n m.ip) ≡ false
    back d =
        let no_m : contains m n.ip ≢ true =
          λ e. d (value n.ip) (first n) ((contains_iff m n.ip mw).0 e) in
        let no_n : contains n m.ip ≢ true =
          λ e. d (value m.ip) ((contains_iff n m.ip nw).0 e) (first m) in
        ground arith
