-- ===== src/Net.antt =====
-- IPv4 addresses and networks, as the `net` package of Go 1.16 has them and as
-- controllers/discovery/globalnet/globalnet.go uses them: ParseCIDR, IPNet.Contains, IPNet.String,
-- IP.String. Addresses of version 6 are not modelled: a text that is no dotted quad is refused.
pub mod Decimal
pub mod Blocks
pub mod RoundTrip
pub mod Networks
pub mod Parsed
use cluster_fabric_operator.Base.{ℕ, zero, suc, ◌+◌, ◌-◌, ◌*◌, ◌/◌, ◌%◌, ◌^◌, ◌≤◌, ◌<◌}
use cluster_fabric_operator.Base.{◌≡◌, Bool, true, false, ◌&&◌, Option, none, some}
use cluster_fabric_operator.Base.{List, [], ◌∷◌, ◌++◌, Text, ◌==◌, leb, ltb, if◌then◌else◌}
use Decimal.{dtoi, print_nat}

-- The four bytes of an address.
pub record Ip : Type 0 where
  pub o0 : ℕ
  pub o1 : ℕ
  pub o2 : ℕ
  pub o3 : ℕ

-- A network: its first address and the number of leading ones of its mask.
pub record IpNet : Type 0 where
  pub ip : Ip
  pub ones : ℕ

-- The number whose big-endian bytes are the address.
unfoldable pub value : Ip → ℕ
value a = a.o0 * 2 ^ 24 + a.o1 * 2 ^ 16 + a.o2 * 2 ^ 8 + a.o3

unfoldable pub ip_of : ℕ → Ip
ip_of n = record {
  o0 = n / 2 ^ 24 % 256;
  o1 = n / 2 ^ 16 % 256;
  o2 = n / 2 ^ 8 % 256;
  o3 = n % 256;
}

-- The number of host bits.
abbrev pub host_bits : IpNet → ℕ
host_bits n = 32 - n.ones

-- `ip.Mask(CIDRMask(ones, 32))`: the host bits are cleared.
unfoldable pub mask_ip : Ip → ℕ → Ip
mask_ip a ones = ip_of (value a / 2 ^ (32 - ones) * 2 ^ (32 - ones))

-- `IPNet.Contains`: the bits under the mask agree.
unfoldable pub contains : IpNet → Ip → Bool
contains n a = value n.ip / 2 ^ host_bits n == value a / 2 ^ host_bits n

infixl 5 ◌>>=◌
abbrev pub ◌>>=◌ {ℓ κ} : {A : Type ℓ} {B : Type κ} → Option A → (A → Option B) → Option B
none >>= f = none
some a >>= f = f a

-- One octet of `parseIPv4`: a number of at most 255.
unfoldable pub parse_octet : Text → Option (ℕ × Text)
parse_octet s = do (n, rest) ← dtoi s; if leb n 255 then some (n, rest) else none

-- A later octet, behind its dot.
unfoldable pub parse_dot_octet : Text → Option (ℕ × Text)
parse_dot_octet [] = none
parse_dot_octet (c ∷ s) = if c == b'.' then parse_octet s else none

-- An address and what follows it; `parseIPv4` wants nothing to follow.
unfoldable pub parse_ipv4 : Text → Option (Ip × Text)
parse_ipv4 s = do
  (a, s1) ← parse_octet s
  (b, s2) ← parse_dot_octet s1
  (c, s3) ← parse_dot_octet s2
  (d, s4) ← parse_dot_octet s3
  some (record { o0 = a; o1 = b; o2 = c; o3 = d }, s4)

-- The number behind the slash, which must be the whole rest.
unfoldable pub prefix_of : Option (ℕ × Text) → Option ℕ
prefix_of none = none
prefix_of (some (n, [])) = if leb n 32 then some n else none
prefix_of (some (n, x ∷ xs)) = none

-- The part of `ParseCIDR` behind the address: a slash and a number of at most 32.
unfoldable pub parse_prefix : Text → Option ℕ
unfolding prefix_of
parse_prefix [] = none
parse_prefix (c ∷ s) = if c == b'/' then prefix_of (dtoi s) else none

-- `ParseCIDR`: the address as written, and the network that it lies in.
unfoldable pub parse_cidr : Text → Option (Ip × IpNet)
parse_cidr s = do
  (a, rest) ← parse_ipv4 s
  n ← parse_prefix rest
  some (a, record { ip = mask_ip a n; ones = n })

-- `IP.String`
unfoldable pub print_ip : Ip → Text
print_ip a =
    print_nat a.o0
    ++ (b'.' ∷ (print_nat a.o1 ++ (b'.' ∷ (print_nat a.o2 ++ (b'.' ∷ print_nat a.o3)))))

-- `IPNet.String` and the format `%s/%d`: the address as it stands, not masked.
unfoldable pub print_cidr : Ip → ℕ → Text
print_cidr a n = print_ip a ++ (b'/' ∷ print_nat n)
