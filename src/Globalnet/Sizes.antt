-- ===== src/Globalnet/Sizes.antt =====
-- controllers/discovery/globalnet/globalnet.go: `nextPowerOf2`, `GetValidClusterSize`, and the
-- bit count (`bits.LeadingZeros`) and the mask (`net.CIDRMask`) that `allocateByClusterSize` uses.
pub mod BitLength
pub mod PowerOfTwo
pub mod Valid
use Prim.Native.Nat.{bit_or}
use cluster_fabric_operator.Base.{ℕ, zero, suc, ◌+◌, ◌-◌, ◌*◌, ◌/◌, ◌%◌, ◌^◌, ◌==◌, ltb, leb}
use cluster_fabric_operator.Base.{Text, Option, none, some, if◌then◌else◌, ◌∷◌}
use cluster_fabric_operator.Base.{Result, ok, err, Error.invalid_cidr_text}
use cluster_fabric_operator.Base.{Error.cluster_size_too_large}
use cluster_fabric_operator.Net.{parse_cidr}
use cluster_fabric_operator.Net.Decimal.{print_nat}

-- `bits.Len` of a number of at most `fuel` bits.
unfoldable pub bit_len : ℕ → ℕ → ℕ
bit_len zero x = 0
bit_len (suc fuel) x = if x == 0 then 0 else suc (bit_len fuel (x / 2))

-- `bits.LeadingZeros` of a 64-bit number.
unfoldable pub leading_zeros : ℕ → ℕ
leading_zeros x = 64 - bit_len 64 x

-- A signed difference: the prefix length may fall below zero.
pub data ℤ : Type 0 where
  pos : ℕ → ℤ
  negsuc : ℕ → ℤ

unfoldable pub sub_int : ℕ → ℕ → ℤ
sub_int a b = if leb b a then pos (a - b) else negsuc (b - a - 1)

-- The format `%d`.
unfoldable pub print_int : ℤ → Text
print_int (pos n) = print_nat n
print_int (negsuc n) = b'-' ∷ print_nat (n + 1)

-- `net.CIDRMask(ones, 32)`; nil when the length is out of range.
unfoldable pub cidr_mask : ℤ → Option ℕ
cidr_mask (pos n) = if leb n 32 then some n else none
cidr_mask (negsuc n) = none

-- `n |= n >> k`
unfoldable pub smear : ℕ → ℕ → ℕ
smear k n = bit_or n (n / 2 ^ k)

-- `nextPowerOf2`, in 32-bit arithmetic.
unfoldable pub next_power_of2 : ℕ → ℕ
next_power_of2 n =
    let n0 = (n + 2 ^ 32 - 1) % 2 ^ 32 in
    let n5 = smear 16 (smear 8 (smear 4 (smear 2 (smear 1 n0)))) in (n5 + 1) % 2 ^ 32

-- `GetValidClusterSize`
unfoldable pub get_valid_cluster_size : Text → ℕ → Result ℕ
get_valid_cluster_size cidr_range cluster_size = elim (parse_cidr cidr_range) [
  | none ↦ err invalid_cidr_text
  | some (a, network) ↦
      let available_size = 2 ^ (32 - network.ones) in
      let size = next_power_of2 (cluster_size % 2 ^ 32) in
      if ltb (available_size / 2) size then err cluster_size_too_large else ok size
]
