-- ===== src/Globalnet/Sizes/BitLength.antt =====
-- The bit count of `allocateByClusterSize`: the least power of two that holds a size.
use cluster_fabric_operator.Base.{ℕ, zero, suc, ◌+◌, ◌-◌, ◌*◌, ◌/◌, ◌%◌, ◌^◌, ◌≤◌, ◌<◌, ◌≡◌, refl}
use cluster_fabric_operator.Base.{arith}
use native.Mathlib.Nat.{pow-suc, pow-zero, pow-le-pow_right}
use native.Mathlib.Decide.{dec_le, dec_lt}
use cluster_fabric_operator.Globalnet.Sizes.{bit_len, leading_zeros}

pub bit_len-le_fuel : (fuel x : ℕ) → bit_len fuel x ≤ fuel
unfolding bit_len
bit_len-le_fuel zero x = omega arith
bit_len-le_fuel (suc fuel) x = ground (arith, bit_len-le_fuel fuel (x / 2))

bit_len-zero : (fuel : ℕ) → bit_len fuel 0 ≡ 0
unfolding bit_len
bit_len-zero zero = refl
bit_len-zero (suc fuel) = refl

-- A number lies below two to the number of its bits.
pub lt-pow-bit_len : (fuel x : ℕ) → x < 2 ^ fuel → x < 2 ^ bit_len fuel x
unfolding bit_len
lt-pow-bit_len zero x h = h
lt-pow-bit_len (suc fuel) x h = ground (
  arith,
  pow-suc 2 fuel,
  pow-suc 2 (bit_len fuel (x / 2)),
  pow-zero 2,
  lt-pow-bit_len fuel (x / 2),
)

-- No smaller power of two does.
pub pow-bit_len-le : (fuel x : ℕ) → 0 < x → 2 ^ bit_len fuel x ≤ 2 * x
unfolding bit_len
pow-bit_len-le zero x h = omega (arith, pow-zero 2)
pow-bit_len-le (suc fuel) zero h = absurd (omega arith)
pow-bit_len-le (suc fuel) (suc zero) h =
    ground (arith, pow-suc 2 (bit_len fuel (1 / 2)), bit_len-zero fuel, pow-zero 2)
pow-bit_len-le (suc fuel) (suc (suc x)) h = ground (
  arith,
  pow-suc 2 (bit_len fuel (suc (suc x) / 2)),
  pow-bit_len-le fuel (suc (suc x) / 2) (omega arith),
)

-- The number of bits that `allocateByClusterSize` counts.
abbrev pub bit_size : ℕ → ℕ
bit_size n = leading_zeros 0 - leading_zeros ((n + 2 ^ 64 - 1) % 2 ^ 64)

pub bit_size_eq : (n : ℕ) → 0 < n → n < 2 ^ 64 → bit_size n ≡ bit_len 64 (n - 1)
unfolding leading_zeros
bit_size_eq n h k =
    let e : (n + 2 ^ 64 - 1) % 2 ^ 64 ≡ n - 1 = omega arith in
    rw (e, bit_len-zero 64) (omega (arith, bit_len-le_fuel 64 (n - 1)))

-- `2 ^ bit_size n` addresses hold `n`, and are fewer than twice `n`.
pub bit_size_bounds : (n : ℕ) → 0 < n → n < 2 ^ 64 → (n ≤ 2 ^ bit_size n) × (2 ^ bit_size n < 2 * n)
bit_size_bounds n h k = elim (dec_lt 1 n) [
  | yes two ↦ rw (bit_size_eq n h k) (
      omega
        (arith, lt-pow-bit_len 64 (n - 1) (omega arith), pow-bit_len-le 64 (n - 1) (omega arith)))
  | no one ↦
      let e : n - 1 ≡ 0 = omega arith in
      rw (bit_size_eq n h k, e, bit_len-zero 64, pow-zero 2) (omega arith)
]

pub bit_size-le : (n k : ℕ) → 0 < n → n ≤ 2 ^ k → k < 64 → bit_size n ≤ k
bit_size-le n k h le lt = elim (dec_le (bit_size n) k) [
  | yes l ↦ l
  | no l ↦
      let up : 2 ^ suc k ≤ 2 ^ bit_size n = pow-le-pow_right (omega arith) (omega arith) in
      let max : 2 ^ k ≤ 2 ^ 63 = pow-le-pow_right (omega arith) {j = 63} (omega arith) in
      absurd (omega (arith, up, max, pow-suc 2 k, bit_size_bounds n h (omega (arith, max))))
]
