-- ===== src/Base/OrBits.antt =====
-- The bitwise or of native numbers, digit by digit and at a low mask.
use Prim.Native.Nat.{bit_or, bit_or-bitwise, digits, max}
use cluster_fabric_operator.Base.{
  ℕ, zero, suc, ◌+◌, ◌-◌, ◌*◌, ◌/◌, ◌%◌, ◌^◌, ◌≤◌, ◌≡◌, refl, sym, ap, arith,
}
use native.Mathlib.Nat.{
  le_refl, pow-suc, pow-zero, div-one, div-div-eq-div-mul, one-le-pow, mul_comm,
}

-- `or` by a count of digits: any count that covers the first number serves.
abbrev or_by : ℕ → ℕ → ℕ → ℕ
or_by = digits (λ b. b) max

or_by_enough : (k l x y : ℕ) → x ≤ k → x ≤ l → or_by k x y ≡ or_by l x y
or_by_enough zero zero x y p q = refl
or_by_enough zero (suc l) zero y p q = refl
or_by_enough (suc k) zero zero y p q = refl
or_by_enough (suc k) (suc l) zero y p q = refl
or_by_enough zero (suc l) (suc x) y p q = absurd (omega arith)
or_by_enough (suc k) zero (suc x) y p q = absurd (omega arith)
or_by_enough (suc k) (suc l) (suc x) y p q =
    ap (λ (t : ℕ). t * 2 + max (suc x % 2) (y % 2))
      (or_by_enough k l (suc x / 2) (y / 2) (omega arith) (omega arith))

-- The lowest digit, and the rest.
pub bit_or-digit : (x y : ℕ) → bit_or x y ≡ bit_or (x / 2) (y / 2) * 2 + max (x % 2) (y % 2)
bit_or-digit zero y = simp bit_or-bitwise (omega arith)
bit_or-digit (suc x) y = simp bit_or-bitwise (
    ap (λ (t : ℕ). t * 2 + max (suc x % 2) (y % 2))
      (or_by_enough x (suc x / 2) (suc x / 2) (y / 2) (omega arith) (le_refl _)))

bit_or-half : (x y : ℕ) → bit_or x y / 2 ≡ bit_or (x / 2) (y / 2)
bit_or-half x y = omega (arith, bit_or-digit x y)

-- Shifting both operands shifts the result.
pub bit_or-div : (m x y : ℕ) → bit_or x y / 2 ^ m ≡ bit_or (x / 2 ^ m) (y / 2 ^ m)
bit_or-div zero x y = rw (pow-zero, div-one, div-one x, div-one y) refl
bit_or-div (suc m) x y =
    let e : (z : ℕ) → z / 2 ^ suc m ≡ z / 2 / 2 ^ m =
      λ z. rw (pow-suc 2 m, mul_comm (2 ^ m) 2) (sym (div-div-eq-div-mul z 2 (2 ^ m))) in
    rw (e (bit_or x y), e x, e y, bit_or-half x y) (bit_or-div m (x / 2) (y / 2))

bit_or-zero_below : (k x : ℕ) → x ≤ k → bit_or x 0 ≡ x
bit_or-zero_below zero x h = let e : x ≡ 0 = omega arith in rw e refl
bit_or-zero_below (suc k) zero h = refl
bit_or-zero_below (suc k) (suc x) h =
    omega (arith, bit_or-digit (suc x) 0, bit_or-zero_below k (suc x / 2) (omega arith))

pub bit_or-zero : (x : ℕ) → bit_or x 0 ≡ x
bit_or-zero x = bit_or-zero_below x x (le_refl x)

-- A low mask sets the low digits.
pub bit_or-mask : (t x : ℕ) → bit_or x (2 ^ t - 1) ≡ x / 2 ^ t * 2 ^ t + (2 ^ t - 1)
bit_or-mask zero x = rw (pow-zero) (omega (arith, bit_or-zero x))
bit_or-mask (suc t) x =
    let half : (2 ^ t * 2 - 1) / 2 ≡ 2 ^ t - 1 = omega (arith, one-le-pow t 2 (omega arith)) in
    let odd : (2 ^ t * 2 - 1) % 2 ≡ 1 = omega (arith, one-le-pow t 2 (omega arith)) in
    let high : x / (2 ^ t * 2) ≡ x / 2 / 2 ^ t =
      rw (mul_comm (2 ^ t) 2) (sym (div-div-eq-div-mul x 2 (2 ^ t))) in
    rw (pow-suc 2 t, bit_or-digit x (2 ^ t * 2 - 1), half, odd, high, bit_or-mask t (x / 2))
      (omega (arith, one-le-pow t 2 (omega arith)))
