-- ===== src/Globalnet/Sizes/PowerOfTwo.antt =====
-- `nextPowerOf2`: smearing the highest digit downwards rounds up to a power of two.
use Prim.Native.Nat.{min}
use cluster_fabric_operator.Base.{
  ℕ, zero, suc, ◌+◌, ◌-◌, ◌*◌, ◌/◌, ◌%◌, ◌^◌, ◌≤◌, ◌<◌, ◌≡◌, refl, ◌∙◌, sym, ap, arith,
}
use cluster_fabric_operator.Base.OrBits.{bit_or-div, bit_or-mask, bit_or-zero}
use native.Mathlib.Nat.{pow-suc, pow-zero, div-div-eq-div-mul, div-one, pow-le-pow_right}
use native.Mathlib.Nat.{div-eq_of_lt-le}
use native.Mathlib.Decide.{dec_le}
use cluster_fabric_operator.Net.Blocks.{pow-add, pow_pos}
use mathlib.Core.Path.{subst}
use cluster_fabric_operator.Base.{◌⊎◌, inl, inr}
use native.Mathlib.Nat.{div-eq_of_lt, mod-eq_of_lt}
use cluster_fabric_operator.Globalnet.Sizes.{smear, next_power_of2}
use cluster_fabric_operator.Globalnet.Sizes.BitLength.{bit_size, bit_size_bounds, bit_size-le}

-- Above its lowest `r` digits the number has `j` digits, all ones.
abbrev Ones : ℕ → ℕ → ℕ → Type 0
Ones j r x = x / 2 ^ r + 1 ≡ 2 ^ j

-- The ones of `t` digits, shifted down from `t + s` ones.
ones_shift : (s t x : ℕ) → x + 1 ≡ 2 ^ (t + s) → x / 2 ^ s + 1 ≡ 2 ^ t
ones_shift s t x h =
    let e : x / 2 ^ s ≡ 2 ^ t - 1 =
      div-eq_of_lt-le (2 ^ s) {m = x} (grind (arith, pow-add t s, pow_pos s, pow_pos t))
        (grind (arith, pow-add t s, pow_pos s, pow_pos t)) in
    omega (arith, e, pow_pos t)

div-pow-pow : (x a b : ℕ) → x / 2 ^ a / 2 ^ b ≡ x / 2 ^ (a + b)
div-pow-pow x a b = div-div-eq-div-mul x (2 ^ a) (2 ^ b) ∙ ap (λ (t : ℕ). x / t) (sym (pow-add a b))

-- A smear by the number of ones sets as many digits again, as far as there are digits.
smear-Ones : (t s r x : ℕ) → Ones (t + s) (r + t) x → Ones (t + s + t) r (smear (t + s) x)
unfolding smear
smear-Ones t s r x h =
    let shifted : x / 2 ^ (t + s) / 2 ^ r ≡ x / 2 ^ (r + t) / 2 ^ s =
      let e : t + s + r ≡ r + t + s = omega arith in
      div-pow-pow x (t + s) r ∙ ap (λ (k : ℕ). x / 2 ^ k) e ∙ sym (div-pow-pow x (r + t) s) in
    let low : x / 2 ^ (t + s) / 2 ^ r ≡ 2 ^ t - 1 =
      omega (arith, shifted, ones_shift s t (x / 2 ^ (r + t)) h) in
    rw
      (
        bit_or-div r x (x / 2 ^ (t + s)),
        low,
        bit_or-mask t (x / 2 ^ r),
        div-pow-pow x r t,
        pow-add (t + s) t,
        ← h,
      )
      (omega (arith, pow_pos t))

-- `x` has `l` digits, of which the highest `j` are ones.
abbrev Stage : ℕ → ℕ → ℕ → Type 0
Stage j l x = Ones (min j l) (l - j) x

-- With all digits ones there is nothing to set.
smear-all : (j l x : ℕ) → l ≤ j → x + 1 ≡ 2 ^ l → smear j x ≡ x
unfolding smear
smear-all j l x le h =
    let up : 2 ^ l ≤ 2 ^ j = pow-le-pow_right (omega arith) le in
    let none_left : x / 2 ^ j ≡ 0 = div-eq_of_lt (omega arith) in rw none_left (bit_or-zero x)

Ones-cast : (j r j' r' x : ℕ) → j ≡ j' → r ≡ r' → Ones j r x → Ones j' r' x
Ones-cast j r j' r' x p q h = rw (← p, ← q) h

smear-Stage : (j l x : ℕ) → Stage j l x → Stage (j + j) l (smear j x)
smear-Stage j l x h = elim (dec_le l j) [
  | yes short ↦
      let all : x + 1 ≡ 2 ^ l =
        rw (pow-zero, div-one) at
          (Ones-cast (min j l) (l - j) l 0 x (omega arith) (omega arith) h) in
      Ones-cast l 0 (min (j + j) l) (l - (j + j)) (smear j x) (omega arith) (omega arith)
        (rw (smear-all j l x short all, pow-zero, div-one) all)
  | no long ↦
      let t = min j (l - j) in
      let s = j - t in
      let r = l - (j + t) in
      let e : t + s ≡ j = omega arith in
      Ones-cast (t + s + t) r (min (j + j) l) (l - (j + j)) (smear j x) (omega arith) (omega arith)
        (subst (λ k. Ones (t + s + t) r (smear k x)) e
          (smear-Ones t s r x
            (Ones-cast (min j l) (l - j) (t + s) (r + t) x (omega arith) (omega arith) h)))
]

first-Stage : (l x : ℕ) → x < 2 ^ l → 2 ^ l ≤ 2 * x ⊎ (l ≡ 0) → Stage 1 l x
first-Stage zero x lt _ = let e : x ≡ 0 = omega (arith, pow-zero 2) in rw (e) refl
first-Stage (suc l) x lt (inr e) = absurd (omega arith)
first-Stage (suc l) x lt (inl ge) =
    let one : x / 2 ^ l ≡ 1 =
      div-eq_of_lt-le (2 ^ l) {m = x} (omega (arith, pow-suc 2 l)) (omega (arith, pow-suc 2 l)) in
    Ones-cast 1 l (min 1 (suc l)) (suc l - 1) x (omega arith) (omega arith) (rw one refl)

even_room : (l x : ℕ) → 2 ^ l < 2 * x + 2 → 2 ^ l ≤ 2 * x ⊎ (l ≡ 0)
even_room zero x h = inr refl
even_room (suc l) x h = inl (omega (arith, pow-suc 2 l))

smeared :
    (l x : ℕ)
    → l ≤ 32
    → Stage 1 l x
    → smear 16 (smear 8 (smear 4 (smear 2 (smear 1 x)))) + 1 ≡ 2 ^ l
smeared l x le h =
    let last =
      smear-Stage 16 l _
        (smear-Stage 8 l _ (smear-Stage 4 l _ (smear-Stage 2 l _ (smear-Stage 1 l x h)))) in
    rw (pow-zero, div-one) at (Ones-cast (min 32 l) (l - 32) l 0 _ (omega arith) (omega arith) last)

-- For a size from 1 to 2 ^ 31 the result is the least power of two that holds it, with the exponent
-- that `allocateByClusterSize` computes from the size.
pub next_power_of2-eq-pow :
    (n : ℕ)
    → 0 < n
    → n ≤ 2 ^ 31
    → (next_power_of2 n ≡ 2 ^ bit_size n) × (n ≤ 2 ^ bit_size n) × (2 ^ bit_size n < 2 * n)
unfolding next_power_of2
next_power_of2-eq-pow n pos le =
    let (room, tight) = bit_size_bounds n pos (omega arith) in
    let small : bit_size n ≤ 31 = bit_size-le n 31 pos le (omega arith) in
    let before : (n + 2 ^ 32 - 1) % 2 ^ 32 ≡ n - 1 = omega arith in
    let up : 2 ^ bit_size n ≤ 2 ^ 31 = pow-le-pow_right (omega arith) small in
    let ones = smeared (bit_size n) (n - 1) (omega arith) (
      first-Stage (bit_size n) (n - 1) (omega (arith, room))
        (even_room (bit_size n) (n - 1) (omega (arith, tight)))) in
    (rw (before, ones) (mod-eq_of_lt (omega (arith, up))), room, tight)

-- The sizes that the 32-bit sum cannot hold, and 0, come out as 0.
pub next_power_of2-eq-zero :
    (n : ℕ) → (n ≡ 0) ⊎ ((2 ^ 31 < n) × (n < 2 ^ 32)) → next_power_of2 n ≡ 0
unfolding next_power_of2 smear
next_power_of2-eq-zero n (inl e) = rw e refl
next_power_of2-eq-zero n (inr (lo, hi)) =
    let before : (n + 2 ^ 32 - 1) % 2 ^ 32 ≡ n - 1 = omega arith in
    let ones =
      smeared 32 (n - 1) (omega arith) (first-Stage 32 (n - 1) (omega arith) (inl (omega arith))) in
    rw (before, ones) refl
