-- ===== src/Net/Blocks.antt =====
-- Aligned blocks of numbers, which are what networks are once an address is read as a number.
use cluster_fabric_operator.Base.{ℕ, zero, suc, ◌+◌, ◌-◌, ◌*◌, ◌/◌, ◌%◌, ◌^◌, ◌≤◌, ◌<◌}
use cluster_fabric_operator.Base.{◌≡◌, refl, sym, ap, ◌∙◌, ◌↔◌, arith}
use native.Mathlib.Nat.{pow-suc, pow-zero, one-le-pow, div-add-mod', div-mul-le_self, mul_assoc}
use native.Mathlib.Nat.{lt-div-mul-add, div-eq_of_lt-le, mul-mod_left, add-zero, add-suc, mul-one}
use native.Mathlib.Decide.{dec_lt}

pub pow-add : (a b : ℕ) → 2 ^ (a + b) ≡ 2 ^ a * 2 ^ b
pow-add a zero = rw (add-zero, pow-zero, mul-one) refl
pow-add a (suc b) = rw (add-suc, pow-suc, pow-suc 2 b, pow-add a b, mul_assoc) refl

pub pow-sub-mul : (h k : ℕ) → h ≤ k → 2 ^ k ≡ 2 ^ (k - h) * 2 ^ h
pow-sub-mul h k le =
    let e : k ≡ k - h + h = omega arith in ap (λ (t : ℕ). 2 ^ t) e ∙ pow-add (k - h) h

pub pow_pos : (h : ℕ) → 0 < 2 ^ h
pow_pos h = one-le-pow h 2 (omega arith)

mul_lt_cancel : (a b p : ℕ) → a * p < b * p → a < b
mul_lt_cancel a b p h = elim (dec_lt a b) [
  | yes l ↦ l
  | no n ↦
      let le : b ≤ a = omega arith in let le' : b * p ≤ a * p = grind arith in absurd (omega arith)
]

-- `lo` is a multiple of `2 ^ h`.
abbrev pub IsAligned : ℕ → ℕ → Type 0
IsAligned h lo = lo % 2 ^ h ≡ 0

-- `x` lies in the block of `2 ^ h` numbers from `lo` on.
abbrev pub Within : ℕ → ℕ → ℕ → Type 0
Within h lo x = (lo ≤ x) × (x < lo + 2 ^ h)

pub multiple_of_aligned : (h lo : ℕ) → IsAligned h lo → lo ≡ lo / 2 ^ h * 2 ^ h
multiple_of_aligned h lo a = omega (arith, div-add-mod' lo (2 ^ h))

-- The leading bits agree exactly within the block.
pub block_iff : (h lo x : ℕ) → IsAligned h lo → (lo / 2 ^ h ≡ x / 2 ^ h) ↔ Within h lo x
block_iff h lo x a = (there, back)
  where
    there : lo / 2 ^ h ≡ x / 2 ^ h → Within h lo x
    there e = omega (
      arith,
      multiple_of_aligned h lo a,
      ap (λ (t : ℕ). t * 2 ^ h) e,
      div-mul-le_self x (2 ^ h),
      lt-div-mul-add {a = x} (pow_pos h),
    )

    back : Within h lo x → lo / 2 ^ h ≡ x / 2 ^ h
    back w = sym (
        div-eq_of_lt-le {k = lo / 2 ^ h} (2 ^ h) {m = x} (omega (arith, multiple_of_aligned h lo a))
          (omega (arith, multiple_of_aligned h lo a)))

-- The block in which a number lies.
pub base-IsAligned : (h x : ℕ) → IsAligned h (x / 2 ^ h * 2 ^ h)
base-IsAligned h x = mul-mod_left (x / 2 ^ h) (2 ^ h)

pub base-Within : (h x : ℕ) → Within h (x / 2 ^ h * 2 ^ h) x
base-Within h x = (div-mul-le_self x (2 ^ h), lt-div-mul-add {a = x} (pow_pos h))

-- The same of multiples of `p`.
nested_multiples :
    (p q m r x : ℕ)
    → q * p ≤ x
    → x < q * p + p
    → m * p ≤ x
    → x < m * p + r * p
    → (m * p ≤ q * p) × (q * p + p ≤ m * p + r * p)
nested_multiples p q m r x h1 h2 h3 h4 =
    let low : m < q + 1 = mul_lt_cancel m (q + 1) p (omega arith) in
    let high : q < m + r = mul_lt_cancel q (m + r) p (omega arith) in
    let low' : m ≤ q = omega arith in
    let high' : q + 1 ≤ m + r = omega arith in (le_mul low', omega (arith, le_mul high'))
  where
    le_mul : {c d : ℕ} → c ≤ d → c * p ≤ d * p
    le_mul l = grind arith

-- Two aligned blocks with a number in common: the smaller lies in the larger.
pub nested_of_common :
    (h k lo hi x : ℕ)
    → h ≤ k
    → IsAligned h lo
    → IsAligned k hi
    → Within h lo x
    → Within k hi x
    → (hi ≤ lo) × (lo + 2 ^ h ≤ hi + 2 ^ k)
nested_of_common h k lo hi x le a b w v = omega (
  arith,
  lo_eq,
  hi_eq,
  split,
  nested_multiples (2 ^ h) (lo / 2 ^ h) (hi / 2 ^ k * 2 ^ (k - h)) (2 ^ (k - h)) x
      (omega (arith, lo_eq)) (omega (arith, lo_eq)) (omega (arith, hi_eq))
      (omega (arith, hi_eq, split)),
)
  where
    split : 2 ^ k ≡ 2 ^ (k - h) * 2 ^ h
    split = pow-sub-mul h k le

    lo_eq : lo ≡ lo / 2 ^ h * 2 ^ h
    lo_eq = multiple_of_aligned h lo a

    hi_eq : hi ≡ hi / 2 ^ k * 2 ^ (k - h) * 2 ^ h
    hi_eq =
        multiple_of_aligned k hi b
        ∙ ap (λ (t : ℕ). hi / 2 ^ k * t) split
        ∙ sym (mul_assoc (hi / 2 ^ k) (2 ^ (k - h)) (2 ^ h))

-- A multiple of a power of two is one of each smaller power.
pub IsAligned-le : (h k lo : ℕ) → h ≤ k → IsAligned k lo → IsAligned h lo
IsAligned-le h k lo le a =
    let e : lo ≡ lo / 2 ^ k * 2 ^ (k - h) * 2 ^ h =
      multiple_of_aligned k lo a
      ∙ ap (λ (t : ℕ). lo / 2 ^ k * t) (pow-sub-mul h k le)
      ∙ sym (mul_assoc (lo / 2 ^ k) (2 ^ (k - h)) (2 ^ h)) in
    ap (λ (t : ℕ). t % 2 ^ h) e ∙ mul-mod_left (lo / 2 ^ k * 2 ^ (k - h)) (2 ^ h)
