-- ===== src/Net/Decimal.antt =====
-- Decimal numbers: `dtoi` of Go's net package, and the printing of numbers by `fmt` and `strconv`.
use cluster_fabric_operator.Base.{ℕ, ◌+◌, ◌-◌, ◌*◌, ◌/◌, ◌%◌, ◌≤◌, ◌<◌, ◌≡◌, refl}
use cluster_fabric_operator.Base.{Bool, false, ◌&&◌, Option, none, some, [], ◌∷◌, ◌++◌}
use native.Mathlib.Decide.{dec_lt}
use cluster_fabric_operator.Base.{◌∙◌, Text, leb, ltb, if◌then◌else◌, arith}

abbrev pub is_digit : ℕ → Bool
is_digit c = leb b'0' c && leb c b'9'

-- Numbers from here on are refused.
abbrev big : ℕ
big = 0xffffff

-- The digits read so far make `n`.
unfoldable pub digits_from : ℕ → Text → Option (ℕ × Text)
digits_from n [] = some (n, [])
digits_from n (c ∷ s) =
    let m = n * 10 + (c - b'0') in
    let rest = digits_from m s in
    if is_digit c then (if leb big m then none else rest) else some (n, c ∷ s)

-- The number at the front of a text, and what follows it; `none` without a digit.
unfoldable pub dtoi : Text → Option (ℕ × Text)
unfolding digits_from
dtoi [] = none
dtoi (c ∷ s) = if is_digit c then digits_from 0 (c ∷ s) else none

-- A number below 1000 in decimal, with no leading zero.
unfoldable pub print_nat : ℕ → Text
print_nat n =
    if ltb n 10
    then (48 + n) ∷ []
    else if ltb n 100
    then (48 + n / 10) ∷ (48 + n % 10) ∷ []
    else (48 + n / 100) ∷ (48 + n / 10 % 10) ∷ (48 + n % 10) ∷ []

-- A text that begins with no digit.
abbrev pub NoDigit : Text → Type 0
NoDigit [] = Unit
NoDigit (c ∷ s) = is_digit c ≡ false

digits_from-stop : (n : ℕ) (s : Text) → NoDigit s → digits_from n s ≡ some (n, s)
unfolding digits_from
digits_from-stop n [] h = refl
digits_from-stop n (c ∷ s) h = ground arith

digits_from-digit :
    (n d : ℕ) (s : Text)
    → d < 10
    → n * 10 + d < big
    → digits_from n ((48 + d) ∷ s) ≡ digits_from (n * 10 + d) s
unfolding digits_from
digits_from-digit n d s h k = let e : 48 + d - 48 ≡ d = omega arith in rw e (ground arith)

dtoi-digit : (d : ℕ) (s : Text) → d < 10 → dtoi ((48 + d) ∷ s) ≡ digits_from d s
unfolding dtoi
dtoi-digit d s h = ground (arith, digits_from-digit 0 d s)

-- The cases of `print_nat`.
print_nat_one : (n : ℕ) → n < 10 → print_nat n ≡ (48 + n) ∷ []
unfolding print_nat
print_nat_one n h = ground arith

print_nat_two : (n : ℕ) → 10 ≤ n → n < 100 → print_nat n ≡ (48 + n / 10) ∷ (48 + n % 10) ∷ []
unfolding print_nat
print_nat_two n l h = ground arith

print_nat_three :
    (n : ℕ) → 100 ≤ n → print_nat n ≡ (48 + n / 100) ∷ (48 + n / 10 % 10) ∷ (48 + n % 10) ∷ []
unfolding print_nat
print_nat_three n l = ground arith

-- A printed number is read back, and reading stops behind it.
pub dtoi-print_nat :
    (n : ℕ) (s : Text) → n < 1000 → NoDigit s → dtoi (print_nat n ++ s) ≡ some (n, s)
dtoi-print_nat n s h stop = elim (dec_lt n 10) [
  | yes p ↦ rw (print_nat_one n p) (dtoi-digit n s p ∙ digits_from-stop n s stop)
  | no p ↦ elim (dec_lt n 100) [
    | yes q ↦
        rw
          (
            print_nat_two n (omega arith) q,
            dtoi-digit (n / 10) ((48 + n % 10) ∷ s) (omega arith),
            digits_from-digit (n / 10) (n % 10) s (omega arith) (omega arith),
            tens,
          )
          (digits_from-stop n s stop)
    | no q ↦
        rw
          (
            print_nat_three n (omega arith),
            dtoi-digit (n / 100) ((48 + n / 10 % 10) ∷ (48 + n % 10) ∷ s) (omega arith),
            digits_from-digit (n / 100) (n / 10 % 10) ((48 + n % 10) ∷ s) (omega arith)
                (omega arith),
            hundreds,
            digits_from-digit (n / 10) (n % 10) s (omega arith) (omega arith),
            tens,
          )
          (digits_from-stop n s stop)
  ]
]
  where
    hundreds : n / 100 * 10 + n / 10 % 10 ≡ n / 10
    hundreds = omega arith

    tens : n / 10 * 10 + n % 10 ≡ n
    tens = omega arith
