-- ===== src/Base/Lists.antt =====
-- Lists measured by native numbers, and predicates over their items.
use Prim.Native.Nat.{ℕ, zero, suc, ◌+◌}
use mathlib.Core.Path.{◌≡◌, refl}
use mathlib.Core.List.{List, [], ◌∷◌, ◌++◌}
use mathlib.Core.Option.{Option, none, some}
use native.Mathlib.Omega.{arith}

module _ {ℓ} {A : Type ℓ} where
  abbrev pub length : List A → ℕ
  length [] = 0
  length (x ∷ xs) = suc (length xs)

  abbrev pub get_elem? : List A → ℕ → Option A
  get_elem? [] i = none
  get_elem? (x ∷ xs) zero = some x
  get_elem? (x ∷ xs) (suc i) = get_elem? xs i

  abbrev pub take : ℕ → List A → List A
  take zero xs = []
  take (suc n) [] = []
  take (suc n) (x ∷ xs) = x ∷ take n xs

  pub length-append : (xs ys : List A) → length (xs ++ ys) ≡ length xs + length ys
  length-append [] ys = omega arith
  length-append (x ∷ xs) ys = omega (arith, length-append xs ys)

  pub take-length : (xs : List A) → take (length xs) xs ≡ xs
  take-length [] = refl
  take-length (x ∷ xs) = rw (take-length xs)

-- A predicate of every item.
abbrev pub All {ℓ κ} : {A : Type ℓ} → (A → Type κ) → List A → Type κ
All P [] = Unit
All P (x ∷ xs) = P x × All P xs

-- Some item has the predicate; the item is kept.
pub data Some {ℓ κ} {A : Type ℓ} (P : A → Type κ) : List A → Type (ℓ ⊔ κ) where
  at_head : {x : A} {xs : List A} → P x → Some P (x ∷ xs)
  in_tail : {x : A} {xs : List A} → Some P xs → Some P (x ∷ xs)

module _ {ℓ κ} {A : Type ℓ} (P : A → Type κ) where
  pub All-append : (xs ys : List A) → All P xs → All P ys → All P (xs ++ ys)
  All-append [] ys a b = b
  All-append (x ∷ xs) ys (h, a) b = (h, All-append xs ys a b)

  pub All-split : (xs ys : List A) (x : A) → All P (xs ++ (x ∷ ys)) → All P xs × P x × All P ys
  All-split [] ys x (p, b) = (tt, p, b)
  All-split (z ∷ xs) ys x (h, a) = let (c, p, b) = All-split xs ys x a in ((h, c), p, b)

-- An item cannot both have a predicate and be one of those that lack it.
pub All-Some_clash {ℓ κ μ} :
    {A : Type ℓ} (P : A → Type κ) (Q : A → Type μ)
    → ((x : A) → P x → Q x → ⊥)
    → (xs : List A) → All P xs
    → Some Q xs
    → ⊥
All-Some_clash P Q no_both [] a s = elim s [ ]
All-Some_clash P Q no_both (x ∷ xs) (p, ps) (at_head q) = no_both x p q
All-Some_clash P Q no_both (x ∷ xs) (p, ps) (in_tail s) = All-Some_clash P Q no_both xs ps s
