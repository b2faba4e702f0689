-- ===== src/Base/Texts.antt =====
-- Operations of Go's `strings` package that the program uses.
use Prim.Native.Nat.{ℕ, zero, suc, ◌+◌}
use mathlib.Core.Path.{◌≡◌, refl, ap}
use mathlib.Core.Bool.{Bool, true, false, ◌&&◌, ◌||◌}
use mathlib.Core.Option.{Option, none, some}
use mathlib.Core.Logic.{◌⊎◌, inl, inr}
use mathlib.Core.List.{List, [], ◌∷◌, ◌++◌}
use native.Mathlib.Omega.{arith}
use cluster_fabric_operator.Base.Tests.{◌==◌, ==_iff, if◌then◌else◌, Bool-cases}
use cluster_fabric_operator.Base.Lists.{All}
use cluster_fabric_operator.Base.Bytes.{Text, text_eq}

-- A code in front of the first part.
abbrev pub onto_first : ℕ → List Text → List Text
onto_first c [] = (c ∷ []) ∷ []
onto_first c (part ∷ parts) = (c ∷ part) ∷ parts

-- `strings.Split` at a separator of one byte.
unfoldable pub split : ℕ → Text → List Text
split sep [] = [] ∷ []
split sep (c ∷ s) = let parts = split sep s in if c == sep then [] ∷ parts else onto_first c parts

-- `strings.Count` of one byte.
unfoldable pub count : ℕ → Text → ℕ
count sep [] = 0
count sep (c ∷ s) = let n = count sep s in if c == sep then n + 1 else n

-- `strings.HasPrefix`
unfoldable pub has_prefix : Text → Text → Bool
has_prefix s [] = true
has_prefix [] (p ∷ prefix) = false
has_prefix (c ∷ s) (p ∷ prefix) = c == p && has_prefix s prefix

-- `strings.HasSuffix`
unfoldable pub has_suffix : Text → Text → Bool
has_suffix [] suffix = text_eq [] suffix
has_suffix (c ∷ s) suffix = text_eq (c ∷ s) suffix || has_suffix s suffix

-- A text less its last code: `s[0 : len(s)-1]`.
unfoldable pub drop_last : Text → Text
drop_last [] = []
drop_last (c ∷ []) = []
drop_last (c ∷ d ∷ s) = c ∷ drop_last (d ∷ s)

-- What follows the first `n` codes.
abbrev pub drop : ℕ → Text → Text
drop zero s = s
drop (suc n) [] = []
drop (suc n) (c ∷ s) = drop n s

-- `strings.Index`
unfoldable pub index : Text → Text → Option ℕ
index [] sub = if has_prefix [] sub then some 0 else none
index (c ∷ s) sub =
    let rest = index s sub in
    if has_prefix (c ∷ s) sub then some 0 else elim rest [ none ↦ none | some i ↦ some (suc i) ]

-- A text without the byte.
abbrev pub Lacks : ℕ → Text → Type 0
Lacks sep s = All (λ c. (c == sep) ≡ false) s

-- A text without the separator is one part; otherwise the first part ends at its first separator.
pub split-Lacks : (sep : ℕ) (s : Text) → Lacks sep s → split sep s ≡ s ∷ []
unfolding split
split-Lacks sep [] _ = refl
split-Lacks sep (c ∷ s) (f, rest) = rw (f, split-Lacks sep s rest) refl

pub split-append :
    (sep : ℕ) (s t : Text) → Lacks sep s → split sep (s ++ (sep ∷ t)) ≡ s ∷ split sep t
unfolding split
split-append sep [] t _ = let e : (sep == sep) ≡ true = ground arith in rw e refl
split-append sep (c ∷ s) t (f, rest) = rw (f, split-append sep s t rest) refl

-- The parts with the separator between them.
abbrev pub join_with : ℕ → List Text → Text
join_with sep [] = []
join_with sep (part ∷ []) = part
join_with sep (part ∷ next ∷ parts) = part ++ (sep ∷ join_with sep (next ∷ parts))

pub count-Lacks : (sep : ℕ) (s : Text) → Lacks sep s → count sep s ≡ 0
unfolding count
count-Lacks sep [] _ = refl
count-Lacks sep (c ∷ s) (f, rest) = rw (f, count-Lacks sep s rest) refl

-- Where there is a separator, the text up to it, and the rest, which has one separator less.
pub count_cases :
    (sep : ℕ) (s : Text)
    → Lacks sep s
      ⊎ ((t u : Text) × (s ≡ t ++ (sep ∷ u)) × Lacks sep t × (count sep s ≡ count sep u + 1))
unfolding count
count_cases sep [] = inl tt
count_cases sep (c ∷ s) = elim (Bool-cases (c == sep)) [
  | inl e ↦
      let same : c ≡ sep = (==_iff c sep).0 e in
      inr ([], s, ap (λ (x : ℕ). x ∷ s) same, tt, rw e refl)
  | inr f ↦ elim (count_cases sep s) [
    | inl lacks ↦ inl (f, lacks)
    | inr (t, u, eq, lacks, n) ↦ inr (c ∷ t, u, ap (λ (x : Text). c ∷ x) eq, (f, lacks), rw f n)
  ]
]
