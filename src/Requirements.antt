-- ===== src/Requirements.antt =====
-- controllers/checker/version.go: the version of Kubernetes that the cluster must have. The server's
-- answer and `strconv.Atoi` are parameters.
use cluster_fabric_operator.Base.{
  ℕ, ◌≤◌, ◌<◌, ◌==◌, ◌≡◌, refl, ap, inl, inr, ◌⊎◌, ◌↔◌, arith, ltb, Bool, true, false, ◌&&◌, ◌||◌,
  Text, codes, text_eq, has_suffix, drop_last, Lacks, List, [], ◌∷◌, ◌++◌, Option, none, some,
  Result, ok, err, Error, if◌then◌else◌,
}
use cluster_fabric_operator.Base.{Error.not_a_number}

-- `int`, whose bounds play no part here.
pub data ℤ : Type 0 where
  pos negsuc : ℕ → ℤ

abbrev pub less : ℤ → ℕ → Bool
less (pos n) m = ltb n m
less (negsuc n) m = true

abbrev pub equal : ℤ → ℕ → Bool
equal (pos n) m = n == m
equal (negsuc n) m = false

-- The texts of the server's version.
pub record Version : Type 0 where
  pub major : Text
  pub minor : Text

-- The text of the minor version, less a plus at its end.
unfoldable pub minor_text : Text → Text
minor_text minor = if has_suffix minor (codes "+") then drop_last minor else minor

-- The comparison with 1.15.
unfoldable pub too_old : ℤ → ℤ → Bool
too_old major minor = less major 1 || (equal major 1 && less minor 15)

not_suffix : (m : Text) → Lacks b'+' m → has_suffix m (codes "+") ≡ false
unfolding has_suffix text_eq
not_suffix [] _ = refl
not_suffix (c ∷ m) (f, rest) = rw (f, not_suffix m rest) refl

is_suffix : (m : Text) → has_suffix (m ++ codes "+") (codes "+") ≡ true
unfolding has_suffix text_eq
is_suffix [] = refl
is_suffix (c ∷ m) = rw (is_suffix m) (or_true (text_eq (c ∷ (m ++ codes "+")) (codes "+")))
  where
    or_true : (b : Bool) → (b || true) ≡ true
    or_true true = refl
    or_true false = refl

drop_last-append : (m : Text) (c : ℕ) → drop_last (m ++ (c ∷ [])) ≡ m
unfolding drop_last
drop_last-append [] c = refl
drop_last-append (d ∷ []) c = refl
drop_last-append (d ∷ e ∷ m) c = rw (drop_last-append (e ∷ m) c) refl

-- With a plus or without, the text is that of the number.
minor_text-number :
    (minor m : Text) → (minor ≡ m) ⊎ (minor ≡ m ++ codes "+") → Lacks b'+' m → minor_text minor ≡ m
unfolding minor_text
minor_text-number minor m (inl same) plain = rw (same, minor_text, not_suffix m plain) refl
minor_text-number minor m (inr plus) plain =
    rw (plus, minor_text, is_suffix m) (drop_last-append m b'+')

too_old_iff : (a b : ℕ) → (too_old (pos a) (pos b) ≡ false) ↔ ((1 < a) ⊎ ((a ≡ 1) × (15 ≤ b)))
unfolding too_old
too_old_iff a b = (λ h. ground arith, λ h. ground arith)

module _ (atoi : Text → Option ℤ) where
  -- The failed requirements, each as the version that it names.
  unfoldable pub failed_requirements_of : Version → ℤ → ℤ → List Version
  failed_requirements_of version major minor = if too_old major minor then version ∷ [] else []

  unfoldable pub checked_version : Version → List Version × Option Error
  checked_version version = elim (atoi version.major) [
    | none ↦ ([], some not_a_number)
    | some major ↦ elim (atoi (minor_text version.minor)) [
      | none ↦ ([], some not_a_number)
      | some minor ↦ (failed_requirements_of version major minor, none)
    ]
  ]

  -- `CheckRequirements`, from the answers of the client and of the server.
  unfoldable pub check_requirements :
      Result (Unit {0}) → Result Version → List Version × Option Error
  check_requirements (err e) answer = ([], some e)
  check_requirements (ok _) (err e) = ([], some e)
  check_requirements (ok _) (ok version) = checked_version version

  -- A server whose version is two numbers, the second perhaps with a plus, meets the requirements if
  -- and only if its version is 1.15 or later, by the major number and then by the minor.
  pub check_requirements_iff :
      (version : Version) (m : Text) (a b : ℕ)
      → (version.minor ≡ m) ⊎ (version.minor ≡ m ++ codes "+")
      → Lacks b'+' m
      → atoi version.major ≡ some (pos a)
      → atoi m ≡ some (pos b)
      → (check_requirements (ok tt) (ok version) ≡ ([], none)) ↔ ((1 < a) ⊎ ((a ≡ 1) × (15 ≤ b)))
  unfolding check_requirements checked_version failed_requirements_of
  check_requirements_iff version m a b shape plain major minor =
      let number = minor_text-number version.minor m shape plain in
      let (met, unmet) = too_old_iff a b in
      rw (major, checked_version, number, minor)
        (
          λ h. met (nothing_failed (too_old (pos a) (pos b)) (ap (λ x. x.0) h)),
          λ h. rw (unmet h, failed_requirements_of) refl,
        )
    where
      nothing_failed : (b : Bool) → (if b then version ∷ [] else []) ≡ [] → b ≡ false
      nothing_failed false h = refl
      nothing_failed true h = absurd (cc h)
