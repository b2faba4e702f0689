-- ===== src/Join/Settings/ClusterId.antt =====
-- The cluster IDs that `isValidClusterID` takes.
use cluster_fabric_operator.Base.{
  ℕ, ◌≡◌, refl, ◌↔◌, ap, true, Bool-cases, inl, inr, Text, [], ◌∷◌, ◌++◌, All, ok,
}
use cluster_fabric_operator.Join.Settings.{
  is_alnum, is_inner, matches_rest, matches_cluster_id, is_valid_cluster_id,
}

-- A first and a last letter or digit, and between them letters, digits, dots and dashes.
pub record IsClusterId (s : Text) : Type 0 where
  pub first : ℕ
  pub middle : Text
  pub last : ℕ
  pub made : s ≡ first ∷ (middle ++ (last ∷ []))
  pub first_is : is_alnum first ≡ true
  pub middle_is : All (λ c. is_inner c ≡ true) middle
  pub last_is : is_alnum last ≡ true

matches_rest-split :
    (s : Text)
    → matches_rest s ≡ true
    → (middle : Text) × (last : ℕ) × (s ≡ middle ++ (last ∷ []))
      × All (λ c. is_inner c ≡ true) middle
      × (is_alnum last ≡ true)
unfolding matches_rest
matches_rest-split [] h = absurd (cc h)
matches_rest-split (c ∷ []) h = ([], c, refl, tt, h)
matches_rest-split (c ∷ d ∷ s) h = elim (Bool-cases (is_inner c)) [
  | inr f ↦ absurd (cc (rw f at h))
  | inl e ↦
      let (middle, last, eq, inner, end) = matches_rest-split (d ∷ s) (rw e at h) in
      (c ∷ middle, last, ap (λ (t : Text). c ∷ t) eq, (e, inner), end)
]

matches_rest-append :
    (middle : Text) (last : ℕ)
    → All (λ c. is_inner c ≡ true) middle
    → is_alnum last ≡ true
    → matches_rest (middle ++ (last ∷ [])) ≡ true
unfolding matches_rest
matches_rest-append [] last _ e = e
matches_rest-append (c ∷ []) last (i, _) e = rw (i, e) refl
matches_rest-append (c ∷ d ∷ s) last (i, more) e = rw i (matches_rest-append (d ∷ s) last more e)

-- A cluster ID is taken exactly if it has at least two characters, the first and the last of them
-- lowercase letters or digits, and the others such, dots or dashes.
pub is_valid_cluster_id_iff : (s : Text) → (is_valid_cluster_id s ≡ ok tt) ↔ IsClusterId s
unfolding is_valid_cluster_id matches_cluster_id
is_valid_cluster_id_iff s = (there s, back s)
  where
    there : (t : Text) → is_valid_cluster_id t ≡ ok tt → IsClusterId t
    there [] h = absurd (cc h)
    there (c ∷ t) h = elim (Bool-cases (is_alnum c)) [
      | inr f ↦ absurd (cc (rw f at h))
      | inl e ↦ elim (Bool-cases (matches_rest t)) [
        | inr f ↦ absurd (cc (rw (e, f) at h))
        | inl m ↦
            let (middle, last, eq, inner, end) = matches_rest-split t m in
            record {
              first = c;
              middle = middle;
              last = last;
              made = ap (λ (u : Text). c ∷ u) eq;
              first_is = e;
              middle_is = inner;
              last_is = end;
            }
      ]
    ]

    back : (t : Text) → IsClusterId t → is_valid_cluster_id t ≡ ok tt
    back t i =
        rw
          (
            i.made,
            is_valid_cluster_id,
            matches_cluster_id,
            i.first_is,
            matches_rest-append i.middle i.last i.middle_is i.last_is,
          )
          refl
