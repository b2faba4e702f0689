-- ===== src/Join/Settings/Names.antt =====
-- The names that the join settings are taken apart into.
use cluster_fabric_operator.Base.{
  ℕ, suc, ◌+◌, ◌≡◌, refl, inl, inr, arith, false, ltb, Bool-cases, Text, codes, split, count, index,
  drop, has_prefix, Lacks, split-Lacks, split-append, count_cases, length, [], ◌∷◌, ◌++◌, none,
  some, ok,
}
use cluster_fabric_operator.Join.Settings.{
  remove_schema_prefix, is_valid_custom_core_dns_config, get_custom_core_dns_params,
}

-- How a valid setting reads: a name alone, or a namespace and a name around the one slash.
pub data IsParams (config namespace name : Text) : Type 0 where
  name_only : Lacks b'/' config → namespace ≡ [] → name ≡ config → IsParams config namespace name
  both :
      config ≡ namespace ++ (b'/' ∷ name)
      → Lacks b'/' namespace
      → Lacks b'/' name
      → IsParams config namespace name

Lacks-of_count : (u : Text) → ltb 1 (count b'/' u + 1) ≡ false → Lacks b'/' u
Lacks-of_count u h = elim (count_cases b'/' u) [
  | inl lacks ↦ lacks
  | inr (t, v, eq, lacks, n) ↦ absurd (ground (arith, n, h))
]

-- A valid setting of the CoreDNS config map is taken apart at its slash.
pub get_custom_core_dns_params-IsParams :
    (config : Text)
    → is_valid_custom_core_dns_config config ≡ ok tt
    → IsParams config (get_custom_core_dns_params config).0 (get_custom_core_dns_params config).1
unfolding is_valid_custom_core_dns_config get_custom_core_dns_params
get_custom_core_dns_params-IsParams [] _ = name_only tt refl refl
get_custom_core_dns_params-IsParams (c ∷ s) valid = elim (count_cases b'/' (c ∷ s)) [
  | inl lacks ↦
      let one = split-Lacks b'/' (c ∷ s) lacks in name_only lacks (rw one refl) (rw one refl)
  | inr (t, u, eq, lacks, n) ↦ elim (Bool-cases (ltb 1 (count b'/' (c ∷ s)))) [
    | inl many ↦ absurd (cc (rw many at valid))
    | inr few ↦
        let rest : Lacks b'/' u = Lacks-of_count u (rw n at few) in
        let two : split b'/' (c ∷ s) ≡ t ∷ u ∷ [] =
          rw (eq, split-append b'/' t u lacks, split-Lacks b'/' u rest) refl in
        both (rw two eq) (rw two lacks) (rw two rest)
  ]
]

index-append :
    (scheme rest : Text)
    → Lacks b':' scheme
    → index (scheme ++ (codes "://" ++ rest)) (codes "://") ≡ some (length scheme)
unfolding index has_prefix
index-append [] rest _ = refl
index-append (c ∷ s) rest (f, lacks) = rw (f, index-append s rest lacks) refl

drop-append : (s t : Text) → drop (length s) (s ++ t) ≡ t
drop-append [] t = refl
drop-append (c ∷ s) t = drop-append s t

drop_add : (s t : Text) (n : ℕ) → drop (length s + n) (s ++ t) ≡ drop n t
drop_add [] t n = let e : 0 + n ≡ n = omega arith in rw e refl
drop_add (c ∷ s) t n =
    let e : suc (length s) + n ≡ suc (length s + n) = omega arith in rw e (drop_add s t n)

-- The scheme in front of a URL is cut off.
pub remove_schema_prefix-append :
    (scheme rest : Text)
    → Lacks b':' scheme
    → remove_schema_prefix (scheme ++ (codes "://" ++ rest)) ≡ rest
unfolding remove_schema_prefix
remove_schema_prefix-append scheme rest lacks =
    rw (index-append scheme rest lacks, remove_schema_prefix)
      (drop_add scheme (codes "://" ++ rest) 3)

index-Lacks : (url : Text) → Lacks b':' url → index url (codes "://") ≡ none
unfolding index has_prefix
index-Lacks [] _ = refl
index-Lacks (c ∷ s) (f, lacks) = rw (f, index-Lacks s lacks) refl

plain_url : (u : Text) → Lacks b':' u → remove_schema_prefix u ≡ u
unfolding remove_schema_prefix
plain_url u l = rw (index-Lacks u l, remove_schema_prefix) refl

-- The scheme in front of a host is cut off, and a host without one stays as it is.
pub remove_schema_prefix_cases :
    (scheme host : Text)
    → Lacks b':' scheme
    → Lacks b':' host
    → (remove_schema_prefix (scheme ++ (codes "://" ++ host)) ≡ host)
      × (remove_schema_prefix host ≡ host)
remove_schema_prefix_cases scheme host ls lh =
    (remove_schema_prefix-append scheme host ls, plain_url host lh)
