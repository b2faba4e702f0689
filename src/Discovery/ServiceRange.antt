-- ===== src/Discovery/ServiceRange.antt =====
-- controllers/discovery/network/generic.go: `findClusterIPRangeFromServiceCreation`, which reads the
-- range of the services out of the error that the creation of an invalid service gives.
use cluster_fabric_operator.Base.{
  ℕ, ◌==◌, ◌≡◌, refl, Bool, Bool-cases, inl, inr, true, false, Text, codes, has_prefix, drop, Lacks,
  [], ◌∷◌, ◌++◌, Option, none, some, Result, ok, err, if◌then◌else◌,
}
use cluster_fabric_operator.Base.{Error.service_created, Error.unexpected_service_error}

abbrev pub marker : Text
marker = codes "valid IPs is "

abbrev pub newline : ℕ
newline = 10

unfoldable pub has_code : ℕ → Text → Bool
has_code x [] = false
has_code x (c ∷ s) = if c == x then true else has_code x s

-- The text behind the last line break. The dot of the expression matches none.
unfoldable pub last_line : Text → Text
last_line [] = []
last_line (c ∷ s) =
    let rest = last_line s in if has_code newline s then rest else if c == newline then s else c ∷ s

-- The text behind the last marker: the expression's first part takes as much as it can.
unfoldable pub after_last : Text → Option Text
after_last [] = none
after_last (c ∷ s) =
    let rest = after_last s in
    elim rest [
      | some r ↦ some r
      | none ↦ if has_prefix (c ∷ s) marker then some (drop 13 (c ∷ s)) else none
    ]

-- `parseServiceCIDRFrom`: the expression `.*valid IPs is (.*)$`.
unfoldable pub parse_service_cidr_from : Text → Result Text
parse_service_cidr_from msg = elim (after_last (last_line msg)) [
  | none ↦ err unexpected_service_error
  | some cidr ↦ ok cidr
]

-- `findClusterIPRangeFromServiceCreation`, from the message of the creation's error, if any.
unfoldable pub find_cluster_ip_range_from_service_creation : Option Text → Result Text
find_cluster_ip_range_from_service_creation none = err service_created
find_cluster_ip_range_from_service_creation (some msg) = parse_service_cidr_from msg

has_code-Lacks : (s : Text) → Lacks newline s → has_code newline s ≡ false
unfolding has_code
has_code-Lacks [] _ = refl
has_code-Lacks (c ∷ s) (f, rest) = rw f (has_code-Lacks s rest)

-- Without the marker's first letter there is no marker.
after_last-Lacks : (s : Text) → Lacks b'v' s → after_last s ≡ none
unfolding after_last has_prefix
after_last-Lacks [] _ = refl
after_last-Lacks (c ∷ s) (f, rest) = rw (after_last-Lacks s rest, f) refl

after_last-marker : (s : Text) → Lacks b'v' s → after_last (marker ++ s) ≡ some s
unfolding after_last has_prefix
after_last-marker s h = rw (after_last-Lacks s h) refl

after_last-append : (before s t : Text) → after_last s ≡ some t → after_last (before ++ s) ≡ some t
unfolding after_last
after_last-append [] s t h = h
after_last-append (c ∷ before) s t h = rw (after_last-append before s t h) refl

has_code-append :
    (before s : Text)
    → has_code newline s ≡ false
    → has_code newline (before ++ s) ≡ has_code newline before
unfolding has_code
has_code-append [] s h = h
has_code-append (c ∷ before) s h = rw (has_code-append before s h) refl

-- A text of one line is its own last line.
last_line-same : (s : Text) → has_code newline s ≡ false → last_line s ≡ s
unfolding last_line has_code
last_line-same [] h = refl
last_line-same (c ∷ s) h = elim (Bool-cases (c == newline)) [
  | inl is ↦ absurd (cc (rw (is, has_code) at h))
  | inr not ↦ let tail : has_code newline s ≡ false = rw (not, has_code) at h in rw (tail, not) refl
]

last_line-append :
    (before s : Text)
    → has_code newline s ≡ false
    → (front : Text) × (last_line (before ++ s) ≡ front ++ s)
unfolding last_line
last_line-append [] s h = ([], last_line-same s h)
last_line-append (c ∷ before) s h = elim (Bool-cases (has_code newline (before ++ s))) [
  | inl more ↦ let (front, e) = last_line-append before s h in (front, rw (more, last_line) e)
  | inr last ↦ elim (Bool-cases (c == newline)) [
    | inl is ↦ (before, rw (last, last_line, is) refl)
    | inr not ↦ (c ∷ before, rw (last, last_line, not) refl)
  ]
]

has_code-marker : (s : Text) → Lacks newline s → has_code newline (marker ++ s) ≡ false
unfolding has_code
has_code-marker s h = has_code-Lacks s h

-- Whatever stands before it, on one line or on several, the range is the text behind the marker, if
-- it has no line break and no `v`.
pub parse_service_cidr_from-marker :
    (before cidr : Text)
    → Lacks newline cidr
    → Lacks b'v' cidr
    → find_cluster_ip_range_from_service_creation (some (before ++ (marker ++ cidr))) ≡ ok cidr
unfolding find_cluster_ip_range_from_service_creation parse_service_cidr_from
parse_service_cidr_from-marker before cidr one_line plain =
    let (front, e) = last_line-append before (marker ++ cidr) (has_code-marker cidr one_line) in
    rw
      (
        find_cluster_ip_range_from_service_creation,
        parse_service_cidr_from,
        e,
        after_last-append front (marker ++ cidr) cidr (after_last-marker cidr plain),
      )
      refl
