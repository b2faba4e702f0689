-- ===== src/StringSet/Abstract.antt =====
-- A set of texts as the collection of its members.
use cluster_fabric_operator.Base.{
  ◌≡◌, refl, ◌∙◌, sym, ap, inl, inr, arith, Bool, true, false, not, ◌&&◌, ◌||◌, Bool-cases, Text,
  text_eq, text_eq_iff, text_eq→eq, List, [], ◌∷◌, ◌++◌, if◌then◌else◌,
}
use mathlib.Core.Path.{fun_ext}
use cluster_fabric_operator.StringSet.{
  SetType, has_key, contains, add, add_all, new_set_type, delete, remove, delete_each, remove_all,
  diff2, diff, difference,
}

-- A call that changes a set.
pub data Call : Type 0 where
  add_call remove_call : Text → Call
  add_all_call : List Text → Call
  remove_all_call : Call

-- What the code does, with the answer of the call; a call without one answers false.
abbrev pub run : Call → SetType → Bool × SetType
run (add_call s) set = add set s
run (remove_call s) set = remove set s
run (add_all_call str) set = (false, add_all set str)
run remove_all_call set = (false, remove_all set)

-- What it means: the members after the call, and the answer.
abbrev pub one_of : List Text → Text → Bool
one_of [] t = false
one_of (s ∷ rest) t = text_eq s t || one_of rest t

abbrev pub members_after : Call → (Text → Bool) → Text → Bool
members_after (add_call s) m t = m t || text_eq s t
members_after (remove_call s) m t = m t && not (text_eq s t)
members_after (add_all_call str) m t = m t || one_of str t
members_after remove_all_call m t = false

abbrev pub answer_of : Call → (Text → Bool) → Bool
answer_of (add_call s) m = not (m s)
answer_of (remove_call s) m = m s
answer_of (add_all_call str) m = false
answer_of remove_all_call m = false

-- No key twice.
abbrev pub Distinct : List Text → Type 0
Distinct [] = Unit
Distinct (k ∷ ks) = (has_key k ks ≡ false) × Distinct ks

has_key-append :
    (t : Text) (ks ls : List Text) → has_key t (ks ++ ls) ≡ (has_key t ks || has_key t ls)
unfolding has_key
has_key-append t [] ls = refl
has_key-append t (k ∷ ks) ls = elim (Bool-cases (text_eq k t)) [
  | inl e ↦ rw e refl
  | inr f ↦ rw f (has_key-append t ks ls)
]

and_false : (a : Bool) → (a && false) ≡ false
and_false true = refl
and_false false = refl

has_key-delete :
    (t s : Text) (ks : List Text) → has_key t (delete s ks) ≡ (has_key t ks && not (text_eq s t))
unfolding has_key delete
has_key-delete t s [] = refl
has_key-delete t s (k ∷ ks) = elim (Bool-cases (text_eq k s)) [
  | inl e ↦
      let same = text_eq→eq k s e in
      elim (Bool-cases (text_eq k t)) [
        | inl h ↦
            let st : text_eq s t ≡ true = rw same at h in
            rw (e, h) (has_key-delete t s ks ∙ rw st (and_false (has_key t ks)))
        | inr h ↦ rw (e, h) (has_key-delete t s ks)
      ]
  | inr f ↦ elim (Bool-cases (text_eq k t)) [
    | inl h ↦
        let st : text_eq s t ≡ false =
          ground (arith, text_eq_iff s t, text_eq_iff k t, text_eq_iff k s, h, f) in
        rw (f, has_key, h, st) refl
    | inr h ↦ rw (f, has_key, h) (has_key-delete t s ks)
  ]
]

add-members :
    (set : SetType) (s t : Text) → contains (add set s).1 t ≡ (contains set t || text_eq s t)
unfolding contains add has_key
add-members set s t = elim (Bool-cases (has_key s set.items)) [
  | inl e ↦ rw e (or_known (has_key t set.items) (text_eq s t) (λ h. rw⁻¹ (text_eq→eq s t h) e))
  | inr f ↦
      rw (f, has_key-append t set.items (s ∷ [])) (tail_of (text_eq s t) (has_key t set.items))
]
  where
    or_known : (a b : Bool) → (b ≡ true → a ≡ true) → a ≡ (a || b)
    or_known true b h = refl
    or_known false true h = h refl
    or_known false false h = refl

    tail_of : (b a : Bool) → (a || (if b then true else false)) ≡ (a || b)
    tail_of true a = refl
    tail_of false a = refl

add_all-members :
    (set : SetType) (str : List Text) (t : Text)
    → contains (add_all set str) t ≡ (contains set t || one_of str t)
unfolding add_all
add_all-members set [] t = or_false (contains set t)
  where
    or_false : (a : Bool) → a ≡ (a || false)
    or_false true = refl
    or_false false = refl
add_all-members set (s ∷ rest) t =
    add_all-members (add set s).1 rest t
    ∙ rw (add-members set s t) (or_assoc (contains set t) (text_eq s t) (one_of rest t))
  where
    or_assoc : (a b c : Bool) → ((a || b) || c) ≡ (a || (b || c))
    or_assoc true b c = refl
    or_assoc false b c = refl

delete_each-members :
    (vs ks : List Text) (t : Text)
    → has_key t (delete_each vs ks) ≡ (has_key t ks && not (one_of vs t))
unfolding delete_each
delete_each-members [] ks t = and_true (has_key t ks)
  where
    and_true : (a : Bool) → a ≡ (a && true)
    and_true true = refl
    and_true false = refl
delete_each-members (v ∷ vs) ks t =
    delete_each-members vs (delete v ks) t
    ∙ rw (has_key-delete t v ks) (de_morgan (has_key t ks) (text_eq v t) (one_of vs t))
  where
    de_morgan : (a b c : Bool) → ((a && not b) && not c) ≡ (a && not (b || c))
    de_morgan true true c = refl
    de_morgan true false c = refl
    de_morgan false b c = refl

has_key-one_of : (ks : List Text) (t : Text) → has_key t ks ≡ one_of ks t
unfolding has_key
has_key-one_of [] t = refl
has_key-one_of (k ∷ ks) t = elim (Bool-cases (text_eq k t)) [
  | inl e ↦ rw e refl
  | inr f ↦ rw f (has_key-one_of ks t)
]

-- Every call has the members and the answer that it means to.
pub run-members :
    (c : Call) (set : SetType)
    → ((run c set).0 ≡ answer_of c (contains set))
      × ((t : Text) → contains (run c set).1 t ≡ members_after c (contains set) t)
unfolding contains add remove remove_all
run-members (add_call s) set = (
  elim (Bool-cases (has_key s set.items)) [ inl e ↦ rw e refl | inr f ↦ rw f refl ],
  λ t. add-members set s t,
)
run-members (remove_call s) set = (refl, λ t. has_key-delete t s set.items)
run-members (add_all_call str) set = (refl, λ t. add_all-members set str t)
run-members remove_all_call set = (
  refl,
  λ t.
      delete_each-members set.items set.items t
      ∙ rw (has_key-one_of set.items t) (contradiction (one_of set.items t)),
)
  where
    contradiction : (a : Bool) → (a && not a) ≡ false
    contradiction true = refl
    contradiction false = refl

Distinct-append :
    (ks : List Text) (s : Text) → has_key s ks ≡ false → Distinct ks → Distinct (ks ++ (s ∷ []))
unfolding has_key
Distinct-append [] s _ _ = (refl, tt)
Distinct-append (k ∷ ks) s absent (here, d) = elim (Bool-cases (text_eq k s)) [
  | inl e ↦ absurd (cc (rw e at absent))
  | inr f ↦
      let g : text_eq s k ≡ false = ground (arith, text_eq_iff s k, text_eq_iff k s, f) in
      (
        rw (has_key-append k ks (s ∷ []), here, has_key, g) refl,
        Distinct-append ks s (rw f at absent) d,
      )
]

Distinct-delete : (s : Text) (ks : List Text) → Distinct ks → Distinct (delete s ks)
unfolding delete
Distinct-delete s [] _ = tt
Distinct-delete s (k ∷ ks) (here, d) = elim (Bool-cases (text_eq k s)) [
  | inl e ↦ rw e (Distinct-delete s ks d)
  | inr f ↦ rw f (rw (has_key-delete k s ks, here) refl, Distinct-delete s ks d)
]

add-Distinct : (set : SetType) (s : Text) → Distinct set.items → Distinct (add set s).1.items
unfolding add
add-Distinct set s d = elim (Bool-cases (has_key s set.items)) [
  | inl e ↦ rw e d
  | inr f ↦ rw f (Distinct-append set.items s f d)
]

add_all-Distinct :
    (set : SetType) (str : List Text) → Distinct set.items → Distinct (add_all set str).items
unfolding add_all
add_all-Distinct set [] d = d
add_all-Distinct set (s ∷ rest) d = add_all-Distinct (add set s).1 rest (add-Distinct set s d)

delete_each-Distinct : (vs ks : List Text) → Distinct ks → Distinct (delete_each vs ks)
unfolding delete_each
delete_each-Distinct [] ks d = d
delete_each-Distinct (v ∷ vs) ks d = delete_each-Distinct vs (delete v ks) (Distinct-delete v ks d)

-- No call makes a key twice, so that the size counts the members.
pub run-Distinct : (c : Call) (set : SetType) → Distinct set.items → Distinct (run c set).1.items
unfolding remove remove_all
run-Distinct (add_call s) set d = add-Distinct set s d
run-Distinct (remove_call s) set d = Distinct-delete s set.items d
run-Distinct (add_all_call str) set d = add_all-Distinct set str d
run-Distinct remove_all_call set d = delete_each-Distinct set.items set.items d

-- Calls one after the other, with their answers.
abbrev pub run_calls : List Call → SetType → List Bool × SetType
run_calls [] set = ([], set)
run_calls (c ∷ cs) set =
    let (answer, next) = run c set in
    let (answers, last) = run_calls cs next in (answer ∷ answers, last)

abbrev pub members_after_calls : List Call → (Text → Bool) → Text → Bool
members_after_calls [] m = m
members_after_calls (c ∷ cs) m = members_after_calls cs (members_after c m)

abbrev pub answers_of : List Call → (Text → Bool) → List Bool
answers_of [] m = []
answers_of (c ∷ cs) m = answer_of c m ∷ answers_of cs (members_after c m)

run_calls-members :
    (cs : List Call) (set : SetType) (m : Text → Bool)
    → contains set ≡ m
    → ((run_calls cs set).0 ≡ answers_of cs m)
      × (contains (run_calls cs set).1 ≡ members_after_calls cs m)
run_calls-members [] set m e = (refl, e)
run_calls-members (c ∷ cs) set m e =
    let (answer, members) = run-members c set in
    let next : contains (run c set).1 ≡ members_after c m =
      fun_ext members ∙ ap (members_after c) e in
    let (answers, last) = run_calls-members cs (run c set).1 (members_after c m) next in
    (rw (answer, answers, e) refl, last)

run_calls-Distinct :
    (cs : List Call) (set : SetType) → Distinct set.items → Distinct (run_calls cs set).1.items
run_calls-Distinct [] set d = d
run_calls-Distinct (c ∷ cs) set d = run_calls-Distinct cs (run c set).1 (run-Distinct c set d)

empty-members :
    (str : List Text) (t : Text)
    → (contains (record { items = [] }) t || one_of str t) ≡ one_of str t
unfolding contains has_key
empty-members str t = refl

-- A set made by `New` and changed by any calls, in any order, has the members, and has given the
-- answers, of a collection to which the same is done; and its map has no key twice.
pub run_calls-new_set_type :
    (str : List Text) (cs : List Call)
    → ((run_calls cs (new_set_type str)).0 ≡ answers_of cs (one_of str))
      × (contains (run_calls cs (new_set_type str)).1 ≡ members_after_calls cs (one_of str))
      × Distinct (run_calls cs (new_set_type str)).1.items
unfolding new_set_type
run_calls-new_set_type str cs =
    let start : contains (new_set_type str) ≡ one_of str =
      fun_ext (λ t. add_all-members (record { items = [] }) str t ∙ empty-members str t) in
    let (answers, members) = run_calls-members cs (new_set_type str) (one_of str) start in
    (
      answers,
      members,
      run_calls-Distinct cs (new_set_type str) (add_all-Distinct (record { items = [] }) str tt),
    )

diff2-members :
    (ks : List Text) (p : Text → Bool) (t : Text)
    → has_key t (diff2 ks p) ≡ (has_key t ks && not (p t))
unfolding diff2 has_key
diff2-members [] p t = refl
diff2-members (k ∷ ks) p t = elim (Bool-cases (text_eq k t)) [
  | inl e ↦
      let same = text_eq→eq k t e in
      elim (Bool-cases (p k)) [
        | inl h ↦
            let pt : p t ≡ true = rw same at h in
            rw (h, e, diff2-members ks p t, pt) (and_false (has_key t ks))
        | inr h ↦ let pt : p t ≡ false = rw same at h in rw (h, has_key, e, pt) refl
      ]
  | inr f ↦ elim (Bool-cases (p k)) [
    | inl h ↦ rw (h, f) (diff2-members ks p t)
    | inr h ↦ rw (h, has_key, f) (diff2-members ks p t)
  ]
]

-- `Difference` lists the members of the other set that the receiver lacks, and no others.
pub difference-members :
    (set other : SetType) (t : Text)
    → one_of (difference set other) t ≡ (contains other t && not (contains set t))
unfolding difference diff contains
difference-members set other t =
    sym (has_key-one_of (diff2 other.items (has_contains set)) t)
    ∙ diff2-members other.items (has_contains set) t
  where
    has_contains : SetType → Text → Bool
    has_contains s k = has_key k s.items
