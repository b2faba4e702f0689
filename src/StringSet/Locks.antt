-- ===== src/StringSet/Locks.antt =====
-- controllers/stringset/stringset.go: `synchronized`, a set behind a mutex. The sets stand in a store,
-- under addresses, since two of them may be one. A call that waits for a lock that its own caller
-- holds never returns: its result is `none`. Other goroutines are not modelled.
use cluster_fabric_operator.Base.{
  ℕ, ◌≡◌, refl, ◌∙◌, sym, ap, ◌≢◌, inl, inr, arith, Bool, true, false, ◌==◌, ==_iff, Bool-cases,
  Text, List, Option, none, some, if◌then◌else◌,
}
use mathlib.Core.Path.{fun_ext}
use cluster_fabric_operator.StringSet.{
  SetType, contains, add, remove, remove_all, size, elements, diff, diff2, difference,
}

-- `synchronized`
pub record Synchronized : Type 0 where
  pub set_type : SetType
  pub locked : Bool

abbrev pub Store : Type 0
Store = ℕ → Synchronized

unfoldable pub write : ℕ → Synchronized → Store → Store
write a s store b = if b == a then s else store b

-- `Lock` and the deferred `Unlock` around a body.
unfoldable pub with_lock {ℓ} :
    {A : Type ℓ} → ℕ → (Store → Option (A × Store)) → Store → Option (A × Store)
with_lock a body store =
    if (store a).locked
    then none
    else elim (body (write a (record (store a) { locked = true }) store)) [
      | none ↦ none
      | some (r, after) ↦ some (r, write a (record (after a) { locked = false }) after)
    ]

-- A call of the set within, which leaves the lock alone.
abbrev pub on_set {ℓ} : {A : Type ℓ} → ℕ → (SetType → A × SetType) → Store → Option (A × Store)
on_set a op store =
    let (r, set) = op (store a).set_type in
    some (r, write a (record (store a) { set_type = set }) store)

unfoldable pub locked_add : ℕ → Text → Store → Option (Bool × Store)
locked_add a s = with_lock a (on_set a (λ set. add set s))

unfoldable pub locked_contains : ℕ → Text → Store → Option (Bool × Store)
locked_contains a s = with_lock a (on_set a (λ set. (contains set s, set)))

unfoldable pub locked_size : ℕ → Store → Option (ℕ × Store)
locked_size a = with_lock a (on_set a (λ set. (size set, set)))

unfoldable pub locked_remove : ℕ → Text → Store → Option (Bool × Store)
locked_remove a s = with_lock a (on_set a (λ set. remove set s))

unfoldable pub locked_remove_all : ℕ → Store → Option (Unit {0} × Store)
locked_remove_all a = with_lock a (on_set a (λ set. (tt, remove_all set)))

unfoldable pub locked_elements : ℕ → Store → Option (List Text × Store)
locked_elements a = with_lock a (on_set a (λ set. (elements set, set)))

-- `Difference` with another synchronized set: both locks are taken.
unfoldable pub locked_difference : ℕ → ℕ → Store → Option (List Text × Store)
locked_difference a b =
    with_lock a
      (with_lock b (λ store. some (diff (store b).set_type (contains (store a).set_type), store)))

-- `Difference` with a set of another type, from its elements.
unfoldable pub locked_difference_of : ℕ → List Text → Store → Option (List Text × Store)
locked_difference_of a others =
    with_lock a (λ store. some (diff2 others (contains (store a).set_type), store))

-- The store with another set at the address, unlocked.
abbrev pub with_set : ℕ → SetType → Store → Store
with_set a set store = write a (record { set_type = set; locked = false }) store

==_refl : (a : ℕ) → (a == a) ≡ true
==_refl a = ground arith

write-same : (a : ℕ) (s : Synchronized) (store : Store) → write a s store a ≡ s
unfolding write
write-same a s store = rw (==_refl a) refl

write-other : (a b : ℕ) (s : Synchronized) (store : Store) → b ≢ a → write a s store b ≡ store b
unfolding write
write-other a b s store ne = let f : (b == a) ≡ false = ground arith in rw f refl

write-write :
    (a : ℕ) (s t : Synchronized) (store : Store) → write a s (write a t store) ≡ write a s store
unfolding write
write-write a s t store = fun_ext (pointwise)
  where
    pointwise : (b : ℕ) → write a s (write a t store) b ≡ write a s store b
    pointwise b = elim (Bool-cases (b == a)) [ inl e ↦ rw e refl | inr f ↦ rw f refl ]

-- A call on a set whose lock is free gives the answer of the set within, changes that set as it
-- does and no other, and frees the lock again.
pub with_lock-on_set {ℓ} :
    {A : Type ℓ} (a : ℕ) (op : SetType → A × SetType) (store : Store)
    → (store a).locked ≡ false
    → with_lock a (on_set a op) store
      ≡ some ((op (store a).set_type).0, with_set a (op (store a).set_type).1 store)
unfolding with_lock
with_lock-on_set a op store free =
    let busy : Synchronized = record (store a) { locked = true } in
    rw
      (
        free,
        write-same a busy store,
        write-same a (record busy { set_type = (op (store a).set_type).1 }) (write a busy store),
        write-write,
        write-write,
      )
      refl

-- A synchronized set that is given to its own `Difference` waits for itself: the call never returns.
pub locked_difference_self : (a : ℕ) (store : Store) → locked_difference a a store ≡ none
unfolding locked_difference with_lock
locked_difference_self a store = elim (Bool-cases (store a).locked) [
  | inl held ↦ rw held refl
  | inr free ↦ rw (free, write-same a (record (store a) { locked = true }) store) refl
]

unlocked : (s : Synchronized) → s.locked ≡ false → record s { locked = false } ≡ s
unlocked s free = rw⁻¹ free refl

write-own : (a : ℕ) (store : Store) → write a (store a) store ≡ store
unfolding write
write-own a store = fun_ext pointwise
  where
    pointwise : (b : ℕ) → write a (store a) store b ≡ store b
    pointwise b = elim (Bool-cases (b == a)) [
      | inl e ↦ let same : b ≡ a = (==_iff b a).0 e in rw (same, ==_refl a) refl
      | inr f ↦ rw f refl
    ]

-- Two sets with free locks: the answer is that of the sets within, and nothing changes.
pub locked_difference-other :
    (a b : ℕ) (store : Store)
    → a ≢ b
    → (store a).locked ≡ false
    → (store b).locked ≡ false
    → locked_difference a b store ≡ some (difference (store a).set_type (store b).set_type, store)
unfolding locked_difference with_lock difference
locked_difference-other a b store ne free_a free_b =
    let lock_a : Synchronized = record (store a) { locked = true } in
    let lock_b : Synchronized = record (store b) { locked = true } in
    let first : Store = write a lock_a store in
    let at_b : first b ≡ store b = write-other a b lock_a store (λ e. ne (sym e)) in
    let second : Store = write b lock_b first in
    let at_a : second a ≡ lock_a = write-other b a lock_b first ne ∙ write-same a lock_a store in
    let third : write b (record (store b) { locked = false }) second ≡ first =
      write-write b (record (store b) { locked = false }) lock_b first
      ∙ ap (λ s. write b s first) (unlocked (store b) free_b ∙ sym at_b)
      ∙ write-own b first in
    let last : write a (record (store a) { locked = false }) first ≡ store =
      write-write a (record (store a) { locked = false }) lock_a store
      ∙ ap (λ s. write a s store) (unlocked (store a) free_a)
      ∙ write-own a store in
    rw (free_a, at_b, free_b, write-same b lock_b first, at_a)
      (rw (third, write-same a lock_a store, last) refl)
