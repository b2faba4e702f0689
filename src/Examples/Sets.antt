-- ===== src/Examples/Sets.antt =====
-- The theorems on sets of texts at work.
use cluster_fabric_operator.Base.{
  zero, suc, ◌≡◌, refl, true, false, Text, codes, text_eq, List, [], ◌∷◌, none,
}
use cluster_fabric_operator.StringSet.{SetType, contains, new_set_type}
use cluster_fabric_operator.StringSet.Abstract.{
  add_call, remove_call, run_calls, answers_of, members_after_calls, one_of, Distinct, Call,
  run_calls-new_set_type,
}
use cluster_fabric_operator.StringSet.Locks.{Store, locked_difference, locked_difference_self}

abbrev first_items : List Text
first_items = codes "a" ∷ codes "b" ∷ codes "a" ∷ []

abbrev some_calls : List Call
some_calls = add_call (codes "c") ∷ remove_call (codes "a") ∷ []

run_calls-new_set_type_example :
    ((run_calls some_calls (new_set_type first_items)).0
      ≡ answers_of some_calls (one_of first_items))
    × (contains (run_calls some_calls (new_set_type first_items)).1
        ≡ members_after_calls some_calls (one_of first_items))
    × Distinct (run_calls some_calls (new_set_type first_items)).1.items
run_calls-new_set_type_example = run_calls-new_set_type first_items some_calls

answers_true : answers_of some_calls (one_of first_items) ≡ true ∷ true ∷ []
unfolding text_eq
answers_true = refl

abbrev left : SetType
left = record { items = codes "a" ∷ [] }

abbrev right : SetType
right = record { items = codes "a" ∷ codes "b" ∷ [] }

-- The left set at 0, the right one elsewhere.
abbrev sets : Store
sets zero = record { set_type = left; locked = false }
sets (suc n) = record { set_type = right; locked = false }

locked_difference_self_example : locked_difference 0 0 sets ≡ none
locked_difference_self_example = locked_difference_self 0 sets
