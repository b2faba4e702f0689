-- ===== src/StringSet.antt =====
-- controllers/stringset/stringset.go: sets of texts. The Go map is the list of its keys, in the order
-- in which it is walked, which stands for any order. The locked variant is in Locks.
pub mod Abstract
pub mod Locks
use cluster_fabric_operator.Base.{
  ℕ, Bool, true, false, not, Text, text_eq, List, [], ◌∷◌, ◌++◌, length, if◌then◌else◌,
}

-- `setType`
pub record SetType : Type 0 where
  pub items : List Text

-- `_, found := set.set[s]`
unfoldable pub has_key : Text → List Text → Bool
has_key s [] = false
has_key s (k ∷ ks) = if text_eq k s then true else has_key s ks

unfoldable pub contains : SetType → Text → Bool
contains set s = has_key s set.items

-- `Add`: whether the item is new.
unfoldable pub add : SetType → Text → Bool × SetType
add set s =
    if has_key s set.items then (false, set) else (true, record { items = set.items ++ (s ∷ []) })

unfoldable pub add_all : SetType → List Text → SetType
add_all set [] = set
add_all set (s ∷ rest) = add_all (add set s).1 rest

-- `newSetType`
unfoldable pub new_set_type : List Text → SetType
new_set_type str = add_all (record { items = [] }) str

unfoldable pub size : SetType → ℕ
size set = length set.items

-- `delete(set.set, s)`
unfoldable pub delete : Text → List Text → List Text
delete s [] = []
delete s (k ∷ ks) = if text_eq k s then delete s ks else k ∷ delete s ks

-- `Remove`: whether the item was there.
unfoldable pub remove : SetType → Text → Bool × SetType
remove set s = (has_key s set.items, record { items = delete s set.items })

-- The loop of `RemoveAll` over the keys that it has still to meet.
unfoldable pub delete_each : List Text → List Text → List Text
delete_each [] ks = ks
delete_each (v ∷ rest) ks = delete_each rest (delete v ks)

unfoldable pub remove_all : SetType → SetType
remove_all set = record { items = delete_each set.items set.items }

unfoldable pub elements : SetType → List Text
elements set = set.items

-- `diff2`; `diff` walks the keys of a set in the same way.
unfoldable pub diff2 : List Text → (Text → Bool) → List Text
diff2 [] contains_item = []
diff2 (item ∷ rest) contains_item =
    if contains_item item then diff2 rest contains_item else item ∷ diff2 rest contains_item

unfoldable pub diff : SetType → (Text → Bool) → List Text
diff set contains_item = diff2 set.items contains_item

-- `Difference`: the items of the other set that this one lacks.
unfoldable pub difference : SetType → SetType → List Text
difference set other = diff other (contains set)
