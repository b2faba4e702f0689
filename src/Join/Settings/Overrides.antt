-- ===== src/Join/Settings/Overrides.antt =====
-- What `getImageOverrides` makes of its list.
use cluster_fabric_operator.Base.{
  ◌≡◌, refl, ◌∙◌, sym, ap, inl, inr, Bool-cases, false, Text, text_eq, split, Lacks, split-Lacks,
  split-append, List, [], ◌∷◌, ◌++◌, map, All, none, some, ok, if◌then◌else◌, text_eq→eq,
}
use cluster_fabric_operator.Broker.GlobalnetMap.{value_at, set_value}
use cluster_fabric_operator.Broker.Stored.{value_at-set_value, value_at-set_value_other}
use cluster_fabric_operator.Join.Settings.{
  invalid_image_name_of, override_parts, override_loop, get_image_overrides,
}

-- A setting `key=value`.
abbrev pub setting : Text × Text → Text
setting (key, value) = key ++ (b'=' ∷ value)

-- The key names an image, and neither part has another equals sign.
abbrev pub IsSetting : Text × Text → Type 0
IsSetting (key, value) = (invalid_image_name_of key ≡ false) × Lacks b'=' key × Lacks b'=' value

-- The value that the settings give a key: the last one, or the one from before.
abbrev pub last_value : Text → List (Text × Text) → Text → Text
last_value key [] before = before
last_value key ((k, v) ∷ rest) before = last_value key rest (if text_eq k key then v else before)

override_loop-setting :
    (p : Text × Text) (rest : List Text) (m : List (Text × Text))
    → IsSetting p
    → override_loop (setting p ∷ rest) m ≡ override_loop rest (set_value p.0 p.1 m)
unfolding override_loop override_parts
override_loop-setting (key, value) rest m (named, lk, lv) =
    let parts : split b'=' (setting (key, value)) ≡ key ∷ value ∷ [] =
      split-append b'=' key value lk ∙ rw (split-Lacks b'=' value lv) refl in
    rw (parts, override_parts, parts, named) refl

override_loop-name :
    (name : Text) (rest : List Text) (m : List (Text × Text))
    → invalid_image_name_of name ≡ false
    → Lacks b'=' name
    → override_loop (name ∷ rest) m ≡ none
unfolding override_loop override_parts
override_loop-name name rest m named lacks =
    rw (split-Lacks b'=' name lacks, override_parts, split-Lacks b'=' name lacks, named) refl

override_loop-settings :
    (ps : List (Text × Text)) (m : List (Text × Text))
    → All IsSetting ps
    → (m' : List (Text × Text)) × (override_loop (map setting ps) m ≡ some (ok m'))
      × ((key : Text) → value_at key m' ≡ last_value key ps (value_at key m))
override_loop-settings [] m _ = (m, unfold override_loop in refl, λ key. refl)
override_loop-settings ((k, v) ∷ ps) m (is, more) =
    let (m', run, values) = override_loop-settings ps (set_value k v m) more in
    (
      m',
      override_loop-setting (k, v) (map setting ps) m is ∙ run,
      λ key. values key ∙ ap (last_value key ps) (one key),
    )
  where
    one :
        (key : Text)
        → value_at key (set_value k v m) ≡ (if text_eq k key then v else value_at key m)
    one key = elim (Bool-cases (text_eq k key)) [
      | inl e ↦ let same = text_eq→eq k key e in rw (e, (sym same)) (value_at-set_value k v m)
      | inr f ↦ rw f (value_at-set_value_other k key v m f)
    ]

-- Settings `key=value` whose keys name images, with one equals sign each, make the map that has at
-- each key the last value given.
pub get_image_overrides-settings :
    (ps : List (Text × Text))
    → All IsSetting ps
    → (m : List (Text × Text)) × (get_image_overrides (map setting ps) ≡ some (ok m))
      × ((key : Text) → value_at key m ≡ last_value key ps [])
unfolding get_image_overrides
get_image_overrides-settings ps is =
    let (m, run, values) = override_loop-settings ps [] is in
    (m, run, λ key. values key ∙ ap (last_value key ps) (unfold value_at in refl))

-- The name of an image without an equals sign, behind any such settings, makes the code panic.
pub get_image_overrides-panic :
    (ps : List (Text × Text)) (name : Text) (rest : List Text)
    → All IsSetting ps
    → invalid_image_name_of name ≡ false
    → Lacks b'=' name
    → get_image_overrides (map setting ps ++ (name ∷ rest)) ≡ none
unfolding get_image_overrides
get_image_overrides-panic ps name rest is named lacks = go ps [] is
  where
    go :
        (qs : List (Text × Text)) (m : List (Text × Text))
        → All IsSetting qs
        → override_loop (map setting qs ++ (name ∷ rest)) m ≡ none
    go [] m _ = override_loop-name name rest m named lacks
    go (q ∷ qs) m (i, is') =
        override_loop-setting q (map setting qs ++ (name ∷ rest)) m i
        ∙ go qs (set_value q.0 q.1 m) is'
