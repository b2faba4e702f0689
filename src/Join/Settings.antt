-- ===== src/Join/Settings.antt =====
-- controllers/join_broker.go: the checks and conversions of the join settings. Where the code
-- panics, the result is `none`.
pub mod ClusterId
pub mod Names
pub mod Overrides
use cluster_fabric_operator.Base.{
  ℕ, ◌+◌, ◌==◌, leb, ltb, Bool, true, false, not, ◌&&◌, ◌||◌, Text, codes, text_eq, is_empty, split,
  count, index, drop, List, [], ◌∷◌, Option, none, some, Result, ok, err, Error, if◌then◌else◌,
}
use cluster_fabric_operator.Base.{
  Error.invalid_cluster_id, Error.invalid_image_name, Error.invalid_core_dns_config,
  Error.cidr_not_found,
}
use cluster_fabric_operator.Broker.GlobalnetMap.{set_value}

-- `[a-z0-9]` and `[a-z0-9.-]`
abbrev pub is_alnum : ℕ → Bool
is_alnum c = (leb b'a' c && leb c b'z') || (leb b'0' c && leb c b'9')

abbrev pub is_inner : ℕ → Bool
is_inner c = is_alnum c || (c == b'.' || c == b'-')

-- `[a-z0-9.-]*[a-z0-9]$`, behind the first byte.
unfoldable pub matches_rest : Text → Bool
matches_rest [] = false
matches_rest (c ∷ []) = is_alnum c
matches_rest (c ∷ d ∷ s) = is_inner c && matches_rest (d ∷ s)

-- `regexp.MatchString` with the expression of `isValidClusterID`.
unfoldable pub matches_cluster_id : Text → Bool
matches_cluster_id [] = false
matches_cluster_id (c ∷ s) = is_alnum c && matches_rest s

-- `isValidClusterID`
unfoldable pub is_valid_cluster_id : Text → Result (Unit {0})
is_valid_cluster_id cluster_id =
    if matches_cluster_id cluster_id then ok tt else err invalid_cluster_id

-- `removeSchemaPrefix`
unfoldable pub remove_schema_prefix : Text → Text
remove_schema_prefix url = elim (index url (codes "://")) [
  | none ↦ url
  | some idx ↦ drop (idx + 3) url
]

-- `names.ValidImageNames`
abbrev pub valid_image_names : List Text
valid_image_names =
    codes "submariner-networkplugin-syncer"
    ∷ codes "submariner-route-agent"
    ∷ codes "submariner-gateway"
    ∷ codes "submariner-globalnet"
    ∷ codes "lighthouse-agent"
    ∷ codes "lighthouse-coredns"
    ∷ codes "submariner-operator"
    ∷ []

unfoldable pub is_none_of : Text → List Text → Bool
is_none_of key [] = true
is_none_of key (name ∷ rest) = if text_eq key name then false else is_none_of key rest

-- `invalidImageName`
unfoldable pub invalid_image_name_of : Text → Bool
invalid_image_name_of key = is_none_of key valid_image_names

-- The parts `Split(s, "=")[0]` and `[1]`, where they exist.
abbrev pub first_part : List Text → Text
first_part [] = []
first_part (p ∷ ps) = p

abbrev pub second_part : List Text → Option Text
second_part [] = none
second_part (p ∷ []) = none
second_part (p ∷ q ∷ ps) = some q

-- One round of the loop of `getImageOverrides`, from the two parts.
unfoldable pub override_parts :
    Text → Option Text → List (Text × Text) → Option (Result (List (Text × Text)))
override_parts key none overrides =
    if invalid_image_name_of key then some (err invalid_image_name) else none
override_parts key (some value) overrides =
    if invalid_image_name_of key
    then some (err invalid_image_name)
    else some (ok (set_value key value overrides))

-- The rounds after one that has not returned.
abbrev pub then_go :
    Option (Result (List (Text × Text)))
    → (List (Text × Text) → Option (Result (List (Text × Text))))
    → Option (Result (List (Text × Text)))
then_go none go = none
then_go (some (err e)) go = some (err e)
then_go (some (ok overrides)) go = go overrides

-- The loop of `getImageOverrides`.
unfoldable pub override_loop : List Text → List (Text × Text) → Option (Result (List (Text × Text)))
override_loop [] overrides = some (ok overrides)
override_loop (s ∷ rest) overrides =
    then_go (override_parts (first_part (split b'=' s)) (second_part (split b'=' s)) overrides)
      (override_loop rest)

-- `getImageOverrides`. A nil map and an empty one are not told apart.
unfoldable pub get_image_overrides : List Text → Option (Result (List (Text × Text)))
get_image_overrides image_override_arr = override_loop image_override_arr []

-- `isValidCustomCoreDNSConfig`
unfoldable pub is_valid_custom_core_dns_config : Text → Result (Unit {0})
is_valid_custom_core_dns_config config =
    if not (is_empty config) && ltb 1 (count b'/' config)
    then err invalid_core_dns_config
    else ok tt

-- `getCustomCoreDNSParams`: the namespace, and the name.
unfoldable pub get_custom_core_dns_params : Text → Text × Text
get_custom_core_dns_params config = if is_empty config then ([], []) else elim (split b'/' config) [
  | [] ↦ ([], config)
  | namespace ∷ more ↦ elim more [ [] ↦ ([], config) | name ∷ _ ↦ (namespace, name) ]
]

-- `getPodCIDR` and `getServiceCIDR`: the CIDR, and whether it was discovered. The list is empty too
-- where no network was discovered.
unfoldable pub get_cidr : Text → List Text → Result (Text × Bool)
get_cidr given discovered =
    if is_empty given
    then elim discovered [ [] ↦ err cidr_not_found | cidr ∷ _ ↦ ok (cidr, true) ]
    else ok (given, false)

-- `getImageVersion` and `getImageRepo`
unfoldable pub get_image_version : Text → Text
get_image_version version = if is_empty version then codes "0.9.1" else version

unfoldable pub get_image_repo : Text → Text
get_image_repo repo = if is_empty repo then codes "quay.io/submariner" else repo
