-- ===== src/Broker/GlobalnetMap.antt =====
-- controllers/ensures/broker/globalcidr_cm.go: the config map of the global CIDRs; and
-- `GetGlobalNetworks` of controllers/discovery/globalnet/globalnet.go, which reads it.
use cluster_fabric_operator.Base.{ℕ, Bool, true, false, Text, codes, text_eq, List, [], ◌∷◌, ◌++◌}
use cluster_fabric_operator.Base.{Option, none, some, Result, ok, err, ◌>>=◌, if◌then◌else◌}
use cluster_fabric_operator.Base.{Error.bad_json}
use cluster_fabric_operator.Globalnet.{GlobalNetwork, GlobalnetInfo}

-- `ClusterInfo`
pub record ClusterInfo : Type 0 where
  pub cluster_id : Text
  pub global_cidr : List Text

-- A config map, less its name.
pub record ConfigMap : Type 0 where
  pub labels : List (Text × Text)
  pub entries : List (Text × Text)

-- `encoding/json` and `fmt.Sprint`, for the types that the map holds.
pub record Json : Type 0 where
  pub parse_bool : Text → Option Bool
  pub parse_uint : Text → Option ℕ
  pub parse_string : Text → Option Text
  pub parse_clusters : Text → Option (List ClusterInfo)
  pub print_uint : ℕ → Text
  pub marshal_string : Text → Text
  pub marshal_clusters : List ClusterInfo → Text

abbrev pub globalnet_status_key : Text
globalnet_status_key = codes "globalnetEnabled"

abbrev pub cluster_info_key : Text
cluster_info_key = codes "clusterinfo"

abbrev pub globalnet_cidr_range_key : Text
globalnet_cidr_range_key = codes "globalnetCidrRange"

abbrev pub globalnet_cluster_size_key : Text
globalnet_cluster_size_key = codes "globalnetClusterSize"

-- `m[key]` of a map of texts: empty where the key is missing.
unfoldable pub value_at : Text → List (Text × Text) → Text
value_at key [] = []
value_at key ((k, v) ∷ rest) = if text_eq k key then v else value_at key rest

-- `m[key] = value`
unfoldable pub set_value : Text → Text → List (Text × Text) → List (Text × Text)
set_value key value [] = (key, value) ∷ []
set_value key value ((k, v) ∷ rest) =
    if text_eq k key then (k, value) ∷ rest else (k, v) ∷ set_value key value rest

-- The loop of `UpdateGlobalnetConfigMap`: every entry of the cluster gets the new CIDRs.
unfoldable pub set_cidrs : ClusterInfo → List ClusterInfo → List ClusterInfo
set_cidrs new [] = []
set_cidrs new (c ∷ rest) =
    (if text_eq c.cluster_id new.cluster_id then record c { global_cidr = new.global_cidr } else c)
    ∷ set_cidrs new rest

-- The flag `exists` of that loop.
unfoldable pub has_cluster : Text → List ClusterInfo → Bool
has_cluster id [] = false
has_cluster id (c ∷ rest) = if text_eq c.cluster_id id then true else has_cluster id rest

-- The cluster's entry is overwritten, or appended if there is none.
unfoldable pub merge_cluster : ClusterInfo → List ClusterInfo → List ClusterInfo
merge_cluster new infos =
    if has_cluster new.cluster_id infos then set_cidrs new infos else infos ++ (new ∷ [])

unfoldable pub or_bad_json {ℓ} : {A : Type ℓ} → Option A → Result A
or_bad_json none = err bad_json
or_bad_json (some a) = ok a

-- The map `globalNetworks`, filled from the list: a later entry of a cluster replaces an earlier.
unfoldable pub put_network : ClusterInfo → List (Text × GlobalNetwork) → List (Text × GlobalNetwork)
put_network c [] =
    (c.cluster_id, record { global_cidrs = c.global_cidr; cluster_id = c.cluster_id }) ∷ []
put_network c ((k, v) ∷ rest) =
    if text_eq k c.cluster_id
    then (k, record { global_cidrs = c.global_cidr; cluster_id = c.cluster_id }) ∷ rest
    else (k, v) ∷ put_network c rest

unfoldable pub networks_of :
    List ClusterInfo → List (Text × GlobalNetwork) → List (Text × GlobalNetwork)
networks_of [] networks = networks
networks_of (c ∷ rest) networks = networks_of rest (put_network c networks)

module _ (json : Json) where
  -- `GeneralGlobalnetConfigMap`, which fills the map.
  unfoldable pub general_globalnet_config_map : Bool → Text → ℕ → ConfigMap → ConfigMap
  general_globalnet_config_map enabled range size cm = record {
    labels = (codes "component", codes "submariner-globalnet") ∷ [];
    entries =
        if enabled
        then (globalnet_status_key, codes "true")
          ∷ (globalnet_cidr_range_key, json.marshal_string range)
          ∷ (globalnet_cluster_size_key, json.print_uint size)
          ∷ (cluster_info_key, codes "[]")
          ∷ []
        else (globalnet_status_key, codes "false") ∷ (cluster_info_key, codes "[]") ∷ [];
  }

  -- `UpdateGlobalnetConfigMap` up to its call of the API server: the map to be sent.
  unfoldable pub updated_map : ConfigMap → ClusterInfo → Result ConfigMap
  updated_map cm new = do
    infos ← or_bad_json (json.parse_clusters (value_at cluster_info_key cm.entries))
    ok (record cm {
      entries =
          set_value cluster_info_key (json.marshal_clusters (merge_cluster new infos)) cm.entries;
    })

  -- The size and the range, which are read only where globalnet is enabled.
  unfoldable pub read_settings : Bool → List (Text × Text) → Result (ℕ × Text)
  read_settings false entries = ok (0, [])
  read_settings true entries = do
    size ← or_bad_json (json.parse_uint (value_at globalnet_cluster_size_key entries))
    range ← or_bad_json (json.parse_string (value_at globalnet_cidr_range_key entries))
    ok (size, range)

  -- `GetGlobalNetworks` behind its read of the config map.
  unfoldable pub get_global_networks : ConfigMap → Result GlobalnetInfo
  get_global_networks cm = do
    enabled ← or_bad_json (json.parse_bool (value_at globalnet_status_key cm.entries))
    (size, range) ← read_settings enabled cm.entries
    infos ← or_bad_json (json.parse_clusters (value_at cluster_info_key cm.entries))
    ok (record {
      globalnet_enabled = enabled;
      globalnet_cidr_range = range;
      globalnet_cluster_size = size;
      global_cidr_info = networks_of infos [];
    })
