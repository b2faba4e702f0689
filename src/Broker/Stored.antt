-- ===== src/Broker/Stored.antt =====
-- The broker's map as the operator keeps it, for a broker with globalnet.
use cluster_fabric_operator.Base.{
  ℕ, ◌≡◌, refl, ◌<◌, ◌≤◌, ◌^◌, Bool, true, false, Text, codes, text_eq, text_eq_refl, text_eq→eq,
  List, [], ◌∷◌, ◌++◌, some, Bool-cases, inl, inr, ok, if◌then◌else◌, map,
}
use cluster_fabric_operator.Net.{Ip, IpNet, value, host_bits, parse_cidr}
use cluster_fabric_operator.Globalnet.{GlobalnetInfo}
use cluster_fabric_operator.Broker.GlobalnetMap.{
  ClusterInfo, ConfigMap, Json, value_at, set_value, globalnet_status_key, cluster_info_key,
  globalnet_cidr_range_key, globalnet_cluster_size_key, read_settings, get_global_networks,
  updated_map, merge_cluster, networks_of, general_globalnet_config_map, or_bad_json,
}
use cluster_fabric_operator.Broker.Separation.{Separated, entry_of, networks_of-map}

-- What the operator relies on of the JSON library: what is written is read again. Texts are those
-- of valid UTF-8, as all texts of the API are.
pub record JsonLaws (json : Json) : Type 0 where
  pub bool_true : json.parse_bool (codes "true") ≡ some true
  pub bool_false : json.parse_bool (codes "false") ≡ some false
  pub no_clusters : json.parse_clusters (codes "[]") ≡ some []
  pub uint : (n : ℕ) → json.parse_uint (json.print_uint n) ≡ some n
  pub string : (t : Text) → json.parse_string (json.marshal_string t) ≡ some t
  pub clusters : (cs : List ClusterInfo) → json.parse_clusters (json.marshal_clusters cs) ≡ some cs

pub value_at-set_value :
    (key v : Text) (es : List (Text × Text)) → value_at key (set_value key v es) ≡ v
unfolding value_at set_value
value_at-set_value key v [] = rw (text_eq_refl key) refl
value_at-set_value key v ((k, w) ∷ es) = elim (Bool-cases (text_eq k key)) [
  | inl t ↦ rw (t, value_at, t) refl
  | inr f ↦ rw (f, value_at, f) (value_at-set_value key v es)
]

-- Another key keeps its value.
pub value_at-set_value_other :
    (key other v : Text) (es : List (Text × Text))
    → text_eq key other ≡ false
    → value_at other (set_value key v es) ≡ value_at other es
unfolding value_at set_value
value_at-set_value_other key other v [] ne = rw ne refl
value_at-set_value_other key other v ((k, w) ∷ es) ne = elim (Bool-cases (text_eq k key)) [
  | inl t ↦ let f : text_eq k other ≡ false = rw (text_eq→eq k key t) ne in rw (t, value_at, f) refl
  | inr f ↦ rw (f, value_at, value_at-set_value_other key other v es ne) refl
]

-- A map with globalnet: its settings can be read, the range is a CIDR that does not contain
-- 0.0.0.0, the cluster size fits it, and the clusters' CIDRs share no address.
pub record IsStored (json : Json) (cm : ConfigMap) : Type 0 where
  pub size : ℕ
  pub range_text : Text
  pub infos : List ClusterInfo
  pub address : Ip
  pub range : IpNet
  pub enabled_read : json.parse_bool (value_at globalnet_status_key cm.entries) ≡ some true
  pub size_read : json.parse_uint (value_at globalnet_cluster_size_key cm.entries) ≡ some size
  pub range_read :
      json.parse_string (value_at globalnet_cidr_range_key cm.entries) ≡ some range_text
  pub infos_read : json.parse_clusters (value_at cluster_info_key cm.entries) ≡ some infos
  pub parsed : parse_cidr range_text ≡ some (address, range)
  pub above : 0 < value range.ip
  pub positive : 0 < size
  pub fits : size ≤ 2 ^ host_bits range
  pub separated : Separated infos

-- The map is one of the operator's, with the range, and its clusters are the first ones and more.
pub record Holds (json : Json) (range : IpNet) (first : List ClusterInfo) (cm : ConfigMap)
    : Type 0 where
  pub stored : IsStored json cm
  pub same_range : stored.range ≡ range
  pub joined : List ClusterInfo
  pub grown : stored.infos ≡ first ++ joined

module _ (json : Json) where
  abbrev pub info_of : {cm : ConfigMap} → IsStored json cm → GlobalnetInfo
  info_of s = record {
    globalnet_enabled = true;
    globalnet_cidr_range = s.range_text;
    globalnet_cluster_size = s.size;
    global_cidr_info = map entry_of s.infos;
  }

  pub get_global_networks-IsStored :
      (cm : ConfigMap) (s : IsStored json cm) → get_global_networks json cm ≡ ok (info_of s)
  unfolding get_global_networks read_settings or_bad_json
  get_global_networks-IsStored cm s =
      rw (s.enabled_read, read_settings, s.size_read, s.range_read, s.infos_read)
        (rw (networks_of-map s.infos s.separated) refl)

  module _ (laws : JsonLaws json) where
    -- An update keeps the settings; the clusters are the new list.
    pub updated_map-IsStored :
        (cm : ConfigMap) (new : ClusterInfo) (s : IsStored json cm)
        → Separated (merge_cluster new s.infos)
        → (cm' : ConfigMap) × (updated_map json cm new ≡ ok cm')
          × (s' : IsStored json cm') × (s'.infos ≡ merge_cluster new s.infos)
          × (s'.size ≡ s.size)
          × (s'.range_text ≡ s.range_text)
    unfolding updated_map or_bad_json text_eq
    updated_map-IsStored cm new s sep = (
      record cm { entries = set_value cluster_info_key fresh cm.entries },
      rw s.infos_read refl,
      record {
        size = s.size;
        range_text = s.range_text;
        infos = merge_cluster new s.infos;
        address = s.address;
        range = s.range;
        enabled_read = rw (same globalnet_status_key refl) s.enabled_read;
        size_read = rw (same globalnet_cluster_size_key refl) s.size_read;
        range_read = rw (same globalnet_cidr_range_key refl) s.range_read;
        infos_read =
            rw (value_at-set_value cluster_info_key fresh cm.entries)
              (laws.clusters (merge_cluster new s.infos));
        parsed = s.parsed;
        above = s.above;
        positive = s.positive;
        fits = s.fits;
        separated = sep;
      },
      refl,
      refl,
      refl,
    )
      where
        fresh : Text
        fresh = json.marshal_clusters (merge_cluster new s.infos)

        same :
            (key : Text)
            → text_eq cluster_info_key key ≡ false
            → value_at key (set_value cluster_info_key fresh cm.entries) ≡ value_at key cm.entries
        same key ne = value_at-set_value_other cluster_info_key key fresh cm.entries ne

    -- The map that the deployment of a broker with globalnet writes can be read, has the range and the
    -- cluster size, and has no clusters, so that no two of them share an address. It is assumed that
    -- the range is a CIDR without 0.0.0.0, that the size is positive and fits it, and that JSON reads
    -- what it wrote.
    pub general_globalnet_config_map-Holds :
        (cm : ConfigMap) (range_text : Text) (size : ℕ) (address : Ip) (range : IpNet)
        → parse_cidr range_text ≡ some (address, range)
        → 0 < value range.ip
        → 0 < size
        → size ≤ 2 ^ host_bits range
        → (h : Holds json range [] (general_globalnet_config_map json true range_text size cm))
          × (h.stored.infos ≡ [])
          × (h.stored.size ≡ size)
          × (h.stored.range_text ≡ range_text)
    unfolding general_globalnet_config_map value_at text_eq
    general_globalnet_config_map-Holds cm range_text size address range parsed above pos fits = (
      record {
        stored = record {
          size = size;
          range_text = range_text;
          infos = [];
          address = address;
          range = range;
          enabled_read = laws.bool_true;
          size_read = laws.uint size;
          range_read = laws.string range_text;
          infos_read = laws.no_clusters;
          parsed = parsed;
          above = above;
          positive = pos;
          fits = fits;
          separated = tt;
        };
        same_range = refl;
        joined = [];
        grown = refl;
      },
      refl,
      refl,
      refl,
    )

    -- What the deployment of a broker writes is read back, whatever the map held before: the flag,
    -- no clusters, and, if globalnet is enabled, the range and the cluster size. It is assumed that
    -- JSON reads what it wrote.
    pub get_global_networks-general_globalnet_config_map :
        (cm : ConfigMap) (enabled : Bool) (range_text : Text) (size : ℕ)
        → get_global_networks json (general_globalnet_config_map json enabled range_text size cm)
          ≡ ok (record {
            globalnet_enabled = enabled;
            globalnet_cidr_range = if enabled then range_text else [];
            globalnet_cluster_size = if enabled then size else 0;
            global_cidr_info = [];
          })
    unfolding get_global_networks general_globalnet_config_map value_at text_eq or_bad_json
        read_settings networks_of
    get_global_networks-general_globalnet_config_map cm true range_text size =
        rw (laws.bool_true, read_settings, laws.uint size, laws.string range_text, laws.no_clusters)
          refl
    get_global_networks-general_globalnet_config_map cm false range_text size =
        rw (laws.bool_false, read_settings, laws.no_clusters) refl
