-- ===== src/Broker/Codec.antt =====
-- controllers/ensures/broker/brokerinfo_cm.go: the text that the broker's information travels in, its
-- config map, and the client that is made of it. JSON, base64 and the API server are parameters.
use cluster_fabric_operator.Base.{
  ℕ, ◌≡◌, refl, inl, inr, Bool, Text, codes, text_eq, is_empty, [], ◌∷◌, Option, none, some,
  Result-cases, Result, ok, err, ◌>>=◌, if◌then◌else◌,
}
use cluster_fabric_operator.Base.Action.{Call}
use cluster_fabric_operator.Broker.GlobalnetMap.{
  ConfigMap, value_at, Json, general_globalnet_config_map,
}
use cluster_fabric_operator.Broker.Info.{BrokerInfo, BrokerConfig, Secret, create_broker_info}

-- `encoding/json` for the information, and `base64.URLEncoding`.
pub record Codec : Type 0 where
  pub marshal : BrokerInfo → Result Text
  pub unmarshal : Text → Result BrokerInfo
  pub encode : Text → Text
  pub decode : Text → Result Text

module _ (codec : Codec) where
  -- `ToString`
  unfoldable pub to_string : BrokerInfo → Result Text
  to_string info = codec.marshal info >>= λ json. ok (codec.encode json)

  -- `NewFromString`. A result with an error is not used by its callers.
  unfoldable pub new_from_string : Text → Result BrokerInfo
  new_from_string text = codec.decode text >>= codec.unmarshal

  -- The map that `WriteConfigMap` writes, for the instance of that name and namespace.
  unfoldable pub info_map : Text → Text → BrokerInfo → Result ConfigMap
  info_map name namespace info = to_string info >>= λ text. ok (record {
    labels =
        (codes "operator.tkestack.io/fabric-name", name)
        ∷ (codes "operator.tkestack.io/fabric-namespace", namespace)
        ∷ [];
    entries = (codes "brokerInfo", text) ∷ [];
  })

  module _ {W : Type 0} (put_map : ConfigMap → Call W (Unit {0})) (get_map : Call W ConfigMap) where
    -- `WriteConfigMap`
    unfoldable pub write_config_map : Text → Text → BrokerInfo → Call W (Unit {0})
    write_config_map name namespace info w = elim (info_map name namespace info) [
      | err e ↦ (err e, w)
      | ok cm ↦ put_map cm w
    ]

    -- `NewFromConfigMap`
    unfoldable pub new_from_config_map : Call W BrokerInfo
    new_from_config_map w =
        let (r, w') = get_map w in
        (r >>= λ cm. new_from_string (value_at (codes "brokerInfo") cm.entries), w')

    -- `CreateBrokerInfoConfigMap`, from the answers to its reads.
    unfoldable pub create_broker_info_config_map :
        Text → Text → Result Secret → Result Secret → Text → BrokerConfig → Call W (Unit {0})
    create_broker_info_config_map name namespace token psk url config w =
        elim (create_broker_info token psk url config) [
          | err e ↦ (err e, w)
          | ok info ↦ write_config_map name namespace info w
        ]

-- `newIPSECPSKSecret`, from the random bytes.
unfoldable pub new_ipsec_psk_secret : Result Text → Result Secret
new_ipsec_psk_secret random = random >>= λ psk. ok ((codes "psk", psk) ∷ [])

-- `rest.Config`, as far as it is set.
pub record RestConfig : Type 0 where
  pub host : Text
  pub ca_data : Option Text
  pub bearer_token : Text

-- `GetBrokerAdministratorConfig`
unfoldable pub get_broker_administrator_config : BrokerInfo → RestConfig
get_broker_administrator_config info =
    let ca = value_at (codes "ca.crt") info.client_token in
    record {
      host = info.broker_url;
      ca_data = if is_empty ca then none else some ca;
      bearer_token = value_at (codes "token") info.client_token;
    }

-- `CreateGlobalnetConfigMap`: the error of the write is logged, and dropped.
unfoldable pub create_globalnet_config_map {ℓ} :
    {W : Type ℓ}
    → ((ConfigMap → ConfigMap) → W → Result (Unit {0}) × W)
    → Json
    → Bool
    → Text
    → ℕ
    → W
    → Result (Unit {0}) × W
create_globalnet_config_map update_map json enabled range size w =
    let (r, w') = update_map (general_globalnet_config_map json enabled range size) w in (ok tt, w')

-- What is documented: what was encoded is decoded, JSON reads what it wrote, and the map that was
-- written is read.
pub record CodecLaws (codec : Codec) {W : Type 0} (put_map : ConfigMap → Call W (Unit {0}))
    (get_map : Call W ConfigMap) : Type 0 where
  pub decoded : (t : Text) → codec.decode (codec.encode t) ≡ ok t
  pub unmarshalled :
      (info : BrokerInfo) (t : Text) → codec.marshal info ≡ ok t → codec.unmarshal t ≡ ok info
  pub stored :
      (cm : ConfigMap) (w : W) → (put_map cm w).0 ≡ ok tt → (get_map (put_map cm w).1).0 ≡ ok cm

module _ (codec : Codec) {W : Type 0} (put_map : ConfigMap → Call W (Unit {0}))
    (get_map : Call W ConfigMap) (laws : CodecLaws codec put_map get_map) where
  -- What a broker wrote without an error is what a joining cluster reads. JSON, base64 and the API
  -- server must keep what they document (`CodecLaws`).
  pub new_from_config_map-write_config_map :
      (name namespace : Text) (info : BrokerInfo) (w : W)
      → (write_config_map codec put_map get_map name namespace info w).0 ≡ ok tt
      → (new_from_config_map codec put_map get_map
          (write_config_map codec put_map get_map name namespace info w).1).0
        ≡ ok info
  unfolding write_config_map new_from_config_map info_map to_string new_from_string value_at text_eq
  new_from_config_map-write_config_map name namespace info w written =
      elim (Result-cases (codec.marshal info)) [
        | inr (e, eq) ↦ absurd (cc (rw (eq, write_config_map, info_map, to_string) at written))
        | inl (json, eq) ↦
            let m : ConfigMap = record {
              labels =
                  (codes "operator.tkestack.io/fabric-name", name)
                  ∷ (codes "operator.tkestack.io/fabric-namespace", namespace)
                  ∷ [];
              entries = (codes "brokerInfo", codec.encode json) ∷ [];
            } in
            let made : info_map codec name namespace info ≡ ok m =
              rw (info_map, to_string, eq) refl in
            let wrote : write_config_map codec put_map get_map name namespace info w ≡ put_map m w =
              rw (write_config_map, made) refl in
            let read = laws.stored m w (rw wrote at written) in
            rw wrote (
              rw (new_from_config_map, read, new_from_string, laws.decoded json)
                (laws.unmarshalled info json eq))
      ]
