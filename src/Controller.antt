-- ===== src/Controller.antt =====
-- controllers/fabric_controller.go and controllers/deploy_broker.go: a reconciliation. What the parts
-- do to the cluster is a parameter here: a part takes the state of the cluster and returns an error
-- or none, and the new state.
pub mod Outcomes
pub mod Switched
use cluster_fabric_operator.Base.{
  ℕ, ◌==◌, Bool, true, false, Text, List, Option, none, some, Result, ok, err, Error, ApiError,
  if◌then◌else◌,
}
use cluster_fabric_operator.Base.{Error.api, ApiError.not_found}
use cluster_fabric_operator.Globalnet.Sizes.{get_valid_cluster_size}
use cluster_fabric_operator.Broker.Info.{BrokerConfig, BrokerInfo}

-- `BrokerSpec`
pub record BrokerSpec : Type 0 where
  pub globalnet_enabled : Bool
  pub globalnet_cidr_range : Text
  pub default_globalnet_cluster_size : ℕ
  pub default_custom_domains : List Text

-- `populateBrokerSpec`
unfoldable pub populate_broker_spec : BrokerConfig → BrokerSpec
populate_broker_spec config = record {
  globalnet_enabled = config.globalnet_enable;
  globalnet_cidr_range = config.globalnet_cidr_range;
  default_globalnet_cluster_size = config.default_globalnet_cluster_size;
  default_custom_domains = config.default_custom_domains;
}

-- `isValidGlobalnetConfig`: the flag, and the error or nil.
unfoldable pub is_valid_globalnet_config : BrokerConfig → Bool × Option Error
is_valid_globalnet_config config =
    if config.globalnet_enable
    then elim (get_valid_cluster_size config.globalnet_cidr_range
        config.default_globalnet_cluster_size) [
          | err e ↦ (false, some e)
          | ok size ↦ if size == 0 then (false, none) else (true, none)
        ]
    else (true, none)

-- `Phase`
pub data Phase : Type 0 where
  no_phase running failed : Phase

abbrev pub same_phase : Phase → Phase → Bool
same_phase no_phase no_phase = true
same_phase no_phase running = false
same_phase no_phase failed = false
same_phase running no_phase = false
same_phase running running = true
same_phase running failed = false
same_phase failed no_phase = false
same_phase failed running = false
same_phase failed failed = true

-- A part of a reconciliation.
abbrev pub Part {ℓ} : Type ℓ → Type ℓ
Part W = W → Option Error × W

-- The parts of `DeploySubmerinerBroker`, in other packages.
pub record DeployParts {ℓ} (W : Type ℓ) : Type ℓ where
  pub ensure_broker : Bool → Bool → Part W
  pub ensure_operator : Part W
  pub ensure_broker_cr : BrokerSpec → Part W
  pub validate_existing_global_networks : Part W
  pub create_globalnet_config_map : Bool → Text → ℕ → Part W
  pub create_broker_info_config_map : BrokerConfig → Part W

-- The part that comes next, unless there was an error.
abbrev pub unless_error {ℓ} : {W : Type ℓ} → Option Error → Option Error × W → W → Option Error × W
unless_error none next w = next
unless_error (some e) next w = (some e, w)

module _ {ℓ} {W : Type ℓ} where
  unfoldable pub then_part : Part W → Part W → Part W
  then_part first second w = let (e, w') = first w in unless_error e (second w') w'

  unfoldable pub skip : Part W
  skip w = (none, w)

  -- The parts of `DeploySubmerinerBroker` behind the validation.
  unfoldable pub deploy_parts : DeployParts W → BrokerConfig → Part W
  deploy_parts parts config =
      then_part (parts.ensure_broker config.service_discovery_enabled config.globalnet_enable) (
        then_part parts.ensure_operator (
          then_part (parts.ensure_broker_cr (populate_broker_spec config)) (
            then_part
              (if config.globalnet_enable then parts.validate_existing_global_networks else skip)
              (then_part
                (parts.create_globalnet_config_map config.globalnet_enable
                  config.globalnet_cidr_range config.default_globalnet_cluster_size)
                (parts.create_broker_info_config_map config)))))

  -- `DeploySubmerinerBroker`
  unfoldable pub deploy_submariner_broker : DeployParts W → BrokerConfig → Part W
  deploy_submariner_broker parts config w =
      let (valid, e) = is_valid_globalnet_config config in
      if valid then deploy_parts parts config w else (e, w)

  -- The part of `Reconcile` that joins: the broker's information is read first.
  unfoldable pub join_part : (W → Result BrokerInfo) → (BrokerInfo → Part W) → Part W
  join_part read_info join w = elim (read_info w) [ err e ↦ (some e, w) | ok info ↦ join info w ]

  -- The body of `Reconcile` for an instance that was found.
  unfoldable pub reconcile_body : Bool → Bool → Part W → Part W → Part W
  reconcile_body deploy_broker join_broker deploy join =
      then_part (if deploy_broker then deploy else skip) (if join_broker then join else skip)

-- The deferred function: the phase.
abbrev pub phase_of : Option Error → Phase
phase_of none = running
phase_of (some e) = failed

-- The deferred function: the status is written if it has changed.
unfoldable pub status_write : Phase → Option Error → Option Phase
status_write before e = if same_phase before (phase_of e) then none else some (phase_of e)

-- The answer to a read that failed: an instance that is gone is no error.
abbrev pub read_error : Error → Option Error
read_error (api not_found) = none
read_error e = some e

-- `Reconcile`: the error or nil, the status that is written, and the state of the cluster.
unfoldable pub reconcile {ℓ} :
    {W : Type ℓ} → (W → Result Phase) → Part W → W → (Option Error × Option Phase) × W
reconcile get body w = elim (get w) [
  | err e ↦ ((read_error e, none), w)
  | ok before ↦ let (e, w') = body w in ((e, status_write before e), w')
]
