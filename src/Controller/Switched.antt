-- ===== src/Controller/Switched.antt =====
-- A broker that was deployed without globalnet, and is to have it now.
use cluster_fabric_operator.Base.{
  ℕ, ◌≡◌, ◌∙◌, ap, ◌≢◌, Bool, true, false, Text, Option, none, some, Option-cases, inl, inr, Result,
  ok, err, Error,
}
use cluster_fabric_operator.Broker.GlobalnetMap.{ConfigMap, Json, general_globalnet_config_map}
use cluster_fabric_operator.Broker.Stored.{JsonLaws}
use cluster_fabric_operator.Broker.Existing.{
  validate_existing_global_networks, validate_existing_global_networks-general_globalnet_config_map,
}
use cluster_fabric_operator.Broker.Info.{BrokerConfig}
use cluster_fabric_operator.Controller.{
  BrokerSpec, DeployParts, Part, then_part, populate_broker_spec, deploy_parts,
  is_valid_globalnet_config, deploy_submariner_broker,
}

abbrev pub error_of : Result (Unit {0}) → Option Error
error_of (ok _) = none
error_of (err e) = some e

-- The parts before the config map of the CIDRs is written leave it alone, and the validation is that
-- of the map.
pub record LeavesMap {W : Type 0} (json : Json) (read : W → Result ConfigMap)
    (parts : DeployParts W) : Type 0 where
  pub broker : (s g : Bool) (w : W) → read (parts.ensure_broker s g w).1 ≡ read w
  pub operator : (w : W) → read (parts.ensure_operator w).1 ≡ read w
  pub broker_cr : (spec : BrokerSpec) (w : W) → read (parts.ensure_broker_cr spec w).1 ≡ read w
  pub validation : (w : W) → read (parts.validate_existing_global_networks w).1 ≡ read w
  pub validates :
      (w : W)
      → (parts.validate_existing_global_networks w).0
        ≡ error_of (validate_existing_global_networks json (read w))

module _ {W : Type 0} (read : W → Result ConfigMap) (old : ConfigMap) where
  -- The part fails wherever the map is the old one, which stays.
  abbrev IsStuck : Part W → Type 0
  IsStuck p = (w : W) → read w ≡ ok old → ((p w).0 ≢ none) × (read (p w).1 ≡ ok old)

  then_part-IsStuck :
      (first second : Part W)
      → ((w : W) → read (first w).1 ≡ read w)
      → IsStuck second
      → IsStuck (then_part first second)
  unfolding then_part
  then_part-IsStuck first second keep stuck w known = elim (Option-cases (first w).0) [
    | inl e ↦ rw (e, then_part) (stuck (first w).1 (keep w ∙ known))
    | inr (x, e) ↦ rw (e, then_part) (λ h. absurd (cc h), keep w ∙ known)
  ]

  IsStuck-then_part : (first second : Part W) → IsStuck first → IsStuck (then_part first second)
  unfolding then_part
  IsStuck-then_part first second stuck w known = elim (Option-cases (first w).0) [
    | inl e ↦ absurd ((stuck w known).0 e)
    | inr (x, e) ↦ rw (e, then_part) (λ h. absurd (cc h), (stuck w known).1)
  ]

module _ {W : Type 0} (json : Json) (laws : JsonLaws json) (read : W → Result ConfigMap)
    (parts : DeployParts W) (leaves : LeavesMap json read parts) where
  validation-IsStuck :
      (range : Text) (size : ℕ) (cm : ConfigMap)
      → IsStuck read
          (general_globalnet_config_map json false range size cm)
          parts.validate_existing_global_networks
  validation-IsStuck range size cm w known =
      let failed =
        leaves.validates w
        ∙ (ap (λ r. error_of (validate_existing_global_networks json r)) known
            ∙ ap error_of (
                validate_existing_global_networks-general_globalnet_config_map json laws range size
                  cm)) in
      (λ h. absurd (cc (h, failed)), leaves.validation w ∙ known)

  -- Once a broker was deployed without globalnet, no deployment with globalnet whose range and cluster
  -- size pass the check of the settings succeeds: it ends with an error, and the map that the first
  -- one wrote stays as it is, so that the next such deployment fails too. The parts before the map is
  -- written must leave it alone, the validation of the existing map must be that of the map that is
  -- there, and JSON must read what it wrote.
  pub deploy_submariner_broker-switched :
      (config : BrokerConfig) (range : Text) (size : ℕ) (cm : ConfigMap) (w : W)
      → config.globalnet_enable ≡ true
      → (is_valid_globalnet_config config).0 ≡ true
      → read w ≡ ok (general_globalnet_config_map json false range size cm)
      → ((deploy_submariner_broker parts config w).0 ≢ none)
        × (read (deploy_submariner_broker parts config w).1
            ≡ ok (general_globalnet_config_map json false range size cm))
  unfolding deploy_submariner_broker deploy_parts
  deploy_submariner_broker-switched config range size cm w on valid known =
      let old = general_globalnet_config_map json false range size cm in
      let stuck : IsStuck read old (deploy_parts parts config) =
        then_part-IsStuck read old _ _
          (λ v. leaves.broker config.service_discovery_enabled config.globalnet_enable v)
          (then_part-IsStuck read old _ _ leaves.operator (
            then_part-IsStuck read old _ _ (leaves.broker_cr (populate_broker_spec config))
              (IsStuck-then_part read old _ _ (rw on (validation-IsStuck range size cm))))) in
      rw (deploy_submariner_broker, valid) (stuck w known)
