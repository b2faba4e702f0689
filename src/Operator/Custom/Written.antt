-- ===== src/Operator/Custom/Written.antt =====
-- What a deployment of the broker, and a join without connectivity, leave at the API server.
use cluster_fabric_operator.Base.{
  ℕ, ◌≡◌, refl, sym, ◌∙◌, ap, ◌⊎◌, inl, inr, Bool, true, false, Bool-cases, Text, codes, Option,
  none, some, Option-cases, Result, ok, err, if◌then◌else◌,
}
use cluster_fabric_operator.Broker.Info.{BrokerConfig}
use cluster_fabric_operator.Controller.{
  BrokerSpec, DeployParts, Part, then_part, skip, populate_broker_spec, deploy_parts,
  is_valid_globalnet_config, deploy_submariner_broker,
}
use cluster_fabric_operator.Operator.Custom.{CreateOrUpdate, error_or_nil, ensure_broker_cr}

-- What is documented of `ctrl.CreateOrUpdate`: after a success the server holds what the function
-- made of some spec, the one it had or the empty one.
pub record Writes {W Spec : Type 0} (create_or_update : CreateOrUpdate W Spec)
    (held : W → Text → Text → Option Spec) : Type 0 where
  pub written :
      (name namespace : Text) (change : Spec → Spec) (w w' : W)
      → create_or_update name namespace change w ≡ (ok tt, w')
      → (old : Spec) × (held w' name namespace ≡ some (change old))

then_part-none :
    {W : Type 0} (first second : Part W) {w w' : W}
    → then_part first second w ≡ (none, w')
    → (v : W) × (first w ≡ (none, v)) × (second v ≡ (none, w'))
unfolding then_part
then_part-none first second {w} h = elim (Option-cases (first w).0) [
  | inl e ↦ ((first w).1, ap (λ o. (o, (first w).1)) e, rw e at h)
  | inr (x, e) ↦ absurd (cc (ap (λ p. p.0) (rw e at h)))
]

error_or_nil-none : (r : Result (Unit {0})) → error_or_nil r ≡ none → r ≡ ok tt
error_or_nil-none (ok tt) h = refl
error_or_nil-none (err e) h = absurd (cc h)

module _ {W : Type 0} (create_or_update : CreateOrUpdate W BrokerSpec)
    (held : W → Text → Text → Option BrokerSpec) (writes : Writes create_or_update held) where
  -- The resource of the broker.
  abbrev pub broker_held : W → Option BrokerSpec
  broker_held w = held w (codes "submariner-broker") (codes "submariner-operator")

  ensure_broker_cr-none :
      (spec : BrokerSpec) (w w' : W)
      → ensure_broker_cr create_or_update spec w ≡ (none, w')
      → broker_held w' ≡ some spec
  unfolding ensure_broker_cr
  ensure_broker_cr-none spec w w' h =
      let call =
        create_or_update (codes "submariner-broker") (codes "submariner-operator") (λ old. spec)
          w in
      let accepted : call ≡ (ok tt, w') =
        ap (λ r. (r, call.1)) (error_or_nil-none call.0 (ap (λ p. p.0) h))
        ∙ ap (λ v. (ok tt, v)) (ap (λ p. p.1) h) in
      (writes.written _ _ (λ old. spec) w w' accepted).1

  -- The four settings of the broker, as the configuration has them.
  abbrev spec_of : BrokerConfig → BrokerSpec
  spec_of config = record {
    globalnet_enabled = config.globalnet_enable;
    globalnet_cidr_range = config.globalnet_cidr_range;
    default_globalnet_cluster_size = config.default_globalnet_cluster_size;
    default_custom_domains = config.default_custom_domains;
  }

  -- The resource of the broker is written with `Ensure`, and the parts that follow leave it alone.
  pub record IsWired (parts : DeployParts W) : Type 0 where
    pub broker_cr : parts.ensure_broker_cr ≡ ensure_broker_cr create_or_update
    pub validation :
        (w : W) → broker_held (parts.validate_existing_global_networks w).1 ≡ broker_held w
    pub cidrs :
        (on : Bool) (range : Text) (size : ℕ) (w : W)
        → broker_held (parts.create_globalnet_config_map on range size w).1 ≡ broker_held w
    pub info :
        (config : BrokerConfig) (w : W)
        → broker_held (parts.create_broker_info_config_map config w).1 ≡ broker_held w

  if_validation-held :
      (parts : DeployParts W)
      → IsWired parts
      → (b : Bool) (w : W)
      → broker_held ((if b then parts.validate_existing_global_networks else skip) w).1
        ≡ broker_held w
  unfolding skip
  if_validation-held parts wired true w = wired.validation w
  if_validation-held parts wired false w = refl

  deploy_parts-broker_cr :
      (parts : DeployParts W)
      → IsWired parts
      → (config : BrokerConfig) (w w' : W) → deploy_parts parts config w ≡ (none, w')
      → broker_held w' ≡ some (spec_of config)
  unfolding deploy_parts populate_broker_spec
  deploy_parts-broker_cr parts wired config w w' h =
      let spec = populate_broker_spec config in
      let (v1, _, h1) = then_part-none _ _ h in
      let (v2, _, h2) = then_part-none _ _ h1 in
      let (v3, put, h3) = then_part-none _ _ h2 in
      let (v4, checked, h4) = then_part-none _ _ h3 in
      let (v5, cidrs, last) = then_part-none _ _ h4 in
      let at3 =
        ensure_broker_cr-none spec v2 v3 (ap (λ f. f spec v2) (sym wired.broker_cr) ∙ put) in
      let at4 =
        ap (λ p. broker_held p.1) (sym checked)
        ∙ if_validation-held parts wired config.globalnet_enable v3 in
      let at5 =
        ap (λ p. broker_held p.1) (sym cidrs)
        ∙ wired.cidrs config.globalnet_enable config.globalnet_cidr_range
            config.default_globalnet_cluster_size v4 in
      let at_end = ap (λ p. broker_held p.1) (sym last) ∙ wired.info config v5 in
      at_end ∙ (at5 ∙ (at4 ∙ at3))

  -- A deployment of the broker that reports no error either refused the size of the clusters, and
  -- did nothing, or has left a broker resource whose spec has the four settings of the configuration,
  -- whatever spec was there before. It is assumed that the resource is written with `Ensure`, that
  -- CreateOrUpdate writes what it reports to have written, and that the parts behind it leave the
  -- resource alone.
  pub deploy_submariner_broker-broker_cr :
      (parts : DeployParts W)
      → IsWired parts
      → (config : BrokerConfig) (w w' : W) → deploy_submariner_broker parts config w ≡ (none, w')
      → ((is_valid_globalnet_config config ≡ (false, none)) × (w' ≡ w))
        ⊎ (broker_held w'
            ≡ some (record {
              globalnet_enabled = config.globalnet_enable;
              globalnet_cidr_range = config.globalnet_cidr_range;
              default_globalnet_cluster_size = config.default_globalnet_cluster_size;
              default_custom_domains = config.default_custom_domains;
            }))
  unfolding deploy_submariner_broker
  deploy_submariner_broker-broker_cr parts wired config w w' h =
      elim (Bool-cases (is_valid_globalnet_config config).0) [
        | inl valid ↦ inr (deploy_parts-broker_cr parts wired config w w' (rw valid at h))
        | inr invalid ↦
            let same = rw (deploy_submariner_broker, invalid) at h in
            inl (
              ap (λ b. (b, (is_valid_globalnet_config config).1)) invalid
                  ∙ ap (λ e. (false, e)) (ap (λ p. p.0) same),
              sym (ap (λ p. p.1) same),
            )
      ]
