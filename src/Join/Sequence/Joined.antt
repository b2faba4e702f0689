-- ===== src/Join/Sequence/Joined.antt =====
-- What a join that succeeds has done.
use cluster_fabric_operator.Base.{
  ℕ, ◌≡◌, refl, sym, ◌∙◌, ap, true, Text, codes, [], Option, none, some, Result, ok, err,
}
use cluster_fabric_operator.Base.Action.{
  Outcome, returns, fails, panics, runs_on, next-returns, bind-returns,
}
use cluster_fabric_operator.Globalnet.{Config}
use cluster_fabric_operator.Broker.GlobalnetMap.{value_at}
use cluster_fabric_operator.Broker.Info.{
  BrokerInfo, BrokerConfig, Secret, create_broker_info, create_broker_info-disabled,
  is_connectivity_enabled, is_globalnet_enabled,
}
use cluster_fabric_operator.Join.Settings.{get_image_overrides}
use cluster_fabric_operator.Join.Specs.{
  JoinConfig, SubmarinerSpec, submariner_spec, populate_submariner_spec, with_overrides-ok,
  populate_submariner_spec-get_cidr,
}
use cluster_fabric_operator.Join.Sequence.Prepared.{IsPrepared, prepare-returns}
use cluster_fabric_operator.Join.Sequence.Kept.{allocated_if-IsSame}
use cluster_fabric_operator.Join.Sequence.{
  JoinParts, populated, panic_if_built, with_token, netconfig_of, prepare, deploy_resource, deploy,
  join_submariner_cluster, service_cidrs_of, pod_cidrs_of,
}

populated-returns {ℓ} :
    {A : Type ℓ} (o : Option (Result A)) (spec : A)
    → populated o ≡ returns spec
    → o ≡ some (ok spec)
populated-returns none spec h = absurd (cc h)
populated-returns (some (err e)) spec h = absurd (cc h)
populated-returns (some (ok s)) spec h = cc h

panic_if_built-returns {ℓ} :
    {A : Type ℓ} (o : Outcome A) (spec : A) → panic_if_built o ≡ returns spec → ⊥
panic_if_built-returns (returns s) spec h = absurd (cc h)
panic_if_built-returns (fails e) spec h = absurd (cc h)
panic_if_built-returns panics spec h = absurd (cc h)
panic_if_built-returns runs_on spec h = absurd (cc h)

-- A spec is built only with a token.
pub with_token-returns {ℓ} :
    {A : Type ℓ} (populate : Secret → Option (Result A)) (token : Option Secret) (spec : A)
    → with_token populate token ≡ returns spec
    → (t : Secret) × (token ≡ some t) × (populate t ≡ some (ok spec))
with_token-returns populate none spec h =
    absurd (panic_if_built-returns (populated (populate [])) spec h)
with_token-returns populate (some t) spec h = (t, refl, populated-returns (populate t) spec h)

spec-same :
    (encode : Text → Text) (t : Secret) (join : JoinConfig) (info : BrokerInfo) (n : Config)
    (spec : SubmarinerSpec)
    → populate_submariner_spec encode t join info n ≡ some (ok spec)
    → (spec.cluster_id ≡ join.cluster_id)
      × (spec.broker_k8s_api_server_token ≡ value_at (codes "token") t)
unfolding populate_submariner_spec submariner_spec
spec-same encode t join info n spec h =
    let (overrides, e) =
      with_overrides-ok (submariner_spec encode t join info n)
        (get_image_overrides join.image_override_arr) spec h in
    (
      sym (ap (λ (x : SubmarinerSpec). x.cluster_id) e),
      sym (ap (λ (x : SubmarinerSpec). x.broker_k8s_api_server_token) e),
    )

module _ {W : Type 0} (parts : JoinParts W) (fuel : ℕ) (join : JoinConfig) (info : BrokerInfo) where
  -- The last steps of a join: the operator, the account, and what is done with its token.
  pub record IsDeployed (w w' : W) : Type 0 where
    pub netconfig : Config
    pub prepared_in : W
    pub ran : prepare parts fuel join info w ≡ (returns netconfig, prepared_in)
    pub prepared : IsPrepared parts fuel join info netconfig prepared_in
    pub installed_in : W
    pub installed : parts.ensure_operator prepared_in ≡ (returns tt, installed_in)
    pub token : Option Secret
    pub account_in : W
    pub account :
        parts.create_sa_for_cluster join.cluster_id installed_in ≡ (returns token, account_in)
    pub last : deploy_resource parts fuel join info netconfig token account_in ≡ (returns tt, w')

  pub join-IsDeployed :
      (w w' : W)
      → join_submariner_cluster parts fuel join info w ≡ (returns tt, w')
      → IsDeployed w w'
  unfolding join_submariner_cluster deploy
  join-IsDeployed w w' h =
      let (netconfig, v, prepared, rest) =
        bind-returns (prepare parts fuel join info) (deploy parts fuel join info) h in
      let (_, v1, installed, more) = bind-returns parts.ensure_operator _ rest in
      let (token, v2, account, last) =
        bind-returns (parts.create_sa_for_cluster join.cluster_id) _ more in
      record {
        netconfig = netconfig;
        prepared_in = v;
        ran = prepared;
        prepared = prepare-returns parts fuel join info netconfig w v prepared;
        installed_in = v1;
        installed = installed;
        token = token;
        account_in = v2;
        account = account;
        last = last;
      }

  -- With information that `CreateBrokerInfoConfigMap` made, a join that succeeds does no more than
  -- prepare, install the operator and make the account at the broker: neither Submariner nor service
  -- discovery is deployed.
  pub join_submariner_cluster-create_broker_info :
      (read psk : Result Secret) (url : Text) (config : BrokerConfig) (w w' : W)
      → create_broker_info read psk url config ≡ ok info
      → join_submariner_cluster parts fuel join info w ≡ (returns tt, w')
      → (netconfig : Config) × (u : W) × (v : W) × (token : Option Secret) × (prepare parts fuel
            join info w
          ≡ (returns netconfig, u))
        × (parts.ensure_operator u ≡ (returns tt, v))
        × (parts.create_sa_for_cluster join.cluster_id v ≡ (returns token, w'))
  unfolding deploy_resource
  join_submariner_cluster-create_broker_info read psk url config w w' made h =
      let d = join-IsDeployed w w' h in
      let (off, no_discovery, _) = create_broker_info-disabled read psk url config info made in
      let same : d.account_in ≡ w' =
        ap (λ x. x.1) (rw (deploy_resource, off, no_discovery) at d.last) in
      (
        d.netconfig,
        d.prepared_in,
        d.installed_in,
        d.token,
        d.ran,
        d.installed,
        d.account ∙ ap (λ x. (returns d.token, x)) same,
      )

  -- What the deployment of Submariner was asked for.
  pub record IsSubmariner (w w' : W) : Type 0 where
    pub netconfig : Config
    pub spec : SubmarinerSpec
    pub token : Secret
    pub prepared_in : W
    pub installed_in : W
    pub account_in : W
    pub prepared : prepare parts fuel join info w ≡ (returns netconfig, prepared_in)
    pub installed : parts.ensure_operator prepared_in ≡ (returns tt, installed_in)
    pub account :
        parts.create_sa_for_cluster join.cluster_id installed_in
        ≡ (returns (some token), account_in)
    pub deployed : parts.ensure_submariner spec account_in ≡ (returns tt, w')
    pub made : populate_submariner_spec parts.encode token join info netconfig ≡ some (ok spec)
    pub same_id : spec.cluster_id ≡ join.cluster_id
    pub same_token : spec.broker_k8s_api_server_token ≡ value_at (codes "token") token
    pub same_cidrs :
        (spec.service_cidr ≡ join.service_cidr) × (spec.cluster_cidr ≡ join.cluster_cidr)

  -- If a join to a broker with connectivity succeeds, then, one right after the other, it was
  -- prepared, the operator was installed, the cluster's account was made, and Submariner was deployed,
  -- with the spec of the netconfig that the preparation gave: it has the cluster's ID, the token of
  -- that account, and exactly the service and pod CIDRs that the user gave.
  pub join_submariner_cluster-connected :
      (w w' : W)
      → is_connectivity_enabled info ≡ true
      → join_submariner_cluster parts fuel join info w ≡ (returns tt, w')
      → IsSubmariner w w'
  unfolding deploy_resource netconfig_of
  join_submariner_cluster-connected w w' connected h =
      let d = join-IsDeployed w w' h in
      let p = d.prepared in
      let (spec, built, deployed) =
        next-returns
          (with_token (λ t. populate_submariner_spec parts.encode t join info d.netconfig) d.token)
          d.account_in w' parts.ensure_submariner tt (rw (deploy_resource, connected) at d.last) in
      let (t, has_token, made) =
        with_token-returns (λ t. populate_submariner_spec parts.encode t join info d.netconfig)
          d.token spec built in
      let (same_id, same_token) = spec-same parts.encode t join info d.netconfig spec made in
      let (c, same) =
        allocated_if-IsSame parts fuel (is_globalnet_enabled info) join.cluster_id
          (netconfig_of join info p.services p.pods) d.netconfig p.before d.prepared_in
          p.allocated in
      record {
        netconfig = d.netconfig;
        prepared = d.ran;
        made = made;
        spec = spec;
        token = t;
        prepared_in = d.prepared_in;
        installed_in = d.installed_in;
        account_in = d.account_in;
        installed = d.installed;
        account = d.account ∙ ap (λ x. (returns x, d.account_in)) has_token;
        deployed = deployed;
        same_id = same_id;
        same_token = same_token;
        same_cidrs =
            populate_submariner_spec-get_cidr parts.encode t join info d.netconfig spec
              (service_cidrs_of p.details) (pod_cidrs_of p.details) (rw same p.service_found)
              (rw same p.pod_found) made;
      }
