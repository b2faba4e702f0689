-- ===== src/Join/Sequence/Allocated.antt =====
-- A broker's default cluster size, and the joins.
use cluster_fabric_operator.Base.{
  ℕ, ◌≡◌, refl, sym, ◌∙◌, ap, ◌≢◌, true, false, Text, is_empty, Error,
}
use cluster_fabric_operator.Base.{Error.api, ApiError.conflict}
use cluster_fabric_operator.Base.Action.{
  Outcome, returns, fails, panics, runs_on, Retried, last_round, after_conflict, bind-returns,
}
use cluster_fabric_operator.Globalnet.{Config}
use cluster_fabric_operator.Broker.Info.{BrokerInfo, is_globalnet_enabled}
use cluster_fabric_operator.Join.Allocation.Retry.{attempt-both_settled}
use cluster_fabric_operator.Join.Specs.{JoinConfig}
use cluster_fabric_operator.Join.Sequence.Prepared.{prepare-returns}
use cluster_fabric_operator.Join.Sequence.{
  JoinParts, carry_out, allocate_round, keep_config, allocate_and_update, netconfig_of, prepare,
  deploy, join_submariner_cluster,
}

module _ {W : Type 0} (parts : JoinParts W) (fuel : ℕ) where
  round-both :
      (id : Text) (w : W) (netconfig : Config)
      → is_empty netconfig.globalnet_cidr ≡ false
      → netconfig.globalnet_cluster_size ≢ 0
      → (e : Error) × (w' : W) × (netconfig' : Config) × (allocate_round parts fuel id
            (w, netconfig)
          ≡ (fails e, (w', netconfig')))
        × (e ≡ api conflict → netconfig' ≡ netconfig)
  unfolding allocate_round carry_out
  round-both id w netconfig full sized =
      let (e, netconfig', planned, settled) =
        attempt-both_settled parts.json fuel id netconfig (parts.read_map w).0 full sized in
      (e, (parts.read_map w).1, netconfig', rw (allocate_round, planned, carry_out) refl, settled)

  Retried-both :
      (id : Text) (s : W × Config) (r : Outcome (Unit {0}) × (W × Config))
      → is_empty s.1.globalnet_cidr ≡ false
      → s.1.globalnet_cluster_size ≢ 0
      → Retried (allocate_round parts fuel id) s r
      → r.0 ≢ returns tt
  Retried-both id s r full sized last_round = λ h.
      let (e, w', netconfig', round, _) = round-both id s.0 s.1 full sized in
      absurd (cc (h, ap (λ x. x.0) round))
  Retried-both id s r full sized (after_conflict {w' = t} conflicted more) =
      let (e, w', netconfig', round, settled) = round-both id s.0 s.1 full sized in
      let is_conflict : e ≡ api conflict = cc (conflicted, round) in
      let same : t.1 ≡ s.1 = ap (λ x. x.1.1) (sym conflicted ∙ round) ∙ settled is_conflict in
      Retried-both id t r (rw same full) (rw same sized) more

  keep_config-returns :
      (r : Outcome (Unit {0}) × (W × Config)) (netconfig : Config) (w : W)
      → keep_config parts fuel r ≡ (returns netconfig, w)
      → r ≡ (returns tt, (w, netconfig))
  keep_config-returns (returns _, (v, n)) netconfig w h = cc h
  keep_config-returns (fails e, (v, n)) netconfig w h = absurd (cc h)
  keep_config-returns (panics, (v, n)) netconfig w h = absurd (cc h)
  keep_config-returns (runs_on, (v, n)) netconfig w h = absurd (cc h)

  -- A broker with globalnet and with both a range and a default cluster size takes in no cluster:
  -- whatever the cluster's settings, the state of both clusters and the answers of their servers, a
  -- join never succeeds, since the broker's range is taken for a CIDR that the cluster asks for.
  pub join_submariner_cluster-both :
      (join : JoinConfig) (info : BrokerInfo) (w w' : W)
      → is_globalnet_enabled info ≡ true
      → is_empty info.globalnet_cidr_range ≡ false
      → info.default_globalnet_cluster_size ≢ 0
      → join_submariner_cluster parts fuel join info w ≢ (returns tt, w')
  unfolding join_submariner_cluster allocate_and_update netconfig_of
  join_submariner_cluster-both join info w w' enabled full sized h =
      let (netconfig, v, prepared, _) =
        bind-returns (prepare parts fuel join info) (deploy parts fuel join info) h in
      let p = prepare-returns parts fuel join info netconfig w v prepared in
      let start = netconfig_of join info p.services p.pods in
      let done =
        keep_config-returns
          (parts.loops.retry_on_conflict (allocate_round parts fuel join.cluster_id)
            (p.before, start))
          netconfig v (rw (enabled, allocate_and_update) at p.allocated) in
      Retried-both join.cluster_id (p.before, start) _ full sized
        (parts.loops.retries (allocate_round parts fuel join.cluster_id) (p.before, start))
        (ap (λ x. x.0) done)
