-- ===== src/Join/Sequence/Refused.antt =====
-- A join that is refused at once.
use cluster_fabric_operator.Base.{ℕ, ◌≡◌, refl, ◌⊎◌, inl, inr, ok, err, Error}
use cluster_fabric_operator.Base.Action.{fails}
use cluster_fabric_operator.Broker.Info.{BrokerInfo}
use cluster_fabric_operator.Join.Specs.{JoinConfig}
use cluster_fabric_operator.Join.Sequence.{
  JoinParts, checked_settings, requirements_met, requirements, prepare, join_submariner_cluster,
}

module _ {W : Type 0} (parts : JoinParts W) (fuel : ℕ) where
  -- If the settings are refused, or else the requirements are not met, the join fails with that
  -- error, and nothing but the check of the requirements was asked of a cluster.
  pub join_submariner_cluster-refused :
      (join : JoinConfig) (info : BrokerInfo) (w : W) (e : Error)
      → (checked_settings join ≡ err e)
        ⊎ ((checked_settings join ≡ ok tt)
            × (requirements_met (parts.check_requirements w).0 ≡ err e))
      → (join_submariner_cluster parts fuel join info w ≡ (fails e, w))
        ⊎ (join_submariner_cluster parts fuel join info w
            ≡ (fails e, (parts.check_requirements w).1))
  unfolding join_submariner_cluster prepare requirements
  join_submariner_cluster-refused join info w e (inl refused) =
      inl (rw (join_submariner_cluster, prepare, refused) refl)
  join_submariner_cluster-refused join info w e (inr (settled, unmet)) =
      inr (rw (join_submariner_cluster, prepare, settled, requirements, unmet) refl)
