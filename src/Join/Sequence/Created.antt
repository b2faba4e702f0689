-- ===== src/Join/Sequence/Created.antt =====
-- A join that deploys Submariner with `Ensure` of submarinercr.
use cluster_fabric_operator.Base.{ℕ, suc, ◌≡◌, sym, ◌∙◌, ap, true}
use cluster_fabric_operator.Base.Action.{returns, Loops}
use cluster_fabric_operator.Broker.Info.{BrokerInfo, is_connectivity_enabled}
use cluster_fabric_operator.Join.Specs.{JoinConfig, SubmarinerSpec}
use cluster_fabric_operator.Join.Sequence.{JoinParts, join_submariner_cluster}
use cluster_fabric_operator.Join.Sequence.Joined.{IsSubmariner, join_submariner_cluster-connected}
use cluster_fabric_operator.Operator.Resource.{ResourceClient, ensure_resource}
use cluster_fabric_operator.Operator.Resource.Recreated.{IsCreated, ensure_resource-IsCreated}

-- If a join to a broker with connectivity succeeds, the Submariner resource is a new one, whatever was
-- there before: the last thing that was done is that a read found no resource, and one was created,
-- with the spec of the cluster that is joining and the token of its account.
pub join_submariner_cluster-IsCreated :
    {W : Type 0} (parts : JoinParts W) (client : ResourceClient W SubmarinerSpec) (loops : Loops)
    (rounds : ℕ)
    → (parts.ensure_submariner ≡ ensure_resource client loops (suc rounds))
    → (fuel : ℕ) (join : JoinConfig) (info : BrokerInfo) (w w' : W)
    → is_connectivity_enabled info ≡ true
    → join_submariner_cluster parts fuel join info w ≡ (returns tt, w')
    → (s : IsSubmariner parts fuel join info w w') × IsCreated client s.spec w'
join_submariner_cluster-IsCreated parts client loops rounds wired fuel join info w w' connected h =
    let s = join_submariner_cluster-connected parts fuel join info w w' connected h in
    (
      s,
      ensure_resource-IsCreated client s.spec loops rounds s.account_in w'
          (ap (λ f. f s.spec s.account_in) (sym wired) ∙ s.deployed),
    )
