-- ===== src/Controller/Outcomes.antt =====
-- What a reconciliation reports.
use cluster_fabric_operator.Base.{
  ◌≡◌, refl, ◌⊎◌, inl, inr, Option-cases, ◌<◌, ◌^◌, true, false, Option, none, some, Result, ok,
  Error,
}
use cluster_fabric_operator.Net.{Ip, IpNet, parse_cidr}
use cluster_fabric_operator.Globalnet.Sizes.Valid.{get_valid_cluster_size-zero}
use cluster_fabric_operator.Broker.Info.{BrokerConfig}
use cluster_fabric_operator.Controller.{
  Part, Phase, no_phase, running, failed, status_write, reconcile, DeployParts, then_part, skip,
  is_valid_globalnet_config, deploy_submariner_broker, reconcile_body,
}

reconcile-found {ℓ} :
    {W : Type ℓ} (get : W → Result Phase) (body : Part W) (w : W) (before : Phase)
    → get w ≡ ok before
    → reconcile get body w ≡ (((body w).0, status_write before (body w).0), (body w).1)
unfolding reconcile
reconcile-found get body w before found = rw (found, reconcile) refl

-- A broker with globalnet whose default cluster size is 0, or is above 2 ^ 31 in 32 bits, is not
-- deployed: nothing is done to the cluster, and yet no error is returned, and the phase, if it was
-- not set before, becomes running. The range must be a CIDR.
pub deploy_submariner_broker-no_size {ℓ} :
    {W : Type ℓ} (parts : DeployParts W) (config : BrokerConfig) (a : Ip) (range : IpNet) (w : W)
    (get : W → Result Phase)
    → config.globalnet_enable ≡ true
    → parse_cidr config.globalnet_cidr_range ≡ some (a, range)
    → (config.default_globalnet_cluster_size ≡ 0)
      ⊎ ((2 ^ 31 < config.default_globalnet_cluster_size)
          × (config.default_globalnet_cluster_size < 2 ^ 32))
    → get w ≡ ok no_phase
    → (deploy_submariner_broker parts config w ≡ (none, w))
      × (reconcile get (reconcile_body true false (deploy_submariner_broker parts config) skip) w
          ≡ ((none, some running), w))
unfolding deploy_submariner_broker is_valid_globalnet_config reconcile_body then_part skip
    status_write
deploy_submariner_broker-no_size parts config a range w get on parsed bad fresh =
    let zero_size =
      get_valid_cluster_size-zero config.globalnet_cidr_range a range
        config.default_globalnet_cluster_size parsed bad in
    let nothing : deploy_submariner_broker parts config w ≡ (none, w) = rw (on, zero_size) refl in
    let body : Part _ = reconcile_body true false (deploy_submariner_broker parts config) skip in
    let run : body w ≡ (none, w) = rw nothing refl in
    (nothing, rw (reconcile-found get body w no_phase fresh, run) refl)

-- The phase after the status that is to be written, if any, is written.
abbrev pub phase_after : Phase → Option Phase → Phase
phase_after before none = before
phase_after before (some written) = written

status_write-running : (before : Phase) → phase_after before (status_write before none) ≡ running
unfolding status_write
status_write-running no_phase = refl
status_write-running running = refl
status_write-running failed = refl

status_write-failed :
    (before : Phase) (e : Error) → phase_after before (status_write before (some e)) ≡ failed
unfolding status_write
status_write-failed no_phase e = refl
status_write-failed running e = refl
status_write-failed failed e = refl

-- How a reconciliation that deploys and joins ends: the phase, the error or nil, and the cluster.
abbrev pub Ends {ℓ} :
    {W : Type ℓ} → Phase → (Option Error × Option Phase) × W → Phase → Option Error → W → Type ℓ
Ends before r phase e w = (phase_after before r.0.1 ≡ phase) × (r.0.0 ≡ e) × (r.1 ≡ w)

-- A reconciliation of an instance that was found, and is to deploy the broker and to join, ends in one
-- of three ways: both succeed, and the phase is running; the deployment fails, the join is not begun,
-- and the phase is failed; or the join fails behind the deployment, and the phase is failed. What the
-- parts did to the cluster stays, and the error is that of the part that failed.
pub reconcile_cases {ℓ} :
    {W : Type ℓ} (get : W → Result Phase) (deploy join : Part W) (w : W) (before : Phase)
    → get w ≡ ok before
    → let r = reconcile get (reconcile_body true true deploy join) w in
      let v = (deploy w).1 in
      (((deploy w).0 ≡ none) × ((join v).0 ≡ none) × Ends before r running none (join v).1)
      ⊎ ((e : Error) × ((deploy w).0 ≡ some e) × Ends before r failed (some e) v)
      ⊎ ((e : Error) × ((deploy w).0 ≡ none)
          × ((join v).0 ≡ some e)
          × Ends before r failed (some e) (join v).1)
unfolding reconcile_body then_part
reconcile_cases get deploy join w before found =
    rw (reconcile-found get (reconcile_body true true deploy join) w before found)
      (elim (Option-cases (deploy w).0) [
        | inr (e, failed_there) ↦
            rw failed_there (inr (inl (e, refl, (status_write-failed before e, refl, refl))))
        | inl deployed ↦ elim (Option-cases (join (deploy w).1).0) [
          | inl joined ↦
              inl (rw (deployed, joined) (refl, refl, (status_write-running before, refl, refl)))
          | inr (e, failed_there) ↦
              rw (deployed, failed_there)
                (inr (inr (e, refl, refl, (status_write-failed before e, refl, refl))))
        ]
      ])
