-- ===== src/Join/Sequence/Kept.antt =====
-- The allocation changes nothing of the netconfig but its global CIDR.
use cluster_fabric_operator.Base.{
  ℕ, ◌≡◌, refl, sym, ◌∙◌, ap, inl, inr, Bool, Bool-cases, true, false, Text, [], Option, none, some,
  Result-cases, Result, ok, err,
}
use cluster_fabric_operator.Base.Action.{Outcome, returns, fails, panics, runs_on}
use cluster_fabric_operator.Base.Loops.{Retried-keeps}
use cluster_fabric_operator.Globalnet.{GlobalnetInfo, Config}
use cluster_fabric_operator.Globalnet.Assign.{
  validate_globalnet_configuration, assign_globalnet_ips,
}
use cluster_fabric_operator.Broker.GlobalnetMap.{ConfigMap, Json, get_global_networks}
use cluster_fabric_operator.Join.Allocation.{
  Plan, with_cidr, assign_and_plan, after_validation, attempt,
}
use cluster_fabric_operator.Join.Sequence.{
  JoinParts, carry_out, allocate_round, keep_config, allocate_and_update, allocated_if,
}

-- A netconfig that differs at most by its global CIDR.
abbrev pub IsSame : Config → Config → Type 0
IsSame n m = (c : Text) × (m ≡ with_cidr n c)

module _ (json : Json) (fuel : ℕ) (id : Text) where
  assigned-IsSame :
      (netconfig : Config) (cm : ConfigMap) (info : GlobalnetInfo) (plan : Plan)
      (netconfig' : Config)
      → assign_and_plan json fuel id netconfig cm info ≡ some (plan, netconfig')
      → IsSame netconfig netconfig'
  unfolding assign_and_plan
  assigned-IsSame netconfig cm info plan netconfig' h =
      from_answer (assign_globalnet_ips fuel info netconfig) refl
    where
      from_answer :
          (a : Option (Result Text))
          → assign_globalnet_ips fuel info netconfig ≡ a
          → IsSame netconfig netconfig'
      from_answer none e = absurd (cc (rw (e, assign_and_plan) at h))
      from_answer (some (err x)) e = ([], sym (cc (rw (e, assign_and_plan) at h)))
      from_answer (some (ok cidr)) e = (cidr, sym (cc (rw (e, assign_and_plan) at h)))

  validated-IsSame :
      (netconfig : Config) (cm : ConfigMap) (v : Result Text × GlobalnetInfo) (plan : Plan)
      (netconfig' : Config)
      → after_validation json fuel id netconfig cm v ≡ some (plan, netconfig')
      → IsSame netconfig netconfig'
  unfolding after_validation
  validated-IsSame netconfig cm (err e, info) plan netconfig' h = ([], sym (cc h))
  validated-IsSame netconfig cm (ok cidr, info) plan netconfig' h =
      elim (Bool-cases info.globalnet_enabled) [
        | inr off ↦ (cidr, sym (cc (rw (off, after_validation) at h)))
        | inl on ↦
            let (c, e) =
              assigned-IsSame (with_cidr netconfig cidr) cm
                (record info { globalnet_enabled = true }) plan netconfig'
                (rw (on, after_validation) at h) in
            (c, e)
      ]

  attempt-IsSame :
      (netconfig : Config) (read : Result ConfigMap) (plan : Plan) (netconfig' : Config)
      → attempt json fuel id netconfig read ≡ some (plan, netconfig')
      → IsSame netconfig netconfig'
  unfolding attempt
  attempt-IsSame netconfig (err e) plan netconfig' h = (netconfig.globalnet_cidr, sym (cc h))
  attempt-IsSame netconfig (ok cm) plan netconfig' h =
      elim (Result-cases (get_global_networks json cm)) [
        | inr (e, eq) ↦ (netconfig.globalnet_cidr, sym (cc (rw (eq, attempt) at h)))
        | inl (info, eq) ↦
            validated-IsSame netconfig cm (validate_globalnet_configuration info netconfig) plan
              netconfig' (rw (eq, attempt) at h)
      ]

module _ {W : Type 0} (parts : JoinParts W) (fuel : ℕ) where
  round-IsSame :
      (id : Text) (netconfig : Config) (s : W × Config)
      → IsSame netconfig s.1
      → IsSame netconfig (allocate_round parts fuel id s).1.1
  unfolding allocate_round carry_out
  round-IsSame id netconfig (w, last) (c, e) =
      by_plan (attempt parts.json fuel id last (parts.read_map w).0) refl
    where
      carried :
          (plan : Plan) (n : Config) (v : W)
          → IsSame netconfig n
          → IsSame netconfig (carry_out parts fuel plan n v).1.1
      carried (Plan.fails x) n v same = same
      carried Plan.keeps n v same = same
      carried Plan.panics n v same = same
      carried (Plan.sends cm) n v same = same

      by_plan :
          (p : Option (Plan × Config))
          → attempt parts.json fuel id last (parts.read_map w).0 ≡ p
          → IsSame netconfig (allocate_round parts fuel id (w, last)).1.1
      by_plan none eq = rw (allocate_round, eq) (c, e)
      by_plan (some (plan, n)) eq =
          let (d, f) = attempt-IsSame parts.json fuel id last (parts.read_map w).0 plan n eq in
          rw (allocate_round, eq)
            (carried plan n (parts.read_map w).1 (d, f ∙ ap (λ x. with_cidr x d) e))

  kept :
      (netconfig n : Config) (r : Outcome (Unit {0}) × (W × Config)) (w : W)
      → IsSame netconfig r.1.1
      → keep_config parts fuel r ≡ (returns n, w)
      → IsSame netconfig n
  kept netconfig n (returns _, (v, m)) w (c, e) h = (c, ap (λ x. x) (sym (cc h)) ∙ e)
  kept netconfig n (fails x, (v, m)) w same h = absurd (cc h)
  kept netconfig n (panics, (v, m)) w same h = absurd (cc h)
  kept netconfig n (runs_on, (v, m)) w same h = absurd (cc h)

  pub allocated_if-IsSame :
      (wanted : Bool) (id : Text) (netconfig n : Config) (w w' : W)
      → allocated_if parts fuel wanted id netconfig w ≡ (returns n, w')
      → IsSame netconfig n
  unfolding allocate_and_update
  allocated_if-IsSame false id netconfig n w w' h = (netconfig.globalnet_cidr, sym (cc h))
  allocated_if-IsSame true id netconfig n w w' h =
      kept netconfig n _ w'
        (Retried-keeps (λ s. IsSame netconfig s.1) (round-IsSame id netconfig)
          (parts.loops.retries (allocate_round parts fuel id) (w, netconfig))
          (netconfig.globalnet_cidr, refl))
        h
