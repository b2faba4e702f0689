-- ===== src/Operator/Keeps.antt =====
-- Every call of the installation of the operator keeps a view with `KeptLaws`.
use cluster_fabric_operator.Base.{
  ℕ, suc, ◌≡◌, refl, inl, inr, Text, List, [], ◌∷◌, Option, Result-cases, Result, ok, err,
}
use cluster_fabric_operator.Base.Action.{Action, of_result, Loops}
use cluster_fabric_operator.Base.Loops.{Retried-keeps, Polled-keeps}
use cluster_fabric_operator.Operator.{Component, Manifest, Object, put_named}
use cluster_fabric_operator.Operator.Scc.{
  Users, absent, malformed, users, Search, present, missing, not_a_string, search, submariner_user,
  write_users, add_user, update_round, update_scc,
}
use cluster_fabric_operator.Operator.Deployment.{Conditions, ready_round, wait_for_ready}
use cluster_fabric_operator.Operator.Install.{Cluster, names_of, update_each, ensure_scc}
use cluster_fabric_operator.Operator.Present.{named, Keeps, Makes, then-Makes, KeptLaws}

module _ {W : Type 0} {Asked : Object → Type 0} (loops : Loops) (cluster : Cluster W)
    (Present : Object → W → Type 0) (laws : KeptLaws cluster Present Asked) where
  pub put_named-Makes :
      (yaml : Manifest) (object : Text → Object)
      → ((name : Text) → cluster.server.get_object_name yaml ≡ ok name → Asked (object name))
      → Makes cluster.server Present (named yaml object ∷ []) (put_named cluster.server yaml object)
  unfolding put_named
  put_named-Makes yaml object asked = elim (Result-cases (cluster.server.get_object_name yaml)) [
    | inr (e, eq) ↦ (λ o w p. rw (eq, put_named) p, λ w a h. absurd (cc (rw (eq, put_named) at h)))
    | inl (name, eq) ↦ (
      λ o w p. rw (eq, put_named) (laws.put_keeps (object name) (asked name eq) o w p),
      λ w a h. (
        (
          name,
          eq,
          rw (eq, put_named) (laws.puts (object name) (asked name eq) w (rw (eq, put_named) at h)),
        ),
        tt,
      ),
    )
  ]

  write_users-Keeps :
      (us : List (Option Text)) → Keeps cluster.server Present (write_users cluster.scc us)
  unfolding write_users
  write_users-Keeps us o w p = elim (Result-cases (cluster.scc.update us w).0) [
    | inl (tt, eq) ↦ rw (eq, write_users) (laws.update_keeps o us w p)
    | inr (e, eq) ↦ rw (eq, write_users) (laws.update_keeps o us w p)
  ]

  add_user-Keeps :
      (user : Text) (us : List (Option Text)) (s : Search)
      → search user us ≡ s
      → Keeps cluster.server Present (add_user cluster.scc user (users us))
  unfolding add_user
  add_user-Keeps user us present e o w p = rw (e, add_user) p
  add_user-Keeps user us missing e o w p = rw (e, add_user) (write_users-Keeps _ o w p)
  add_user-Keeps user us not_a_string e o w p = rw (e, add_user) p

  update_round-Keeps : (user : Text) → Keeps cluster.server Present (update_round cluster.scc user)
  unfolding update_round add_user
  update_round-Keeps user o w p = elim (Result-cases (cluster.scc.get w).0) [
    | inr (e, eq) ↦ rw (eq, update_round) (laws.users_keep o w p)
    | inl (found, eq) ↦ rw (eq, update_round) (added found (laws.users_keep o w p))
  ]
    where
      added :
          (found : Users)
          → Present o (cluster.scc.get w).1
          → Present o (add_user cluster.scc user found (cluster.scc.get w).1).1
      added absent q = q
      added (malformed e) q = q
      added (users us) q = add_user-Keeps user us (search user us) refl o (cluster.scc.get w).1 q

  update_scc-Keeps :
      (namespace name : Text)
      → Keeps cluster.server Present (update_scc cluster.scc loops namespace name)
  unfolding update_scc
  update_scc-Keeps namespace name o w p = elim (Result-cases cluster.scc.dynamic_client) [
    | inr (e, eq) ↦ rw (eq, update_scc) p
    | inl (tt, eq) ↦
        let round = update_round cluster.scc (submariner_user namespace name) in
        rw (eq, update_scc)
          (Retried-keeps (Present o) (update_round-Keeps (submariner_user namespace name) o)
            (loops.retries round w) p)
  ]

  -- A run that is asked for nothing.
  abbrev pub quiet :
      {A : Type 0} {run : Action W A}
      → Keeps cluster.server Present run
      → Makes cluster.server Present [] run
  quiet keep = (keep, λ w a h. tt)

  pub update_each-Keeps :
      (namespace : Text) (names : List Text)
      → Makes cluster.server Present [] (update_each loops cluster namespace names)
  unfolding update_each
  update_each-Keeps namespace [] = quiet (λ o w p. p)
  update_each-Keeps namespace (name ∷ rest) =
      then-Makes cluster.server Present [] [] _
        (λ added.
          then-Makes cluster.server Present [] [] _ (λ more. quiet (λ o w p. p)) _
            (update_each-Keeps namespace rest))
        _ (quiet (update_scc-Keeps namespace name))

  pub ensure_scc-Keeps :
      (components : List Component) (namespace : Text)
      → Makes cluster.server Present [] (ensure_scc loops cluster components namespace)
  unfolding ensure_scc
  ensure_scc-Keeps components namespace =
      then-Makes cluster.server Present [] [] _ (λ names. update_each-Keeps namespace names) _
        (quiet (λ o w p. read_keeps (names_of cluster.server.get_object_name _) o w p))
    where
      read_keeps :
          (r : Result (List Text)) (o : Object) (w : W) → Present o w → Present o (of_result r w).1
      read_keeps (ok names) o w p = p
      read_keeps (err e) o w p = p

  round_keeps :
      (namespace name : Text) (o : Object) (s : W × Conditions)
      → Present o s.0
      → Present o (ready_round cluster.get_deployment namespace name s).1.0
  unfolding ready_round
  round_keeps namespace name o (w, last) p =
      elim (Result-cases (cluster.get_deployment namespace name w).0) [
        | inl (conditions, eq) ↦ rw (eq, ready_round) (laws.deployment_keeps o namespace name w p)
        | inr (e, eq) ↦ rw (eq, ready_round) (laws.deployment_keeps o namespace name w p)
      ]

  pub wait_for_ready-Keeps :
      (namespace name : Text) (n : ℕ)
      → Makes cluster.server Present []
          (wait_for_ready cluster.get_deployment loops (suc n) namespace name)
  unfolding wait_for_ready
  wait_for_ready-Keeps namespace name n = quiet keep
    where
      keep :
          Keeps cluster.server Present
            (wait_for_ready cluster.get_deployment loops (suc n) namespace name)
      keep o w p = elim (Result-cases (cluster.get_deployment namespace name w).0) [
        | inr (e, eq) ↦ rw (eq, wait_for_ready) (laws.deployment_keeps o namespace name w p)
        | inl (conditions, eq) ↦
            rw (eq, wait_for_ready)
              (Polled-keeps (λ s. Present o s.0) (round_keeps namespace name o)
                (loops.polls n (ready_round cluster.get_deployment namespace name)
                  ((cluster.get_deployment namespace name w).1, conditions))
                (laws.deployment_keeps o namespace name w p))
      ]
