-- ===== src/Examples/Installing.antt =====
-- The installation of the operator on a small cluster.
use cluster_fabric_operator.Base.{
  ◌≡◌, refl, true, false, Text, codes, text_eq, List, [], ◌∷◌, ◌++◌, Some, at_head, in_tail, All,
  Option, some, ok, err,
}
use cluster_fabric_operator.Base.{Error.api, Error.updating_scc, ApiError.conflict}
use cluster_fabric_operator.Base.Action.{Outcome, returns, fails, in_turn}
use cluster_fabric_operator.Operator.{
  Object, crd, submariners, put_named, ensure_service_account, ensure_role, ensure_role_binding,
  ensure_cluster_role, ensure_cluster_role_binding, create_or_update_embedded_crd,
}
use cluster_fabric_operator.Operator.Crds.{ensure_operator_crds}
use cluster_fabric_operator.Operator.Scc.{
  users, SccClient, submariner_user, search, write_users, add_user, update_round, update_scc,
}
use cluster_fabric_operator.Operator.Scc.Once.{SccLaws, update_scc-added, update_scc-refused}
use cluster_fabric_operator.Operator.Deployment.{
  is_available, ready_round, wait_for_ready, ensure_deployment,
}
use cluster_fabric_operator.Operator.Install.{
  Cluster, names_of, ensure_namespace, ensure_accounts, ensure_lighthouse_accounts, update_each,
  ensure_scc, ensure_lighthouse, ensure_operator,
}
use cluster_fabric_operator.Operator.Present.{IsThere}
use cluster_fabric_operator.Operator.Keys.{key_of}
use cluster_fabric_operator.Operator.Named.{ServerLaws, ensure_operator-installed}
use cluster_fabric_operator.Examples.Manifests.{name_of, name_of-NamesApart}
use cluster_fabric_operator.Operator.Needs.{operator_needs}
use cluster_fabric_operator.Examples.Loops.{test_loops}

-- The state is the list of the users of the constraints.
abbrev test_scc : SccClient (List (Option Text))
test_scc = record {
  dynamic_client = ok tt;
  get = λ us. (ok (users us), us);
  update = λ us old. (ok tt, us);
}

test_scc-laws : SccLaws test_scc
test_scc-laws = record { reads = λ w. refl; written = λ us w e. refl }

abbrev one_user : List (Option Text)
one_user = some (codes "system:serviceaccount:kube-system:default") ∷ []

update_scc-added_example :
    (update_scc test_scc test_loops (codes "submariner-operator") (codes "submariner-gateway") (
      one_user
      ++ (some (codes "system:serviceaccount:submariner-operator:submariner-gateway") ∷ [])))
    ≡ (
      returns false,
      one_user
          ++ (some (codes "system:serviceaccount:submariner-operator:submariner-gateway") ∷ []),
    )
unfolding update_scc update_round add_user write_users search submariner_user text_eq
update_scc-added_example =
    update_scc-added test_scc test_scc-laws test_loops (codes "submariner-operator")
      (codes "submariner-gateway") one_user
      (one_user
        ++ (some (codes "system:serviceaccount:submariner-operator:submariner-gateway") ∷ []))
      refl

-- Every update is refused.
abbrev busy_scc : SccClient (List (Option Text))
busy_scc = record {
  dynamic_client = ok tt;
  get = λ us. (ok (users us), us);
  update = λ us old. (err (api conflict), old);
}

update_scc-refused_example :
    (update_scc busy_scc test_loops (codes "ns") (codes "sa") one_user).0 ≡ fails updating_scc
unfolding search submariner_user text_eq
update_scc-refused_example =
    update_scc-refused busy_scc (record { reads = λ w. refl; written = λ us w e. absurd (cc e) })
      test_loops (codes "ns") (codes "sa") one_user (api conflict) one_user refl refl refl refl

-- The state is the list of the objects.
abbrev test_cluster : Cluster (List Object)
test_cluster = record {
  server = record {
    get_object_name = λ yaml. ok (name_of yaml);
    create_or_update = λ o w. (returns tt, o ∷ w);
  };
  get_namespace = λ name w. (ok tt, w);
  get_deployment = λ namespace name w. (ok ((codes "Available", codes "True") ∷ []), w);
  scc = record {
    dynamic_client = ok tt;
    get = λ w. (ok (users one_user), w);
    update = λ us w. (ok tt, w);
  };
  more_rounds = 1;
}

abbrev IsIn : Object → List Object → Type 0
IsIn o w = Some (λ p. p ≡ o) w

test_cluster-laws : ServerLaws test_cluster IsIn
test_cluster-laws = record {
  puts = λ o w e. at_head refl;
  put_leaves = λ o p w same there. in_tail there;
  put_keeps = λ o p w there. (p, refl, in_tail there);
  namespace_keeps = λ o name w there. there;
  deployment_keeps = λ o namespace name w there. there;
  users_keep = λ o w there. there;
  update_keeps = λ o us w there. there;
}

abbrev old_objects : List Object
old_objects = crd (codes "nodes") submariners ∷ []

abbrev installed : Outcome (Unit {0}) × List Object
installed = ensure_operator test_loops test_cluster (codes "submariner-operator") true old_objects

installed-returns : installed.0 ≡ returns tt
unfolding ensure_operator ensure_operator_crds create_or_update_embedded_crd put_named in_turn
    ensure_namespace ensure_accounts ensure_lighthouse_accounts ensure_service_account ensure_role
    ensure_role_binding ensure_cluster_role ensure_cluster_role_binding ensure_lighthouse ensure_scc
    names_of update_each update_scc update_round add_user write_users search submariner_user text_eq
    ensure_deployment wait_for_ready ready_round is_available
installed-returns = refl

ensure_operator-installed_example :
    ((o : Object) → IsIn o old_objects → (q : Object) × (key_of q ≡ key_of o) × IsIn q installed.1)
    × All
        (IsThere test_cluster.server IsIn installed.1)
        (operator_needs (codes "submariner-operator") true)
ensure_operator-installed_example =
    ensure_operator-installed test_cluster IsIn test_cluster-laws name_of-NamesApart
      (codes "submariner-operator") true test_loops old_objects installed-returns
