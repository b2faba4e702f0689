-- ===== src/Operator/Named.antt =====
-- What an installation of the operator that reports success has made, after what the API server
-- documents: it tells objects apart by kind, namespace and name.
use cluster_fabric_operator.Base.{
  ◌≡◌, refl, sym, ◌∙◌, ap, Bool, Text, List, [], ◌∷◌, All, Option, ok,
}
use cluster_fabric_operator.Base.Action.{returns, Loops}
use cluster_fabric_operator.Operator.{
  submariners, servicediscoveries, brokers, account_of, role_of, binding_of, cluster_role_of,
  cluster_binding_of, Object, crd, service_account, role, role_binding, cluster_role,
  cluster_role_binding, deployment,
}
use cluster_fabric_operator.Operator.Deployment.{new_deployment}
use cluster_fabric_operator.Operator.Install.{
  Cluster, operator_component, operator_image, ensure_operator,
}
use cluster_fabric_operator.Operator.Present.{Target, named, fixed, IsThere, KeptLaws}
use cluster_fabric_operator.Operator.Needs.{operator_needs}
use cluster_fabric_operator.Operator.Keys.{
  Key, crd_key, cluster_role_key, cluster_binding_key, account_key, role_key, binding_key,
  deployment_key, key_of, definition, account, a_role, a_binding, a_cluster_role, a_cluster_binding,
  NamesApart,
}
use cluster_fabric_operator.Operator.Asked.{
  Definition, of_submariners, of_service_discoveries, of_brokers, crd_of, Asks,
}
use cluster_fabric_operator.Operator.Installed.{ensure_operator-Kept}

-- What the API server documents. `CreateOrUpdate` leaves its object there if it returns; it removes
-- no object, and changes none but the one of its kind, namespace and name, and that one only if its
-- contents are others. The reads, and an update of the constraints, leave all of these alone.
pub record ServerLaws {W : Type 0} (cluster : Cluster W) (Present : Object → W → Type 0)
    : Type 0 where
  pub puts :
      (o : Object) (w : W)
      → (cluster.server.create_or_update o w).0 ≡ returns tt
      → Present o (cluster.server.create_or_update o w).1
  pub put_leaves :
      (o p : Object) (w : W)
      → (key_of o ≡ key_of p → o ≡ p)
      → Present p w
      → Present p (cluster.server.create_or_update o w).1
  pub put_keeps :
      (o p : Object) (w : W)
      → Present p w
      → (q : Object) × (key_of q ≡ key_of p) × Present q (cluster.server.create_or_update o w).1
  pub namespace_keeps :
      (o : Object) (name : Text) (w : W) → Present o w → Present o (cluster.get_namespace name w).1
  pub deployment_keeps :
      (o : Object) (namespace name : Text) (w : W)
      → Present o w
      → Present o (cluster.get_deployment namespace name w).1
  pub users_keep : (o : Object) (w : W) → Present o w → Present o (cluster.scc.get w).1
  pub update_keeps :
      (o : Object) (us : List (Option Text)) (w : W)
      → Present o w
      → Present o (cluster.scc.update us w).1

module _ {W : Type 0} (cluster : Cluster W) (Present : Object → W → Type 0)
    (laws : ServerLaws cluster Present) where
  -- Some object of the kind, namespace and name is there.
  abbrev HasKey : Object → W → Type 0
  HasKey o w = (q : Object) × (key_of q ≡ key_of o) × Present q w

  HasKey-Kept : KeptLaws cluster HasKey (λ _. Unit)
  HasKey-Kept = record {
    puts = λ o _ w e. (o, refl, laws.puts o w e);
    put_keeps = λ o _ p w (q, e, there).
        let (q', e', there') = laws.put_keeps o q w there in (q', e' ∙ e, there');
    namespace_keeps = λ o name w (q, e, there). (q, e, laws.namespace_keeps q name w there);
    deployment_keeps =
        λ o namespace name w (q, e, there). (q, e, laws.deployment_keeps q namespace name w there);
    users_keep = λ o w (q, e, there). (q, e, laws.users_keep q w there);
    update_keeps = λ o us w (q, e, there). (q, e, laws.update_keeps q us w there);
  }

  all_asked : (namespace : Text) (debug : Bool) → Asks cluster namespace debug (λ _. Unit)
  all_asked namespace debug = record {
    definition = λ i n e. tt;
    account = λ c n e. tt;
    of_role = λ c n e. tt;
    of_binding = λ c n e. tt;
    of_cluster_role = λ c n e. tt;
    of_cluster_binding = λ c n e. tt;
    operator_there = tt;
  }

  module _ (names : NamesApart cluster.server.get_object_name) (namespace : Text)
      (debug : Bool) where
    -- The object of a kind, namespace and name that an installation asks for.
    abbrev object_at : Key → Object
    object_at (crd_key n) = crd n (names.manifest_named definition n)
    object_at (cluster_role_key n) = cluster_role n (names.manifest_named a_cluster_role n)
    object_at (cluster_binding_key n) =
        cluster_role_binding n namespace (names.manifest_named a_cluster_binding n)
    object_at (account_key ns n) = service_account ns n (names.manifest_named account n)
    object_at (role_key ns n) = role ns n (names.manifest_named a_role n)
    object_at (binding_key ns n) = role_binding ns n (names.manifest_named a_binding n)
    object_at (deployment_key ns n) =
        deployment ns n (new_deployment operator_component operator_image debug)

    abbrev IsAsked : Object → Type 0
    IsAsked o = object_at (key_of o) ≡ o

    definition-IsAsked :
        (i : Definition)
        → (n : Text) → cluster.server.get_object_name (crd_of i) ≡ ok n
        → IsAsked (crd n (crd_of i))
    definition-IsAsked of_submariners n e = ap (crd n) (names.apart submariners n e)
    definition-IsAsked of_service_discoveries n e = ap (crd n) (names.apart servicediscoveries n e)
    definition-IsAsked of_brokers n e = ap (crd n) (names.apart brokers n e)

    asked : Asks cluster namespace debug IsAsked
    asked = record {
      definition = definition-IsAsked;
      account = λ c n e. ap (service_account namespace n) (names.apart (account_of c) n e);
      of_role = λ c n e. ap (role namespace n) (names.apart (role_of c) n e);
      of_binding = λ c n e. ap (role_binding namespace n) (names.apart (binding_of c) n e);
      of_cluster_role = λ c n e. ap (cluster_role n) (names.apart (cluster_role_of c) n e);
      of_cluster_binding =
          λ c n e. ap (cluster_role_binding n namespace) (names.apart (cluster_binding_of c) n e);
      operator_there = refl;
    }

    -- An object that is asked for is there, with its contents.
    abbrev AskedThere : Object → W → Type 0
    AskedThere o w = IsAsked o × Present o w

    AskedThere-Kept : KeptLaws cluster AskedThere IsAsked
    AskedThere-Kept = record {
      puts = λ o is w e. (is, laws.puts o w e);
      put_keeps = λ o is p w (is_p, there).
          (is_p, laws.put_leaves o p w (λ same. sym is ∙ (ap object_at same ∙ is_p)) there);
      namespace_keeps = λ o name w (is, there). (is, laws.namespace_keeps o name w there);
      deployment_keeps = λ o ns name w (is, there). (is, laws.deployment_keeps o ns name w there);
      users_keep = λ o w (is, there). (is, laws.users_keep o w there);
      update_keeps = λ o us w (is, there). (is, laws.update_keeps o us w there);
    }

    All-IsThere :
        (ts : List Target) (w : W)
        → All (IsThere cluster.server AskedThere w) ts
        → All (IsThere cluster.server Present w) ts
    All-IsThere [] w _ = tt
    All-IsThere (named yaml object ∷ ts) w ((name, e, (_, there)), rest) =
        ((name, e, there), All-IsThere ts w rest)
    All-IsThere (fixed o ∷ ts) w ((_, there), rest) = (there, All-IsThere ts w rest)

    -- If an installation succeeds, then, whatever was there before, the three definitions, the
    -- operator's five accounts with their roles and bindings, lighthouse's two, under the names in
    -- their manifests and with the contents of these, and the operator's deployment are there; and of
    -- every object that was there, one of its kind, namespace and name still is. No two manifests of
    -- one kind may have the same name, and the API server must keep what it documents (`ServerLaws`,
    -- `Loops`).
    pub ensure_operator-installed :
        (loops : Loops) (w : W)
        → (ensure_operator loops cluster namespace debug w).0 ≡ returns tt
        → let w' = (ensure_operator loops cluster namespace debug w).1 in
          ((o : Object) → Present o w → (q : Object) × (key_of q ≡ key_of o) × Present q w')
          × All (IsThere cluster.server Present w') (operator_needs namespace debug)
    ensure_operator-installed loops w done =
        let (keep, _) =
          ensure_operator-Kept loops cluster HasKey HasKey-Kept namespace debug
            (all_asked namespace debug) w done in
        let (_, made) =
          ensure_operator-Kept loops cluster AskedThere AskedThere-Kept namespace debug asked w
            done in
        (
          λ o there. keep o (o, refl, there),
          All-IsThere (operator_needs namespace debug)
              (ensure_operator loops cluster namespace debug w).1 made,
        )
