-- ===== src/Broker/Rbac/Bound.antt =====
-- What the account of a joining cluster is bound to. Objects have contents here, and an answer that an
-- object exists says no more than that there is one of its name.
use cluster_fabric_operator.Base.{
  ◌≡◌, refl, ◌⊎◌, inl, inr, Text, codes, ◌++◌, Result-cases, Option, none, some, ok, ApiError,
}
use cluster_fabric_operator.Base.{
  ApiError.already_exists, ApiError.not_found, ApiError.conflict, ApiError.other,
}
use cluster_fabric_operator.Broker.Rbac.{
  Object, service_account, role_binding, broker_namespace, role, Request, create, new_broker_sa,
  new_broker_role_binding, cluster_sa_name, tolerant, may_exist, and_then, create_sa_for_cluster,
}

-- Objects of one kind and one name.
abbrev pub SameName : Object → Object → Type 0
SameName broker_namespace broker_namespace = Unit
SameName (service_account n) (service_account m) = n ≡ m
SameName (role n rules) (role m more) = n ≡ m
SameName (role_binding n a r) (role_binding m b q) = n ≡ m
SameName o p = ⊥

-- What the API server documents of `Create`: it removes and changes nothing; after a success its object
-- is there; after an answer that it exists, an object of its name was there; and no other object comes.
pub record CreateLaws {W : Type 0} (answer : Request → W → Option ApiError × W)
    (Present : Object → W → Type 0) : Type 0 where
  pub keeps : (o p : Object) (w : W) → Present p w → Present p (answer (create o) w).1
  pub makes :
      (o : Object) (w : W) → (answer (create o) w).0 ≡ none → Present o (answer (create o) w).1
  pub exists :
      (o : Object) (w : W)
      → (answer (create o) w).0 ≡ some already_exists
      → (p : Object) × SameName o p × Present p w
  pub adds : (o p : Object) (w : W) → Present p (answer (create o) w).1 → (p ≡ o) ⊎ Present p w

module _ {W : Type 0} (answer : Request → W → Option ApiError × W) (Present : Object → W → Type 0)
    (laws : CreateLaws answer Present) where
  -- A creation that is let pass: the object is there, or one of its name was.
  may_exist-ok :
      (o : Object) (w : W)
      → (may_exist answer (create o) w).0 ≡ ok tt
      → Present o (answer (create o) w).1 ⊎ ((p : Object) × SameName o p × Present p w)
  unfolding may_exist
  may_exist-ok o w h = elim (answered (answer (create o) w).0 h) [
    | inl made ↦ inl (laws.makes o w made)
    | inr there ↦ inr (laws.exists o w there)
  ]
    where
      answered : (e : Option ApiError) → tolerant e ≡ ok tt → (e ≡ none) ⊎ (e ≡ some already_exists)
      answered none _ = inl refl
      answered (some already_exists) _ = inr refl
      answered (some not_found) h = absurd (cc h)
      answered (some conflict) h = absurd (cc h)
      answered (some other) h = absurd (cc h)

  -- The account has nothing but its name.
  account_there :
      (n : Text) (w w' : W)
      → ((p : Object) → Present p w → Present p w')
      → Present (service_account n) w'
        ⊎ ((p : Object) × SameName (service_account n) p × Present p w)
      → Present (service_account n) w'
  account_there n w w' keep (inl there) = there
  account_there n w w' keep (inr (service_account m, same, there)) =
      rw same (keep (service_account m) there)
  account_there n w w' keep (inr (broker_namespace, same, there)) = absurd same
  account_there n w w' keep (inr (role m rules, same, there)) = absurd same
  account_there n w w' keep (inr (role_binding m b q, same, there)) = absurd same

  -- A binding of the name that is there after an account was made was there before.
  binding_before :
      (account n a r : Text) (w w' : W)
      → ((p : Object) → Present p w' → (p ≡ service_account account) ⊎ Present p w)
      → (p : Object) → SameName (role_binding n a r) p
      → Present p w'
      → (b : Text) × (q : Text) × Present (role_binding n b q) w
  binding_before account n a r w w' adds broker_namespace same there = absurd same
  binding_before account n a r w w' adds (service_account m) same there = absurd same
  binding_before account n a r w w' adds (role m rules) same there = absurd same
  binding_before account n a r w w' adds (role_binding m b q) same there =
      elim (adds (role_binding m b q) there) [
        | inl e ↦ absurd (cc e)
        | inr before ↦ (b, q, rw same before)
      ]

  -- If the account of a joining cluster is set up, it is there, and a binding of its name and the
  -- clusters' role is there, which binds the account to that role, unless a binding of that name was
  -- there before; and nothing that was there has gone. The API server must keep what it documents
  -- (`CreateLaws`).
  pub create_sa_for_cluster-bound :
      (cluster_id : Text) (w : W)
      → (create_sa_for_cluster answer cluster_id w).0 ≡ ok tt
      → let account = codes "cluster-" ++ cluster_id in
        let name = account ++ codes "-submariner-k8s-broker-cluster" in
        let w' = (create_sa_for_cluster answer cluster_id w).1 in
        ((o : Object) → Present o w → Present o w')
        × Present (service_account account) w'
        × (Present (role_binding name account (codes "submariner-k8s-broker-cluster")) w'
            ⊎ ((b : Text) × (q : Text) × Present (role_binding name b q) w))
  unfolding create_sa_for_cluster and_then may_exist new_broker_sa new_broker_role_binding
      cluster_sa_name
  create_sa_for_cluster-bound cluster_id w h =
      let account = codes "cluster-" ++ cluster_id in
      let binding =
        role_binding (account ++ codes "-submariner-k8s-broker-cluster") account
          (codes "submariner-k8s-broker-cluster") in
      let made = (answer (create (service_account account)) w).1 in
      elim (Result-cases (may_exist answer (create (service_account account)) w).0) [
        | inr (e, eq) ↦ absurd (cc (rw eq at h))
        | inl (u, eq) ↦
            let done = rw eq at h in
            rw eq (
              (λ o p. laws.keeps binding o made (laws.keeps (service_account account) o w p)),
              laws.keeps binding (service_account account) made (
                  account_there account w made (λ p. laws.keeps (service_account account) p w)
                    (may_exist-ok (service_account account) w eq)),
              elim (may_exist-ok binding made done) [
                | inl there ↦ inl there
                | inr (p, same, there) ↦ inr (
                    binding_before account (account ++ codes "-submariner-k8s-broker-cluster")
                      account (codes "submariner-k8s-broker-cluster") w made
                      (λ q. laws.adds (service_account account) q w) p same there)
              ],
            )
      ]
