-- ===== src/Operator/Resource/Recreated.antt =====
-- A success means a new resource, and it comes once the old one has gone.
use cluster_fabric_operator.Base.{
  ℕ, zero, suc, ◌≤◌, ◌≡◌, refl, ◌∙◌, ap, inl, inr, arith, Bool, true, false, Result-cases, Result,
  ok, err,
}
use cluster_fabric_operator.Base.{Error.api, ApiError.not_found}
use cluster_fabric_operator.Base.Action.{Outcome, returns, Polled, Loops}
use cluster_fabric_operator.Base.Loops.{Polled-met, Polled-true, Polled-false}
use cluster_fabric_operator.Operator.Resource.{
  ResourceClient, deleted, create_round, delete_round, after_get, resource_round, ensure_resource,
}

module _ {W Spec : Type 0} (client : ResourceClient W Spec) (spec : Spec) where
  -- The call ended with the creation of the resource, when a read had found none.
  pub record IsCreated (w' : W) : Type 0 where
    pub before : W
    pub was_gone : (client.get before).0 ≡ err (api not_found)
    pub accepted : client.create spec (client.get before).1 ≡ (ok tt, w')

  -- The resource goes, and can be made anew, after so many rounds: each but the last finds it being
  -- deleted, or deletes it.
  pub data Vanishes : ℕ → W → Type 0 where
    gone :
        {w w' : W}
        → (client.get w).0 ≡ err (api not_found)
        → client.create spec (client.get w).1 ≡ (ok tt, w')
        → Vanishes zero w
    going : {n : ℕ} {w w' : W} → client.get w ≡ (ok true, w') → Vanishes n w' → Vanishes (suc n) w
    alive :
        {n : ℕ} {w w' w'' : W}
        → client.get w ≡ (ok false, w')
        → client.delete w' ≡ (ok tt, w'')
        → Vanishes n w''
        → Vanishes (suc n) w

  create_round-true :
      (w w' : W)
      → create_round client spec w ≡ (returns true, w')
      → client.create spec w ≡ (ok tt, w')
  unfolding create_round
  create_round-true w w' h = elim (Result-cases (client.create spec w).0) [
    | inl (tt, e) ↦ ap (λ r. (r, (client.create spec w).1)) e ∙ ap (λ x. (ok tt, x.1)) h
    | inr (x, e) ↦ absurd (cc (rw (e, create_round) at h))
  ]

  delete_round-true : (w w' : W) → delete_round client w ≡ (returns true, w') → ⊥
  unfolding delete_round
  delete_round-true w w' h = not_met (client.delete w).0 (ap (λ x. x.0) h)
    where
      not_met : (r : Result (Unit {0})) → deleted r ≡ returns true → ⊥
      not_met (ok _) h = absurd (cc h)
      not_met (err (api not_found)) h = absurd (cc h)
      not_met (err e) h = absurd (cc h)

  resource_round-true :
      (w w' : W) → resource_round client spec w ≡ (returns true, w') → IsCreated w'
  unfolding resource_round after_get
  resource_round-true w w' h = from_read (client.get w).0 refl h
    where
      from_read :
          (r : Result Bool)
          → (client.get w).0 ≡ r
          → after_get client spec r (client.get w).1 ≡ (returns true, w')
          → IsCreated w'
      from_read (err (api not_found)) e h = record {
        before = w;
        was_gone = e;
        accepted = create_round-true (client.get w).1 w' h;
      }
      from_read (err x) e h = absurd (cc h)
      from_read (ok true) e h = absurd (cc h)
      from_read (ok false) e h = absurd (delete_round-true (client.get w).1 w' h)

  module _ (loops : Loops) where
    -- If `Ensure` succeeds, its last call made the resource with the given spec, after a read that
    -- had found none: an old resource is never left in place.
    pub ensure_resource-IsCreated :
        (rounds : ℕ) (w w' : W)
        → ensure_resource client loops (suc rounds) spec w ≡ (returns tt, w')
        → IsCreated w'
    unfolding ensure_resource
    ensure_resource-IsCreated rounds w w' h =
        let (v, _, e) =
          Polled-met (λ _. Unit {0}) (λ _ _. tt) (loops.polls rounds (resource_round client spec) w)
            tt h in
        resource_round-true v w' e

    vanish_polls :
        (n rounds : ℕ) (w : W) (r : Outcome (Unit {0}) × W)
        → n ≤ rounds
        → Vanishes n w
        → Polled (resource_round client spec) (suc rounds) w r
        → r.0 ≡ returns tt
    unfolding resource_round after_get create_round delete_round
    vanish_polls zero rounds w r le (gone {w' = w'} read accepted) p =
        let met : resource_round client spec w ≡ (returns true, w') =
          rw (resource_round, read, after_get, create_round, accepted) refl in
        ap (λ x. x.0) (Polled-true met p)
    vanish_polls (suc n) zero w r le v p = absurd (omega (arith, le))
    vanish_polls (suc n) (suc m) w r le (going {w' = w'} read more) p =
        let again : resource_round client spec w ≡ (returns false, w') =
          rw (resource_round, read, after_get) refl in
        vanish_polls n m w' r (omega (arith, le)) more (Polled-false again p)
    vanish_polls (suc n) (suc m) w r le (alive {w'' = w''} read gone_now more) p =
        let again : resource_round client spec w ≡ (returns false, w'') =
          rw (resource_round, read, after_get, delete_round, gone_now) refl in
        vanish_polls n m w'' r (omega (arith, le)) more (Polled-false again p)

    -- An old resource that goes after fewer rounds than `Ensure` has is replaced: `Ensure` succeeds.
    -- It is assumed that the reads and the deletions until then are answered without an error, and
    -- that the creation is accepted.
    pub ensure_resource-returns :
        (n rounds : ℕ) (w : W)
        → n ≤ rounds
        → Vanishes n w
        → (ensure_resource client loops (suc rounds) spec w).0 ≡ returns tt
    unfolding ensure_resource
    ensure_resource-returns n rounds w le v =
        vanish_polls n rounds w _ le v (loops.polls rounds (resource_round client spec) w)
