-- ===== src/Join/Gateway/Labels.antt =====
-- controllers/join_broker.go: `addLabelsToNode`, over the patch of the node that is a parameter.
use cluster_fabric_operator.Base.{ℕ, suc, ◌≡◌, refl, Bool, true, false, Text, Result, ok, err}
use cluster_fabric_operator.Base.{Error.api, ApiError.conflict, Error.wait_timeout}
use cluster_fabric_operator.Base.Action.{
  Outcome, returns, fails, Action, Call, Polled, met, failed, panicked, ran_on, given_up, again,
  Loops,
}

-- What a round comes to after the patch: a conflict is tried again.
abbrev pub patched : Result (Unit {0}) → Outcome Bool
patched (ok _) = returns true
patched (err (api conflict)) = returns false
patched (err e) = fails e

-- What follows the polling. The variable `lastErr` that is returned then is never written: the one in
-- the condition is another.
abbrev pub unless_timeout : Outcome (Unit {0}) → Outcome (Unit {0})
unless_timeout (fails wait_timeout) = returns tt
unless_timeout o = o

module _ {W : Type 0} (patch : Text → Call W (Unit {0})) where
  unfoldable pub patch_round : Text → Action W Bool
  patch_round node w = let (r, w') = patch node w in (patched r, w')

  -- `addLabelsToNode`, with so many rounds.
  unfoldable pub add_labels_to_node : Loops → ℕ → Text → Action W (Unit {0})
  add_labels_to_node loops rounds node w =
      let (o, w') = loops.poll rounds (patch_round node) w in (unless_timeout o, w')

  all_conflicts :
      (node : Text)
      → ((v : W) → patch_round node v ≡ (returns false, (patch node v).1))
      → (n : ℕ) (v : W) (r : Outcome (Unit {0}) × W) → Polled (patch_round node) n v r
      → unless_timeout r.0 ≡ returns tt
  all_conflicts node busy n v r (given_up e) = refl
  all_conflicts node busy n v r (again {n = m} {w' = t} e more) =
      all_conflicts node busy (suc m) t r more
  all_conflicts node busy n v r (met e) = refl
  all_conflicts node busy n v r (failed e) = absurd (cc (e, busy v))
  all_conflicts node busy n v r (panicked e) = absurd (cc (e, busy v))
  all_conflicts node busy n v r (ran_on e) = absurd (cc (e, busy v))

  -- If every patch meets a conflict, no label is set, and yet no error is returned.
  pub add_labels_to_node-conflicts :
      (loops : Loops) (rounds : ℕ) (node : Text) (w : W)
      → ((v : W) → (patch node v).0 ≡ err (api conflict))
      → (add_labels_to_node loops (suc rounds) node w).0 ≡ returns tt
  unfolding add_labels_to_node patch_round
  add_labels_to_node-conflicts loops rounds node w busy =
      all_conflicts node (λ v. rw (patch_round, busy v) refl) (suc rounds) w
        (loops.poll (suc rounds) (patch_round node) w) (loops.polls rounds (patch_round node) w)
