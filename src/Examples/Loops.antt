-- ===== src/Examples/Loops.antt =====
-- The two loops of the Kubernetes libraries, as the tests run them.
use cluster_fabric_operator.Base.{ℕ, zero, suc, ◌≡◌, refl, Bool, true, false, Error.wait_timeout}
use cluster_fabric_operator.Base.Action.{
  Outcome, returns, fails, panics, runs_on, Action, last_round, Polled, met, failed, panicked,
  ran_on, given_up, again, Loops,
}

-- The rounds behind one that came to this.
abbrev poll_from : {W : Type 0} → ℕ → Action W Bool → Outcome Bool → W → Outcome (Unit {0}) × W
poll_from n condition (returns true) w = (returns tt, w)
poll_from zero condition (returns false) w = (fails wait_timeout, w)
poll_from (suc n) condition (returns false) w =
    let (o, w') = condition w in poll_from n condition o w'
poll_from n condition (fails e) w = (fails e, w)
poll_from n condition panics w = (panics, w)
poll_from n condition runs_on w = (runs_on, w)

pub poll_from-Polled :
    {W : Type 0} (n : ℕ) (condition : Action W Bool) (w w' : W) (o : Outcome Bool)
    → condition w ≡ (o, w')
    → Polled condition (suc n) w (poll_from n condition o w')
poll_from-Polled n condition w w' (returns true) e = met e
poll_from-Polled zero condition w w' (returns false) e = given_up e
poll_from-Polled (suc n) condition w w' (returns false) e =
    again e (poll_from-Polled n condition w' (condition w').1 (condition w').0 refl)
poll_from-Polled n condition w w' (fails x) e = failed e
poll_from-Polled n condition w w' panics e = panicked e
poll_from-Polled n condition w w' runs_on e = ran_on e

abbrev run_poll : {W : Type 0} → ℕ → Action W Bool → Action W (Unit {0})
run_poll zero condition w = (runs_on, w)
run_poll (suc n) condition w = poll_from n condition (condition w).0 (condition w).1

-- A conflict is not tried again here, which the law leaves open.
abbrev pub test_loops : Loops
test_loops = record {
  retry_on_conflict = λ call. call;
  poll = run_poll;
  retries = λ call w. last_round;
  polls = λ n condition w. poll_from-Polled n condition w (condition w).1 (condition w).0 refl;
}
