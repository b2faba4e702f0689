-- ===== src/Broker/Token.antt =====
-- controllers/ensures/broker/ensure.go: `WaitForClientToken`, over a read of the token that is a
-- parameter.
use mathlib.Core.Path.{subst}
use cluster_fabric_operator.Base.{
  ℕ, suc, ◌≡◌, refl, sym, ◌∙◌, ap, ◌⊎◌, inl, inr, Bool, true, false, Option, none, some,
  Result-cases, ok, err, Error,
}
use cluster_fabric_operator.Base.{Error.wait_timeout}
use cluster_fabric_operator.Base.Action.{
  Outcome, returns, fails, panics, runs_on, Action, Call, Reached, start, next_call, Polled, met,
  failed, panicked, ran_on, given_up, again, Loops,
}

module _ {W Secret : Type 0} (get_token : Call W Secret) where
  -- The variables that the rounds share: `secret` and `lastErr`.
  abbrev pub Shared : Type 0
  Shared = Option Secret × Option Error

  -- The condition. Its errors are kept, and tried again.
  unfoldable pub token_round : Action (W × Shared) Bool
  token_round (w, last) =
      let (r, w') = get_token w in
      elim r [
        | ok secret ↦ (returns true, (w', (some secret, none)))
        | err e ↦ (returns false, (w', (none, some e)))
      ]

  -- What follows the polling. A nil secret is `none`.
  unfoldable pub token_result : Outcome (Unit {0}) → Shared → Outcome (Option Secret)
  token_result (returns _) (secret, last) = returns secret
  token_result (fails wait_timeout) (secret, none) = returns none
  token_result (fails wait_timeout) (secret, some e) = fails e
  token_result (fails e) (secret, last) = fails e
  token_result panics last = panics
  token_result runs_on last = runs_on

  -- `WaitForClientToken`, with so many rounds.
  unfoldable pub wait_for_client_token : Loops → ℕ → Action W (Option Secret)
  wait_for_client_token loops rounds w =
      let (o, (w', last)) = loops.poll rounds token_round (w, (none, none)) in
      (token_result o last, w')

  -- How a wait that began in `w` may end: with the token, or with the error, of its last read.
  abbrev pub IsAnswered : W → Outcome (Option Secret) × W → Type 0
  IsAnswered w r =
      ((v : W) × (secret : Secret) × Reached get_token w v
        × (get_token v ≡ (ok secret, r.1))
        × (r.0 ≡ returns (some secret)))
      ⊎ ((v : W) × (e : Error) × Reached get_token w v
          × (get_token v ≡ (err e, r.1))
          × (r.0 ≡ fails e))

  round-cases :
      (s : W × Shared)
      → ((secret : Secret) × ((get_token s.0).0 ≡ ok secret)
          × (token_round s ≡ (returns true, ((get_token s.0).1, (some secret, none)))))
        ⊎ ((e : Error) × ((get_token s.0).0 ≡ err e)
            × (token_round s ≡ (returns false, ((get_token s.0).1, (none, some e)))))
  unfolding token_round
  round-cases (w, last) = elim (Result-cases (get_token w).0) [
    | inl (secret, eq) ↦ inl (secret, eq, rw (eq, token_round) refl)
    | inr (e, eq) ↦ inr (e, eq, rw (eq, token_round) refl)
  ]

  Polled-IsAnswered :
      (w : W) (n : ℕ) (s : W × Shared) (r : Outcome (Unit {0}) × (W × Shared))
      → Reached get_token w s.0
      → Polled token_round n s r
      → IsAnswered w (token_result r.0 r.1.1, r.1.0)
  unfolding token_result
  Polled-IsAnswered w n s r reached (met e) = elim (round-cases s) [
    | inl (secret, read, eq) ↦
        subst (λ t. IsAnswered w (token_result (returns tt) t.1.1, t.1.0)) (sym eq ∙ e)
          (inl (s.0, secret, reached, ap (λ a. (a, (get_token s.0).1)) read, refl))
    | inr (x, read, eq) ↦ absurd (cc (e, eq))
  ]
  Polled-IsAnswered w n s r reached (given_up e) = elim (round-cases s) [
    | inl (secret, read, eq) ↦ absurd (cc (e, eq))
    | inr (x, read, eq) ↦
        subst (λ t. IsAnswered w (token_result (fails wait_timeout) t.1.1, t.1.0)) (sym eq ∙ e)
          (inr (s.0, x, reached, ap (λ a. (a, (get_token s.0).1)) read, refl))
  ]
  Polled-IsAnswered w n s r reached (again {n = m} {w' = t} e more) = elim (round-cases s) [
    | inl (secret, read, eq) ↦ absurd (cc (e, eq))
    | inr (x, read, eq) ↦
        Polled-IsAnswered w (suc m) t r
          (subst (Reached get_token w) (ap (λ y. y.1.0) (sym eq ∙ e)) (next_call reached)) more
  ]
  Polled-IsAnswered w n s r reached (failed e) = elim (round-cases s) [
    | inl (secret, read, eq) ↦ absurd (cc (e, eq))
    | inr (x, read, eq) ↦ absurd (cc (e, eq))
  ]
  Polled-IsAnswered w n s r reached (panicked e) = elim (round-cases s) [
    | inl (secret, read, eq) ↦ absurd (cc (e, eq))
    | inr (x, read, eq) ↦ absurd (cc (e, eq))
  ]
  Polled-IsAnswered w n s r reached (ran_on e) = elim (round-cases s) [
    | inl (secret, read, eq) ↦ absurd (cc (e, eq))
    | inr (x, read, eq) ↦ absurd (cc (e, eq))
  ]

  -- The wait never ends without an error and without a token: its result is the token of its last
  -- read, or the error of its last read, also when the time is up.
  pub wait_for_client_token-IsAnswered :
      (loops : Loops) (rounds : ℕ) (w : W)
      → IsAnswered w (wait_for_client_token loops (suc rounds) w)
  unfolding wait_for_client_token
  wait_for_client_token-IsAnswered loops rounds w =
      Polled-IsAnswered w (suc rounds) (w, (none, none)) _ start
        (loops.polls rounds token_round (w, (none, none)))
