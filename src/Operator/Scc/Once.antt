-- ===== src/Operator/Scc/Once.antt =====
-- An account is added once, and its update is never tried again.
use mathlib.Core.Path.{subst}
use cluster_fabric_operator.Base.{
  ◌≡◌, refl, sym, ◌∙◌, ap, inl, inr, true, false, Text, text_eq, text_eq_refl, Bool-cases,
  Result-cases, List, [], ◌∷◌, ◌++◌, Option, none, some, ok, err, Error,
}
use cluster_fabric_operator.Base.{Error.api, Error.updating_scc, ApiError.not_found}
use cluster_fabric_operator.Base.Action.{returns, fails, Loops}
use cluster_fabric_operator.Base.Loops.{Retried-round, Retried-once}
use cluster_fabric_operator.Operator.Scc.{
  Users, absent, malformed, users, Search, present, missing, not_a_string, search, SccClient,
  submariner_user, write_users, add_user, read_failed, update_round, update_scc,
}

pub search-append :
    (user : Text) (us : List (Option Text))
    → search user us ≡ missing
    → search user (us ++ (some user ∷ [])) ≡ present
unfolding search
search-append user [] h = rw text_eq_refl refl
search-append user (none ∷ us) h = absurd (cc h)
search-append user (some u ∷ us) h = elim (Bool-cases (text_eq user u)) [
  | inl same ↦ rw same refl
  | inr differs ↦ rw differs (search-append user us (rw differs at h))
]

-- What the API server documents: a read changes nothing, and after a write that succeeds a read
-- answers with what was written.
pub record SccLaws {W : Type 0} (client : SccClient W) : Type 0 where
  pub reads : (w : W) → (client.get w).1 ≡ w
  pub written :
      (us : List (Option Text)) (w : W)
      → (client.update us w).0 ≡ ok tt
      → (client.get (client.update us w).1).0 ≡ ok (users us)

module _ {W : Type 0} (client : SccClient W) where
  -- A round that added the user wrote the users with it.
  pub record IsAdded (user : Text) (w w' : W) : Type 0 where
    pub before : List (Option Text)
    pub read : (client.get w).0 ≡ ok (users before)
    pub lacked : search user before ≡ missing
    pub accepted : (client.update (before ++ (some user ∷ [])) (client.get w).1).0 ≡ ok tt
    pub after : (client.update (before ++ (some user ∷ [])) (client.get w).1).1 ≡ w'

  write_users-true :
      (us : List (Option Text)) (w w' : W)
      → write_users client us w ≡ (returns true, w')
      → ((client.update us w).0 ≡ ok tt) × ((client.update us w).1 ≡ w')
  unfolding write_users
  write_users-true us w w' h = elim (Result-cases (client.update us w).0) [
    | inl (tt, e) ↦ (e, ap (λ x. x.1) (rw (e, write_users) at h))
    | inr (e, eq) ↦ absurd (cc (rw (eq, write_users) at h))
  ]

  add_user-true :
      (user : Text) (us : List (Option Text)) (w w' : W)
      → add_user client user (users us) w ≡ (returns true, w')
      → (search user us ≡ missing)
        × (write_users client (us ++ (some user ∷ [])) w ≡ (returns true, w'))
  unfolding add_user
  add_user-true user us w w' h = by_search (search user us) refl
    where
      by_search :
          (s : Search)
          → search user us ≡ s
          → (search user us ≡ missing)
            × (write_users client (us ++ (some user ∷ [])) w ≡ (returns true, w'))
      by_search present e = absurd (cc (rw (e, add_user) at h))
      by_search not_a_string e = absurd (cc (rw (e, add_user) at h))
      by_search missing e = (e, rw (e, add_user) at h)

  update_round-true :
      (user : Text) (w w' : W) → update_round client user w ≡ (returns true, w') → IsAdded user w w'
  unfolding update_round add_user
  update_round-true user w w' h = elim (Result-cases (client.get w).0) [
    | inr (e, eq) ↦ absurd (not_read e (ap (λ x. x.0) (rw (eq, update_round) at h)))
    | inl (found, eq) ↦ added found eq (rw (eq, update_round) at h)
  ]
    where
      not_read : (e : Error) → read_failed client e ≡ returns true → ⊥
      not_read (api not_found) h = absurd (cc h)
      not_read e h = absurd (cc h)

      added :
          (found : Users)
          → (client.get w).0 ≡ ok found
          → add_user client user found (client.get w).1 ≡ (returns true, w')
          → IsAdded user w w'
      added absent eq h = absurd (cc h)
      added (malformed e) eq h = absurd (cc h)
      added (users us) eq h =
          let (lacked, wrote) = add_user-true user us (client.get w).1 w' h in
          let (accepted, after) = write_users-true _ (client.get w).1 w' wrote in
          record { before = us; read = eq; lacked = lacked; accepted = accepted; after = after }

  -- Where the user is among the users, a round changes nothing.
  update_round-present :
      (laws : SccLaws client) (user : Text) (us : List (Option Text)) (w : W)
      → (client.get w).0 ≡ ok (users us)
      → search user us ≡ present
      → update_round client user w ≡ (returns false, w)
  unfolding update_round add_user
  update_round-present laws user us w read there =
      rw (read, update_round, there, add_user, laws.reads w) refl

  after_added :
      (laws : SccLaws client) (user : Text) (w w' : W)
      → IsAdded user w w'
      → update_round client user w' ≡ (returns false, w')
  after_added laws user w w' a =
      update_round-present laws user (a.before ++ (some user ∷ [])) w'
        (subst (λ x. (client.get x).0 ≡ ok (users (a.before ++ (some user ∷ [])))) a.after
          (laws.written (a.before ++ (some user ∷ [])) (client.get w).1 a.accepted))
        (search-append user a.before a.lacked)

  module _ (laws : SccLaws client) (loops : Loops) (namespace name : Text) where
    -- Once the account was added, a further update finds it, writes nothing and reports that nothing
    -- was added. The API server must keep what it documents (`SccLaws`, `Loops`).
    pub update_scc-added :
        (w w' : W)
        → update_scc client loops namespace name w ≡ (returns true, w')
        → update_scc client loops namespace name w' ≡ (returns false, w')
    unfolding update_scc
    update_scc-added w w' h = elim (Result-cases client.dynamic_client) [
      | inr (e, eq) ↦ absurd (cc (rw (eq, update_scc) at h))
      | inl (tt, eq) ↦
          let round = update_round client (submariner_user namespace name) in
          let (v, same) = Retried-round (loops.retries round w) in
          let quiet = after_added laws (submariner_user namespace name) v w' (
            update_round-true (submariner_user namespace name) v w'
              (sym same ∙ (rw (eq, update_scc) at h))) in
          rw (eq, update_scc)
            (Retried-once (λ e. absurd (cc (e, ap (λ x. x.0) quiet))) (loops.retries round w')
              ∙ quiet)
    ]

    -- An update that is refused, also for a conflict, fails the whole call in its first round,
    -- although it is made under `RetryOnConflict`.
    pub update_scc-refused :
        (us : List (Option Text)) (e : Error) (w : W)
        → client.dynamic_client ≡ ok tt
        → (client.get w).0 ≡ ok (users us)
        → search (submariner_user namespace name) us ≡ missing
        → (client.update (us ++ (some (submariner_user namespace name) ∷ [])) w).0 ≡ err e
        → (update_scc client loops namespace name w).0 ≡ fails updating_scc
    unfolding update_scc update_round add_user write_users
    update_scc-refused us e w connected read lacked refused =
        let round = update_round client (submariner_user namespace name) in
        let failed : (round w).0 ≡ fails updating_scc =
          rw (read, update_round, add_user, lacked, write_users, laws.reads w, refused) refl in
        rw (connected, update_scc)
          (ap (λ x. x.0) (Retried-once (λ e. absurd (cc (e, failed))) (loops.retries round w))
            ∙ failed)
