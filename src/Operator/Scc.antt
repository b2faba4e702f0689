-- ===== src/Operator/Scc.antt =====
-- controllers/ensures/operator/common/scc/utils.go: an account is added to the users of OpenShift's
-- privileged security context constraints.
pub mod Once
use cluster_fabric_operator.Base.{
  ◌≡◌, refl, ◌⊎◌, inl, inr, Bool, true, false, Text, codes, text_eq, List, [], ◌∷◌, ◌++◌, Option,
  none, some, Result, ok, err, Error, ApiError, if◌then◌else◌,
}
use cluster_fabric_operator.Base.{Error.api, ApiError.not_found, Error.updating_scc}
use cluster_fabric_operator.Base.Action.{
  Outcome, returns, fails, panics, Action, Call, pure, raise, of_result, next, ◌>>=◌, Loops,
}

-- The field `users` of the constraints: absent, of another type, or a list whose items may be no
-- strings.
pub data Users : Type 0 where
  absent : Users
  malformed : Error → Users
  users : List (Option Text) → Users

-- The loop over the users.
pub data Search : Type 0 where
  present missing not_a_string : Search

unfoldable pub search : Text → List (Option Text) → Search
search user [] = missing
search user (none ∷ rest) = not_a_string
search user (some u ∷ rest) = if text_eq user u then present else search user rest

-- `fmt.Sprintf("system:serviceaccount:%s:%s", namespace, name)`
unfoldable pub submariner_user : Text → Text → Text
submariner_user namespace name = codes "system:serviceaccount:" ++ (namespace ++ (b':' ∷ name))

-- The calls: the client of the constraints, the read of their users, and the write.
pub record SccClient (W : Type 0) : Type 0 where
  pub dynamic_client : Result (Unit {0})
  pub get : Call W Users
  pub update : List (Option Text) → Call W (Unit {0})

module _ {W : Type 0} (client : SccClient W) where
  -- The write, whose error is formatted into a new one, whatever it is.
  unfoldable pub write_users : List (Option Text) → Action W Bool
  write_users us w =
      let (r, w') = client.update us w in
      elim r [ ok _ ↦ (returns true, w') | err e ↦ (fails updating_scc, w') ]

  -- The part behind the read of the users.
  unfoldable pub add_user : Text → Users → Action W Bool
  add_user user absent w = (returns false, w)
  add_user user (malformed e) w = (fails e, w)
  add_user user (users us) w = elim (search user us) [
    | present ↦ (returns false, w)
    | not_a_string ↦ (panics, w)
    | missing ↦ write_users (us ++ (some user ∷ [])) w
  ]

  -- Constraints that are not there are no error: the cluster is not OpenShift.
  abbrev pub read_failed : Error → Outcome Bool
  read_failed (api not_found) = returns false
  read_failed e = fails e

  -- One round of `UpdateSCC`, for the user: whether the user was added.
  unfoldable pub update_round : Text → Action W Bool
  update_round user w =
      let (r, w') = client.get w in
      elim r [ err e ↦ (read_failed e, w') | ok us ↦ add_user user us w' ]

  -- `UpdateSCC`
  unfoldable pub update_scc : Loops → Text → Text → Action W Bool
  update_scc loops namespace name = elim client.dynamic_client [
    | err e ↦ raise e
    | ok _ ↦ loops.retry_on_conflict (update_round (submariner_user namespace name))
  ]
