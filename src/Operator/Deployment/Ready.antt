-- ===== src/Operator/Deployment/Ready.antt =====
-- The wait for the operator's deployment.
use cluster_fabric_operator.Base.{◌≡◌, Text, ok, Error}
use cluster_fabric_operator.Base.{Error.api, ApiError.not_found}
use cluster_fabric_operator.Base.Action.{Call, Reached, Loops}
use cluster_fabric_operator.Operator.Deployment.{Conditions}

module _ {W : Type 0} (get_deployment : Text → Text → Call W Conditions)
    (namespace name : Text) where
  -- The deployment was read with these conditions, in a state that a wait from `w` reaches.
  abbrev WasRead : W → Conditions → Type 0
  WasRead w conditions =
      (v : W) × Reached (get_deployment namespace name) w v
      × ((get_deployment namespace name v).0 ≡ ok conditions)

  -- What every round keeps.
  abbrev Known : W → W × Conditions → Type 0
  Known w s = Reached (get_deployment namespace name) w s.0 × WasRead w s.1
