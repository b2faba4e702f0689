-- ===== src/Base/Results.antt =====
-- Go's pair of a value and an error, and the errors that the program tells apart.
use mathlib.Core.Path.{◌≡◌, refl}
use mathlib.Core.Logic.{◌⊎◌, inl, inr}

-- The answers of the API server by which the program branches (`apierrors.IsNotFound` and the
-- like); all others are one.
pub data ApiError : Type 0 where
  not_found already_exists conflict other : ApiError

-- Errors of the program, by the message that makes them. What a message quotes is left out.
pub data Error : Type 0 where
  api : ApiError → Error
  invalid_cidr_text not_valid_subnet subset_of_allocated overlaps_allocated : Error
  allocation_not_available invalid_global_cidr cluster_size_too_large : Error
  both_size_and_cidr invalid_cluster_size invalid_specified_cidr : Error
  cannot_validate_overlap overlaps_with_cluster : Error
  bad_json no_secret no_worker_node : Error
  invalid_cluster_id invalid_image_name invalid_core_dns_config cidr_not_found : Error
  wait_timeout failed_requirements updating_scc bad_manifest waiting_for_deployment : Error
  service_created unexpected_service_error field_not_found ovn_service_not_found not_a_number :
      Error
  is_unspecified is_loopback is_link_local is_link_local_multicast : Error

pub data Result {ℓ} (A : Type ℓ) : Type ℓ where
  ok : A → Result A
  err : Error → Result A

infixl 5 ◌>>=◌
-- `if err != nil { return err }` before what follows.
abbrev pub ◌>>=◌ {ℓ κ} : {A : Type ℓ} {B : Type κ} → Result A → (A → Result B) → Result B
ok a >>= f = f a
err e >>= f = err e

pub Result-cases {ℓ} :
    {A : Type ℓ} (r : Result A) → ((a : A) × (r ≡ ok a)) ⊎ ((e : Error) × (r ≡ err e))
Result-cases (ok a) = inl (a, refl)
Result-cases (err e) = inr (e, refl)
