-- ===== src/Broker/Rbac/Present.antt =====
-- What is there when the set-up of the broker's accounts and roles reports success.
use cluster_fabric_operator.Base.{◌≡◌, List, [], ◌∷◌, All, Option, none, some, Result, ok, ApiError}
use cluster_fabric_operator.Base.{
  ApiError.already_exists, ApiError.not_found, ApiError.conflict, ApiError.other,
}
use cluster_fabric_operator.Broker.Rbac.{
  Object, Request, create, put, admin_name, default_account, cluster_role, new_broker_sa,
  new_broker_admin_role, new_broker_cluster_role, new_broker_role_binding,
}

abbrev pub object_of : Request → Object
object_of (create o) = o
object_of (put o) = o

-- What the administrator of the broker needs, and what the clusters need.
abbrev pub admin_objects : List Object
admin_objects =
    new_broker_sa admin_name
    ∷ new_broker_admin_role
    ∷ new_broker_role_binding admin_name admin_name
    ∷ []

abbrev pub cluster_objects : List Object
cluster_objects =
    new_broker_sa default_account
    ∷ new_broker_cluster_role
    ∷ new_broker_role_binding default_account cluster_role
    ∷ []

-- What the API server documents: no request removes an object; after a request that succeeds its
-- object is there, and also after an answer that it exists. The server tells objects apart by kind and
-- name, and this is what `Present` is about; Broker/Rbac/Bound has laws on their contents.
pub record ServerLaws {ℓ} {W : Type ℓ} (answer : Request → W → Option ApiError × W)
    (Present : Object → W → Type 0) : Type ℓ where
  pub keeps : (r : Request) (w : W) (o : Object) → Present o w → Present o (answer r w).1
  pub makes : (r : Request) (w : W) → (answer r w).0 ≡ none → Present (object_of r) (answer r w).1
  pub exists :
      (r : Request) (w : W)
      → (answer r w).0 ≡ some already_exists
      → Present (object_of r) (answer r w).1

module _ {ℓ} {W : Type ℓ} (answer : Request → W → Option ApiError × W)
    (Present : Object → W → Type 0) (laws : ServerLaws answer Present) where
  -- A run that keeps what is there, and that makes the objects if it succeeds.
  abbrev Makes : List Object → (W → Result (Unit {0}) × W) → Type ℓ
  Makes os run =
      (w : W)
      → ((o : Object) → Present o w → Present o (run w).1)
        × ((run w).0 ≡ ok tt → All (λ o. Present o (run w).1) os)
