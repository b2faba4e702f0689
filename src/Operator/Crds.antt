-- ===== src/Operator/Crds.antt =====
-- The custom resource definitions: controllers/ensures/operator/submarinerop/crds, lighthouse/crds of
-- controllers/ensures/operator, and controllers/ensures/{gateway,lighthouse}/crds.go.
use cluster_fabric_operator.Base.{
  Bool, Text, codes, List, [], ◌∷◌, map, ok, err, Error, if◌then◌else◌,
}
use cluster_fabric_operator.Base.{Error.api, ApiError.not_found}
use cluster_fabric_operator.Base.Action.{Outcome, returns, fails, Action, Call, pure, ◌>>◌, in_turn}
use cluster_fabric_operator.Operator.{
  Manifest, submariners, servicediscoveries, brokers, clusters, endpoints, gateways, serviceimports,
  serviceexports, Server, create_or_update_embedded_crd,
}

abbrev pub operator_crds : List Manifest
operator_crds = submariners ∷ servicediscoveries ∷ brokers ∷ []

abbrev pub gateway_crds : List Manifest
gateway_crds = clusters ∷ endpoints ∷ gateways ∷ []

abbrev pub obsolete_crds : List Text
obsolete_crds =
    codes "serviceimports.lighthouse.submariner.io"
    ∷ codes "serviceexports.lighthouse.submariner.io"
    ∷ codes "multiclusterservices.lighthouse.submariner.io"
    ∷ []

-- `err != nil && !errors.IsNotFound(err)`
abbrev pub unless_not_found : Error → Outcome (Unit {0})
unless_not_found (api not_found) = returns tt
unless_not_found e = fails e

module _ {W : Type 0} (server : Server W) where
  -- `Ensure` of submarinerop/crds.
  unfoldable pub ensure_operator_crds : Action W (Unit {0})
  ensure_operator_crds = in_turn (map (create_or_update_embedded_crd server) operator_crds)

  -- `Ensure` of operator/lighthouse/crds.
  unfoldable pub ensure_service_discovery_crd : Action W (Unit {0})
  ensure_service_discovery_crd = create_or_update_embedded_crd server servicediscoveries

  -- `Ensure` of ensures/gateway.
  unfoldable pub ensure_gateway_crds : Action W (Unit {0})
  ensure_gateway_crds = in_turn (map (create_or_update_embedded_crd server) gateway_crds)

  module _ (delete_crd : Text → Call W (Unit {0})) where
    -- The deletion of one obsolete definition, which may be gone.
    unfoldable pub delete_obsolete : Text → Action W (Unit {0})
    delete_obsolete name w =
        let (r, w') = delete_crd name w in
        elim r [ ok _ ↦ (returns tt, w') | err e ↦ (unless_not_found e, w') ]

    -- `Ensure` of ensures/lighthouse: the broker has no use for the last two.
    unfoldable pub ensure_lighthouse_crds : Bool → Action W (Unit {0})
    ensure_lighthouse_crds is_broker =
        in_turn (map delete_obsolete obsolete_crds)
        >> (create_or_update_embedded_crd server serviceimports
            >> (if is_broker
                then pure tt
                else in_turn (
                    map (create_or_update_embedded_crd server)
                      (serviceexports ∷ servicediscoveries ∷ []))))
