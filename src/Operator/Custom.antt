-- ===== src/Operator/Custom.antt =====
-- controllers/ensures/operator/brokercr/ensure.go and servicediscoverycr/ensure.go: the custom
-- resources that have no loop. `ctrl.CreateOrUpdate` is a parameter: it is given the name, the
-- namespace and the function that changes the spec.
pub mod Written
use cluster_fabric_operator.Base.{Text, codes, Option, none, some, Result, ok, err, Error}
use cluster_fabric_operator.Base.Action.{Action, Call, ask}
use cluster_fabric_operator.Controller.{BrokerSpec}
use cluster_fabric_operator.Join.Specs.{ServiceDiscoverySpec}

abbrev pub CreateOrUpdate : Type 0 → Type 0 → Type 0
CreateOrUpdate W Spec = Text → Text → (Spec → Spec) → Call W (Unit {0})

-- The error of an answer, or nil.
abbrev pub error_or_nil : Result (Unit {0}) → Option Error
error_or_nil (ok _) = none
error_or_nil (err e) = some e

-- `Ensure` of brokercr.
unfoldable pub ensure_broker_cr :
    {W : Type 0} → CreateOrUpdate W BrokerSpec → BrokerSpec → W → Option Error × W
ensure_broker_cr create_or_update spec w =
    let (r, w') =
      create_or_update (codes "submariner-broker") (codes "submariner-operator") (λ old. spec) w in
    (error_or_nil r, w')

-- `Ensure` of servicediscoverycr.
unfoldable pub ensure_service_discovery :
    {W : Type 0}
    → CreateOrUpdate W ServiceDiscoverySpec
    → Text
    → ServiceDiscoverySpec
    → Action W (Unit {0})
ensure_service_discovery create_or_update namespace spec =
    ask (create_or_update (codes "service-discovery") namespace λ old. spec)
