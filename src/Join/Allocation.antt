-- ===== src/Join/Allocation.antt =====
-- controllers/join_broker.go: `AllocateAndUpdateGlobalCIDRConfigMap`, the closure that
-- `retry.RetryOnConflict` runs, round by round. It reads the broker's map and plans an update; the
-- settings of the cluster, which it shares with the next round, change on the way.
pub mod Round
pub mod Retry
pub mod Clients
use cluster_fabric_operator.Base.{
  ℕ, Bool, true, false, Text, text_eq, List, [], ◌∷◌, Option, none, some, Result, ok, err, Error,
  if◌then◌else◌,
}
use cluster_fabric_operator.Globalnet.{GlobalNetwork, GlobalnetInfo, Config}
use cluster_fabric_operator.Globalnet.Assign.{
  find_network, validate_globalnet_configuration, assign_globalnet_ips,
}
use cluster_fabric_operator.Broker.GlobalnetMap.{
  ClusterInfo, ConfigMap, Json, get_global_networks, updated_map,
}

-- What a round comes to. `sends` is the update handed to the API server.
pub data Plan : Type 0 where
  fails : Error → Plan
  keeps panics : Plan
  sends : ConfigMap → Plan

-- The netconfig with the CIDR that a call returned.
abbrev pub with_cidr : Config → Text → Config
with_cidr netconfig cidr = record netconfig { globalnet_cidr = cidr }

abbrev pub send_or_fail : Result ConfigMap → Plan
send_or_fail (err e) = fails e
send_or_fail (ok cm) = sends cm

module _ (json : Json) where
  -- The last part: the cluster's entry is sent unless the map has it. An entry with no CIDR makes
  -- the index `[0]` panic.
  unfoldable pub plan_update : Text → Text → ConfigMap → Option GlobalNetwork → Plan
  plan_update id cidr cm entry =
      let new : ClusterInfo = record { cluster_id = id; global_cidr = cidr ∷ [] } in
      let update = send_or_fail (updated_map json cm new) in
      elim entry [
        | none ↦ update
        | some v ↦ elim v.global_cidrs [
          | [] ↦ panics
          | c ∷ _ ↦ if text_eq c cidr then keeps else update
        ]
      ]

  -- The part behind the validation, for a broker with globalnet.
  unfoldable pub assign_and_plan :
      ℕ → Text → Config → ConfigMap → GlobalnetInfo → Option (Plan × Config)
  assign_and_plan fuel id netconfig cm info = elim (assign_globalnet_ips fuel info netconfig) [
    | none ↦ none
    | some (err e) ↦ some (fails e, with_cidr netconfig [])
    | some (ok cidr) ↦
        some
          (plan_update id cidr cm (find_network id info.global_cidr_info), with_cidr netconfig cidr)
  ]

  -- The part behind the call of the validation, from what it returned.
  unfoldable pub after_validation :
      ℕ → Text → Config → ConfigMap → Result Text × GlobalnetInfo → Option (Plan × Config)
  after_validation fuel id netconfig cm (err e, info) = some (fails e, with_cidr netconfig [])
  after_validation fuel id netconfig cm (ok cidr, info) =
      if info.globalnet_enabled
      then assign_and_plan fuel id (with_cidr netconfig cidr) cm info
      else some (keeps, with_cidr netconfig cidr)

  -- One round, from the answer to the read. The fuel is the allocator's.
  unfoldable pub attempt : ℕ → Text → Config → Result ConfigMap → Option (Plan × Config)
  attempt fuel id netconfig (err e) = some (fails e, netconfig)
  attempt fuel id netconfig (ok cm) = elim (get_global_networks json cm) [
    | err e ↦ some (fails e, netconfig)
    | ok info ↦
        after_validation fuel id netconfig cm (validate_globalnet_configuration info netconfig)
  ]
