-- ===== src/Join/Allocation/Retry.antt =====
-- The rounds of a retry share one netconfig.
use cluster_fabric_operator.Base.{
  ℕ, ◌^◌, ◌≤◌, ◌<◌, ◌≡◌, refl, inl, inr, ◌≢◌, arith, false, not, ◌&&◌, ◌==◌, Bool-cases,
  Result-cases, Text, is_empty, [], ◌∷◌, some, Result, ok, err, Error,
}
use cluster_fabric_operator.Base.{
  Error.both_size_and_cidr, Error.invalid_cluster_size, Error.api, ApiError.conflict,
}
use cluster_fabric_operator.Globalnet.{GlobalnetInfo, Config}
use cluster_fabric_operator.Globalnet.Sizes.{get_valid_cluster_size}
use cluster_fabric_operator.Globalnet.Assign.{validate_rest, validate_globalnet_configuration}
use cluster_fabric_operator.Net.{host_bits, parse_cidr, parse_ipv4, parse_octet}
use cluster_fabric_operator.Net.Decimal.{dtoi}
use cluster_fabric_operator.Globalnet.Allocate.Clusters.{IsCidrText}
use cluster_fabric_operator.Broker.Stored.{JsonLaws, IsStored}
use cluster_fabric_operator.Broker.GlobalnetMap.{ConfigMap, Json, get_global_networks}
use cluster_fabric_operator.Join.Allocation.Round.{attempt-sends}
use cluster_fabric_operator.Join.Allocation.{fails, sends, with_cidr, after_validation, attempt}

-- A configuration with a CIDR and a cluster size is refused.
validate-both :
    (info : GlobalnetInfo) (netconfig : Config)
    → is_empty netconfig.globalnet_cidr ≡ false
    → netconfig.globalnet_cluster_size ≢ 0
    → (e : Error) × (info' : GlobalnetInfo) × (validate_globalnet_configuration info netconfig
        ≡ (err e, info'))
      × (e ≢ api conflict)
unfolding validate_globalnet_configuration validate_rest
validate-both info netconfig full sized =
    let n = netconfig.globalnet_cluster_size in
    let nz : (n == 0) ≡ false = ground arith in
    elim (Bool-cases
      (info.globalnet_enabled && (not (n == 0) && not (n == info.globalnet_cluster_size)))) [
        | inr same ↦
            (both_size_and_cidr, info, rw (same, validate_rest, full, nz) refl, λ x. absurd (cc x))
        | inl other ↦ elim (Result-cases (get_valid_cluster_size info.globalnet_cidr_range n)) [
          | inr (e, eq) ↦ (invalid_cluster_size, info, rw (other, eq) refl, λ x. absurd (cc x))
          | inl (s, eq) ↦ elim (Bool-cases (s == 0)) [
            | inl z ↦ (invalid_cluster_size, info, rw (other, eq, z) refl, λ x. absurd (cc x))
            | inr p ↦
                let resized : GlobalnetInfo = record info { globalnet_cluster_size = s } in
                (
                  both_size_and_cidr,
                  resized,
                  rw (other, eq, p, validate_rest, full, nz) refl,
                  λ x. absurd (cc x),
                )
          ]
        ]
      ]

-- A netconfig with both a CIDR and a cluster size never leads to an update: whatever the broker's
-- map, and whatever the answer to its read, the round fails.
pub attempt-both :
    (json : Json) (fuel : ℕ) (id : Text) (netconfig : Config) (read : Result ConfigMap)
    → is_empty netconfig.globalnet_cidr ≡ false
    → netconfig.globalnet_cluster_size ≢ 0
    → (e : Error) × (netconfig' : Config) × (attempt json fuel id netconfig read
        ≡ some (fails e, netconfig'))
unfolding attempt after_validation
attempt-both json fuel id netconfig (err e) full sized = (e, netconfig, refl)
attempt-both json fuel id netconfig (ok cm) full sized =
    elim (Result-cases (get_global_networks json cm)) [
      | inr (e, eq) ↦ (e, netconfig, rw (eq, attempt) refl)
      | inl (info, eq) ↦
          let (e, info', v, _) = validate-both info netconfig full sized in
          (e, record netconfig { globalnet_cidr = [] }, rw (eq, attempt, v, after_validation) refl)
    ]

-- Only the failed read is tried again, with the netconfig as it was: every other failure of such a
-- round is no conflict.
pub attempt-both_settled :
    (json : Json) (fuel : ℕ) (id : Text) (netconfig : Config) (read : Result ConfigMap)
    → is_empty netconfig.globalnet_cidr ≡ false
    → netconfig.globalnet_cluster_size ≢ 0
    → (e : Error) × (netconfig' : Config) × (attempt json fuel id netconfig read
        ≡ some (fails e, netconfig'))
      × (e ≡ api conflict → netconfig' ≡ netconfig)
unfolding attempt after_validation
attempt-both_settled json fuel id netconfig (err e) full sized = (e, netconfig, refl, λ _. refl)
attempt-both_settled json fuel id netconfig (ok cm) full sized =
    elim (Result-cases (get_global_networks json cm)) [
      | inr (e, eq) ↦ (e, netconfig, rw (eq, attempt) refl, λ _. refl)
      | inl (info, eq) ↦
          let (e, info', v, other) = validate-both info netconfig full sized in
          (
            e,
            record netconfig { globalnet_cidr = [] },
            rw (eq, attempt, v, after_validation) refl,
            λ x. absurd (other x),
          )
    ]

not_empty : (t : Text) → IsCidrText t → is_empty t ≡ false
unfolding parse_cidr parse_ipv4 parse_octet dtoi
not_empty [] (a, n, e) = absurd (cc e)
not_empty (c ∷ t) _ = refl

-- After a round that sent an update, with a cluster size in the netconfig, every further round
-- fails, as after a conflict: the round left the assigned CIDR in the netconfig, which now has both.
-- It is assumed that the round was on a map of the operator's with globalnet and had fuel enough,
-- that the size is a number of 32 bits, and that JSON reads what it wrote.
pub attempt-after_sends :
    (json : Json) (laws : JsonLaws json) (fuel : ℕ) (netconfig netconfig' : Config)
    (cm cm' : ConfigMap) (s : IsStored json cm) (read : Result ConfigMap)
    → 2 ^ host_bits s.range ≤ fuel
    → netconfig.globalnet_cluster_size < 2 ^ 32
    → netconfig.globalnet_cluster_size ≢ 0
    → attempt json fuel netconfig.cluster_id netconfig (ok cm) ≡ some (sends cm', netconfig')
    → (e : Error) × (again : Config) × (attempt json fuel netconfig.cluster_id netconfig' read
        ≡ some (fails e, again))
attempt-after_sends json laws fuel netconfig netconfig' cm cm' s read enough small sized sent =
    let u = attempt-sends json laws fuel netconfig netconfig' cm cm' s enough small sent in
    rw u.shared (
      attempt-both json fuel netconfig.cluster_id (with_cidr netconfig u.cidr) read
        (not_empty u.cidr u.is_cidr) sized)
