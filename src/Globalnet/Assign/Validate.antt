-- ===== src/Globalnet/Assign/Validate.antt =====
-- `ValidateGlobalnetConfiguration` for a broker with globalnet.
use cluster_fabric_operator.Base.{
  ℕ, ◌*◌, ◌/◌, ◌^◌, ◌≤◌, ◌<◌, ◌≡◌, refl, ◌⊎◌, inl, inr, arith, Bool, true, false, not, ◌&&◌, ◌==◌,
  Bool-cases, Option-cases, is_empty, none, some, ok, err, Error,
}
use cluster_fabric_operator.Base.{
  Error.both_size_and_cidr, Error.invalid_specified_cidr, Error.invalid_cluster_size,
}
use cluster_fabric_operator.Net.{Ip, IpNet, host_bits, parse_cidr}
use cluster_fabric_operator.Globalnet.{GlobalnetInfo, Config}
use cluster_fabric_operator.Globalnet.Sizes.Valid.{get_valid_cluster_size_cases}
use cluster_fabric_operator.Globalnet.Sizes.BitLength.{bit_size}
use cluster_fabric_operator.Globalnet.Allocate.Clusters.{IsCidrText}
use cluster_fabric_operator.Globalnet.Assign.{validate_rest, validate_globalnet_configuration}

-- The answer is the CIDR of the configuration: a CIDR if it is there, and then alone.
abbrev pub IsAccepted : Config → Type 0
IsAccepted netconfig =
    is_empty netconfig.globalnet_cidr ≡ false
    → IsCidrText netconfig.globalnet_cidr × (netconfig.globalnet_cluster_size ≡ 0)

-- What is wrong with the settings of a cluster, for a range, and the error it gives: a size and a
-- CIDR, a text that is no CIDR, a size above 2 ^ 31, or one of whose power of two the range has no
-- room for two.
pub data IsInvalid (range : IpNet) (netconfig : Config) : Error → Type 0 where
  both :
      is_empty netconfig.globalnet_cidr ≡ false
      → 0 < netconfig.globalnet_cluster_size
      → IsInvalid range netconfig both_size_and_cidr
  no_cidr :
      is_empty netconfig.globalnet_cidr ≡ false
      → parse_cidr netconfig.globalnet_cidr ≡ none
      → IsInvalid range netconfig invalid_specified_cidr
  above_half :
      2 ^ 31 < netconfig.globalnet_cluster_size → IsInvalid range netconfig invalid_cluster_size
  no_room :
      (k : ℕ)
      → 0 < netconfig.globalnet_cluster_size
      → 2 ^ k < 2 * netconfig.globalnet_cluster_size
      → 2 ^ host_bits range / 2 < 2 ^ k
      → IsInvalid range netconfig invalid_cluster_size

validate_rest_cases :
    (info : GlobalnetInfo) (netconfig : Config) (range : IpNet)
    → info.globalnet_enabled ≡ true
    → ((e : Error) × (validate_rest info netconfig ≡ (err e, info)) × IsInvalid range netconfig e)
      ⊎ ((validate_rest info netconfig ≡ (ok netconfig.globalnet_cidr, info))
          × IsAccepted netconfig)
unfolding validate_rest
validate_rest_cases info netconfig range on =
    elim (Bool-cases (is_empty netconfig.globalnet_cidr)) [
      | inl empty ↦ inr (rw (empty, on) refl, λ f. absurd (cc (f, empty)))
      | inr full ↦ elim (Bool-cases (netconfig.globalnet_cluster_size == 0)) [
        | inr sized ↦
            inl (both_size_and_cidr, rw (full, sized) refl, both full (ground (arith, sized)))
        | inl zero_size ↦ elim (Option-cases (parse_cidr netconfig.globalnet_cidr)) [
          | inl bad ↦ inl (invalid_specified_cidr, rw (full, zero_size, bad) refl, no_cidr full bad)
          | inr ((a, n), e) ↦
              inr (rw (full, zero_size, e, on) refl, λ f. ((a, n, e), ground (arith, zero_size)))
        ]
      ]
    ]

-- A size that fits the range.
abbrev pub IsSize : IpNet → ℕ → Type 0
IsSize range size = (0 < size) × (size ≤ 2 ^ host_bits range)

-- Either an error and what is wrong, or the CIDR as it is, with a cluster size that fits the range.
pub validate_globalnet_configuration_cases :
    (info : GlobalnetInfo) (netconfig : Config) (a : Ip) (range : IpNet)
    → info.globalnet_enabled ≡ true
    → parse_cidr info.globalnet_cidr_range ≡ some (a, range)
    → IsSize range info.globalnet_cluster_size
    → netconfig.globalnet_cluster_size < 2 ^ 32
    → ((e : Error) × (info' : GlobalnetInfo) × (validate_globalnet_configuration info netconfig
          ≡ (err e, info'))
        × IsInvalid range netconfig e)
      ⊎ ((size : ℕ) × (validate_globalnet_configuration info netconfig
            ≡ (ok netconfig.globalnet_cidr, record info { globalnet_cluster_size = size }))
          × IsSize range size
          × IsAccepted netconfig)
unfolding validate_globalnet_configuration
validate_globalnet_configuration_cases info netconfig a range on parsed is small =
    let n = netconfig.globalnet_cluster_size in
    let guard : (b : Bool)
        → (not (n == 0) && not (n == info.globalnet_cluster_size)) ≡ b
        → (info.globalnet_enabled && (not (n == 0) && not (n == info.globalnet_cluster_size))) ≡ b =
      λ b e. rw on e in
    elim (Bool-cases (not (n == 0) && not (n == info.globalnet_cluster_size))) [
      | inr same ↦ elim (validate_rest_cases info netconfig range on) [
        | inl (e, eq, why) ↦ inl (e, info, rw (guard false same) eq, why)
        | inr (eq, acc) ↦ inr (info.globalnet_cluster_size, rw (guard false same) eq, is, acc)
      ]
      | inl other ↦
          elim (get_valid_cluster_size_cases info.globalnet_cidr_range a range n parsed small) [
            | inl (big, e) ↦ inl (
              invalid_cluster_size,
              info,
              rw (guard true other, e) refl,
              above_half (elim big [ inl z ↦ absurd (ground (arith, other, z)) | inr l ↦ l ]),
            )
            | inr (s, power, room, tight, inr (l, e)) ↦ inl (
              invalid_cluster_size,
              info,
              rw (guard true other, e) refl,
              no_room (bit_size n) (ground (arith, other)) (rw power at tight) (rw power at l),
            )
            | inr (s, _, room, _, inl (le, e)) ↦
                let pos : 0 < s = ground (arith, other, room) in
                let nz : (s == 0) ≡ false = ground arith in
                let resized : GlobalnetInfo = record info { globalnet_cluster_size = s } in
                elim (validate_rest_cases resized netconfig range on) [
                  | inl (e', eq, why) ↦ inl (e', resized, rw (guard true other, e, nz) eq, why)
                  | inr (eq, acc) ↦
                      inr (s, rw (guard true other, e, nz) eq, (pos, omega (arith, le)), acc)
                ]
          ]
    ]
