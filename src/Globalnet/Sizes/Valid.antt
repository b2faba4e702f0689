-- ===== src/Globalnet/Sizes/Valid.antt =====
-- `GetValidClusterSize`
use cluster_fabric_operator.Base.{
  ℕ, ◌*◌, ◌/◌, ◌%◌, ◌^◌, ◌≤◌, ◌<◌, ◌≡◌, refl, ◌∙◌, arith, ◌⊎◌, inl, inr,
}
use cluster_fabric_operator.Base.{
  Text, some, ok, err, ltb, Error.cluster_size_too_large, if◌then◌else◌,
}
use native.Mathlib.Decide.{dec_le, dec_lt, ℕ_discrete}
use cluster_fabric_operator.Net.{Ip, IpNet, host_bits, parse_cidr}
use cluster_fabric_operator.Globalnet.Sizes.{next_power_of2, get_valid_cluster_size}
use cluster_fabric_operator.Globalnet.Sizes.BitLength.{bit_size}
use cluster_fabric_operator.Globalnet.Sizes.PowerOfTwo.{
  next_power_of2-eq-pow, next_power_of2-eq-zero,
}

-- What `GetValidClusterSize` answers for a size of 32 bits, over a range that is a CIDR: 0 for 0
-- and for sizes above 2 ^ 31; otherwise the least power of two that holds the size, if two such
-- blocks fit the range, and an error if they do not.
pub get_valid_cluster_size_cases :
    (text : Text) (a : Ip) (range : IpNet) (n : ℕ)
    → parse_cidr text ≡ some (a, range)
    → n < 2 ^ 32
    → (((n ≡ 0) ⊎ (2 ^ 31 < n)) × (get_valid_cluster_size text n ≡ ok 0))
      ⊎ ((s : ℕ) × (s ≡ 2 ^ bit_size n)
          × (n ≤ s)
          × (s < 2 * n)
          × (((s ≤ 2 ^ host_bits range / 2) × (get_valid_cluster_size text n ≡ ok s))
              ⊎ ((2 ^ host_bits range / 2 < s)
                  × (get_valid_cluster_size text n ≡ err cluster_size_too_large))))
unfolding get_valid_cluster_size
get_valid_cluster_size_cases text a range n e lt = elim (ℕ_discrete n 0) [
  | yes z ↦ inl (inl z, run 0 (next_power_of2-eq-zero n (inl z)) ∙ (ground arith))
  | no nz ↦ elim (dec_le n (2 ^ 31)) [
    | no big ↦ inl (
      inr (omega arith),
      run 0 (next_power_of2-eq-zero n (inr (omega arith, lt))) ∙ (ground arith),
    )
    | yes small ↦
        let (eq, room, tight) = next_power_of2-eq-pow n (omega arith) small in
        inr (
          2 ^ bit_size n,
          refl,
          room,
          tight,
          elim (dec_lt (2 ^ host_bits range / 2) (2 ^ bit_size n)) [
            | yes l ↦ inr (l, run (2 ^ bit_size n) eq ∙ (ground arith))
            | no l ↦ inl (omega arith, run (2 ^ bit_size n) eq ∙ (ground arith))
          ],
        )
  ]
]
  where
    run :
        (s : ℕ)
        → next_power_of2 n ≡ s
        → get_valid_cluster_size text n
          ≡ (if ltb (2 ^ host_bits range / 2) s then err cluster_size_too_large else ok s)
    run s h = let e32 : n % 2 ^ 32 ≡ n = omega arith in rw (e, get_valid_cluster_size, e32, h) refl

-- The sizes for which the answer is 0, with no error.
pub get_valid_cluster_size-zero :
    (text : Text) (a : Ip) (range : IpNet) (n : ℕ)
    → parse_cidr text ≡ some (a, range)
    → (n ≡ 0) ⊎ ((2 ^ 31 < n) × (n < 2 ^ 32))
    → get_valid_cluster_size text n ≡ ok 0
unfolding get_valid_cluster_size
get_valid_cluster_size-zero text a range n e bad =
    let e32 : n % 2 ^ 32 ≡ n = small bad in
    let zero_size : next_power_of2 n ≡ 0 = next_power_of2-eq-zero n bad in
    rw (e, get_valid_cluster_size, e32, zero_size) (ground arith)
  where
    small : (n ≡ 0) ⊎ ((2 ^ 31 < n) × (n < 2 ^ 32)) → n % 2 ^ 32 ≡ n
    small (inl z) = omega (arith, z)
    small (inr (lo, hi)) = omega (arith, hi)
