-- ===== src/Net/Parsed.antt =====
-- What a text that `parse_cidr` accepts stands for.
use cluster_fabric_operator.Base.{ℕ, ◌≤◌, ◌<◌, ◌≡◌, refl, arith, Text, Option, none, some, [], ◌∷◌}
use cluster_fabric_operator.Net.{Ip, IpNet, parse_octet, parse_dot_octet, parse_ipv4, prefix_of}
use cluster_fabric_operator.Net.{parse_prefix, parse_cidr, ◌>>=◌}
use mathlib.Core.Path.{subst}
use mathlib.Core.Option.{some-injective}
use cluster_fabric_operator.Net.Decimal.{dtoi}
use cluster_fabric_operator.Net.RoundTrip.{IsIp}
use cluster_fabric_operator.Net.Networks.{IsNet, net_at, net_at-IsNet}

bind-eq-some {ℓ κ} :
    {A : Type ℓ} {B : Type κ} (m : Option A) (f : A → Option B) {b : B}
    → (m >>= f) ≡ some b
    → (a : A) × (m ≡ some a) × (f a ≡ some b)
bind-eq-some none f h = cc
bind-eq-some (some a) f h = (a, refl, h)

parse_octet-lt : (s rest : Text) (n : ℕ) → parse_octet s ≡ some (n, rest) → n < 256
unfolding parse_octet
parse_octet-lt s rest n h = let ((m, r), e, h') = bind-eq-some (dtoi s) _ h in ground arith

parse_dot_octet-lt : (s rest : Text) (n : ℕ) → parse_dot_octet s ≡ some (n, rest) → n < 256
unfolding parse_dot_octet
parse_dot_octet-lt [] rest n h = cc
parse_dot_octet-lt (c ∷ s) rest n h = ground (arith, parse_octet-lt s rest n)

parse_ipv4-IsIp : (s rest : Text) (a : Ip) → parse_ipv4 s ≡ some (a, rest) → IsIp a
unfolding parse_ipv4
parse_ipv4-IsIp s rest a h =
    let ((o0, s1), e0, h0) = bind-eq-some (parse_octet s) _ h in
    let ((o1, s2), e1, h1) = bind-eq-some (parse_dot_octet s1) _ h0 in
    let ((o2, s3), e2, h2) = bind-eq-some (parse_dot_octet s2) _ h1 in
    let ((o3, s4), e3, h3) = bind-eq-some (parse_dot_octet s3) _ h2 in
    ground (
      arith,
      parse_octet-lt s s1 o0 e0,
      parse_dot_octet-lt s1 s2 o1 e1,
      parse_dot_octet-lt s2 s3 o2 e2,
      parse_dot_octet-lt s3 s4 o3 e3,
      h3,
    )

prefix_of-le : (o : Option (ℕ × Text)) (n : ℕ) → prefix_of o ≡ some n → n ≤ 32
unfolding prefix_of
prefix_of-le none n h = cc
prefix_of-le (some (m, [])) n h = ground arith
prefix_of-le (some (m, c ∷ s)) n h = cc

parse_prefix-le : (s : Text) (n : ℕ) → parse_prefix s ≡ some n → n ≤ 32
unfolding parse_prefix
parse_prefix-le [] n h = cc
parse_prefix-le (c ∷ s) n h = ground (arith, prefix_of-le (dtoi s) n)

-- The address is one of 32 bits, and the network is the one that it makes with the mask.
pub record IsParsed (a : Ip) (n : IpNet) : Type 0 where
  pub is_ip : IsIp a
  pub ones_le : n.ones ≤ 32
  pub made : n ≡ net_at a n.ones

pub parse_cidr-IsParsed :
    (s : Text) (a : Ip) (n : IpNet) → parse_cidr s ≡ some (a, n) → IsParsed a n
unfolding parse_cidr
parse_cidr-IsParsed s a n h =
    let ((a', rest), e0, h0) = bind-eq-some (parse_ipv4 s) _ h in
    let (k, e1, h1) = bind-eq-some (parse_prefix rest) _ h0 in
    let p : IsParsed a' (net_at a' k) = record {
      is_ip = parse_ipv4-IsIp s rest a' e0;
      ones_le = parse_prefix-le rest k e1;
      made = refl;
    } in
    subst (λ (q : Ip × IpNet). IsParsed q.0 q.1) (some-injective (a', net_at a' k) (a, n) h1) p

pub parse_cidr-IsNet : (s : Text) (a : Ip) (n : IpNet) → parse_cidr s ≡ some (a, n) → IsNet n
parse_cidr-IsNet s a n h =
    let q = parse_cidr-IsParsed s a n h in rw q.made (net_at-IsNet a n.ones q.is_ip q.ones_le)
