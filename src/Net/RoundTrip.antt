-- ===== src/Net/RoundTrip.antt =====
-- What is printed by `print_cidr` is what `parse_cidr` reads.
use cluster_fabric_operator.Base.{ℕ, ◌%◌, ◌^◌, ◌≤◌, ◌<◌, ◌≡◌, refl, arith}
use cluster_fabric_operator.Base.{Text, some, [], ◌∷◌, ◌++◌}
use mathlib.Core.List.{append_assoc, append-nil}
use cluster_fabric_operator.Net.{Ip, value, ip_of, mask_ip, parse_octet, parse_dot_octet}
use cluster_fabric_operator.Net.{
  prefix_of, parse_ipv4, parse_prefix, parse_cidr, print_ip, print_cidr,
}
use cluster_fabric_operator.Net.Decimal.{NoDigit, print_nat, dtoi-print_nat}

-- Each byte of the address fits eight bits.
pub record IsIp (a : Ip) : Type 0 where
  pub b0 : a.o0 < 256
  pub b1 : a.o1 < 256
  pub b2 : a.o2 < 256
  pub b3 : a.o3 < 256

-- The bytes of a 32-bit number make the number again.
pub value-ip_of : (n : ℕ) → n < 2 ^ 32 → value (ip_of n) ≡ n
unfolding value ip_of
value-ip_of n h = omega arith

-- A number of more bits is cut to 32.
pub value-ip_of_mod : (n : ℕ) → value (ip_of n) ≡ n % 2 ^ 32
unfolding value ip_of
value-ip_of_mod n = omega arith

pub value-lt : (a : Ip) → IsIp a → value a < 2 ^ 32
unfolding value
value-lt a h = omega arith

pub ip_of-IsIp : (n : ℕ) → IsIp (ip_of n)
unfolding ip_of
ip_of-IsIp n = omega arith

pub ip_of-value : (a : Ip) → IsIp a → ip_of (value a) ≡ a
unfolding value ip_of
ip_of-value a h = ground arith

parse_octet-print_nat :
    (n : ℕ) (s : Text) → n < 256 → NoDigit s → parse_octet (print_nat n ++ s) ≡ some (n, s)
unfolding parse_octet
parse_octet-print_nat n s h stop = ground (arith, dtoi-print_nat n s)

parse_dot_octet-print_nat :
    (n : ℕ) (s : Text)
    → n < 256
    → NoDigit s
    → parse_dot_octet (b'.' ∷ (print_nat n ++ s)) ≡ some (n, s)
unfolding parse_dot_octet
parse_dot_octet-print_nat n s h stop = parse_octet-print_nat n s h stop

parse_prefix-print_nat : (n : ℕ) → n ≤ 32 → parse_prefix (b'/' ∷ print_nat n) ≡ some n
unfolding parse_prefix prefix_of
parse_prefix-print_nat n h =
    rw (← append-nil (print_nat n), dtoi-print_nat n [] (omega arith) tt) (ground arith)

-- A printed address is read back, and reading stops at the slash.
pub parse_ipv4-print_ip :
    (a : Ip) (s : Text) → IsIp a → parse_ipv4 (print_ip a ++ (b'/' ∷ s)) ≡ some (a, b'/' ∷ s)
unfolding parse_ipv4 print_ip
parse_ipv4-print_ip a s h =
    rw
      (
        append_assoc (print_nat a.o0),
        parse_octet-print_nat a.o0 _ h.b0 refl,
        append_assoc (print_nat a.o1),
        parse_dot_octet-print_nat a.o1 _ h.b1 refl,
        append_assoc (print_nat a.o2),
        parse_dot_octet-print_nat a.o2 _ h.b2 refl,
        parse_dot_octet-print_nat a.o3 _ h.b3 refl,
      )
      refl

-- Printing an address with a prefix length and parsing the text gives the address, and the
-- network that its leading bits make.
pub parse_cidr-print_cidr :
    (a : Ip) (n : ℕ)
    → IsIp a
    → n ≤ 32
    → parse_cidr (print_cidr a n) ≡ some (a, record { ip = mask_ip a n; ones = n })
unfolding parse_cidr print_cidr
parse_cidr-print_cidr a n h k =
    rw (parse_ipv4-print_ip a (print_nat n) h, parse_prefix-print_nat n k) refl
