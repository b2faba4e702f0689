-- ===== src/Globalnet.antt =====
-- controllers/discovery/globalnet/globalnet.go: the data, and the conversions of sizes and
-- addresses. The children model the allocator, the validation and the assignment.
pub mod Sizes
pub mod Allocate
pub mod Assign
use cluster_fabric_operator.Base.{ℕ, ◌+◌, ◌-◌, ◌*◌, ◌^◌, Bool, Text, List, Option, none, some}
use cluster_fabric_operator.Base.{Result, ok, err, Error, Error.invalid_cidr_text}
use cluster_fabric_operator.Net.{Ip, IpNet, value, ip_of, parse_cidr}

-- `GlobalNetwork`. A nil and an empty `GlobalCIDRs` are one here, as in every use.
pub record GlobalNetwork : Type 0 where
  pub global_cidrs : List Text
  pub cluster_id : Text

-- `GlobalnetInfo`. The map is the list of its entries, in the order in which it is walked.
pub record GlobalnetInfo : Type 0 where
  pub globalnet_enabled : Bool
  pub globalnet_cidr_range : Text
  pub globalnet_cluster_size : ℕ
  pub global_cidr_info : List (Text × GlobalNetwork)

-- `CIDR`
pub record Cidr : Type 0 where
  pub network : IpNet
  pub size : ℕ
  pub last_ip : ℕ

-- `GlobalCIDR`, of which the package keeps one in a variable.
pub record GlobalCidr : Type 0 where
  pub cidr : Text
  pub net : IpNet
  pub allocated_clusters : List Cidr
  pub allocated_count : ℕ

-- `Config`
pub record Config : Type 0 where
  pub cluster_cidr : Text
  pub cluster_id : Text
  pub globalnet_cidr : Text
  pub service_cidr : Text
  pub globalnet_cluster_size : ℕ
  pub cluster_cidr_auto_detected : Bool
  pub service_cidr_auto_detected : Bool

-- `ipToUint`: the four big-endian bytes.
unfoldable pub ip_to_uint : Ip → ℕ
ip_to_uint a = value a

-- `uintToIP`: the low 32 bits.
unfoldable pub uint_to_ip : ℕ → Ip
uint_to_ip n = ip_of n

-- `LastIP`
unfoldable pub last_ip : IpNet → ℕ
unfolding ip_to_uint
last_ip n = let cluster_size = 32 - n.ones in ip_to_uint n.ip + 2 ^ cluster_size - 1

-- `NewCIDR`
unfoldable pub new_cidr : Text → Result Cidr
unfolding last_ip
new_cidr cidr = elim (parse_cidr cidr) [
  | none ↦ err invalid_cidr_text
  | some (a, network) ↦
      ok (record { network = network; size = 32 - network.ones; last_ip = last_ip network })
]
