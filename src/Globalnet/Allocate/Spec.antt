-- ===== src/Globalnet/Allocate/Spec.antt =====
-- What the allocator of globalnet.go promises: the first free aligned block of the range.
use cluster_fabric_operator.Base.{ℕ, ◌+◌, ◌-◌, ◌^◌, ◌≤◌, ◌<◌, ◌≡◌, List, [], ◌∷◌, ◌++◌, Text}
use cluster_fabric_operator.Base.{All, Some, length, ◌⊎◌, Option, some, Result, ok, err, Error}
use cluster_fabric_operator.Net.{value, host_bits, ip_of, print_cidr}
use cluster_fabric_operator.Net.Blocks.{IsAligned, Within}
use cluster_fabric_operator.Net.Networks.{IsNet, InNet, net_at}
use cluster_fabric_operator.Globalnet.{Cidr, GlobalCidr}

-- An entry as `NewCIDR` makes it.
pub record IsCidr (c : Cidr) : Type 0 where
  pub network_is : IsNet c.network
  pub last_is : c.last_ip ≡ value c.network.ip + 2 ^ host_bits c.network - 1

-- The allocator's invariant.
pub record IsGlobal (g : GlobalCidr) : Type 0 where
  pub net_is : IsNet g.net
  pub counted : g.allocated_count ≡ length g.allocated_clusters
  pub entries : All IsCidr g.allocated_clusters

-- The block of `2 ^ h` addresses from `b` on shares an address with the entry, or none.
abbrev pub Overlaps : ℕ → ℕ → Cidr → Type 0
Overlaps h b c = (x : ℕ) × Within h b x × InNet c.network x

abbrev pub Disjoint : ℕ → ℕ → Cidr → Type 0
Disjoint h b c = (x : ℕ) → Within h b x → InNet c.network x → ⊥

-- Every aligned block that begins in the interval is taken, at least in part.
abbrev pub Skips : ℕ → ℕ → ℕ → List Cidr → Type 0
Skips h from to cs = (b : ℕ) → IsAligned h b → from ≤ b → b < to → Some (Overlaps h b) cs

-- Where a search goes on behind `last`: at an aligned address, or behind an entry.
abbrev pub Reached : ℕ → ℕ → List Cidr → Type 0
Reached h last cs = IsAligned h (last + 1) ⊎ Some (λ c. InNet c.network last) cs

-- The end of the range.
abbrev pub end_of : GlobalCidr → ℕ
end_of g = value g.net.ip + 2 ^ host_bits g.net

-- The entry of a block.
abbrev pub cidr_at : ℕ → ℕ → Cidr
cidr_at p b = record { network = net_at (ip_of b) p; size = 32 - p; last_ip = b + 2 ^ (32 - p) - 1 }

-- The text names the first block of prefix length `p` that lies in the range and meets no entry,
-- and the new state has it as its last entry.
pub record IsFirstFit (g : GlobalCidr) (p : ℕ) (t : Text) (g' : GlobalCidr) : Type 0 where
  pub base : ℕ
  pub named : t ≡ print_cidr (ip_of base) p
  pub aligned : IsAligned (32 - p) base
  pub above : value g.net.ip ≤ base
  pub below : base + 2 ^ (32 - p) ≤ end_of g
  pub free : All (Disjoint (32 - p) base) g.allocated_clusters
  pub first : Skips (32 - p) (value g.net.ip) base g.allocated_clusters
  pub kept : g' ≡ record g {
    allocated_clusters = g.allocated_clusters ++ (cidr_at p base ∷ []);
    allocated_count = g.allocated_count + 1;
  }

-- Either the first free block is given out, or the answer is the error `e`, nothing is entered,
-- and no block that begins in the range is free.
abbrev pub IsOutcome : GlobalCidr → ℕ → Error → Option (Result Text × GlobalCidr) → Type 0
IsOutcome g p e r =
    ((t : Text) × (g' : GlobalCidr) × (r ≡ some (ok t, g')) × IsFirstFit g p t g')
    ⊎ ((r ≡ some (err e, g)) × Skips (32 - p) (value g.net.ip) (end_of g) g.allocated_clusters)
