-- ===== src/Globalnet/Allocate/Clusters.antt =====
-- `AllocateGlobalCIDR`: the allocator over the CIDRs of the clusters of the map.
use cluster_fabric_operator.Base.{ℕ, ◌+◌, ◌-◌, ◌^◌, ◌≡◌, refl, ◌∙◌, sym, ap, inl, inr}
use cluster_fabric_operator.Base.{
  Text, Option, some, List, [], ◌∷◌, ◌++◌, All, Some, at_head, in_tail,
}
use cluster_fabric_operator.Base.{Result, ok, length, arith}
use cluster_fabric_operator.Base.{◌>>=◌}
use mathlib.Core.List.{append_assoc, append-nil}
use mathlib.Core.Path.{fun_ext, ap₂}
use mathlib.Core.Option.{some-injective}
use cluster_fabric_operator.Base.{Result-cases}
use cluster_fabric_operator.Net.{Ip, IpNet, value, host_bits, parse_cidr}
use cluster_fabric_operator.Net.Blocks.{Within}
use cluster_fabric_operator.Net.Networks.{InNet}
use cluster_fabric_operator.Net.Parsed.{parse_cidr-IsNet}
use cluster_fabric_operator.Globalnet.{Cidr, GlobalCidr, GlobalNetwork, new_cidr, ip_to_uint}
use cluster_fabric_operator.Globalnet.Allocate.{add_cluster, enter_cidrs, enter_networks}
use cluster_fabric_operator.Globalnet.Allocate.Spec.{IsCidr, Overlaps, Disjoint}

-- The texts of all clusters, in the order in which the map is walked.
abbrev pub all_cidrs : List (Text × GlobalNetwork) → List Text
all_cidrs [] = []
all_cidrs ((k, v) ∷ rest) = v.global_cidrs ++ all_cidrs rest

abbrev pub IsCidrText : Text → Type 0
IsCidrText t = (a : Ip) × (n : IpNet) × (parse_cidr t ≡ some (a, n))

-- The networks of two texts share no address.
abbrev pub Apart : Text → Text → Type 0
Apart t u =
    (a b : Ip) (n m : IpNet)
    → parse_cidr t ≡ some (a, n)
    → parse_cidr u ≡ some (b, m)
    → (x : ℕ) → InNet n x
    → InNet m x
    → ⊥

-- The block shares an address with the network of the text.
abbrev pub Meets : ℕ → ℕ → Text → Type 0
Meets h b u =
    (a : Ip) × (m : IpNet) × (parse_cidr u ≡ some (a, m)) × (x : ℕ) × Within h b x × InNet m x

pub same_net :
    {a b : Ip} {n m : IpNet} {o : Option (Ip × IpNet)} → o ≡ some (a, n) → o ≡ some (b, m) → n ≡ m
same_net {a} {b} {n} {m} p q =
    ap (λ (r : Ip × IpNet). r.1) (some-injective (a, n) (b, m) (sym p ∙ q))

-- Entries that stand for texts, one by one.
abbrev pub StandFor : List Text → List Cidr → Type 0
StandFor [] [] = Unit
StandFor [] (c ∷ cs) = ⊥
StandFor (t ∷ ts) [] = ⊥
StandFor (t ∷ ts) (c ∷ cs) =
    ((a : Ip) × (parse_cidr t ≡ some (a, c.network))) × IsCidr c × StandFor ts cs

enter_cidrs-append :
    (ts us : List Text) (g : GlobalCidr)
    → enter_cidrs (ts ++ us) g ≡ (enter_cidrs ts g >>= enter_cidrs us)
unfolding enter_cidrs
enter_cidrs-append [] us g = refl
enter_cidrs-append (t ∷ ts) us g = elim (Result-cases (new_cidr t)) [
  | inl (c, e) ↦ rw e (enter_cidrs-append ts us (add_cluster g c))
  | inr (er, e) ↦ rw e refl
]

pub enter_networks_eq :
    (ks : List (Text × GlobalNetwork)) (g : GlobalCidr)
    → enter_networks ks g ≡ enter_cidrs (all_cidrs ks) g
unfolding enter_networks enter_cidrs
enter_networks_eq [] g = refl
enter_networks_eq ((k, v) ∷ ks) g =
    ap (λ (f : GlobalCidr → Result GlobalCidr). enter_cidrs v.global_cidrs g >>= f)
      (fun_ext (enter_networks_eq ks))
    ∙ sym (enter_cidrs-append v.global_cidrs (all_cidrs ks) g)

-- All texts are entered, behind what was there.
pub enter_cidrs-All :
    (ts : List Text) (g : GlobalCidr)
    → All IsCidrText ts
    → (cs : List Cidr) × StandFor ts cs
      × (enter_cidrs ts g
          ≡ ok (record g {
            allocated_clusters = g.allocated_clusters ++ cs;
            allocated_count = g.allocated_count + length cs;
          }))
unfolding enter_cidrs new_cidr ip_to_uint
enter_cidrs-All [] g _ = ([], tt, ap₂ grown (sym (append-nil g.allocated_clusters)) (omega arith))
  where
    grown : List Cidr → ℕ → Result GlobalCidr
    grown cs n = ok (record g { allocated_clusters = cs; allocated_count = n })
enter_cidrs-All (t ∷ ts) g ((a, n, e), es) =
    let (cs, sf, eq) = enter_cidrs-All ts (add_cluster g c) es in
    (
      c ∷ cs,
      ((a, e), record { network_is = parse_cidr-IsNet t a n e; last_is = refl }, sf),
      rw (e, new_cidr)
          (eq ∙ ap₂ grown (append_assoc g.allocated_clusters (c ∷ []) cs) (omega arith)),
    )
  where
    c : Cidr
    c = record { network = n; size = 32 - n.ones; last_ip = value n.ip + 2 ^ host_bits n - 1 }

    grown : List Cidr → ℕ → Result GlobalCidr
    grown cs n = ok (record g { allocated_clusters = cs; allocated_count = n })

pub StandFor-IsCidr : (ts : List Text) (cs : List Cidr) → StandFor ts cs → All IsCidr cs
StandFor-IsCidr [] [] _ = tt
StandFor-IsCidr [] (c ∷ cs) s = absurd s
StandFor-IsCidr (t ∷ ts) [] s = absurd s
StandFor-IsCidr (t ∷ ts) (c ∷ cs) (p, i, s) = (i, StandFor-IsCidr ts cs s)

-- A block that meets no entry is apart from the texts of the entries.
pub Disjoint-Apart :
    (t : Text) (n : IpNet) (a : Ip) (h b : ℕ) (ts : List Text) (cs : List Cidr)
    → StandFor ts cs
    → parse_cidr t ≡ some (a, n)
    → ((x : ℕ) → InNet n x → Within h b x)
    → All (Disjoint h b) cs
    → All (Apart t) ts
Disjoint-Apart t n a h b [] [] _ e w _ = tt
Disjoint-Apart t n a h b [] (c ∷ cs) s e w _ = absurd s
Disjoint-Apart t n a h b (u ∷ ts) [] s e w _ = absurd s
Disjoint-Apart t n a h b (u ∷ ts) (c ∷ cs) ((a', e'), i, s) e w (d, ds) = (
  λ a1 b1 n1 m1 p1 p2 x x_n x_m. d x (w x (rw (same_net e p1) x_n)) (rw (same_net e' p2) x_m),
  Disjoint-Apart t n a h b ts cs s e w ds,
)

pub Some-Meets :
    (h b : ℕ) (ts : List Text) (cs : List Cidr)
    → StandFor ts cs
    → Some (Overlaps h b) cs
    → Some (Meets h b) ts
Some-Meets h b [] [] s o = elim o [ ]
Some-Meets h b [] (c ∷ cs) s o = absurd s
Some-Meets h b (t ∷ ts) [] s o = absurd s
Some-Meets h b (t ∷ ts) (c ∷ cs) ((a, e), i, s) (at_head (x, w, m)) =
    at_head (a, c.network, e, x, w, m)
Some-Meets h b (t ∷ ts) (c ∷ cs) ((a, e), i, s) (in_tail o) = in_tail (Some-Meets h b ts cs s o)
