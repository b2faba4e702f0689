-- ===== src/Broker/Separation.antt =====
-- The clusters of the map, each with CIDRs of its own.
use cluster_fabric_operator.Base.{
  ◌≡◌, refl, ◌≢◌, ◌∙◌, sym, arith, false, Bool-cases, ◌⊎◌, inl, inr, some, Text, text_eq,
  text_eq_iff, List, [], ◌∷◌, ◌++◌, All, All-append, map, none,
}
use mathlib.Core.List.{append_assoc, append-nil}
use cluster_fabric_operator.Globalnet.{GlobalNetwork}
use cluster_fabric_operator.Globalnet.Assign.{find_network}
use cluster_fabric_operator.Globalnet.Assign.Others.{ApartOthers, AllCidrs}
use cluster_fabric_operator.Globalnet.Allocate.Clusters.{IsCidrText, Apart}
use cluster_fabric_operator.Broker.GlobalnetMap.{
  ClusterInfo, put_network, networks_of, has_cluster, merge_cluster,
}

-- Two lists of CIDRs share no address.
abbrev pub ApartLists : List Text → List Text → Type 0
ApartLists ts us = All (λ t. All (Apart t) us) ts

-- Different clusters, with no address in common.
abbrev pub ApartClusters : ClusterInfo → ClusterInfo → Type 0
ApartClusters c d = (c.cluster_id ≢ d.cluster_id) × ApartLists c.global_cidr d.global_cidr

-- An entry that the operator made: it has a CIDR, and all of its texts are CIDRs.
abbrev pub IsEntry : ClusterInfo → Type 0
IsEntry c = (c.global_cidr ≢ []) × All IsCidrText c.global_cidr

abbrev pub Separated : List ClusterInfo → Type 0
Separated [] = Unit
Separated (c ∷ cs) = IsEntry c × All (ApartClusters c) cs × Separated cs

abbrev pub entry_of : ClusterInfo → Text × GlobalNetwork
entry_of c = (c.cluster_id, record { global_cidrs = c.global_cidr; cluster_id = c.cluster_id })

abbrev pub IsAbsent : Text → List ClusterInfo → Type 0
IsAbsent id cs = All (λ d. d.cluster_id ≢ id) cs

-- A key that is not among the map's.
abbrev IsNew : Text → List (Text × GlobalNetwork) → Type 0
IsNew id ks = All (λ (p : Text × GlobalNetwork). p.0 ≢ id) ks

put_network-append :
    (c : ClusterInfo) (ks : List (Text × GlobalNetwork))
    → IsNew c.cluster_id ks
    → put_network c ks ≡ ks ++ (entry_of c ∷ [])
unfolding put_network
put_network-append c [] _ = refl
put_network-append c ((k, v) ∷ ks) (ne, rest) =
    let f : text_eq k c.cluster_id ≡ false = ground (arith, text_eq_iff k c.cluster_id, ne) in
    rw (f, put_network-append c ks rest) refl

-- With one entry per cluster the map is the list.
networks_of-append :
    (cs : List ClusterInfo) (ks : List (Text × GlobalNetwork))
    → Separated cs
    → All (λ c. IsNew c.cluster_id ks) cs
    → networks_of cs ks ≡ ks ++ map entry_of cs
unfolding networks_of
networks_of-append [] ks _ _ = sym (append-nil ks)
networks_of-append (c ∷ cs) ks (_, apart, s) (here, rest) = rw (put_network-append c ks here) (
    networks_of-append cs (ks ++ (entry_of c ∷ [])) s (widen cs apart rest)
    ∙ append_assoc ks (entry_of c ∷ []) (map entry_of cs))
  where
    widen :
        (ds : List ClusterInfo)
        → All (ApartClusters c) ds
        → All (λ d. IsNew d.cluster_id ks) ds
        → All (λ d. IsNew d.cluster_id (ks ++ (entry_of c ∷ []))) ds
    widen [] _ _ = tt
    widen (d ∷ ds) ((ne, _), a) (n, ns) = (
      All-append (λ (p : Text × GlobalNetwork). p.0 ≢ d.cluster_id) ks (entry_of c ∷ []) n (ne, tt),
      widen ds a ns,
    )

pub networks_of-map : (cs : List ClusterInfo) → Separated cs → networks_of cs [] ≡ map entry_of cs
networks_of-map cs s = networks_of-append cs [] s (trivial cs)
  where
    trivial : (ds : List ClusterInfo) → All (λ c. IsNew c.cluster_id []) ds
    trivial [] = tt
    trivial (d ∷ ds) = (tt, trivial ds)

pub has_cluster-IsAbsent :
    (id : Text) (cs : List ClusterInfo) → IsAbsent id cs → has_cluster id cs ≡ false
unfolding has_cluster
has_cluster-IsAbsent id [] _ = refl
has_cluster-IsAbsent id (c ∷ cs) (ne, rest) =
    let f : text_eq c.cluster_id id ≡ false = ground (arith, text_eq_iff c.cluster_id id, ne) in
    rw f (has_cluster-IsAbsent id cs rest)

-- What the map of the entries has at a cluster: nothing, and then no entry is the cluster's; or a
-- list that is not empty.
pub find_network-map :
    (id : Text) (cs : List ClusterInfo)
    → Separated cs
    → ((find_network id (map entry_of cs) ≡ none) × IsAbsent id cs)
      ⊎ ((v : GlobalNetwork) × (t : Text) × (ts : List Text) × (find_network id (map entry_of cs)
            ≡ some v)
          × (v.global_cidrs ≡ t ∷ ts)
          × IsCidrText t)
unfolding find_network
find_network-map id [] _ = inl (refl, tt)
find_network-map id (c ∷ cs) ((full, texts), _, s) = elim (Bool-cases (text_eq c.cluster_id id)) [
  | inl e ↦
      let (t, ts, eq, is) = nonempty c.global_cidr full texts in
      inr (
        record { global_cidrs = c.global_cidr; cluster_id = c.cluster_id },
        t,
        ts,
        rw e refl,
        eq,
        is,
      )
  | inr f ↦
      let ne : c.cluster_id ≢ id = λ e. ground (arith, text_eq_iff c.cluster_id id, f) in
      elim (find_network-map id cs s) [
        | inl (e, a) ↦ inl (rw f e, (ne, a))
        | inr (v, t, ts, e, eq, is) ↦ inr (v, t, ts, rw f e, eq, is)
      ]
]
  where
    nonempty :
        (us : List Text)
        → us ≢ []
        → All IsCidrText us
        → (t : Text) × (ts : List Text) × (us ≡ t ∷ ts) × IsCidrText t
    nonempty [] ne _ = absurd (ne refl)
    nonempty (u ∷ us) ne (i, _) = (u, us, refl, i)

pub AllCidrs-map : (cs : List ClusterInfo) → Separated cs → AllCidrs (map entry_of cs)
AllCidrs-map [] _ = tt
AllCidrs-map (c ∷ cs) ((_, texts), _, s) = (texts, AllCidrs-map cs s)

Apart-sym : (t u : Text) → Apart t u → Apart u t
Apart-sym t u h a b n m p q x i j = h b a m n q p x j i

-- A cluster with one new CIDR, which is apart from those of the others, goes to the end.
pub Separated-append :
    (id t : Text) (cs : List ClusterInfo)
    → IsCidrText t
    → IsAbsent id cs
    → ApartOthers t id (map entry_of cs)
    → Separated cs
    → Separated (cs ++ (record { cluster_id = id; global_cidr = t ∷ [] } ∷ []))
Separated-append id t [] is _ _ _ = (((λ e. absurd (cc e)), (is, tt)), tt, tt)
Separated-append id t (c ∷ cs) is (ne, absent) (here, others) (entry, apart, s) = (
  entry,
  All-append (ApartClusters c) cs (record { cluster_id = id; global_cidr = t ∷ [] } ∷ []) apart
      ((ne, turn c.global_cidr (here ne)), tt),
  Separated-append id t cs is absent others s,
)
  where
    turn : (us : List Text) → All (Apart t) us → ApartLists us (t ∷ [])
    turn [] _ = tt
    turn (u ∷ us) (h, hs) = ((Apart-sym t u h, tt), turn us hs)

-- A cluster that has no entry gets one at the end.
pub merge_cluster-IsAbsent :
    (new : ClusterInfo) (cs : List ClusterInfo)
    → IsAbsent new.cluster_id cs
    → merge_cluster new cs ≡ cs ++ (new ∷ [])
unfolding merge_cluster
merge_cluster-IsAbsent new cs a = rw (has_cluster-IsAbsent new.cluster_id cs a) refl
