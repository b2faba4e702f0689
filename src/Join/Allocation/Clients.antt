-- ===== src/Join/Allocation/Clients.antt =====
-- Clusters that join at the same time. The API server numbers the versions of the map, and takes
-- an update only if it was planned from the map's current version; otherwise it answers with a
-- conflict, and the cluster may read again.
use cluster_fabric_operator.Base.{
  ℕ, suc, ◌^◌, ◌≤◌, ◌<◌, ◌≡◌, refl, ◌∙◌, arith, some, ok, List, [], ◌∷◌, ◌++◌, All, All-append,
  All-split,
}
use mathlib.Core.List.{append_assoc}
use cluster_fabric_operator.Net.{host_bits, IpNet}
use cluster_fabric_operator.Globalnet.{Config}
use cluster_fabric_operator.Broker.GlobalnetMap.{ConfigMap, Json, ClusterInfo}
use cluster_fabric_operator.Broker.Stored.{JsonLaws, Holds}
use cluster_fabric_operator.Globalnet.Allocate.Clusters.{same_net}
use cluster_fabric_operator.Join.Allocation.Round.{attempt-sends}
use cluster_fabric_operator.Join.Allocation.{sends, attempt}

-- An update under way: the version that it was planned from, and the map to be written.
pub record Pending : Type 0 where
  pub planned_from : ℕ
  pub update : ConfigMap

-- The map at the API server, and the updates on their way to it.
pub record State : Type 0 where
  pub version : ℕ
  pub current : ConfigMap
  pub pending : List Pending

module _ (json : Json) (fuel : ℕ) where
  pub data Step : State → State → Type 0 where
    -- A cluster reads the map, in a first round or after a conflict, and plans an update.
    reads :
        {version : ℕ} {current : ConfigMap} {pending : List Pending} (netconfig netconfig' : Config)
        (cm' : ConfigMap)
        → netconfig.globalnet_cluster_size < 2 ^ 32
        → attempt json fuel netconfig.cluster_id netconfig (ok current)
          ≡ some (sends cm', netconfig')
        → Step
            (record { version = version; current = current; pending = pending })
            (record {
              version = version;
              current = current;
              pending = record { planned_from = version; update = cm' } ∷ pending;
            })
    -- The server takes an update that was planned from the current version.
    accepts :
        {version : ℕ} {current : ConfigMap} (before after : List Pending) (cm' : ConfigMap)
        → Step
            (record {
              version = version;
              current = current;
              pending = before ++ (record { planned_from = version; update = cm' } ∷ after);
            })
            (record { version = suc version; current = cm'; pending = before ++ after })
    -- An update is refused, or lost.
    drops :
        {version : ℕ} {current : ConfigMap} (before after : List Pending) (p : Pending)
        → Step
            (record { version = version; current = current; pending = before ++ (p ∷ after) })
            (record { version = version; current = current; pending = before ++ after })

  pub data Steps : State → State → Type 0 where
    none_left : {s : State} → Steps s s
    one_more : {s t u : State} → Steps s t → Step t u → Steps s u

module _ (json : Json) (laws : JsonLaws json) (fuel : ℕ) (range : IpNet) (first : List ClusterInfo)
    (enough : 2 ^ host_bits range ≤ fuel) where
  -- An update under way was planned from the current version or an earlier one, and is right if
  -- from the current.
  abbrev IsPending : ℕ → Pending → Type 0
  IsPending version p =
      (p.planned_from ≤ version) × (p.planned_from ≡ version → Holds json range first p.update)

  abbrev Inv : State → Type 0
  Inv s = Holds json range first s.current × All (IsPending s.version) s.pending

  planned-Holds :
      (netconfig netconfig' : Config) (cm cm' : ConfigMap)
      → netconfig.globalnet_cluster_size < 2 ^ 32
      → attempt json fuel netconfig.cluster_id netconfig (ok cm) ≡ some (sends cm', netconfig')
      → Holds json range first cm
      → Holds json range first cm'
  planned-Holds netconfig netconfig' cm cm' small sent h =
      let u =
        attempt-sends json laws fuel netconfig netconfig' cm cm' h.stored (rw h.same_range enough)
          small sent in
      record {
        stored = u.stored;
        same_range = same_net (rw u.same_range at u.stored.parsed) h.stored.parsed ∙ h.same_range;
        joined =
            h.joined
            ++ (record { cluster_id = netconfig.cluster_id; global_cidr = u.cidr ∷ [] } ∷ []);
        grown = u.grown ∙ (rw h.grown (append_assoc first h.joined _));
      }

  All-later :
      (version : ℕ) (ps : List Pending)
      → All (IsPending version) ps
      → All (IsPending (suc version)) ps
  All-later version [] _ = tt
  All-later version (p ∷ ps) ((le, _), h) =
      ((omega (arith, le), λ e. absurd (omega (arith, le, e))), All-later version ps h)

  Step-Inv : (s t : State) → Step json fuel s t → Inv s → Inv t
  Step-Inv _ _ (reads {version} {current} netconfig netconfig' cm' small sent) (h, ps) =
      (h, ((omega arith, λ e. planned-Holds netconfig netconfig' current cm' small sent h), ps))
  Step-Inv _ _ (accepts {version} before after cm') (h, ps) =
      let (ls, p, rs) = All-split (IsPending version) before after _ ps in
      (
        p.1 refl,
        All-later version (before ++ after) (All-append (IsPending version) before after ls rs),
      )
  Step-Inv _ _ (drops {version} before after q) (h, ps) =
      let (ls, p, rs) = All-split (IsPending version) before after _ ps in
      (h, All-append (IsPending version) before after ls rs)

  Steps-Inv : (s t : State) → Steps json fuel s t → Inv s → Inv t
  Steps-Inv s _ none_left i = i
  Steps-Inv s t (one_more {t = u} ss st) i = Step-Inv u t st (Steps-Inv s u ss i)

  -- Whatever the order in which clusters read the map and their updates reach the server, the map
  -- stays readable and keeps its range, every cluster keeps the CIDRs it had, and no two clusters
  -- have an address in common. At first no update is under way, and the map is such; every read has
  -- fuel enough, every cluster size asked for is a number of 32 bits, and JSON reads what it wrote.
  pub Steps-Holds :
      (version : ℕ) (cm : ConfigMap) (t : State)
      → Steps json fuel (record { version = version; current = cm; pending = [] }) t
      → Holds json range first cm
      → Holds json range first t.current
  Steps-Holds version cm t ss h = (Steps-Inv _ t ss (h, tt)).0
