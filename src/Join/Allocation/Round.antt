-- ===== src/Join/Allocation/Round.antt =====
-- What one round of `AllocateAndUpdateGlobalCIDRConfigMap` does to the broker's map.
use cluster_fabric_operator.Base.{
  ℕ, ◌^◌, ◌≤◌, ◌<◌, ◌≡◌, refl, ◌∙◌, sym, ap, ◌⊎◌, inl, inr, false, Bool-cases, Text, is_empty,
  text_eq_refl, List, [], ◌∷◌, ◌++◌, none, some, map, ok, err, Error,
}
use mathlib.Core.Option.{some-injective}
use cluster_fabric_operator.Net.{IpNet, host_bits}
use cluster_fabric_operator.Globalnet.{GlobalNetwork, GlobalnetInfo, Config}
use cluster_fabric_operator.Globalnet.Allocate.Clusters.{IsCidrText}
use cluster_fabric_operator.Globalnet.Assign.{
  find_network, first_cidr, assign_globalnet_ips, validate_globalnet_configuration,
}
use cluster_fabric_operator.Globalnet.Assign.Others.{
  CanAllocate, Refused, ApartOthers, assign_globalnet_ips_cases,
}
use cluster_fabric_operator.Globalnet.Assign.Validate.{
  IsAccepted, IsInvalid, validate_globalnet_configuration_cases,
}
use cluster_fabric_operator.Broker.GlobalnetMap.{ClusterInfo, ConfigMap, Json}
use cluster_fabric_operator.Broker.Separation.{
  entry_of, IsAbsent, find_network-map, AllCidrs-map, Separated-append, merge_cluster-IsAbsent,
}
use cluster_fabric_operator.Broker.Stored.{
  JsonLaws, IsStored, info_of, get_global_networks-IsStored, updated_map-IsStored,
}
use cluster_fabric_operator.Join.Allocation.{
  Plan, fails, keeps, panics, sends, with_cidr, plan_update, assign_and_plan, after_validation,
  attempt,
}

-- Why a round of a map that can be read fails: something is wrong with the settings, or no CIDR is
-- assigned, with the cluster size that the validation gave.
pub data IsFailure (range : IpNet) (info : GlobalnetInfo) (netconfig : Config) (e : Error)
    : Type 0 where
  invalid : IsInvalid range netconfig e → IsFailure range info netconfig e
  unassigned :
      (size : ℕ)
      → validate_globalnet_configuration info netconfig
        ≡ (ok netconfig.globalnet_cidr, record info { globalnet_cluster_size = size })
      → Refused (record info { globalnet_cluster_size = size }) netconfig e
      → IsFailure range info netconfig e

-- The update of a round: the cluster had no entry, and gets one, at the end, with the one CIDR that
-- the netconfig then has; the settings stay.
pub record IsUpdate (json : Json) (netconfig : Config) (cm : ConfigMap) (s : IsStored json cm)
    (cm' : ConfigMap) (netconfig' : Config) : Type 0 where
  pub cidr : Text
  pub is_cidr : IsCidrText cidr
  pub asked : is_empty netconfig.globalnet_cidr ≡ false → cidr ≡ netconfig.globalnet_cidr
  pub shared : netconfig' ≡ with_cidr netconfig cidr
  pub absent : IsAbsent netconfig.cluster_id s.infos
  pub stored : IsStored json cm'
  pub grown :
      stored.infos
      ≡ s.infos ++ (record { cluster_id = netconfig.cluster_id; global_cidr = cidr ∷ [] } ∷ [])
  pub same_size : stored.size ≡ s.size
  pub same_range : stored.range_text ≡ s.range_text

assign_globalnet_ips-first_cidr :
    (fuel : ℕ) (info : GlobalnetInfo) (netconfig : Config) (t : Text)
    → first_cidr (find_network netconfig.cluster_id info.global_cidr_info) ≡ some t
    → assign_globalnet_ips fuel info netconfig ≡ some (ok t)
unfolding assign_globalnet_ips
assign_globalnet_ips-first_cidr fuel info netconfig t e =
    elim (Bool-cases (is_empty netconfig.globalnet_cidr)) [
      | inl empty ↦ rw (e, assign_globalnet_ips, empty) refl
      | inr full ↦ rw (e, assign_globalnet_ips, full) refl
    ]

abbrev sent_map : ConfigMap → Plan → ConfigMap
sent_map cm (sends cm') = cm'
sent_map cm (fails e) = cm
sent_map cm keeps = cm
sent_map cm panics = cm

module _ (json : Json) (laws : JsonLaws json) where
  -- The cluster has an entry: its first CIDR is kept, whatever was asked for.
  known_plan :
      (fuel : ℕ) (netconfig : Config) (cm : ConfigMap) (info : GlobalnetInfo) (v : GlobalNetwork)
      (t : Text) (ts : List Text)
      → find_network netconfig.cluster_id info.global_cidr_info ≡ some v
      → v.global_cidrs ≡ t ∷ ts
      → assign_and_plan json fuel netconfig.cluster_id netconfig cm info
        ≡ some (keeps, with_cidr netconfig t)
  unfolding assign_and_plan plan_update
  known_plan fuel netconfig cm info v t ts e eq =
      let given : assign_globalnet_ips fuel info netconfig ≡ some (ok t) =
        assign_globalnet_ips-first_cidr fuel info netconfig t
          (rw e (unfold first_cidr in rw eq refl)) in
      rw (given, assign_and_plan, e, plan_update, eq, text_eq_refl t) refl

  -- The cluster has no entry: the CIDR that was assigned is sent.
  new_plan :
      (fuel : ℕ) (netconfig : Config) (cm : ConfigMap) (s : IsStored json cm) (info : GlobalnetInfo)
      (t : Text)
      → info.global_cidr_info ≡ map entry_of s.infos
      → find_network netconfig.cluster_id info.global_cidr_info ≡ none
      → IsAbsent netconfig.cluster_id s.infos
      → assign_globalnet_ips fuel info netconfig ≡ some (ok t)
      → IsCidrText t
      → ApartOthers t netconfig.cluster_id info.global_cidr_info
      → (is_empty netconfig.globalnet_cidr ≡ false → t ≡ netconfig.globalnet_cidr)
      → (cm' : ConfigMap) × (assign_and_plan json fuel netconfig.cluster_id netconfig cm info
          ≡ some (sends cm', with_cidr netconfig t))
        × IsUpdate json netconfig cm s cm' (with_cidr netconfig t)
  unfolding assign_and_plan plan_update
  new_plan fuel netconfig cm s info t entries none_there absent given is apart asked =
      let new : ClusterInfo = record { cluster_id = netconfig.cluster_id; global_cidr = t ∷ [] } in
      let merged = merge_cluster-IsAbsent new s.infos absent in
      let (cm', e, s', grown, same_size, same_range) = updated_map-IsStored json laws cm new s (
        rw merged (
          Separated-append netconfig.cluster_id t s.infos is absent (rw entries at apart)
            s.separated)) in
      (
        cm',
        rw (given, assign_and_plan, none_there, plan_update, e) refl,
        record {
          cidr = t;
          is_cidr = is;
          asked = asked;
          shared = refl;
          absent = absent;
          stored = s';
          grown = grown ∙ merged;
          same_size = same_size;
          same_range = same_range;
        },
      )

  failed_plan :
      (fuel : ℕ) (netconfig : Config) (cm : ConfigMap) (info : GlobalnetInfo) (e : Error)
      → assign_globalnet_ips fuel info netconfig ≡ some (err e)
      → assign_and_plan json fuel netconfig.cluster_id netconfig cm info
        ≡ some (fails e, with_cidr netconfig [])
  unfolding assign_and_plan
  failed_plan fuel netconfig cm info e given = rw (given, assign_and_plan) refl

  -- A round on a map with globalnet, with fuel enough for the range, ends, does not panic, and does
  -- one of three things: it fails, since something is wrong with the settings, every block of the size
  -- in the range meets a CIDR of the map, or the one asked for overlaps that of another cluster; it keeps the map, which has an entry of the cluster with
  -- the CIDR; or it sends the map with a new entry of the cluster, whose CIDR shares no address with
  -- those of the other clusters. The cluster size asked for must be a number of 32
  -- bits, and JSON must read what it wrote.
  pub attempt_cases :
      (fuel : ℕ) (netconfig : Config) (cm : ConfigMap) (s : IsStored json cm)
      → 2 ^ host_bits s.range ≤ fuel
      → netconfig.globalnet_cluster_size < 2 ^ 32
      → ((e : Error) × (attempt json fuel netconfig.cluster_id netconfig (ok cm)
            ≡ some (fails e, with_cidr netconfig []))
          × IsFailure s.range (info_of json s) netconfig e)
        ⊎ ((t : Text) × (attempt json fuel netconfig.cluster_id netconfig (ok cm)
              ≡ some (keeps, with_cidr netconfig t))
            × (first_cidr (find_network netconfig.cluster_id (map entry_of s.infos)) ≡ some t))
        ⊎ ((cm' : ConfigMap) × (netconfig' : Config) × (attempt json fuel netconfig.cluster_id
                netconfig
                (ok cm)
              ≡ some (sends cm', netconfig'))
            × IsUpdate json netconfig cm s cm' netconfig'
            × IsAccepted netconfig)
  unfolding attempt after_validation
  attempt_cases fuel netconfig cm s enough small =
      let read = get_global_networks-IsStored json cm s in
      elim (validate_globalnet_configuration_cases (info_of json s) netconfig s.address s.range refl
        s.parsed (s.positive, s.fits) small) [
          | inl (e, info', v, why) ↦
              inl (e, rw (read, attempt, v, after_validation) refl, invalid why)
          | inr (size, v, (pos, fits), acc) ↦
              let info : GlobalnetInfo = record (info_of json s) {
                globalnet_cluster_size = size;
              } in
              let run : attempt json fuel netconfig.cluster_id netconfig (ok cm)
                  ≡ assign_and_plan json fuel netconfig.cluster_id netconfig cm info =
                rw (read, attempt, v, after_validation) refl in
              elim (find_network-map netconfig.cluster_id s.infos s.separated) [
                | inr (w, t, ts, e, eq, is) ↦ inr (
                    inl (
                      t,
                      run ∙ known_plan fuel netconfig cm info w t ts e eq,
                      rw e (unfold first_cidr in rw eq refl),
                    ))
                | inl (e, absent) ↦
                    let can : CanAllocate fuel info = record {
                      address = s.address;
                      range = s.range;
                      parsed = s.parsed;
                      above = s.above;
                      positive = pos;
                      fits = fits;
                      enough = enough;
                    } in
                    let outcome =
                      assign_globalnet_ips_cases fuel info netconfig
                        (AllCidrs-map s.infos s.separated) (λ f. (acc f).0) (λ f. can)
                        (rw e (unfold first_cidr in refl)) in
                    elim outcome [
                      | inl (t, given, is, apart, asked) ↦
                          let (cm', eq, update) =
                            new_plan fuel netconfig cm s info t refl e absent given is apart
                              asked in
                          inr (inr (cm', with_cidr netconfig t, run ∙ eq, update, acc))
                      | inr (e', given, why) ↦ inl (
                        e',
                        run ∙ failed_plan fuel netconfig cm info e' given,
                        unassigned size v why,
                      )
                    ]
              ]
        ]

  -- A round that sends a map has made the update that `IsUpdate` describes.
  pub attempt-sends :
      (fuel : ℕ) (netconfig netconfig' : Config) (cm cm' : ConfigMap) (s : IsStored json cm)
      → 2 ^ host_bits s.range ≤ fuel
      → netconfig.globalnet_cluster_size < 2 ^ 32
      → attempt json fuel netconfig.cluster_id netconfig (ok cm) ≡ some (sends cm', netconfig')
      → IsUpdate json netconfig cm s cm' netconfig'
  attempt-sends fuel netconfig netconfig' cm cm' s enough small sent =
      elim (attempt_cases fuel netconfig cm s enough small) [
        | inl (e, eq, _) ↦ absurd (cc (eq, sent))
        | inr (inl (t, eq, _)) ↦ absurd (cc (eq, sent))
        | inr (inr (cm2, netconfig2, eq, u, _)) ↦
            let same =
              some-injective (sends cm2, netconfig2) (sends cm', netconfig') (sym eq ∙ sent) in
            let same_map : cm2 ≡ cm' = ap (λ (p : Plan × Config). sent_map cm p.0) same in
            rw (same_map, ap (λ (p : Plan × Config). p.1) same) at u
      ]
