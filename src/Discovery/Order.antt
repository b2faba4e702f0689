-- ===== src/Discovery/Order.antt =====
-- What the discovery prefers.
use cluster_fabric_operator.Base.{
  ◌≡◌, refl, ◌∙◌, Text, List, [], ◌∷◌, ◌++◌, All, Option, none, some, Result, ok, err,
  if◌then◌else◌,
}
use cluster_fabric_operator.Discovery.{
  ClusterNetwork, Discovered, is_complete, network_plugins_discovery, complete_with, or_empty,
  discover,
}

silent-append :
    (before rest : List Discovered)
    → All (λ d. d ≡ ok none) before
    → network_plugins_discovery (before ++ rest) ≡ network_plugins_discovery rest
unfolding network_plugins_discovery
silent-append [] rest _ = refl
silent-append (d ∷ before) rest (e, silent) = rw e (silent-append before rest silent)

-- The CIDRs of one kind of what the generic discovery found, if anything.
abbrev pub found_by : (ClusterNetwork → List Text) → Option ClusterNetwork → List Text
found_by cidrs none = []
found_by cidrs (some generic) = cidrs generic

-- The CIDRs of the plugin, or, where it has none, others.
abbrev pub kept_or : List Text → List Text → List Text
kept_or [] others = others
kept_or (x ∷ xs) others = x ∷ xs

-- The global CIDR that was read, if it was.
abbrev pub read_or_none : Result Text → Text
read_or_none (ok t) = t
read_or_none (err e) = []

same_cidr : (r : Result Text) → or_empty r ≡ read_or_none r
same_cidr (ok t) = refl
same_cidr (err e) = refl

completed :
    (pods services : List Text) (plugin global_cidr : Text) (settings : List (Text × Text))
    (generic : Option ClusterNetwork)
    → let net : ClusterNetwork = record {
      pod_cidrs = pods;
      service_cidrs = services;
      network_plugin = plugin;
      plugin_settings = settings;
      global_cidr = global_cidr;
    } in
      (if is_complete net then ok (some net) else complete_with net (ok generic))
      ≡ ok (
          some (record {
            pod_cidrs = kept_or pods (found_by (λ n. n.pod_cidrs) generic);
            service_cidrs = kept_or services (found_by (λ n. n.service_cidrs) generic);
            network_plugin = plugin;
            plugin_settings = settings;
            global_cidr = global_cidr;
          }))
unfolding is_complete complete_with
completed [] [] plugin global_cidr settings none = refl
completed (p ∷ ps) [] plugin global_cidr settings none = refl
completed [] [] plugin global_cidr settings (some generic) = refl
completed (p ∷ ps) [] plugin global_cidr settings (some generic) = refl
completed [] (s ∷ ss) plugin global_cidr settings none = refl
completed [] (s ∷ ss) plugin global_cidr settings (some generic) = refl
completed (p ∷ ps) (s ∷ ss) plugin global_cidr settings generic = refl

-- The first plugin that finds a network decides: its name, its settings and its CIDRs are kept, and
-- the generic discovery only adds the kind of CIDR that the plugin did not find, where it finds a
-- network itself. The plugins before find nothing, and the generic discovery does not fail.
pub discover-first :
    (before after : List Discovered) (net : ClusterNetwork) (generic : Option ClusterNetwork)
    (global_cidr : Result Text)
    → All (λ d. d ≡ ok none) before
    → discover (before ++ (ok (some net) ∷ after)) (ok generic) global_cidr
      ≡ ok (
          some (record {
            pod_cidrs = kept_or net.pod_cidrs (found_by (λ n. n.pod_cidrs) generic);
            service_cidrs = kept_or net.service_cidrs (found_by (λ n. n.service_cidrs) generic);
            network_plugin = net.network_plugin;
            plugin_settings = net.plugin_settings;
            global_cidr = read_or_none global_cidr;
          }))
unfolding discover
discover-first before after net generic global_cidr silent =
    let first : network_plugins_discovery (before ++ (ok (some net) ∷ after)) ≡ ok (some net) =
      silent-append before (ok (some net) ∷ after) silent
      ∙ (unfold network_plugins_discovery in refl) in
    rw (first, discover, same_cidr global_cidr)
      (completed net.pod_cidrs net.service_cidrs net.network_plugin (read_or_none global_cidr)
        net.plugin_settings generic)
