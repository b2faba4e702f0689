-- ===== src/Discovery/Plugins/Openshift.antt =====
-- controllers/discovery/network/openshift4.go: the CIDRs in OpenShift's network resource. Where the
-- code panics, the result is `none`.
use cluster_fabric_operator.Base.{
  ◌≡◌, refl, Text, List, [], ◌∷◌, map, Option, none, some, Result, ok, err, ◌>>=◌, Error,
}
use cluster_fabric_operator.Base.{Error.api, ApiError.not_found, Error.field_not_found}
use cluster_fabric_operator.Discovery.{Discovered}

-- The answer to the search for a field: it is missing, of another type, or there.
pub data Field {ℓ} (A : Type ℓ) : Type ℓ where
  missing : Field A
  malformed : Error → Field A
  present : A → Field A

-- The fields of `spec`. An item of the cluster networks has its field `cidr`; an item of the service
-- networks that is no string is `none`.
pub record NetworkResource : Type 0 where
  pub cluster_network : Field (List (Field Text))
  pub service_network : Field (List (Option Text))
  pub network_type : Field Text

abbrev pub field {ℓ} : {A : Type ℓ} → Field A → Result A
field missing = err field_not_found
field (malformed e) = err e
field (present a) = ok a

-- The loop over the cluster networks.
unfoldable pub pod_cidrs_from : List (Field Text) → Result (List Text)
pod_cidrs_from [] = ok []
pod_cidrs_from (item ∷ rest) =
    field item >>= λ cidr. pod_cidrs_from rest >>= λ cidrs. ok (cidr ∷ cidrs)

-- The loop over the service networks.
unfoldable pub service_cidrs_from : List (Option Text) → Option (List Text)
service_cidrs_from [] = some []
service_cidrs_from (none ∷ rest) = none
service_cidrs_from (some cidr ∷ rest) = elim (service_cidrs_from rest) [
  | none ↦ none
  | some cidrs ↦ some (cidr ∷ cidrs)
]

-- The end of `parseOS4Network`, behind its loops.
abbrev pub typed_network : List Text → List Text → Result Text → Discovered
typed_network pods services (err e) = err e
typed_network pods services (ok plugin) = ok (
    some (record {
      pod_cidrs = pods;
      service_cidrs = services;
      network_plugin = plugin;
      plugin_settings = [];
      global_cidr = [];
    }))

abbrev pub with_services_from :
    List Text → Result (List (Option Text)) → Result Text → Option Discovered
with_services_from pods (err e) type = some (err e)
with_services_from pods (ok items) type = elim (service_cidrs_from items) [
  | none ↦ none
  | some services ↦ some (typed_network pods services type)
]

-- `parseOS4Network`
unfoldable pub parse_os4_network : NetworkResource → Option Discovered
parse_os4_network cr = elim (field cr.cluster_network >>= pod_cidrs_from) [
  | err e ↦ some (err e)
  | ok pods ↦ with_services_from pods (field cr.service_network) (field cr.network_type)
]

abbrev pub read_network : Result NetworkResource → Option Discovered
read_network (ok cr) = parse_os4_network cr
read_network (err (api not_found)) = some (ok none)
read_network (err e) = some (err e)

-- `discoverOpenShift4Network`, from the read of the resource; there is none without a client.
unfoldable pub discover_open_shift4_network : Option (Result NetworkResource) → Option Discovered
discover_open_shift4_network none = some (ok none)
discover_open_shift4_network (some read) = read_network read

pod_cidrs_from-present : (pods : List Text) → pod_cidrs_from (map (λ c. present c) pods) ≡ ok pods
unfolding pod_cidrs_from
pod_cidrs_from-present [] = refl
pod_cidrs_from-present (c ∷ pods) = rw (pod_cidrs_from-present pods) refl

service_cidrs_from-some :
    (services : List Text) → service_cidrs_from (map (λ c. some c) services) ≡ some services
unfolding service_cidrs_from
service_cidrs_from-some [] = refl
service_cidrs_from-some (c ∷ services) = rw (service_cidrs_from-some services) refl

-- From a resource that has all its fields, the plugin takes every cluster network and every service
-- network, in order, and the type of the network as the plugin.
pub discover_open_shift4_network-all :
    (pods services : List Text) (plugin : Text)
    → discover_open_shift4_network (
        some (
          ok (record {
            cluster_network = present (map (λ c. present c) pods);
            service_network = present (map (λ c. some c) services);
            network_type = present plugin;
          })))
      ≡ some (
          ok (
            some (record {
              pod_cidrs = pods;
              service_cidrs = services;
              network_plugin = plugin;
              plugin_settings = [];
              global_cidr = [];
            })))
unfolding discover_open_shift4_network parse_os4_network
discover_open_shift4_network-all pods services plugin =
    rw
      (
        discover_open_shift4_network,
        parse_os4_network,
        pod_cidrs_from-present pods,
        with_services_from,
        service_cidrs_from-some services,
      )
      refl
