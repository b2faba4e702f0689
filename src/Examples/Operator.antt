-- ===== src/Examples/Operator.antt =====
-- The theorems on the settings, the broker's accounts and the reconciliation at work.
use cluster_fabric_operator.Base.{
  ℕ, suc, ◌≡◌, refl, ◌↔◌, ◌⊎◌, inl, inr, sym, Error, true, false, Text, codes, text_eq, List, [],
  ◌∷◌, ◌++◌, map, Some, at_head, in_tail, Option, none, some, ok, ApiError,
}
use cluster_fabric_operator.Broker.GlobalnetMap.{value_at}
use cluster_fabric_operator.Broker.Info.{
  BrokerInfo, BrokerConfig, create_broker_info, new_from_cluster,
}
use cluster_fabric_operator.Broker.Rbac.{Object, Request, create_sa_for_cluster}
use cluster_fabric_operator.Broker.Rbac.Present.{object_of}
use cluster_fabric_operator.Join.Settings.{
  is_valid_cluster_id, get_custom_core_dns_params, is_valid_custom_core_dns_config,
  get_image_overrides, invalid_image_name_of, is_none_of,
}
use cluster_fabric_operator.Join.Settings.ClusterId.{IsClusterId, is_valid_cluster_id_iff}
use cluster_fabric_operator.Join.Settings.Names.{IsParams, get_custom_core_dns_params-IsParams}
use cluster_fabric_operator.Join.Settings.Overrides.{
  setting, last_value, IsSetting, get_image_overrides-settings, get_image_overrides-panic,
}
use cluster_fabric_operator.Controller.{
  running, no_phase, DeployParts, Part, skip, deploy_submariner_broker, reconcile, reconcile_body,
}
use cluster_fabric_operator.Controller.Outcomes.{
  deploy_submariner_broker-no_size, reconcile_cases, Ends,
}
use cluster_fabric_operator.Broker.Rbac.Bound.{CreateLaws, create_sa_for_cluster-bound}
use cluster_fabric_operator.Examples.Scenario.{range_text, range_ip, range_net, parse_range}
use cluster_fabric_operator.Base.{count}
use cluster_fabric_operator.Base.{Error.no_secret}
use cluster_fabric_operator.Broker.Rbac.{service_account, role_binding, and_then, may_exist}
use cluster_fabric_operator.Controller.{failed, Phase}

is_valid_cluster_id_iff_example :
    (is_valid_cluster_id (codes "west-1") ≡ ok tt) ↔ IsClusterId (codes "west-1")
is_valid_cluster_id_iff_example = is_valid_cluster_id_iff (codes "west-1")

abbrev dns : Text
dns = codes "kube-system/dns"

dns_valid : is_valid_custom_core_dns_config dns ≡ ok tt
unfolding is_valid_custom_core_dns_config count
dns_valid = refl

get_custom_core_dns_params-IsParams_example :
    IsParams dns (get_custom_core_dns_params dns).0 (get_custom_core_dns_params dns).1
get_custom_core_dns_params-IsParams_example = get_custom_core_dns_params-IsParams dns dns_valid

abbrev gateway : Text × Text
gateway = (codes "submariner-gateway", codes "x")

gateway_named : invalid_image_name_of (codes "submariner-gateway") ≡ false
unfolding invalid_image_name_of is_none_of text_eq
gateway_named = refl

gateway_is : IsSetting gateway
gateway_is = (
  gateway_named,
  (
    refl,
    (
      refl,
      (
        refl,
        (
          refl,
          (
            refl,
            (
              refl,
              (
                refl,
                (
                  refl,
                  (
                    refl,
                    (refl, (refl, (refl, (refl, (refl, (refl, (refl, (refl, (refl, tt))))))))),
                  ),
                ),
              ),
            ),
          ),
        ),
      ),
    ),
  ),
  (refl, tt),
)

get_image_overrides-settings_example :
    (m : List (Text × Text)) × (get_image_overrides (map setting (gateway ∷ [])) ≡ some (ok m))
    × ((key : Text) → value_at key m ≡ last_value key (gateway ∷ []) [])
get_image_overrides-settings_example = get_image_overrides-settings (gateway ∷ []) (gateway_is, tt)

get_image_overrides-panic_example :
    get_image_overrides (map setting (gateway ∷ []) ++ (codes "submariner-gateway" ∷ [])) ≡ none
get_image_overrides-panic_example =
    get_image_overrides-panic (gateway ∷ []) (codes "submariner-gateway") [] (gateway_is, tt)
      gateway_named gateway_is.1

-- A server that takes every request, and keeps them.
abbrev log_request : Request → List Request → Option ApiError × List Request
log_request r log = (none, r ∷ log)

abbrev Logged : Object → List Request → Type 0
Logged o log = Some (λ r. object_of r ≡ o) log

-- The state is the list of the objects.
abbrev create_object : Request → List Object → Option ApiError × List Object
create_object r objects = (none, object_of r ∷ objects)

abbrev IsIn : Object → List Object → Type 0
IsIn o objects = Some (λ p. p ≡ o) objects

create_laws : CreateLaws create_object IsIn
create_laws = record {
  keeps = λ o p w there. in_tail there;
  makes = λ o w e. at_head refl;
  exists = λ o w e. absurd (cc e);
  adds = λ o p w there. added o p w there;
}
  where
    added : (o p : Object) (w : List Object) → IsIn p (o ∷ w) → (p ≡ o) ⊎ IsIn p w
    added o p w (at_head e) = inl (sym e)
    added o p w (in_tail there) = inr there

abbrev with_account : List Object
with_account = (create_sa_for_cluster create_object (codes "west") []).1

create_sa_for_cluster-bound_example :
    ((o : Object) → IsIn o [] → IsIn o with_account)
    × IsIn (service_account (codes "cluster-west")) with_account
    × (IsIn
          (role_binding
            (codes "cluster-west-submariner-k8s-broker-cluster")
            (codes "cluster-west")
            (codes "submariner-k8s-broker-cluster"))
          with_account
        ⊎ ((b : Text) × (q : Text) × IsIn
              (role_binding (codes "cluster-west-submariner-k8s-broker-cluster") b q)
              []))
unfolding create_sa_for_cluster and_then may_exist
create_sa_for_cluster-bound_example =
    create_sa_for_cluster-bound create_object IsIn create_laws (codes "west") [] refl

abbrev config : BrokerConfig
config = record {
  service_discovery_enabled = true;
  globalnet_enable = true;
  globalnet_cidr_range = range_text;
  default_globalnet_cluster_size = 0;
  default_custom_domains = [];
}

abbrev broker_info : BrokerInfo
broker_info = record {
  broker_url = codes "host";
  client_token = [];
  ipsec_psk = [];
  components = [];
  custom_domains = none;
  globalnet_cidr_range = range_text;
  default_globalnet_cluster_size = 0;
}

created : create_broker_info (ok []) (ok []) (codes "host") config ≡ ok broker_info
unfolding create_broker_info new_from_cluster
created = refl

-- Parts that count their calls.
abbrev counted : Part ℕ
counted n = (none, suc n)

abbrev parts : DeployParts ℕ
parts = record {
  ensure_broker = λ s g. counted;
  ensure_operator = counted;
  ensure_broker_cr = λ s. counted;
  validate_existing_global_networks = counted;
  create_globalnet_config_map = λ e r n. counted;
  create_broker_info_config_map = λ c. counted;
}

deploy_submariner_broker-no_size_example :
    (deploy_submariner_broker parts config 0 ≡ (none, 0))
    × (reconcile
          (λ w. ok no_phase)
          (reconcile_body true false (deploy_submariner_broker parts config) skip)
          0
        ≡ ((none, some running), 0))
deploy_submariner_broker-no_size_example =
    deploy_submariner_broker-no_size parts config range_ip range_net 0 (λ w. ok no_phase) refl
      parse_range (inl refl) refl

abbrev fails_to_join : Part ℕ
fails_to_join n = (some no_secret, suc n)

abbrev reconciled : (Option Error × Option Phase) × ℕ
reconciled = reconcile (λ w. ok running) (reconcile_body true true counted fails_to_join) 0

reconcile_cases_example :
    (◌≡◌ {A = Option Error} none none
      × ((fails_to_join 1).0 ≡ none)
      × Ends running reconciled running none 2)
    ⊎ ((e : Error) × (none ≡ some e) × Ends running reconciled failed (some e) 1)
    ⊎ ((e : Error) × ◌≡◌ {A = Option Error} none none
        × (some no_secret ≡ some e)
        × Ends running reconciled failed (some e) 2)
reconcile_cases_example = reconcile_cases (λ w. ok running) counted fails_to_join 0 running refl
