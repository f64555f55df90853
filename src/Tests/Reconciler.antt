-- ===== src/Tests/Reconciler.antt =====
-- The reconciler (controllers/grafana/grafana_reconciler.go) at concrete states.
use grafana_operator.Common.{
  String, ◌==◌, ◌≡◌, refl, Bool, true, false, Option, none, some, List, [], ◌∷◌, ◌++◌,
  if◌then◌else◌,
}
use grafana_operator.Reconciler.{
  Action, service, deployment, update, delete_service, ready, ClusterState, GrafanaSpec,
  get_service, get_config, get_deployment, get_external_access, get_readiness, reconcile,
}
use grafana_operator.Reconciler.Service.{get_service-settles}
use grafana_operator.Reconciler.Actions.{
  no_write, none_foreign, reconcile-deployment_last, get_external_access-none_foreign,
}

abbrev any_name : String → Bool
any_name s = true

abbrev parts : String → List String
parts url = "https:" ∷ "" ∷ "auth.example.org" ∷ []

abbrev state : ClusterState
state = record {
  service_name = some "new";
  has_data_pvc = false;
  has_service_account = true;
  has_config = true;
  has_datasources = true;
  has_route = true;
  has_ingress = false;
  has_admin_secret = true;
  containers = some [];
}

abbrev spec : GrafanaSpec
spec = record {
  service = some "new";
  used_persistent_volume = false;
  skip_service_account = none;
  skip_create_admin_account = none;
  ingress_enabled = some true;
  prefer_service = none;
  api_url = some "https://auth.example.org/userinfo";
  previous_service_name = "old";
}

abbrev without_oauth : GrafanaSpec
without_oauth = record spec { api_url = none }

old_service_deleted : get_service any_name state spec ≡ some (delete_service "old" ∷ [], "")
unfolding get_service
old_service_deleted = refl

get_service-settles_example :
    get_service any_name state (record spec { previous_service_name = "" })
    ≡ some (update service ∷ [], if "" == "" then "new" else "")
get_service-settles_example =
    get_service-settles any_name state spec "new" "" (delete_service "old" ∷ []) refl
      old_service_deleted

abbrev actions_of : Option (List Action × String) → List Action
actions_of none = []
actions_of (some (actions, previous)) = actions

reconciled :
    reconcile any_name parts true state spec
    ≡ some (actions_of (reconcile any_name parts true state spec), "")
unfolding reconcile
reconciled = refl

reconcile-deployment_last_example :
    (before : List Action) × (config_actions : List Action) × (between : List Action)
    × (behind : List Action) × (get_config parts state spec ≡ some config_actions)
    × (actions_of (reconcile any_name parts true state spec)
        ≡ before
          ++ (config_actions
              ++ (between ++ (get_deployment state ++ (behind ++ ready deployment ∷ [])))))
    × (no_write behind ≡ true)
reconcile-deployment_last_example =
    reconcile-deployment_last any_name parts true state spec
      (actions_of (reconcile any_name parts true state spec)) "" reconciled

-- Without an OAuth provider, and with an URL of two parts.
panics : reconcile any_name parts true state without_oauth ≡ none
unfolding reconcile
panics = refl

panics_without_host : reconcile any_name (λ url. url ∷ []) true state spec ≡ none
unfolding reconcile
panics_without_host = refl

get_external_access-none_foreign_example :
    (none_foreign true (get_external_access true state spec) ≡ true)
    × (none_foreign true (get_readiness true spec) ≡ true)
get_external_access-none_foreign_example = get_external_access-none_foreign true state spec
