-- ===== src/Controllers/Dashboards/Remove.antt =====
-- The loop of `reconcileDashboards` over the dashboards to delete.
use grafana_operator.Common.{
  String, ◌==◌, Bool, true, false, ◌||◌, Option, none, some, List, [], ◌∷◌, ℤ, if◌then◌else◌,
}
use grafana_operator.Common.Run.{◌>>=◌, ◌>>◌, return}
use grafana_operator.Dashboard.Resource.{GrafanaDashboardRef}
use grafana_operator.Config.ConfigValue.{flag, add_config_item}
use grafana_operator.Config.ControllerConfig.{
  ControllerConfig, remove_plugins_for, remove_dashboard, get_dashboards,
}
use grafana_operator.Api.Types.{GrafanaClient, GrafanaResponse}
use grafana_operator.Api.Users.{Accounts}
use grafana_operator.Controllers.Dashboards.Publish.{Outside, Step, outside, get, or_panic}

-- What is logged of the response: its message, and its status if there is an error. A nil pointer
-- panics.
abbrev pub logged : {E : Type 0} → GrafanaResponse × Option E → Option String
logged (response, none) = response.message
logged (response, some e) = elim response.status [ none ↦ none | some _ ↦ response.message ]

-- The configuration without the dashboard.
unfoldable pub forget : GrafanaDashboardRef → ControllerConfig → ControllerConfig
unfolding remove_plugins_for remove_dashboard add_config_item
forget dashboard c =
    let removed =
      remove_dashboard dashboard.uid (remove_plugins_for dashboard.namespace dashboard.name c) in
    record removed {
      values = add_config_item "grafana.dashboards.synced" (flag true) removed.values;
    }

abbrev is_managed_folder : GrafanaDashboardRef → Bool
is_managed_folder dashboard =
    dashboard.folder_name == "" || dashboard.folder_name == dashboard.namespace

-- What is logged of the folder if there is an error. A nil pointer panics.
abbrev pub folder_logged : {E : Type 0} → Option E → (folder_id : Option ℤ) → Option (Unit {0})
folder_logged none folder_id = some tt
folder_logged (some e) none = none
folder_logged (some e) (some id) = some tt

module _ (o : Outside) (client : GrafanaClient o.Error (Accounts o.site)) (namespace : String) where
  -- The configuration changes, and the known dashboards are not looked at again but through it.
  unfoldable pub forget_dashboard : GrafanaDashboardRef → Step o Unit
  unfolding forget
  forget_dashboard dashboard s = some (record s { config = forget dashboard s.config }, tt)

  -- Whether the loop goes on.
  abbrev pub delete_folder_if : GrafanaDashboardRef → (safe : Bool) → Step o Bool
  delete_folder_if dashboard false = return false
  delete_folder_if dashboard true = do
    e ← outside o (client.delete_folder dashboard.folder_id)
    or_panic o (folder_logged e dashboard.folder_id)
    return true

  abbrev pub clean_folder : GrafanaDashboardRef → Step o Bool
  clean_folder dashboard =
      if is_managed_folder dashboard
      then (do
        s ← get o
        safe ←
            outside o
              (client.safe_to_delete (get_dashboards namespace s.config) dashboard.folder_id)
        delete_folder_if dashboard safe)
      else return true

  unfoldable pub delete_dashboard : GrafanaDashboardRef → Step o Bool
  unfolding forget get_dashboards outside or_panic get forget_dashboard
  delete_dashboard dashboard = do
    status ← outside o (client.delete_dashboard_by_uid dashboard.uid)
    or_panic o (logged status)
    forget_dashboard dashboard
    clean_folder dashboard

  abbrev pub go_on : Bool → Step o Unit → Step o Unit
  go_on true rest = rest
  go_on false rest = return tt

  -- A folder that other dashboards use ends the loop.
  unfoldable pub delete_dashboards : List GrafanaDashboardRef → Step o Unit
  unfolding delete_dashboard
  delete_dashboards [] = return tt
  delete_dashboards (dashboard ∷ l) = do
    goes_on ← delete_dashboard dashboard
    go_on goes_on (delete_dashboards l)
