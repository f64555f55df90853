-- ===== src/Controllers/Dashboards/Process.antt =====
-- One dashboard of the loop in `reconcileDashboards`.
use grafana_operator.Common.{
  String, ◌==◌, ℕ, eqb, Bool, true, false, Option, none, some, ℤ, pos, Assoc, if◌then◌else◌,
}
use grafana_operator.Common.Run.{◌>>=◌, return}
use grafana_operator.Dashboard.Resource.{GrafanaDashboard}
use grafana_operator.Dashboard.Pipeline.{Pipeline, new_dashboard_pipeline}
use grafana_operator.Dashboard.Processing.{
  Outcome, unchanged, processed, error, panicked, process_dashboard,
}
use grafana_operator.Api.Types.{
  GrafanaClient, GrafanaFolderResponse, DashboardBody, GrafanaResponse,
}
use grafana_operator.Api.Users.{Accounts}
use grafana_operator.Controllers.Selectors.{matches_selector}
use grafana_operator.Controllers.Dashboards.Known.{known_refs, find_hash, find_uid}
use grafana_operator.Controllers.Dashboards.Publish.{
  Outside, DashboardsState, Step, outside, set_plugins, get, or_panic, manage_error, manage_success,
}

abbrev pub folder_name_of : GrafanaDashboard → String
folder_name_of d =
    if d.spec.custom_folder_name == "" then d.namespace else d.spec.custom_folder_name

abbrev folder_id_of : Option ℤ → ℤ
folder_id_of none = pos 0
folder_id_of (some id) = id

-- `*response.Dashboard.ID`, which panics if either pointer is nil.
abbrev dashboard_id : Option DashboardBody → Option ℕ
dashboard_id none = none
dashboard_id (some body) = body.id

-- The namespace's labels match the selector; `none` is an error.
abbrev labels_match : (Assoc String → Option Bool) → Option (Assoc String) → Option Bool
labels_match matches none = none
labels_match matches (some labels) = matches labels

-- An error of the first run counts, even if the dashboard has been processed again since; an error of the
-- second run ends the dashboard in the same way.
abbrev counted : (first again : Outcome) → Outcome
counted error again = error
counted _ again = again

module _ (o : Outside) (client : GrafanaClient o.Error (Accounts o.site)) where
  unfoldable pub check_namespace_labels :
      (selector : o.LabelSelector) → GrafanaDashboard → Accounts o.site → Option Bool
  unfolding matches_selector
  check_namespace_labels selector d accounts =
      labels_match
        (λ labels. matches_selector o.LabelSelector o.label_selector_as_selector labels selector)
        (o.get_namespace_labels d.namespace accounts)

  abbrev pub not_panicked :
      DashboardsState o → Pipeline × Outcome → Option (DashboardsState o × (Pipeline × Outcome))
  not_panicked s (p, panicked) = none
  not_panicked s (p, outcome) = some (s, (p, outcome))

  -- The pipeline's result; a panic in it is one of the controller.
  unfoldable pub run_pipeline :
      Pipeline
      → (known_hash : String) → (folder_id : ℤ) → (folder_name : String) → (force_recreate : Bool)
      → Step o (Pipeline × Outcome)
  unfolding process_dashboard
  run_pipeline p known_hash folder_id folder_name force_recreate s = not_panicked s (
      process_dashboard o.library (o.world s.accounts) p known_hash (some folder_id) folder_name
        force_recreate)

  abbrev pub submitted :
      GrafanaDashboard
      → (folder_id : ℤ) → (folder_name : String) → GrafanaResponse × Option o.Error
      → Step o Unit
  submitted d folder_id folder_name (response, some e) = manage_error o d
  submitted d folder_id folder_name (response, none) =
      manage_success o client d folder_id folder_name

  abbrev pub submit_document :
      GrafanaDashboard → (folder_id : ℤ) → (folder_name raw : String) → Step o Unit
  submit_document d folder_id folder_name raw = do
    result ← outside o (client.create_or_update_dashboard raw folder_id folder_name)
    submitted d folder_id folder_name result

  abbrev pub if_labels_match : GrafanaDashboard → Option Bool → Step o Unit → Step o Unit
  if_labels_match d none next = manage_error o d
  if_labels_match d (some false) next = return tt
  if_labels_match d (some true) next = next

  abbrev pub if_in_namespace : GrafanaDashboard → Option o.LabelSelector → Step o Unit → Step o Unit
  if_in_namespace d none next = next
  if_in_namespace d (some selector) next = do
    s ← get o
    if_labels_match d (check_namespace_labels selector d s.accounts) next

  -- What is done with the outcome that counts.
  unfoldable pub finish_dashboard :
      GrafanaDashboard → (folder_id : ℤ) → (folder_name : String) → Outcome → Step o Unit
  unfolding set_plugins check_namespace_labels manage_success get manage_error outside or_panic
  finish_dashboard d folder_id folder_name (processed raw) = do
    s ← get o
    if_in_namespace d s.state.dashboard_namespace_selector
        (submit_document d folder_id folder_name raw)
  finish_dashboard d folder_id folder_name unchanged = set_plugins o d
  finish_dashboard d folder_id folder_name error = manage_error o d
  finish_dashboard d folder_id folder_name panicked = or_panic o none

  unfoldable pub process_again :
      (known_hash : String)
      → (folder_id : ℤ) → (folder_name : String) → Pipeline × Outcome
      → (id : ℕ) → Step o (Pipeline × Outcome)
  unfolding run_pipeline
  process_again known_hash folder_id folder_name (p, first) id =
      if eqb id 0
      then (do
        (q, again) ← run_pipeline p known_hash folder_id folder_name true
        return (q, counted first again))
      else return (p, first)

  -- Whether Grafana still has a dashboard that is known. If it was not found, or the search failed, the
  -- document is made again.
  unfoldable pub recheck :
      (known_hash known_uid : String)
      → (folder_id : ℤ) → (folder_name : String) → Pipeline × Outcome
      → Step o (Pipeline × Outcome)
  unfolding process_again outside or_panic
  recheck known_hash known_uid folder_id folder_name (p, first) =
      if known_uid == "" then return (p, first) else (do
        (response, e) ← outside o (client.get_dashboard known_uid)
        id ← or_panic o (dashboard_id response.dashboard)
        process_again known_hash folder_id folder_name (p, first) id)

  abbrev pub process_in_folder :
      GrafanaDashboard
      → (folder_name : String) → GrafanaFolderResponse × Option o.Error
      → Step o Unit
  process_in_folder d folder_name (folder, some e) = manage_error o d
  process_in_folder d folder_name (folder, none) = do
    s ← get o
    let folder_id = folder_id_of folder.id
    let known_hash = find_hash (known_refs s.known s.config) d
    let known_uid = find_uid (known_refs s.known s.config) d
    first ← run_pipeline (new_dashboard_pipeline d) known_hash folder_id folder_name false
    (p, outcome) ← recheck known_hash known_uid folder_id folder_name first
    finish_dashboard p.dashboard folder_id folder_name outcome

  unfoldable pub reconcile_dashboard : GrafanaDashboard → Step o Unit
  unfolding run_pipeline recheck finish_dashboard find_hash find_uid get manage_error outside
  reconcile_dashboard d = do
    folder ← outside o (client.create_or_update_folder (folder_name_of d))
    process_in_folder d (folder_name_of d) folder
