-- ===== src/Controllers/Dashboards/Distinct/Loops.antt =====
-- A reconciliation keeps the identifiers distinct, dashboard by dashboard.
use grafana_operator.Common.{String, ◌≡◌, Bool, true, false, Option, none, some, List, [], ◌∷◌, ℤ}
use grafana_operator.Common.Run.{Result, ok, err}
use grafana_operator.Common.Keeps.{Ensures, Keeps, Keeps-bind, Keeps-then, Keeps-result}
use grafana_operator.Dashboard.Resource.{GrafanaDashboard, GrafanaDashboardRef}
use grafana_operator.Dashboard.Pipeline.{Pipeline}
use grafana_operator.Dashboard.Processing.{Outcome, unchanged, processed, error, panicked}
use grafana_operator.Config.ControllerConfig.{remove_plugins_for}
use grafana_operator.Config.ControllerConfig.Dashboards.{HasDistinctUids}
use grafana_operator.Config.ControllerConfig.Removal.{find_ref-remove_dashboard}
use grafana_operator.Api.Types.{GrafanaClient, GrafanaResponse, GrafanaFolderResponse}
use grafana_operator.Api.Users.{Accounts}
use grafana_operator.Controllers.Dashboards.Publish.{
  Outside, DashboardsState, Step, found, not_found, failed,
}
use grafana_operator.Controllers.Dashboards.Process.{
  submitted, if_labels_match, if_in_namespace, finish_dashboard, not_panicked, run_pipeline,
  recheck, process_again, process_in_folder, reconcile_dashboard,
}
use grafana_operator.Controllers.Dashboards.Remove.{
  forget, forget_dashboard, delete_folder_if, delete_dashboard, go_on, delete_dashboards,
}
use grafana_operator.Controllers.Dashboards.Distinct.{
  Distinct, step_rules, manage_success-Keeps, manage_error-Keeps, set_plugins-Keeps, or_panic-Keeps,
}
use grafana_operator.Controllers.Dashboards.Reconcile.{
  Reconciled, Request, reconcile_each, start, reconcile_items, reconcile_dashboards,
  reconcile_instance, reconcile_if_selectors, reconcile_with, if_ready, reconcile_request,
}

module _ (o : Outside) (client : GrafanaClient o.Error (Accounts o.site)) where
  submitted-Keeps :
      (d : GrafanaDashboard) (folder_id : ℤ) (folder_name : String)
      (r : GrafanaResponse × Option o.Error)
      → Keeps (Distinct o) (submitted o client d folder_id folder_name r)
  submitted-Keeps d folder_id folder_name (response, none) =
      manage_success-Keeps o client d folder_id folder_name
  submitted-Keeps d folder_id folder_name (response, some e) = manage_error-Keeps o d

  if_labels_match-Keeps :
      (d : GrafanaDashboard) (b : Option Bool) (next : Step o Unit)
      → Keeps (Distinct o) next
      → Keeps (Distinct o) (if_labels_match o client d b next)
  if_labels_match-Keeps d none next k = manage_error-Keeps o d
  if_labels_match-Keeps d (some false) next k = search step_rules
  if_labels_match-Keeps d (some true) next k = k

  if_in_namespace-Keeps :
      (d : GrafanaDashboard) (selector : Option o.LabelSelector) (next : Step o Unit)
      → Keeps (Distinct o) next
      → Keeps (Distinct o) (if_in_namespace o client d selector next)
  if_in_namespace-Keeps d none next k = k
  if_in_namespace-Keeps d (some selector) next k =
      search (step_rules, if_labels_match-Keeps) depth 9

  finish_dashboard-Keeps :
      (d : GrafanaDashboard) (folder_id : ℤ) (folder_name : String) (outcome : Outcome)
      → Keeps (Distinct o) (finish_dashboard o client d folder_id folder_name outcome)
  unfolding finish_dashboard
  finish_dashboard-Keeps d folder_id folder_name (processed raw) =
      search (step_rules, if_in_namespace-Keeps, submitted-Keeps) depth 12
  finish_dashboard-Keeps d folder_id folder_name unchanged = set_plugins-Keeps o d
  finish_dashboard-Keeps d folder_id folder_name error = manage_error-Keeps o d
  finish_dashboard-Keeps d folder_id folder_name panicked = or_panic-Keeps o none

  Ensures-not_panicked :
      (s : DashboardsState o) (r : Pipeline × Outcome)
      → (Distinct o) s
      → Ensures (Distinct o) (not_panicked o client s r)
  Ensures-not_panicked s (p, unchanged) h = h
  Ensures-not_panicked s (p, processed raw) h = h
  Ensures-not_panicked s (p, error) h = h
  Ensures-not_panicked s (p, panicked) h = tt

  run_pipeline-Keeps :
      (p : Pipeline) (known_hash : String) (folder_id : ℤ) (folder_name : String) (force : Bool)
      → Keeps (Distinct o) (run_pipeline o client p known_hash folder_id folder_name force)
  unfolding run_pipeline
  run_pipeline-Keeps p known_hash folder_id folder_name force = record {
    at = λ s h. Ensures-not_panicked s _ h;
  }

  recheck-Keeps :
      (known_hash known_uid : String) (folder_id : ℤ) (folder_name : String)
      (first : Pipeline × Outcome)
      → Keeps (Distinct o) (recheck o client known_hash known_uid folder_id folder_name first)
  unfolding recheck process_again
  recheck-Keeps known_hash known_uid folder_id folder_name (p, first) =
      search (step_rules, run_pipeline-Keeps) depth 15

  process_in_folder-Keeps :
      (d : GrafanaDashboard) (folder_name : String) (r : GrafanaFolderResponse × Option o.Error)
      → Keeps (Distinct o) (process_in_folder o client d folder_name r)
  process_in_folder-Keeps d folder_name (folder, none) =
      search (step_rules, run_pipeline-Keeps, recheck-Keeps, finish_dashboard-Keeps) depth 15
  process_in_folder-Keeps d folder_name (folder, some e) = manage_error-Keeps o d

  pub reconcile_dashboard-Keeps :
      (d : GrafanaDashboard) → Keeps (Distinct o) (reconcile_dashboard o client d)
  unfolding reconcile_dashboard
  reconcile_dashboard-Keeps d = search (step_rules, process_in_folder-Keeps) depth 9

  forget_dashboard-Keeps :
      (namespace : String) (d : GrafanaDashboardRef)
      → Keeps (Distinct o) (forget_dashboard o client namespace d)
  unfolding forget_dashboard forget remove_plugins_for
  forget_dashboard-Keeps namespace d = record {
    at = λ s h.
        (find_ref-remove_dashboard "" d.uid (remove_plugins_for d.namespace d.name s.config) h).0;
  }

  delete_folder_if-Keeps :
      (namespace : String) (d : GrafanaDashboardRef) (safe : Bool)
      → Keeps (Distinct o) (delete_folder_if o client namespace d safe)
  delete_folder_if-Keeps namespace d false = search step_rules
  delete_folder_if-Keeps namespace d true = search step_rules depth 9

  delete_dashboard-Keeps :
      (namespace : String) (d : GrafanaDashboardRef)
      → Keeps (Distinct o) (delete_dashboard o client namespace d)
  unfolding delete_dashboard
  delete_dashboard-Keeps namespace d =
      search (step_rules, delete_folder_if-Keeps, forget_dashboard-Keeps) depth 15

  go_on-Keeps :
      (namespace : String) (b : Bool) (next : Step o Unit)
      → Keeps (Distinct o) next
      → Keeps (Distinct o) (go_on o client namespace b next)
  go_on-Keeps namespace false next k = search step_rules
  go_on-Keeps namespace true next k = k

  delete_dashboards-Keeps :
      (namespace : String) (l : List GrafanaDashboardRef)
      → Keeps (Distinct o) (delete_dashboards o client namespace l)
  unfolding delete_dashboards
  delete_dashboards-Keeps namespace [] = search step_rules
  delete_dashboards-Keeps namespace (d ∷ l) =
      Keeps-bind _ _ (delete_dashboard-Keeps namespace d)
        (λ goes_on. go_on-Keeps namespace goes_on _ (delete_dashboards-Keeps namespace l))

  reconcile_each-Keeps :
      (l : List GrafanaDashboard) → Keeps (Distinct o) (reconcile_each o client l)
  unfolding reconcile_each
  reconcile_each-Keeps [] = search step_rules
  reconcile_each-Keeps (d ∷ l) =
      Keeps-then _ _ (reconcile_dashboard-Keeps d) (reconcile_each-Keeps l)

  start-Keeps : (namespace : String) → Keeps (Distinct o) (start o namespace)
  unfolding start
  start-Keeps namespace = record { at = λ s h. h }

  reconcile_items-Keeps :
      (namespace : String) (r : Result o.Error (List GrafanaDashboard))
      → Keeps (Distinct o) (reconcile_items o client namespace r)
  reconcile_items-Keeps namespace (err e) = search step_rules
  reconcile_items-Keeps namespace (ok items) =
      search (step_rules, reconcile_each-Keeps, delete_dashboards-Keeps) depth 12

  reconcile_dashboards-Keeps :
      (namespace : String) → Keeps (Distinct o) (reconcile_dashboards o namespace client)
  unfolding reconcile_dashboards
  reconcile_dashboards-Keeps namespace =
      search (step_rules, start-Keeps, reconcile_items-Keeps) depth 12

  reconcile_if_selectors-Keeps :
      (request : Request) (selectors : Option (List o.LabelSelector)) (accounts : Accounts o.site)
      → Keeps (Distinct o) (reconcile_if_selectors o client request selectors accounts)
  reconcile_if_selectors-Keeps request none accounts = search step_rules
  reconcile_if_selectors-Keeps request (some selectors) accounts =
      elim (o.get_dashboard request.namespace request.name accounts)
        as (λ f. Keeps (Distinct o) (reconcile_instance o client request (some selectors) f)) [
          | failed ↦ search step_rules
          | not_found ↦ reconcile_dashboards-Keeps request.namespace
          | found d ↦ search (step_rules, reconcile_dashboards-Keeps) depth 9
        ]

module _ (o : Outside) where
  reconcile_with-Keeps :
      (request : Request) (s : DashboardsState o)
      (client : Option (GrafanaClient o.Error (Accounts o.site)))
      → Keeps (Distinct o) (reconcile_with o request s client)
  reconcile_with-Keeps request s none = search step_rules
  reconcile_with-Keeps request s (some client) =
      search (step_rules, reconcile_dashboards-Keeps, reconcile_if_selectors-Keeps) depth 9

  if_ready-Keeps :
      (b : Bool) (next : Step o Reconciled)
      → Keeps (Distinct o) next
      → Keeps (Distinct o) (if_ready o b next)
  if_ready-Keeps true next k = k
  if_ready-Keeps false next k = search step_rules

  reconcile_request-Keeps : (request : Request) → Keeps (Distinct o) (reconcile_request o request)
  unfolding reconcile_request
  reconcile_request-Keeps request =
      search (step_rules, if_ready-Keeps, reconcile_with-Keeps) depth 9

  -- Whatever the cluster and Grafana answer, and whatever is asked for: if the identifiers of the
  -- references in the configuration are distinct, and a reconciliation returns, then they are distinct in
  -- the state that it leaves.
  pub reconcile_request-HasDistinctUids :
      (request : Request) (s s' : DashboardsState o) (result : Reconciled)
      → reconcile_request o request s ≡ some (s', result)
      → HasDistinctUids s.config.dashboards
      → HasDistinctUids s'.config.dashboards
  reconcile_request-HasDistinctUids request s s' result e h =
      Keeps-result (reconcile_request o request) s s' result (reconcile_request-Keeps request) e h
