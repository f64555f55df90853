-- ===== src/Controllers/Dashboards/Distinct.antt =====
-- The references that the configuration holds never have an identifier twice, whatever the cluster and
-- Grafana answer.
pub mod Loops
use mathlib.Core.Path.{subst}
use mathlib.Core.Option.{none-ne-some, some-injective}
use grafana_operator.Common.{
  String, ◌≡◌, refl, sym, ◌∙◌, Bool, true, false, Option, none, some, List, [], ◌∷◌, ℤ, ℕ,
  Option-cases, inl, inr, Assoc,
}
use grafana_operator.Common.Run.{Result, ok, err, Run, ◌>>=◌, ◌>>◌}
use grafana_operator.Common.Keeps.{Ensures, Keeps, keeps_rules, Keeps-result}
use grafana_operator.Dashboard.Json.{Library}
use grafana_operator.Dashboard.Resource.{GrafanaDashboard, GrafanaDashboardRef, uid}
use grafana_operator.Dashboard.Pipeline.{Pipeline}
use grafana_operator.Dashboard.Processing.{
  Outcome, unchanged, processed, error, panicked, process_dashboard,
}
use grafana_operator.Config.ControllerConfig.{
  ControllerConfig, add_dashboard, set_plugins_for, remove_dashboard, remove_plugins_for,
}
use grafana_operator.Config.ControllerConfig.Dashboards.{HasDistinctUids, find_ref-add_dashboard}
use grafana_operator.Config.ControllerConfig.Removal.{find_ref-remove_dashboard}
use grafana_operator.Api.Types.{GrafanaClient, GrafanaResponse, GrafanaFolderResponse}
use grafana_operator.Api.Users.{Accounts}
use grafana_operator.Controllers.Dashboards.Publish.{
  Outside, DashboardsState, Step, Found, found, not_found, failed, outside, moved, change_config,
  with_config, set_plugins, get, or_panic, record_event, manage_error, create_grafana_permission,
  manage_success,
}
use grafana_operator.Controllers.Dashboards.Process.{
  submitted, if_labels_match, if_in_namespace, finish_dashboard, not_panicked, run_pipeline,
  recheck, process_again, process_in_folder, reconcile_dashboard,
}
use grafana_operator.Controllers.Dashboards.Remove.{
  forget, forget_dashboard, delete_folder_if, clean_folder, delete_dashboard, go_on,
  delete_dashboards,
}

add_dashboard-none :
    (library : Library) (d : GrafanaDashboard) (folder_id : Option ℤ) (folder_name : String)
    (c : ControllerConfig)
    → uid library d ≡ none
    → add_dashboard library d folder_id folder_name c ≡ none
unfolding add_dashboard
add_dashboard-none library d folder_id folder_name c p = rw p refl

add_dashboard-HasDistinctUids :
    (library : Library) (d : GrafanaDashboard) (folder_id : Option ℤ) (folder_name : String)
    (c new : ControllerConfig)
    → add_dashboard library d folder_id folder_name c ≡ some new
    → HasDistinctUids c.dashboards
    → HasDistinctUids new.dashboards
add_dashboard-HasDistinctUids library d folder_id folder_name c new e h =
    elim (Option-cases (uid library d)) [
      | inl p ↦
          absurd
            (none-ne-some new (sym (add_dashboard-none library d folder_id folder_name c p) ∙ e))
      | inr (id, p) ↦
          let (other, q, k, _) = find_ref-add_dashboard library d folder_id folder_name id c p h in
          subst (λ (t : ControllerConfig). HasDistinctUids t.dashboards)
            (some-injective _ _ (sym q ∙ e)) k
    ]

module _ (o : Outside) where
  abbrev pub Distinct : DashboardsState o → Type 0
  Distinct s = HasDistinctUids s.config.dashboards

  Ensures-moved :
      {A : Type 0} (s : DashboardsState o) (r : Option (Accounts o.site × A))
      → Distinct s
      → Ensures Distinct (moved o s r)
  Ensures-moved s none d = tt
  Ensures-moved s (some (accounts, a)) d = d

  pub outside-Keeps : {A : Type 0} (f : Run (Accounts o.site) A) → Keeps Distinct (outside o f)
  unfolding outside
  outside-Keeps f = record { at = λ s d. Ensures-moved s (f s.accounts) d }

  pub get-Keeps : Keeps Distinct (get o)
  unfolding get
  get-Keeps = record { at = λ s d. d }

  pub or_panic-Keeps : {A : Type 0} (a : Option A) → Keeps Distinct (or_panic o a)
  unfolding or_panic
  or_panic-Keeps none = record { at = λ s d. tt }
  or_panic-Keeps (some a) = record { at = λ s d. d }

  pub record_event-Keeps :
      (d : GrafanaDashboard) (event_type reason : String)
      → Keeps Distinct (record_event o d event_type reason)
  unfolding record_event
  record_event-Keeps d event_type reason = record { at = λ s h. h }

  pub manage_error-Keeps : (d : GrafanaDashboard) → Keeps Distinct (manage_error o d)
  unfolding manage_error
  manage_error-Keeps d = record_event-Keeps d "Warning" "ProcessingError"

  Ensures-with_config :
      (s : DashboardsState o) (r : Option ControllerConfig)
      → ((c : ControllerConfig) → r ≡ some c → HasDistinctUids c.dashboards)
      → Ensures Distinct (with_config o s r)
  Ensures-with_config s none h = tt
  Ensures-with_config s (some c) h = h c refl

  pub set_plugins-Keeps : (d : GrafanaDashboard) → Keeps Distinct (set_plugins o d)
  unfolding set_plugins change_config set_plugins_for
  set_plugins-Keeps d = record { at = λ s h. h }

  pub add_dashboard-Keeps :
      (d : GrafanaDashboard) (folder_id : Option ℤ) (folder_name : String)
      → Keeps Distinct (change_config o (add_dashboard o.library d folder_id folder_name))
  unfolding change_config
  add_dashboard-Keeps d folder_id folder_name = record {
    at = λ s h.
        Ensures-with_config s _
          (λ c e. add_dashboard-HasDistinctUids o.library d folder_id folder_name s.config c e h);
  }

  pub ruleset step_rules = (
    keeps_rules, outside-Keeps, get-Keeps, or_panic-Keeps, record_event-Keeps, manage_error-Keeps,
    set_plugins-Keeps, add_dashboard-Keeps,
  )

  create_grafana_permission-Keeps :
      (client : GrafanaClient o.Error (Accounts o.site)) (ids : List ℤ) (folder_name : String)
      → Keeps Distinct (create_grafana_permission o client ids folder_name)
  unfolding create_grafana_permission
  create_grafana_permission-Keeps client ids folder_name = search step_rules depth 12

  pub manage_success-Keeps :
      (client : GrafanaClient o.Error (Accounts o.site)) (d : GrafanaDashboard) (folder_id : ℤ)
      (folder_name : String)
      → Keeps Distinct (manage_success o client d folder_id folder_name)
  unfolding manage_success
  manage_success-Keeps client d folder_id folder_name =
      search (step_rules, create_grafana_permission-Keeps) depth 20
