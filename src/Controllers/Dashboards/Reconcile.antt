-- ===== src/Controllers/Dashboards/Reconcile.antt =====
-- `reconcileDashboards`, and `Reconcile` with what it calls.
use grafana_operator.Common.{
  String, ◌==◌, Bool, true, false, Option, none, some, List, [], ◌∷◌, Assoc, lookup, if◌then◌else◌,
}
use grafana_operator.Common.Run.{Result, ok, err, ◌>>=◌, ◌>>◌, return}
use grafana_operator.Dashboard.Resource.{GrafanaDashboard}
use grafana_operator.Api.Types.{GrafanaClient}
use grafana_operator.Api.Users.{Accounts}
use grafana_operator.Controllers.State.{ControllerState}
use grafana_operator.Controllers.Selectors.{matches_selectors}
use grafana_operator.Controllers.Dashboards.Known.{
  known_refs, known_dashboards, dashboards_to_delete,
}
use grafana_operator.Controllers.Dashboards.Publish.{
  Outside, DashboardsState, Step, Found, found, not_found, failed, get,
}
use grafana_operator.Controllers.Dashboards.Process.{reconcile_dashboard}
use grafana_operator.Controllers.Dashboards.Remove.{delete_dashboards}

-- What a reconciliation returns: that it is done, that it is to be repeated after the delay, or an error,
-- with or without the delay.
pub data Reconciled : Type 0 where
  done : Reconciled
  requeue_after_delay : Reconciled
  failed_after_delay : Reconciled
  failed_at_once : Reconciled

pub record Request : Type 0 where
  pub namespace : String
  pub name : String

abbrev pub variable : String → Assoc String → String
variable name environment = elim (lookup name environment) [ none ↦ "" | some value ↦ value ]

module _ (o : Outside) where
  abbrev pub Client : Type 0
  Client = GrafanaClient o.Error (Accounts o.site)

  unfoldable pub reconcile_each : Client → List GrafanaDashboard → Step o Unit
  unfolding reconcile_dashboard
  reconcile_each client [] = return tt
  reconcile_each client (d ∷ l) = do reconcile_dashboard o client d; reconcile_each client l

  unfoldable pub start : (namespace : String) → Step o Unit
  unfolding known_dashboards
  start namespace s = some (record s { known = known_dashboards namespace s.config }, tt)

  abbrev pub reconcile_items :
      Client → (namespace : String) → Result o.Error (List GrafanaDashboard) → Step o Reconciled
  reconcile_items client namespace (err e) = return failed_at_once
  reconcile_items client namespace (ok items) = do
    s ← get o
    let to_delete = dashboards_to_delete items (known_refs s.known s.config)
    reconcile_each client items
    delete_dashboards o client namespace to_delete
    return done

  -- The dashboards of all namespaces are listed, whatever the namespace of the request.
  unfoldable pub reconcile_dashboards : (namespace : String) → Client → Step o Reconciled
  unfolding known_dashboards dashboards_to_delete reconcile_each delete_dashboards get start
  reconcile_dashboards namespace client = do
    start namespace
    s ← get o
    reconcile_items client namespace (o.list_dashboards s.accounts)

  -- `none` is an error.
  unfoldable pub get_client :
      ControllerState o.LabelSelector → (environment : Assoc String) → Option Client
  unfolding lookup
  get_client state environment =
      let username = variable "GF_SECURITY_ADMIN_USER" environment in
      let password = variable "GF_SECURITY_ADMIN_PASSWORD" environment in
      if state.admin_url == ""
      then none
      else if username == ""
      then none
      else if password == ""
      then none
      else some (o.new_client state.admin_url username password state.client_timeout)

  abbrev or_false : Option Bool → Bool
  or_false none = false
  or_false (some b) = b

  unfoldable pub is_match : (selectors : Option (List o.LabelSelector)) → GrafanaDashboard → Bool
  unfolding matches_selectors
  is_match none item = false
  is_match (some selectors) item =
      or_false
        (matches_selectors o.LabelSelector o.label_selector_as_selector item.labels selectors)

  abbrev pub reconcile_instance :
      Client → Request → Option (List o.LabelSelector) → Found GrafanaDashboard → Step o Reconciled
  reconcile_instance client request selectors failed = return failed_at_once
  reconcile_instance client request selectors not_found =
      reconcile_dashboards request.namespace client
  reconcile_instance client request selectors (found d) =
      if is_match selectors d then reconcile_dashboards request.namespace client else return done

  abbrev pub reconcile_if_selectors :
      Client → Request → Option (List o.LabelSelector) → Accounts o.site → Step o Reconciled
  reconcile_if_selectors client request none accounts = return requeue_after_delay
  reconcile_if_selectors client request (some selectors) accounts =
      reconcile_instance client request (some selectors)
        (o.get_dashboard request.namespace request.name accounts)

  abbrev pub reconcile_with : Request → DashboardsState o → Option Client → Step o Reconciled
  reconcile_with request s none = return failed_after_delay
  reconcile_with request s (some client) =
      if request.name == ""
      then reconcile_dashboards request.namespace client
      else reconcile_if_selectors client request s.state.dashboard_selectors s.accounts

  abbrev pub if_ready : Bool → Step o Reconciled → Step o Reconciled
  if_ready true next = next
  if_ready false next = return done

  unfoldable pub reconcile_request : Request → Step o Reconciled
  unfolding get_client reconcile_dashboards is_match get
  reconcile_request request = do
    s ← get o
    if_ready s.state.grafana_ready (reconcile_with request s (get_client s.state s.environment))
