-- ===== src/Controllers/Grafanas/Reconcile.antt =====
-- `Reconcile` of controllers/grafana/grafana_controller.go, with `manageError` and `manageSuccess`.
use grafana_operator.Common.{
  String, Bool, true, false, not, Option, none, some, ℤ, pos, ltb_ℤ, if◌then◌else◌,
}
use grafana_operator.Common.Run.{Result, ok, err, ◌>>=◌, ◌>>◌, return}
use grafana_operator.Config.ConfigValue.{get_config_bool, remove_config_item}
use grafana_operator.Config.ControllerConfig.{ControllerConfig, cleanup, invalidate_dashboards}
use grafana_operator.Cluster.State.{ClusterState, read}
use grafana_operator.Api.Users.{give_admin}
use grafana_operator.Controllers.State.{ControllerState}
use grafana_operator.Controllers.Dashboards.Reconcile.{
  Reconciled, Request, done, requeue_after_delay, failed_at_once,
}
use grafana_operator.Controllers.Grafanas.Types.{
  ClientSpec, Resource, Outside, GrafanasState, Step, get, or_panic, change_config, publish,
  record_warning, outside, inside, plain,
}
use grafana_operator.Controllers.Grafanas.AdminUrl.{get_grafana_admin_url}
use grafana_operator.Controllers.Grafanas.Libraries.{reconcile_config_maps}

-- The state that stops the controller of dashboards.
abbrev pub not_ready : {S : Type 0} → ControllerState S
not_ready = record {
  dashboard_selectors = none;
  dashboard_namespace_selector = none;
  admin_url = "";
  grafana_ready = false;
  client_timeout = pos 0;
  admin_user = "";
}

abbrev pub default_client_timeout_seconds : ℤ
default_client_timeout_seconds = pos 5

abbrev pub timeout_of : Option ℤ → ℤ
timeout_of none = default_client_timeout_seconds
timeout_of (some seconds) =
    if ltb_ℤ seconds (pos 0) then default_client_timeout_seconds else seconds

unfoldable pub client_timeout : Option ClientSpec → ℤ
client_timeout none = default_client_timeout_seconds
client_timeout (some client) = timeout_of client.timeout_seconds

module _ (o : Outside) where
  abbrev pub Cr : Type 0
  Cr = Resource o.kubernetes o.LabelSelector

  abbrev pub with_status : Cr → (phase message : String) → Cr
  with_status cr phase message = record cr {
    status = record cr.status { phase = phase; message = message };
  }

  -- `r.Client.Get` for the resource itself: the error, if there is one.
  abbrev pub get_instance : Request → GrafanasState o → Result o.Error Cr
  get_instance request s = o.get_instance request.namespace request.name s.accounts

  abbrev pub update_if : (differs : Bool) → Cr → Step o (Option o.Error)
  update_if false cr = return none
  update_if true cr = outside o (plain o (o.update_status cr))

  -- The dashboards are to be submitted again, and wait until Grafana is ready.
  abbrev pub stop_dashboards : Step o Reconciled
  stop_dashboards = do
    change_config o invalidate_dashboards
    publish o not_ready
    return requeue_after_delay

  -- A failed update ends it: a conflict is ignored.
  abbrev pub if_updated : Option o.Error → Step o Reconciled → Step o Reconciled
  if_updated (some e) next = return (if o.is_conflict e then done else failed_at_once)
  if_updated none next = next

  abbrev pub report_to : Cr → Result o.Error Cr → Step o Reconciled
  report_to cr (err e) = return failed_at_once
  report_to cr (ok instance) = do
    e ← update_if (not (o.deep_equal cr.status instance.status)) cr
    if_updated e stop_dashboards

  unfoldable pub manage_error : Cr → (issue : o.Error) → Request → Step o Reconciled
  unfolding record_warning get change_config invalidate_dashboards publish outside
  manage_error cr issue request = do
    record_warning o (o.message issue)
    s ← get o
    report_to (with_status cr "failing" (o.message issue)) (get_instance request s)

  -- The dashboards of the configuration, once the controller of dashboards has looked at the cluster.
  abbrev pub with_dashboards : Bool → ControllerConfig → Cr → Cr
  with_dashboards false c cr = cr
  with_dashboards true c cr = record cr {
    status = record cr.status { installed_dashboards = c.dashboards };
  }

  abbrev pub ready_state : Cr → (url : String) → ControllerState o.LabelSelector
  ready_state cr url = record {
    dashboard_selectors = cr.dashboard_label_selector;
    dashboard_namespace_selector = cr.dashboard_namespace_selector;
    admin_url = url;
    grafana_ready = true;
    client_timeout = client_timeout cr.client;
    admin_user = "";
  }

  abbrev pub publish_url : Cr → Request → Option String → Step o Reconciled
  publish_url cr request none = manage_error cr (o.new_error "failed to find admin url") request
  publish_url cr request (some url) = do
    publish o (ready_state cr url)
    outside o (give_admin o.site)
    return requeue_after_delay

  abbrev pub publish_if_updated :
      Cr → ClusterState o.kubernetes → Request → Option o.Error → Step o Reconciled
  publish_if_updated cr state request (some e) = manage_error cr e request
  publish_if_updated cr state request none =
      publish_url cr request (get_grafana_admin_url o.kubernetes cr state)

  abbrev pub succeed_with :
      Cr → ClusterState o.kubernetes → Request → Result o.Error Cr → Step o Reconciled
  succeed_with cr state request (err e) = manage_error cr e request
  succeed_with cr state request (ok instance) = do
    e ← update_if (not (o.deep_equal cr.status instance.status)) cr
    publish_if_updated cr state request e

  unfoldable pub manage_success : Cr → ClusterState o.kubernetes → Request → Step o Reconciled
  unfolding get or_panic outside publish manage_error get_grafana_admin_url client_timeout
      give_admin get_config_bool
  manage_success cr state request = do
    s ← get o
    synced ← or_panic o (get_config_bool "grafana.dashboards.synced" false s.config.values)
    succeed_with (with_dashboards synced s.config (with_status cr "reconciling" "success")) state
        request (get_instance request s)

  abbrev pub after_libraries :
      Cr → ClusterState o.kubernetes → Request → Option o.Error → Step o Reconciled
  after_libraries cr state request (some e) = manage_error cr e request
  after_libraries cr state request none = manage_success cr state request

  abbrev pub after_actions :
      ClusterState o.kubernetes → Request → Cr × Option o.Error → Step o Reconciled
  after_actions state request (cr, some e) = manage_error cr e request
  after_actions state request (cr, none) = do
    s ← get o
    e ← outside o (reconcile_config_maps o s.config.values cr)
    after_libraries cr state request e

  abbrev pub after_read :
      Cr → Request → Result o.Error (ClusterState o.kubernetes) → Step o Reconciled
  after_read cr request (err e) = manage_error cr e request
  after_read cr request (ok state) = do
    reached ← inside o (o.reach cr state)
    after_actions state request reached

  -- Without the resource the dashboards and the plugins are forgotten.
  abbrev pub forget_grafana : ControllerConfig → ControllerConfig
  forget_grafana c =
      cleanup true (record c { values = remove_config_item "grafana.dashboard.selector" c.values })

  abbrev pub stop_all : Step o Reconciled
  stop_all = do change_config o forget_grafana; publish o not_ready; return done

  abbrev pub reconcile_instance : Request → GrafanasState o → Result o.Error Cr → Step o Reconciled
  reconcile_instance request s (err e) =
      if o.is_not_found e then stop_all else return failed_at_once
  reconcile_instance request s (ok cr) = do
    state ← or_panic o (read o.kubernetes (o.reader s.accounts) cr.grafana s.config.values)
    after_read cr request state

  unfoldable pub reconcile_grafana : Request → Step o Reconciled
  unfolding get change_config cleanup remove_config_item publish or_panic read inside outside
      reconcile_config_maps manage_error manage_success
  reconcile_grafana request = do s ← get o; reconcile_instance request s (get_instance request s)
