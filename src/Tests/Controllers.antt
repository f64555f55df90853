-- ===== src/Tests/Controllers.antt =====
-- The controllers at concrete inputs.
use grafana_operator.Common.{
  String, ◌≡◌, ◌⊎◌, refl, ℕ, true, false, none, some, [], ◌∷◌, ◌++◌, pos, negsuc, insert, delete,
  swap_remove, itoa, to_int32,
}
use grafana_operator.Common.Run.{ok, err, ◌>>=◌, ◌>>◌, return}
use grafana_operator.Dashboard.Json.{Library}
use grafana_operator.Dashboard.Resource.{GrafanaDashboardRef}
use grafana_operator.Dashboard.Pipeline.{World}
use grafana_operator.Config.ConfigValue.{flag}
use grafana_operator.Config.ControllerConfig.{ControllerConfig, index_of_uid}
use grafana_operator.Config.ControllerConfig.Dashboards.{HasDistinctUids}
use grafana_operator.Cluster.Service.{Service}
use grafana_operator.Cluster.State.{Reader, found, not_found}
use grafana_operator.Api.Types.{
  GrafanaClient, new_response, new_folder_response, new_dashboard_response,
}
use grafana_operator.Api.Users.{Site, Accounts}
use grafana_operator.Controllers.State.{ControllerState}
use grafana_operator.Controllers.Dashboards.Known.{separate}
use grafana_operator.Controllers.Dashboards.Publish
use grafana_operator.Controllers.Dashboards.Reconcile.{
  Request, done, requeue_after_delay, reconcile_request,
}
use grafana_operator.Controllers.Dashboards.Distinct.Loops.{reconcile_request-HasDistinctUids}
use grafana_operator.Controllers.Grafanas.Types
use grafana_operator.Controllers.Grafanas.Types.{Resource}
use grafana_operator.Controllers.Grafanas.Reconcile.{not_ready, reconcile_grafana}
use grafana_operator.Controllers.Grafanas.Published.{IsFit, reconcile_grafana-IsFit}
use grafana_operator.Tests.Objects.{kubernetes, grafana}

-- A site at which every call fails.
abbrev site : Site
site = record {
  Network = ℕ;
  Request = ℕ;
  new_request = λ method url body. some 0;
  set_header = λ key value request. request;
  send = λ request n. (n, err "refused");
  marshal_user = λ user. user.email;
  marshal_key = λ key. key.name;
  decode_user = λ text. record { id = pos 0; is_grafana_admin = false };
  decode_key = λ text. text;
  decode_dashboard_id = λ text. pos 0;
  random_letter = λ n. (n, "a");
  list_role_bindings = λ n. (n, some []);
}

abbrev accounts : Accounts site
accounts = record { network = 0; grafana_id = ""; grafana_pw = ""; grafana_key = "" }

abbrev library : Library
library = record {
  unmarshal = λ text. some none;
  marshal = λ board. some "";
  sha1 = λ text. text;
  sha256 = λ text. text;
}

abbrev world : World
world = record {
  parse_request_uri = λ url. none;
  get = λ url. none;
  unmarshal_revisions = λ text. none;
  evaluate_snippet = λ name source. none;
  update = λ d. true;
  get_config_map = λ namespace name. none;
  split = λ s separator. s ∷ [];
  trim_space = λ s. s;
  to_lower = λ s. s;
  replace_all = λ s old new. s;
}

abbrev client : GrafanaClient String (Accounts site)
client = record {
  create_or_update_dashboard = λ dashboard id name n. some (n, (new_response, none));
  delete_dashboard_by_uid = λ uid n. some (n, (new_response, none));
  get_list_dashboard = λ namespace n. some (n, ([], none));
  create_or_update_folder = λ name n. some (n, (new_folder_response, none));
  delete_folder = λ id n. some (n, none);
  safe_to_delete = λ l id n. some (n, true);
  get_dashboard = λ uid n. some (n, (new_dashboard_response, none));
  get_all_folders = λ n. some (n, ([], none));
}

-- A cluster without dashboards.
abbrev dashboards : Publish.Outside
dashboards = record {
  library = library;
  site = site;
  Error = String;
  LabelSelector = ℕ;
  label_selector_as_selector = λ n. none;
  world = λ n. world;
  moves = λ l. true;
  list_dashboards = λ n. ok [];
  get_dashboard = λ namespace name n. Publish.not_found;
  get_namespace_labels = λ namespace n. none;
  new_client = λ url user password timeout. client;
}

abbrev old : GrafanaDashboardRef
old = record {
  name = "old";
  namespace = "ns";
  uid = "1";
  hash = "h";
  folder_id = some (pos 1);
  folder_name = "";
}

abbrev kept : ControllerConfig
kept = record { values = []; plugins = []; dashboards = old ∷ [] }

abbrev ready : ControllerState ℕ
ready = record {
  dashboard_selectors = none;
  dashboard_namespace_selector = none;
  admin_url = "http://grafana";
  grafana_ready = true;
  client_timeout = pos 5;
  admin_user = "";
}

abbrev before : Publish.DashboardsState dashboards
before = record {
  config = kept;
  accounts = accounts;
  events = [];
  environment = ("GF_SECURITY_ADMIN_USER", "admin") ∷ ("GF_SECURITY_ADMIN_PASSWORD", "secret") ∷ [];
  state = ready;
  known = separate [];
}

abbrev after : Publish.DashboardsState dashboards
after = record before {
  config = record {
    values = ("grafana.dashboards.synced", flag true) ∷ [];
    plugins = [];
    dashboards = [];
  };
  known = separate (old ∷ []);
}

-- The dashboard that is no longer in the cluster is deleted.
reconciled :
    reconcile_request dashboards record { namespace = ""; name = "" } before ≡ some (after, done)
unfolding reconcile_request ◌>>=◌ ◌>>◌ return insert delete swap_remove
reconciled = refl

reconcile_request-HasDistinctUids_example : HasDistinctUids after.config.dashboards
unfolding index_of_uid
reconcile_request-HasDistinctUids_example =
    reconcile_request-HasDistinctUids dashboards record { namespace = ""; name = "" } before after
      done reconciled (refl, tt)

-- A cluster with the service of Grafana and nothing else.
abbrev service : Service
service = record {
  name = "grafana-service";
  namespace = "monitoring";
  labels = none;
  annotations = none;
  ports = [];
  selector = [];
  cluster_ip = "";
  service_type = "ClusterIP";
}

abbrev reader : Reader kubernetes String
reader = record {
  get_service = λ namespace name. found service;
  get_claim = λ namespace name. not_found;
  get_service_account = λ namespace name. not_found;
  get_config_map = λ namespace name. not_found;
  get_route = λ namespace name. not_found;
  get_ingress = λ namespace name. not_found;
  get_deployment = λ namespace name. not_found;
  get_secret = λ namespace name. not_found;
}

abbrev resource : Resource kubernetes ℕ
resource = record {
  grafana = grafana;
  client = some (record { timeout_seconds = some (negsuc 0); prefer_service = none });
  dashboard_label_selector = none;
  dashboard_namespace_selector = none;
  jsonnet = none;
  status = record {
    phase = "";
    previous_service_name = "";
    message = "";
    installed_dashboards = [];
    installed_plugins = [];
    failed_plugins = [];
  };
}

abbrev cluster : Types.Outside
cluster = record {
  kubernetes = kubernetes;
  site = site;
  Error = String;
  LabelSelector = ℕ;
  label_selector_as_selector = λ n. none;
  selector_error = "selector";
  message = λ e. e;
  is_conflict = λ e. false;
  is_not_found = λ e. false;
  new_error = λ e. e;
  reader = λ n. reader;
  get_instance = λ namespace name n. ok resource;
  update_status = λ cr n. (n, none);
  deep_equal = λ s t. false;
  reach = λ cr state w. some (w, (cr, none));
  list_config_maps = λ namespace selector n. ok [];
  stat = λ path n. Types.exists;
  mkdir = λ path n. (n, none);
  write_file = λ path contents n. (n, none);
  extension = λ path. "";
}

abbrev idle : Types.GrafanasState cluster
idle = record { config = kept; accounts = accounts; published = not_ready ∷ []; events = [] }

-- The timeout of the resource is negative.
abbrev sent : ControllerState ℕ
sent = record {
  dashboard_selectors = none;
  dashboard_namespace_selector = none;
  admin_url = "http://grafana-service.monitoring.svc.cluster.local:3000";
  grafana_ready = true;
  client_timeout = pos 5;
  admin_user = "";
}

abbrev serving : Types.GrafanasState cluster
serving = record idle { published = not_ready ∷ sent ∷ [] }

abbrev request : Request
request = record { namespace = "monitoring"; name = "grafana" }

served : reconcile_grafana cluster request idle ≡ some (serving, requeue_after_delay)
unfolding reconcile_grafana ◌>>=◌ ◌>>◌ return itoa to_int32
served = refl

reconcile_grafana-IsFit_example :
    (serving.published ≡ idle.published)
    ⊎ ((c : ControllerState ℕ) × (serving.published ≡ idle.published ++ c ∷ []) × IsFit c)
reconcile_grafana-IsFit_example =
    reconcile_grafana-IsFit cluster request idle serving requeue_after_delay served
