-- ===== src/Tests/Cluster.antt =====
-- The actions and the objects of a cluster (controllers/common, controllers/model) at concrete
-- inputs.
use grafana_operator.Common.{
  String, ◌≡◌, refl, ◌↔◌, ℕ, eqb, ◌+◌, true, none, some, List, [], ◌∷◌, pos, Assoc, HasDistinctKeys,
  is_some, or_other, lookup, to_int32, if◌then◌else◌,
}
use grafana_operator.Cluster.Readiness.{Deployment, checked, is_deployment_ready}
use grafana_operator.Cluster.Readiness.Laws.{AreFine, is_deployment_ready_iff}
use grafana_operator.Cluster.Actions.{
  Client, ClusterAction, ClusterWorld, generic_create, generic_update, log, expose_vars, run_all,
}
use grafana_operator.Cluster.Actions.Runs.{Runs, run_all_iff}
use grafana_operator.Cluster.Actions.Exposed.{is_listed, lookup-expose_vars}
use grafana_operator.Cluster.Service.{
  ServicePort, Grafana, from_int, get_service_ports, get_grafana_port, http_port_name,
  merge_annotations,
}
use grafana_operator.Cluster.Service.Laws.{
  AreOther, get_service_ports-AreOther, lookup-merge_annotations,
}
use grafana_operator.Cluster.ConfigMap.{ConfigMap, config_hash, config_hash_branches}

-- A cluster that counts its objects; every update is a conflict, which is the error 0.
abbrev client : Client
client = record {
  Object = ℕ;
  State = ℕ;
  Error = ℕ;
  set_controller_reference = λ o. some o;
  reference_error = 1;
  create = λ o s. (s + 1, none);
  update = λ o s. (s, some 0);
  delete = λ o s. (s, some 2);
  is_conflict = λ e. eqb e 0;
  get_secret = λ namespace name s. none;
  get_config_map = λ namespace name s. none;
  get_error = 3;
  new_error = λ message. 4;
}

abbrev start : ClusterWorld client
start = record { cluster = 0; environment = [] }

abbrev created : ClusterWorld client
created = record { cluster = 1; environment = [] }

abbrev actions : List (ClusterAction client)
actions = generic_create 7 ∷ generic_update 7 ∷ log ∷ []

run_all_iff_example :
    Runs client actions start created none ↔ (run_all client actions start ≡ (created, none))
run_all_iff_example = run_all_iff client actions start created none

run_test : run_all client actions start ≡ (created, none)
unfolding run_all
run_test = refl

abbrev deployment : Deployment
deployment = record {
  conditions = record { condition_type = "Progressing"; status = "True"; reason = "" } ∷ [];
  ready_replicas = pos 1;
  replicas = pos 1;
}

is_deployment_ready_iff_example :
    (is_deployment_ready (some deployment) ≡ checked true)
    ↔ (AreFine deployment.conditions × (deployment.ready_replicas ≡ deployment.replicas))
is_deployment_ready_iff_example = is_deployment_ready_iff deployment

abbrev secret : Assoc String
secret = ("GF_SECURITY_ADMIN_USER", "root") ∷ ("other", "value") ∷ []

secret_distinct : HasDistinctKeys secret
unfolding lookup
secret_distinct = (refl, (refl, tt))

lookup-expose_vars_example :
    lookup "GF_SECURITY_ADMIN_USER" (expose_vars ("GF_SECURITY_ADMIN_USER" ∷ []) secret []) ≡ (
      if is_listed "GF_SECURITY_ADMIN_USER" ("GF_SECURITY_ADMIN_USER" ∷ [])
      then or_other (lookup "GF_SECURITY_ADMIN_USER" secret) (lookup "GF_SECURITY_ADMIN_USER" [])
      else lookup "GF_SECURITY_ADMIN_USER" [])
lookup-expose_vars_example =
    lookup-expose_vars ("GF_SECURITY_ADMIN_USER" ∷ []) "GF_SECURITY_ADMIN_USER" secret []
      secret_distinct

lookup-merge_annotations_example :
    lookup "other" (merge_annotations secret (some (("other", "old") ∷ [])))
    ≡ or_other (lookup "other" secret) (lookup "other" (("other", "old") ∷ []))
lookup-merge_annotations_example =
    lookup-merge_annotations secret (("other", "old") ∷ []) "other" secret_distinct

abbrev grafana : Grafana
grafana = record {
  namespace = "apps";
  service = some (record {
    name = "";
    annotations = [];
    labels = [];
    service_type = "";
    ports = some (
        record {
          name = "grafana";
          protocol = "TCP";
          port = pos 80;
          target_port = from_int (pos 80);
          node_port = pos 0;
        }
        ∷ []);
    cluster_ip = "";
  });
  server = none;
}

get_service_ports-AreOther_example :
    (first : ServicePort) × (others : List ServicePort) × (get_service_ports grafana none
      ≡ first ∷ others)
    × (first.name ≡ http_port_name)
    × (first.port ≡ to_int32 (get_grafana_port grafana))
    × AreOther (to_int32 (get_grafana_port grafana)) others
get_service_ports-AreOther_example = get_service_ports-AreOther grafana none

abbrev current_config : ConfigMap
current_config = record {
  name = "grafana-config";
  namespace = "apps";
  annotations = [];
  content = some [];
}

config_hash_branches_example :
    (config_hash "apps" ("[paths]", "digest") (some current_config)
      ≡ (if is_some current_config.content then some "digest" else none))
    × (config_hash "apps" ("[paths]", "digest") none ≡ some "")
config_hash_branches_example = config_hash_branches "apps" "[paths]" "digest" current_config
