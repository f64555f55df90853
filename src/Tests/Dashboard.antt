-- ===== src/Tests/Dashboard.antt =====
-- The dashboards (api/integreatly/v1alpha1/grafanadashboard_types.go,
-- controllers/grafanadashboard/dashboard_pipeline.go) at concrete inputs.
use grafana_operator.Common.{
  String, ◌⧺◌, ◌==◌, ◌≡◌, ◌≢◌, refl, ◌⊎◌, Bool, true, false, ◌&&◌, not, none, some, [], ◌∷◌, ℤ, pos,
  Assoc, lookup, insert, is_some, itoa, digits, digit, if◌then◌else◌, arith,
}
use grafana_operator.Dashboard.Json.{Json, Library, text}
use grafana_operator.Dashboard.Resource.{
  GrafanaDashboard, GrafanaDashboardDatasource, hash, hash_input, parse, uid, user_uid,
}
use grafana_operator.Dashboard.Resource.Collisions.{with_datasources, hash-datasources_split}
use grafana_operator.Dashboard.GrafanaCom.{get_maximum_revision}
use grafana_operator.Dashboard.GrafanaCom.Latest.{IsBound, IsAmong, get_maximum_revision-IsBound}
use grafana_operator.Dashboard.Pipeline.{World, new_dashboard_pipeline, obtain_json, fetch_url}
use grafana_operator.Dashboard.Pipeline.Sources.{
  json_of, first_some, sources, obtain_json-sources, obtain_json-failed_update,
}
use grafana_operator.Dashboard.Processing.{process_dashboard, resolve_datasources}
use grafana_operator.Dashboard.Processing.Output.{
  all_named, substituted, text_of, IsOutput, resolve_datasources-substituted,
  process_dashboard-IsOutput,
}

-- Every document is the one with a title and an identifier, and every text its own digest.
abbrev document : Assoc Json
document = ("title", text "Clock") ∷ ("uid", text "clock") ∷ []

abbrev library : Library
library = record {
  unmarshal = λ s. if s == "" then none else some (some document);
  marshal = λ board. some "board";
  sha1 = λ s. s;
  sha256 = λ s. s;
}

-- Every URL has a JSON file, and no update succeeds if `updates` is false.
abbrev world : Bool → World
world updates = record {
  parse_request_uri = λ url. some "/clock.json";
  get = λ url. some (record { status_code = pos 200; body = some "fetched" });
  unmarshal_revisions = λ body. none;
  evaluate_snippet = λ name source. none;
  update = λ d. updates;
  get_config_map = λ namespace name. none;
  split = λ s separator. s ∷ "json" ∷ [];
  trim_space = λ s. s;
  to_lower = λ s. s;
  replace_all = λ s old new. s;
}

abbrev input : GrafanaDashboardDatasource
input = record { input_name = "DS"; datasource_name = "Prometheus" }

abbrev clock : GrafanaDashboard
clock = record {
  name = "clock";
  namespace = "apps";
  labels = [];
  annotations = [];
  spec = record {
    json = "{}";
    jsonnet = "";
    plugins = [];
    url = "https://example.org/clock.json";
    config_map_ref = none;
    datasources = input ∷ [];
    custom_folder_name = "";
    grafana_com = none;
  };
}

url_given : clock.spec.url ≢ ""
url_given = λ h. cc

fetched_given : ◌≢◌ {A = String} "fetched" ""
fetched_given = λ h. cc

one_source : (not (clock.spec.url == "") && is_some clock.spec.grafana_com) ≡ false
one_source = refl

fetched_test : fetch_url (world false) clock ≡ some "fetched"
unfolding fetch_url
fetched_test = refl

uid_found : lookup "uid" document ≡ some (text "clock")
unfolding lookup
uid_found = refl

obtain_json-sources_example :
    json_of (obtain_json (world true) (new_dashboard_pipeline clock))
    ≡ first_some (sources (world true) clock)
obtain_json-sources_example =
    obtain_json-sources (world true) (new_dashboard_pipeline clock) (λ d. refl) one_source

obtain_json-failed_update_example :
    json_of (obtain_json (world false) (new_dashboard_pipeline clock)) ≡ some "fetched"
obtain_json-failed_update_example =
    obtain_json-failed_update (world false) (new_dashboard_pipeline clock) "fetched" refl url_given
      refl fetched_test fetched_given

resolve_datasources-substituted_example :
    resolve_datasources (world true) (input ∷ []) "{}"
    ≡ (if all_named (input ∷ []) then some (substituted (world true) (input ∷ []) "{}") else none)
resolve_datasources-substituted_example =
    resolve_datasources-substituted (world true) (input ∷ []) "{}"

clock_sent :
    text_of library
      (world true)
      (some (pos 3))
      "apps"
      (process_dashboard library
        (world true)
        (new_dashboard_pipeline clock)
        "known"
        (some (pos 3))
        "apps"
        false).1
    ≡ some "board"
unfolding process_dashboard obtain_json hash hash_input parse uid user_uid lookup insert itoa digits
    digit
clock_sent = refl

process_dashboard-IsOutput_example :
    IsOutput library
      (world true)
      (some (pos 3))
      "apps"
      (process_dashboard library
        (world true)
        (new_dashboard_pipeline clock)
        "known"
        (some (pos 3))
        "apps"
        false).0
      "board"
process_dashboard-IsOutput_example =
    process_dashboard-IsOutput library (world true) (some (pos 3)) "apps"
      (new_dashboard_pipeline clock) "known" false "board" clock_sent

get_maximum_revision-IsBound_example :
    (m : ℤ) × (get_maximum_revision (record {
      items = record { revision = pos 1 } ∷ record { revision = pos 4 } ∷ [];
      order_by = "revision";
      direction = "asc";
    })
      ≡ some m)
    × IsBound m (record { revision = pos 1 } ∷ record { revision = pos 4 } ∷ [])
    × ((m ≡ pos 0) ⊎ IsAmong m (record { revision = pos 1 } ∷ record { revision = pos 4 } ∷ []))
get_maximum_revision-IsBound_example =
    get_maximum_revision-IsBound "revision" "asc" (record { revision = pos 1 })
      (record { revision = pos 4 } ∷ []) (omega arith)

hash-datasources_split_example :
    hash library (
      with_datasources clock
        (input ∷ record { datasource_name = "Prom" ⧺ "etheus"; input_name = "DS" } ∷ []))
    ≡ hash library (
        with_datasources clock
          (input ∷ record { datasource_name = "Prom"; input_name = "etheus" ⧺ "DS" } ∷ []))
hash-datasources_split_example =
    hash-datasources_split library clock (input ∷ []) [] "Prom" "etheus" "DS"
