-- ===== src/Tests/Config.antt =====
-- The shared state of the controllers (controllers/config/controller_config.go) at concrete inputs.
use grafana_operator.Common.{
  String, ◌==◌, ◌≡◌, refl, ◌&&◌, not, none, some, [], ◌∷◌, pos, lookup, if◌then◌else◌,
}
use grafana_operator.Dashboard.Json.{Library, text as json_text}
use grafana_operator.Dashboard.Resource.{
  GrafanaDashboard, GrafanaDashboardRef, uid, user_uid, parse,
}
use grafana_operator.Config.ConfigValue.{
  Values, nil, text, is_item, add_config_item, get_config_item,
}
use grafana_operator.Config.ConfigValue.Laws.{get-add_config_item}
use grafana_operator.Config.ControllerConfig.{
  ControllerConfig, index_of_uid, add_dashboard, remove_dashboard, get_plugins_for, set_plugins_for,
  remove_plugins_for,
}
use grafana_operator.Config.ControllerConfig.Dashboards.{
  HasDistinctUids, find_ref, stored_ref, find_ref-add_dashboard,
}
use grafana_operator.Config.ControllerConfig.Removal.{find_ref-remove_dashboard}
use grafana_operator.Config.ControllerConfig.Plugins.{get_plugins_for-set_remove}

abbrev library : Library
library = record {
  unmarshal = λ s. some (some (("uid", json_text s) ∷ []));
  marshal = λ board. none;
  sha1 = λ s. s;
  sha256 = λ s. s;
}

abbrev dashboard : String → GrafanaDashboard
dashboard id = record {
  name = "clock";
  namespace = "apps";
  labels = [];
  annotations = [];
  spec = record {
    json = id;
    jsonnet = "";
    plugins = record { name = "clock-panel"; version = "1.0.0" } ∷ [];
    url = "";
    config_map_ref = none;
    datasources = [];
    custom_folder_name = "";
    grafana_com = none;
  };
}

abbrev reference : String → GrafanaDashboardRef
reference id = record {
  name = id;
  namespace = "apps";
  uid = id;
  hash = "";
  folder_id = none;
  folder_name = "apps";
}

abbrev config : ControllerConfig
config = record {
  values = [];
  plugins = [];
  dashboards = reference "a" ∷ reference "b" ∷ reference "c" ∷ [];
}

abbrev one_value : Values
one_value = ("key", text "value") ∷ []

config_distinct : HasDistinctUids config.dashboards
unfolding index_of_uid
config_distinct = (refl, (refl, (refl, tt)))

uid_b : uid library (dashboard "b") ≡ some "b"
unfolding uid user_uid parse lookup
uid_b = refl

find_ref-add_dashboard_example :
    (new : ControllerConfig) × (add_dashboard library (dashboard "b") (some (pos 2)) "folder" config
      ≡ some new)
    × HasDistinctUids new.dashboards
    × ((j : String)
        → find_ref j new.dashboards ≡ (
            if "b" == j
            then some (
                stored_ref library
                  (dashboard "b")
                  "b"
                  (some (pos 2))
                  "folder"
                  (find_ref "b" config.dashboards))
            else find_ref j config.dashboards))
find_ref-add_dashboard_example =
    find_ref-add_dashboard library (dashboard "b") (some (pos 2)) "folder" "b" config uid_b
      config_distinct

find_ref-remove_dashboard_example :
    HasDistinctUids (remove_dashboard "a" config).dashboards
    × (find_ref "c" (remove_dashboard "a" config).dashboards
        ≡ (if "a" == "c" then none else find_ref "c" config.dashboards))
find_ref-remove_dashboard_example = find_ref-remove_dashboard "c" "a" config config_distinct

abbrev other : GrafanaDashboard
other = record (dashboard "b") { name = "other" }

get_plugins_for-set_remove_example :
    (get_plugins_for other (set_plugins_for (dashboard "a") config) ≡ (
      if "apps" == "apps" && "clock" == "other"
      then (dashboard "a").spec.plugins
      else get_plugins_for other config))
    × (get_plugins_for other (remove_plugins_for "apps" "clock" config)
        ≡ (if "apps" == "apps" && "clock" == "other" then [] else get_plugins_for other config))
get_plugins_for-set_remove_example =
    get_plugins_for-set_remove (dashboard "a") other config refl refl

get-add_config_item_example :
    get_config_item "key" nil (add_config_item "key" (text "new") one_value) ≡ (
      if ("key" == "key") && (not ("key" == "") && is_item (text "new"))
      then text "new"
      else get_config_item "key" nil one_value)
get-add_config_item_example = get-add_config_item "key" "key" (text "new") nil one_value
