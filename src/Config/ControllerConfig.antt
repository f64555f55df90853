-- ===== src/Config/ControllerConfig.antt =====
-- `ControllerConfig` of controllers/config/controller_config.go: the items, the plugins that each
-- dashboard asks for, and the dashboards that Grafana has. The mutex is left out: each operation is
-- one step. References to dashboards are values, since no operation hands one out and changes it
-- later.
pub mod Dashboards
pub mod Plugins
pub mod Removal
use grafana_operator.Common.{
  String, ◌⧺◌, ◌==◌, ℕ, suc, Bool, true, false, Option, none, some, List, [], ◌∷◌, ◌++◌, map, ℤ,
  Assoc, lookup, insert, delete, set, swap_remove, if◌then◌else◌,
}
use grafana_operator.Plugins.PluginList.{PluginList}
use grafana_operator.Dashboard.Json.{Library}
use grafana_operator.Dashboard.Resource.{GrafanaDashboard, GrafanaDashboardRef, uid, hash}
use grafana_operator.Config.ConfigValue.{Values}

pub record ControllerConfig : Type 0 where
  pub values : Values
  pub plugins : Assoc PluginList
  pub dashboards : List GrafanaDashboardRef

-- What `GetControllerConfig` returns at first.
abbrev pub new_controller_config : ControllerConfig
new_controller_config = record { values = []; plugins = []; dashboards = [] }

unfoldable pub get_dashboard_id : (namespace name : String) → String
get_dashboard_id namespace name = namespace ⧺ ("/" ⧺ name)

abbrev plugins_at : String → Assoc PluginList → PluginList
plugins_at id m = elim (lookup id m) [ none ↦ [] | some l ↦ l ]

-- `order` is the list of keys in the order in which the runtime ranges over the map.
unfoldable pub get_all_plugins : (order : List String) → ControllerConfig → PluginList
get_all_plugins [] c = []
get_all_plugins (id ∷ order) c = plugins_at id c.plugins ++ get_all_plugins order c

unfoldable pub get_plugins_for : GrafanaDashboard → ControllerConfig → PluginList
unfolding get_dashboard_id
get_plugins_for d c = plugins_at (get_dashboard_id d.namespace d.name) c.plugins

unfoldable pub set_plugins_for : GrafanaDashboard → ControllerConfig → ControllerConfig
unfolding get_dashboard_id
set_plugins_for d c = record c {
  plugins = insert (get_dashboard_id d.namespace d.name) d.spec.plugins c.plugins;
}

unfoldable pub remove_plugins_for : (namespace name : String) → ControllerConfig → ControllerConfig
unfolding get_dashboard_id
remove_plugins_for namespace name c = record c {
  plugins = delete (get_dashboard_id namespace name) c.plugins;
}

-- The position of the first reference with the identifier, if there is one.
unfoldable pub index_of_uid : String → List GrafanaDashboardRef → Option ℕ
index_of_uid str [] = none
index_of_uid str (v ∷ l) =
    if v.uid == str
    then some 0
    else elim (index_of_uid str l) [ none ↦ none | some i ↦ some (suc i) ]

unfoldable pub has_dashboard : String → ControllerConfig → Option ℕ
unfolding index_of_uid
has_dashboard str c = index_of_uid str c.dashboards

-- The reference of a dashboard with the identifier `id`.
abbrev pub dashboard_ref :
    Library → GrafanaDashboard → String → Option ℤ → String → GrafanaDashboardRef
dashboard_ref library d id folder_id folder_name = record {
  name = d.name;
  namespace = d.namespace;
  uid = id;
  hash = hash library d;
  folder_id = folder_id;
  folder_name = folder_name;
}

-- A new reference has the folder name of the resource, and one that is replaced that of the caller.
abbrev pub put_dashboard :
    Library
    → GrafanaDashboard
    → String
    → Option ℤ
    → String
    → Option ℕ
    → List GrafanaDashboardRef
    → List GrafanaDashboardRef
put_dashboard library d id folder_id folder_name none l =
    l ++ dashboard_ref library d id folder_id d.spec.custom_folder_name ∷ []
put_dashboard library d id folder_id folder_name (some i) l =
    set l i (dashboard_ref library d id folder_id folder_name)

abbrev add_dashboard_uid :
    Library
    → GrafanaDashboard
    → Option ℤ
    → String
    → ControllerConfig
    → Option String
    → Option ControllerConfig
add_dashboard_uid library d folder_id folder_name c none = none
add_dashboard_uid library d folder_id folder_name c (some id) = some (record c {
  dashboards = put_dashboard library d id folder_id folder_name (has_dashboard id c) c.dashboards;
})

-- `none` is the panic of `UID`.
unfoldable pub add_dashboard :
    Library → GrafanaDashboard → Option ℤ → String → ControllerConfig → Option ControllerConfig
unfolding has_dashboard
add_dashboard library d folder_id folder_name c =
    add_dashboard_uid library d folder_id folder_name c (uid library d)

unfoldable pub clear_hash : GrafanaDashboardRef → GrafanaDashboardRef
clear_hash v = record v { hash = "" }

unfoldable pub invalidate_dashboards : ControllerConfig → ControllerConfig
unfolding clear_hash
invalidate_dashboards c = record c { dashboards = map clear_hash c.dashboards }

unfoldable pub set_dashboards : List GrafanaDashboardRef → ControllerConfig → ControllerConfig
set_dashboards dashboards c = record c { dashboards = dashboards }

abbrev pub remove_at {ℓ} : {A : Type ℓ} → Option ℕ → List A → List A
remove_at none l = l
remove_at (some i) l = swap_remove l i

-- The argument, which the source names a hash, is an identifier.
unfoldable pub remove_dashboard : String → ControllerConfig → ControllerConfig
unfolding has_dashboard
remove_dashboard str c = record c { dashboards = remove_at (has_dashboard str c) c.dashboards }

-- The namespace makes no difference to the references that are returned.
unfoldable pub get_dashboards : (namespace : String) → ControllerConfig → List GrafanaDashboardRef
get_dashboards namespace c = if namespace == "" then [] ++ c.dashboards else c.dashboards

unfoldable pub cleanup : (plugins : Bool) → ControllerConfig → ControllerConfig
cleanup plugins c =
    if plugins then record c { dashboards = []; plugins = [] } else record c { dashboards = [] }
