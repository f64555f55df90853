-- ===== src/Dashboard/Resource.antt =====
-- The resource `GrafanaDashboard` of api/integreatly/v1alpha1/grafanadashboard_types.go, with the
-- parts of its metadata that the operator reads.
pub mod Collisions
use grafana_operator.Common.{
  String, ◌⧺◌, ◌==◌, Bool, true, false, Option, none, some, List, [], ◌∷◌, ℤ, itoa, Assoc, lookup,
  if◌then◌else◌,
}
use grafana_operator.Plugins.PluginList.{PluginList}
use grafana_operator.Dashboard.Json.{Json, Library, null, boolean, number, text, array, object}

pub record GrafanaDashboardDatasource : Type 0 where
  pub input_name : String
  pub datasource_name : String

pub record GrafanaDashboardGrafanaComSource : Type 0 where
  pub id : ℤ
  pub revision : Option ℤ

-- `ConfigMapKeySelector` of k8s.io/api/core/v1: a key of a config map.
pub record ConfigMapKeySelector : Type 0 where
  pub name : String
  pub key : String

pub record GrafanaDashboardSpec : Type 0 where
  pub json : String
  pub jsonnet : String
  pub plugins : PluginList
  pub url : String
  pub config_map_ref : Option ConfigMapKeySelector
  pub datasources : List GrafanaDashboardDatasource
  pub custom_folder_name : String
  pub grafana_com : Option GrafanaDashboardGrafanaComSource

pub record GrafanaDashboard : Type 0 where
  pub name : String
  pub namespace : String
  pub labels : Assoc String
  pub annotations : Assoc String
  pub spec : GrafanaDashboardSpec

pub record GrafanaDashboardRef : Type 0 where
  pub name : String
  pub namespace : String
  pub uid : String
  pub hash : String
  pub folder_id : Option ℤ
  pub folder_name : String

-- What `Hash` writes for the inputs, for the key of a config map and for a dashboard of
-- grafana.com.
unfoldable pub hash_datasources : List GrafanaDashboardDatasource → String
hash_datasources [] = ""
hash_datasources (input ∷ l) = input.datasource_name ⧺ (input.input_name ⧺ hash_datasources l)

unfoldable pub hash_config_map : Option ConfigMapKeySelector → String
hash_config_map none = ""
hash_config_map (some ref) = ref.name ⧺ ref.key

abbrev hash_revision : Option ℤ → String
hash_revision none = ""
hash_revision (some revision) = itoa revision

unfoldable pub hash_grafana_com : Option GrafanaDashboardGrafanaComSource → String
hash_grafana_com none = ""
hash_grafana_com (some source) = itoa source.id ⧺ hash_revision source.revision

-- The text that `Hash` digests.
unfoldable pub hash_input : GrafanaDashboard → String
unfolding hash_datasources hash_config_map hash_grafana_com
hash_input d =
    hash_datasources d.spec.datasources
    ⧺ (d.spec.json
        ⧺ (d.spec.url
            ⧺ (d.spec.jsonnet
                ⧺ (d.namespace
                    ⧺ (d.spec.custom_folder_name
                        ⧺ (hash_config_map d.spec.config_map_ref
                            ⧺ hash_grafana_com d.spec.grafana_com))))))

unfoldable pub hash : Library → GrafanaDashboard → String
unfolding hash_input
hash library d = library.sha256 (hash_input d)

unfoldable pub parse : Library → GrafanaDashboard → String → Option (Option (Assoc Json))
parse library d optional = library.unmarshal (if optional == "" then d.spec.json else optional)

-- The `uid` of a document: none, a text, or a value of another type.
pub data UserUid : Type 0 where
  absent : UserUid
  given : String → UserUid
  not_text : UserUid

unfoldable pub user_uid : Option (Option (Assoc Json)) → UserUid
user_uid none = absent
user_uid (some none) = absent
user_uid (some (some content)) = elim (lookup "uid" content) [
  | none ↦ absent
  | some null ↦ absent
  | some (text s) ↦ if s == "" then absent else given s
  | some _ ↦ not_text
]

-- `UID`: a type assertion that fails panics, which is `none`.
unfoldable pub uid : Library → GrafanaDashboard → Option String
unfolding user_uid parse
uid library d = elim (user_uid (parse library d "")) [
  | absent ↦ some (library.sha1 (d.namespace ⧺ d.name))
  | given s ↦ some s
  | not_text ↦ none
]
