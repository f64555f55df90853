-- ===== src/Dashboard/Pipeline.antt =====
-- `DashboardPipelineImpl` of controllers/grafanadashboard/dashboard_pipeline.go: where the document
-- of a dashboard comes from, and what is sent to Grafana. Log lines are left out.
pub mod Sources
use grafana_operator.Common.{
  String, ◌⧺◌, ◌==◌, Bool, true, false, ◌&&◌, ◌||◌, not, Option, none, some, List, [], ◌∷◌, ℤ, pos,
  itoa, Assoc, lookup, insert, last, eqb_ℤ, is_some, ◌>>=◌, if◌then◌else◌,
}
use grafana_operator.Dashboard.Json.{Json, Library, null, number, text}
use grafana_operator.Dashboard.GrafanaCom.{
  DashboardRevisionItem, ListDashboardRevisionsResponse, get_maximum_revision, revisions_url,
  download_url,
}
use grafana_operator.Dashboard.Resource.{
  GrafanaDashboard, GrafanaDashboardDatasource, GrafanaDashboardGrafanaComSource,
  ConfigMapKeySelector, hash, parse, uid,
}

pub data SourceType : Type 0 where
  source_type_json source_type_jsonnet source_type_unknown : SourceType

-- The status of a response, and its body, or `none` if reading it fails.
pub record Response : Type 0 where
  pub status_code : ℤ
  pub body : Option String

-- What the pipeline calls, with `none` for an error: `url.ParseRequestURI`, for its path;
-- `http.Get`; the unmarshalling of a list of revisions; the jsonnet virtual machine, given the name
-- of the dashboard and a source, with the configured path; the update of the resource, which is
-- true if it succeeds; the data of a config map; and `strings.Split`, `TrimSpace`, `ToLower` and
-- `ReplaceAll`.
pub record World : Type 0 where
  pub parse_request_uri : String → Option String
  pub get : String → Option Response
  pub unmarshal_revisions : String → Option ListDashboardRevisionsResponse
  pub evaluate_snippet : (name source : String) → Option String
  pub update : GrafanaDashboard → Bool
  pub get_config_map : (namespace name : String) → Option (Assoc String)
  pub split : (s separator : String) → List String
  pub trim_space : String → String
  pub to_lower : String → String
  pub replace_all : (s old new : String) → String

pub record Pipeline : Type 0 where
  pub dashboard : GrafanaDashboard
  pub json : String
  pub board : Option (Assoc Json)
  pub hash : String

abbrev pub new_dashboard_pipeline : GrafanaDashboard → Pipeline
new_dashboard_pipeline d = record { dashboard = d; json = ""; board = none; hash = "" }

abbrev source_type : String → SourceType
source_type extension =
    if extension == "json"
    then source_type_json
    else if extension == "grafonnet"
    then source_type_jsonnet
    else if extension == "jsonnet"
    then source_type_jsonnet
    else source_type_unknown

-- A step of `obtainJson` that may set the document, and then ends, or fails and lets the next one
-- try.
pub data Step : Type 0 where
  done : Pipeline → Step
  failed : Pipeline → Step

abbrev pub or_else : Step → (Pipeline → Step) → Step
or_else (done p) next = done p
or_else (failed p) next = next p

-- A key that is missing gives the empty text.
abbrev pub value_of_key : String → Assoc String → String
value_of_key key config = elim (lookup key config) [ none ↦ "" | some json ↦ json ]

module _ (w : World) where
  open w use {
    parse_request_uri, get, unmarshal_revisions, evaluate_snippet, update, get_config_map, split,
    trim_space, to_lower, replace_all,
  }

  abbrev extension_type : List String → SourceType
  extension_type [] = source_type_unknown
  extension_type (fragment ∷ fragments) =
      source_type (to_lower (trim_space (last fragment fragments)))

  unfoldable pub get_file_type : String → SourceType
  get_file_type path = extension_type (split path ".")

  unfoldable pub load_jsonnet : GrafanaDashboard → String → Option String
  load_jsonnet d source = evaluate_snippet d.name source

  abbrev convert : GrafanaDashboard → String → SourceType → Option String
  convert d body source_type_jsonnet = load_jsonnet d body
  convert d body _ = some body

  abbrev body_if_ok : Option Response → Option String
  body_if_ok none = none
  body_if_ok (some resp) = if eqb_ℤ resp.status_code (pos 200) then resp.body else none

  abbrev body_of : Option Response → Option String
  body_of none = none
  body_of (some resp) = resp.body

  -- The document at the URL of the resource, before it is stored.
  unfoldable pub fetch_url : GrafanaDashboard → Option String
  unfolding get_file_type load_jsonnet
  fetch_url d = do
    path ← parse_request_uri d.spec.url
    body ← body_if_ok (get d.spec.url)
    convert d body (get_file_type path)

  -- The list of items, which is not empty where the maximum is taken.
  abbrev maximum_of : ListDashboardRevisionsResponse → List DashboardRevisionItem → Option ℤ
  maximum_of resp [] = none
  maximum_of resp (_ ∷ _) = get_maximum_revision resp

  unfoldable pub get_latest_revision : ℤ → Option ℤ
  unfolding get_maximum_revision
  get_latest_revision id = do
    body ← body_if_ok (get (revisions_url id))
    resp ← unmarshal_revisions body
    maximum_of resp resp.items

  abbrev revision_of : ℤ → Option ℤ → Option ℤ
  revision_of id none = get_latest_revision id
  revision_of id (some revision) = some revision

  -- The document of grafana.com, before it is stored.
  unfoldable pub fetch_grafana_com : GrafanaDashboardGrafanaComSource → Option String
  unfolding get_latest_revision
  fetch_grafana_com source = do
    revision ← revision_of source.id source.revision
    body_of (get (download_url source.id revision))

  -- The document is kept in the resource, so that it is not fetched again.
  unfoldable pub store_json : Pipeline → String → Step
  store_json p json =
      if json == p.dashboard.spec.json
      then done (record p { json = json })
      else let d = record p.dashboard { spec = record p.dashboard.spec { json = json } } in
        let p' = record p { json = json; dashboard = d } in if update d then done p' else failed p'

  abbrev store_fetched : Pipeline → Option String → Step
  store_fetched p none = failed p
  store_fetched p (some json) = store_json p json

  unfoldable pub load_from_url : Pipeline → Step
  unfolding fetch_url store_json
  load_from_url p = store_fetched p (fetch_url p.dashboard)

  unfoldable pub load_from_grafana_com : GrafanaDashboardGrafanaComSource → Pipeline → Step
  unfolding fetch_grafana_com store_json
  load_from_grafana_com source p = store_fetched p (fetch_grafana_com source)

  abbrev pub load_from_config_map : ConfigMapKeySelector → Pipeline → Step
  load_from_config_map ref p = elim (get_config_map p.dashboard.namespace ref.name) [
    | none ↦ failed p
    | some config ↦ done (record p { json = value_of_key ref.key config })
  ]

  abbrev pub try_grafana_com : Option GrafanaDashboardGrafanaComSource → Pipeline → Step
  try_grafana_com none p = failed p
  try_grafana_com (some source) p = load_from_grafana_com source p

  abbrev pub try_url : Pipeline → Step
  try_url p = if p.dashboard.spec.url == "" then failed p else load_from_url p

  abbrev pub try_config_map : Option ConfigMapKeySelector → Pipeline → Step
  try_config_map none p = failed p
  try_config_map (some ref) p = load_from_config_map ref p

  abbrev pub try_json : Pipeline → Step
  try_json p =
      if p.dashboard.spec.json == ""
      then failed p
      else done (record p { json = p.dashboard.spec.json })

  abbrev pub try_evaluated : Pipeline → Option String → Step
  try_evaluated p none = failed p
  try_evaluated p (some json) = done (record p { json = json })

  abbrev pub try_jsonnet : Pipeline → Step
  try_jsonnet p =
      if p.dashboard.spec.jsonnet == ""
      then failed p
      else try_evaluated p (load_jsonnet p.dashboard p.dashboard.spec.jsonnet)

  unfoldable pub obtain_json : Pipeline → Step
  unfolding load_jsonnet load_from_url load_from_grafana_com
  obtain_json p =
      if not (p.dashboard.spec.url == "") && is_some p.dashboard.spec.grafana_com
      then failed p
      else or_else (try_grafana_com p.dashboard.spec.grafana_com p) λ p1. or_else (try_url p1) λ p2.
        or_else (try_config_map p2.dashboard.spec.config_map_ref p2)
          λ p3. or_else (try_json p3) try_jsonnet
