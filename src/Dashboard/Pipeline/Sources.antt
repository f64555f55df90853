-- ===== src/Dashboard/Pipeline/Sources.antt =====
-- Which document the pipeline takes.
use grafana_operator.Common.{
  String, ◌==◌, eq_iff, ◌≡◌, ◌≢◌, refl, ap, ◌∙◌, true, false, ◌&&◌, not, Option, none, some, List,
  [], ◌∷◌, is_some, ◌>>=◌, if◌then◌else◌, arith,
}
use grafana_operator.Dashboard.Resource.{
  GrafanaDashboard, GrafanaDashboardGrafanaComSource, ConfigMapKeySelector,
}
use grafana_operator.Dashboard.Pipeline.{
  World, Pipeline, Step, done, failed, or_else, store_json, store_fetched, fetch_url,
  fetch_grafana_com, load_from_url, load_from_grafana_com, load_jsonnet, value_of_key,
  try_grafana_com, try_url, try_config_map, try_json, try_jsonnet, obtain_json,
}

-- The document of a pipeline that has obtained one.
abbrev pub json_of : Step → Option String
json_of (done p) = some p.json
json_of (failed p) = none

abbrev pub pick : Option String → Option String → Option String
pick none other = other
pick (some json) other = some json

abbrev pub first_some : List (Option String) → Option String
first_some [] = none
first_some (o ∷ l) = pick o (first_some l)

abbrev pub unless_empty : String → Option String → Option String
unless_empty s o = if s == "" then none else o

module _ (w : World) where
  -- The documents in their order of priority: that of grafana.com, that of the URL, that of the
  -- config map, the JSON text and the evaluated jsonnet text of the resource.
  abbrev pub sources : GrafanaDashboard → List (Option String)
  sources d =
      (d.spec.grafana_com >>= fetch_grafana_com w)
      ∷ unless_empty d.spec.url (fetch_url w d)
      ∷ (d.spec.config_map_ref >>= λ ref.
          w.get_config_map d.namespace ref.name >>= λ config. some (value_of_key ref.key config))
      ∷ unless_empty d.spec.json (some d.spec.json)
      ∷ unless_empty d.spec.jsonnet (load_jsonnet w d d.spec.jsonnet)
      ∷ []

  stored :
      (p : Pipeline) (o : Option String) (next : Pipeline → Step)
      → ((d : GrafanaDashboard) → w.update d ≡ true)
      → json_of (or_else (store_fetched w p o) next) ≡ pick o (json_of (next p))
  unfolding store_json
  stored p none next h = refl
  stored p (some json) next h =
      ground (arith, h (record p.dashboard { spec = record p.dashboard.spec { json = json } }))

  after_grafana_com :
      (p : Pipeline) (o : Option GrafanaDashboardGrafanaComSource) (next : Pipeline → Step)
      → ((d : GrafanaDashboard) → w.update d ≡ true)
      → json_of (or_else (try_grafana_com w o p) next)
        ≡ pick (o >>= fetch_grafana_com w) (json_of (next p))
  unfolding load_from_grafana_com
  after_grafana_com p none next h = refl
  after_grafana_com p (some source) next h = stored p (fetch_grafana_com w source) next h

  after_url :
      (p : Pipeline) (next : Pipeline → Step)
      → ((d : GrafanaDashboard) → w.update d ≡ true)
      → json_of (or_else (try_url w p) next)
        ≡ pick (unless_empty p.dashboard.spec.url (fetch_url w p.dashboard)) (json_of (next p))
  unfolding load_from_url
  after_url p next h = ground (arith, stored p (fetch_url w p.dashboard) next h)

  after_config_map :
      (p : Pipeline) (o : Option ConfigMapKeySelector) (next : Pipeline → Step)
      → json_of (or_else (try_config_map w o p) next)
        ≡ pick
            (o >>= λ ref. w.get_config_map p.dashboard.namespace ref.name >>= λ config.
              some (value_of_key ref.key config))
            (json_of (next p))
  after_config_map p none next = refl
  after_config_map p (some ref) next = ground arith

  -- From the JSON text on, nothing is stored.
  after_json :
      (p : Pipeline)
      → json_of (or_else (try_json w p) (try_jsonnet w))
        ≡ first_some (
            unless_empty p.dashboard.spec.json (some p.dashboard.spec.json)
            ∷ unless_empty p.dashboard.spec.jsonnet
                (load_jsonnet w p.dashboard p.dashboard.spec.jsonnet)
            ∷ [])
  after_json p = ground arith

  -- If every update of the resource succeeds, and not both a URL and a dashboard of grafana.com are
  -- given, then `obtainJson` ends with the first document that there is in the order of priority of
  -- `sources`, and fails if there is none.
  pub obtain_json-sources :
      (p : Pipeline)
      → ((d : GrafanaDashboard) → w.update d ≡ true)
      → (not (p.dashboard.spec.url == "") && is_some p.dashboard.spec.grafana_com) ≡ false
      → json_of (obtain_json w p) ≡ first_some (sources p.dashboard)
  unfolding obtain_json
  obtain_json-sources p h k = rw k (
      after_grafana_com p p.dashboard.spec.grafana_com _ h
      ∙ ap (pick (p.dashboard.spec.grafana_com >>= fetch_grafana_com w)) (
          after_url p _ h
          ∙ ap (pick (unless_empty p.dashboard.spec.url (fetch_url w p.dashboard)))
              (after_config_map p p.dashboard.spec.config_map_ref _ ∙ ap (pick _) (after_json p))))

  -- If neither a dashboard of grafana.com nor a config map is given, and the document at the URL is not
  -- empty, then the pipeline goes on with that document even if the resource could not be updated with it.
  pub obtain_json-failed_update :
      (p : Pipeline) (json : String)
      → p.dashboard.spec.grafana_com ≡ none
      → p.dashboard.spec.url ≢ ""
      → p.dashboard.spec.config_map_ref ≡ none
      → fetch_url w p.dashboard ≡ some json
      → json ≢ ""
      → json_of (obtain_json w p) ≡ some json
  unfolding obtain_json load_from_url store_json
  obtain_json-failed_update p json a b c e f =
      ground (arith, eq_iff p.dashboard.spec.url "", eq_iff json "")
