-- ===== src/Dashboard/Processing.antt =====
-- `ProcessDashboard` of controllers/grafanadashboard/dashboard_pipeline.go: what is sent to
-- Grafana.
pub mod Output
use grafana_operator.Common.{
  String, ◌⧺◌, ◌==◌, Bool, true, false, ◌&&◌, ◌||◌, not, Option, none, some, List, [], ◌∷◌, ℤ, itoa,
  Assoc, lookup, insert, is_some, if◌then◌else◌,
}
use grafana_operator.Dashboard.Json.{Json, Library, null, number, text}
use grafana_operator.Dashboard.Resource.{
  GrafanaDashboard, GrafanaDashboardDatasource, hash, parse, uid,
}
use grafana_operator.Dashboard.Pipeline.{World, Pipeline, Step, done, failed, obtain_json}

-- What `ProcessDashboard` returns: no document and no error, a document, an error, or a panic.
pub data Outcome : Type 0 where
  unchanged : Outcome
  processed : String → Outcome
  error : Outcome
  panicked : Outcome

abbrev pub is_empty_input : GrafanaDashboardDatasource → Bool
is_empty_input input = input.datasource_name == "" || input.input_name == ""

module _ (w : World) where
  -- `none` is the error for an empty name.
  unfoldable pub resolve_datasources : List GrafanaDashboardDatasource → String → Option String
  resolve_datasources [] json = some json
  resolve_datasources (input ∷ inputs) json =
      let rest =
        resolve_datasources inputs
          (w.replace_all json ("${" ⧺ (input.input_name ⧺ "}")) input.datasource_name) in
      if is_empty_input input then none else rest

abbrev pub folder_id_json : Option ℤ → Json
folder_id_json none = null
folder_id_json (some id) = number (itoa id)

-- The document with the keys that the pipeline sets.
unfoldable pub set_board :
    (id : String) → Option ℤ → (folder_name : String) → Assoc Json → Assoc Json
set_board id folder_id folder_name board =
    insert "folderName" (text folder_name) (
      insert "folderId" (folder_id_json folder_id)
        (insert "uid" (text id) (insert "id" null board)))

module _ (library : Library) (w : World) where
  abbrev marshalled : Option String → Outcome
  marshalled none = error
  marshalled (some raw) = processed (w.trim_space raw)

  abbrev finish : Pipeline → Option ℤ → String → Assoc Json → Option String → Pipeline × Outcome
  finish p folder_id folder_name board none = (p, panicked)
  finish p folder_id folder_name board (some id) =
      let board' = set_board id folder_id folder_name board in
      (record p { board = some board' }, marshalled (library.marshal board'))

  -- A write to the nil map panics.
  abbrev validated :
      Pipeline → Option ℤ → String → Option (Option (Assoc Json)) → Pipeline × Outcome
  validated p folder_id folder_name none = (record p { board = none }, error)
  validated p folder_id folder_name (some none) = (record p { board = none }, panicked)
  validated p folder_id folder_name (some (some board)) =
      finish (record p { board = some board }) folder_id folder_name board (uid library p.dashboard)

  abbrev resolved : Pipeline → Option ℤ → String → Option String → Pipeline × Outcome
  resolved p folder_id folder_name none = (p, error)
  resolved p folder_id folder_name (some json) =
      validated (record p { json = json }) folder_id folder_name (parse library p.dashboard json)

  abbrev obtained :
      (known_hash : String)
      → Option ℤ
      → String
      → (force_recreate : Bool) → Step
      → Pipeline × Outcome
  obtained known_hash folder_id folder_name force_recreate (failed p) = (p, error)
  obtained known_hash folder_id folder_name force_recreate (done p) =
      if hash library p.dashboard == known_hash && not force_recreate
      then (record p { hash = known_hash }, unchanged)
      else let q = record p { hash = hash library p.dashboard } in
        resolved q folder_id folder_name (resolve_datasources w p.dashboard.spec.datasources p.json)

  unfoldable pub process_dashboard :
      Pipeline
      → (known_hash : String) → Option ℤ
      → (folder_name : String) → (force_recreate : Bool) → Pipeline × Outcome
  unfolding set_board resolve_datasources
  process_dashboard p known_hash folder_id folder_name force_recreate =
      obtained known_hash folder_id folder_name force_recreate (obtain_json w p)
