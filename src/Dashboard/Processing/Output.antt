-- ===== src/Dashboard/Processing/Output.antt =====
-- What the pipeline sends, and when it sends nothing.
use grafana_operator.Common.{
  String, ◌⧺◌, ◌==◌, ◌≡◌, refl, Bool, true, false, ◌&&◌, not, Option, none, some, List, [], ◌∷◌, ℤ,
  Assoc, lookup, lookup-insert, if◌then◌else◌, arith, Bool-cases, Option-cases, inl, inr,
}
use grafana_operator.Dashboard.Json.{Json, Library, null, text}
use grafana_operator.Dashboard.Resource.{GrafanaDashboardDatasource, hash, parse, uid}
use grafana_operator.Dashboard.Pipeline.{World, Pipeline, Step, done, failed, obtain_json}
use grafana_operator.Dashboard.Processing.{
  Outcome, unchanged, processed, resolve_datasources, folder_id_json, set_board, finish, validated,
  resolved, obtained, process_dashboard,
}

-- Every input has a name, and names a data source.
abbrev pub all_named : List GrafanaDashboardDatasource → Bool
all_named [] = true
all_named (input ∷ inputs) =
    (not (input.input_name == "") && not (input.datasource_name == "")) && all_named inputs

-- The text with every input, from the first to the last, replaced by its data source.
abbrev pub substituted : World → List GrafanaDashboardDatasource → String → String
substituted w [] json = json
substituted w (input ∷ inputs) json =
    substituted w inputs
      (w.replace_all json ("${" ⧺ (input.input_name ⧺ "}")) input.datasource_name)

-- If every input has a name that is not empty and names a data source, then the inputs are resolved to the
-- text with each of them replaced in turn; if any name is empty, wherever it stands, it is an error.
pub resolve_datasources-substituted :
    (w : World) (inputs : List GrafanaDashboardDatasource) (json : String)
    → resolve_datasources w inputs json
      ≡ (if all_named inputs then some (substituted w inputs json) else none)
unfolding resolve_datasources
resolve_datasources-substituted w [] json = refl
resolve_datasources-substituted w (input ∷ inputs) json =
    let next = w.replace_all json ("${" ⧺ (input.input_name ⧺ "}")) input.datasource_name in
    ground (arith, resolve_datasources-substituted w inputs next)

-- What the document has under the key `k` once the pipeline has set its keys: null under `id`, the
-- identifier, the folder, its name, and else what it had.
abbrev pub expected_at :
    (id : String) → Option ℤ → (folder_name : String) → Assoc Json → String → Option Json
expected_at id folder_id folder_name board k =
    if "folderName" == k
    then some (text folder_name)
    else if "folderId" == k
    then some (folder_id_json folder_id)
    else if "uid" == k
    then some (text id)
    else if "id" == k
    then some null
    else lookup k board

pub lookup-set_board :
    (id : String) (folder_id : Option ℤ) (folder_name : String) (board : Assoc Json) (k : String)
    → lookup k (set_board id folder_id folder_name board)
      ≡ expected_at id folder_id folder_name board k
unfolding set_board
lookup-set_board id folder_id folder_name board k = simp lookup-insert

abbrev pub is_unchanged : Outcome → Bool
is_unchanged unchanged = true
is_unchanged _ = false

-- The hash of a dashboard that has been obtained is the known one, and no update is forced.
abbrev pub is_known : Library → (known_hash : String) → (force_recreate : Bool) → Step → Bool
is_known library known_hash force_recreate (failed q) = false
is_known library known_hash force_recreate (done q) =
    hash library q.dashboard == known_hash && not force_recreate

module _ (library : Library) (w : World) (folder_id : Option ℤ) (folder_name : String) where
  -- `raw` is the marshalled document of `q`, which is that of its JSON text with the keys that the
  -- pipeline sets; the identifier is the one that `UID` returns.
  abbrev pub IsOutput : Pipeline → String → Type 0
  IsOutput q raw =
      (original : Assoc Json) × (board : Assoc Json) × (id : String) × (text_of_board : String)
      × (parse library q.dashboard q.json ≡ some (some original))
      × (uid library q.dashboard ≡ some id)
      × ((k : String) → lookup k board ≡ expected_at id folder_id folder_name original k)
      × (q.board ≡ some board)
      × (library.marshal board ≡ some text_of_board)
      × (raw ≡ w.trim_space text_of_board)

  abbrev pub text_of : Outcome → Option String
  text_of (processed s) = some s
  text_of _ = none

  finish-IsOutput :
      (q : Pipeline) (original : Assoc Json) (o : Option String) (raw : String)
      → parse library q.dashboard q.json ≡ some (some original)
      → uid library q.dashboard ≡ o
      → text_of (finish library w q folder_id folder_name original o).1 ≡ some raw
      → IsOutput (finish library w q folder_id folder_name original o).0 raw
  finish-IsOutput q original none raw h k e = absurd cc
  finish-IsOutput q original (some id) raw h k e =
      let board = set_board id folder_id folder_name original in
      elim (Option-cases (library.marshal board)) [
        | inl f ↦ absurd (ground arith)
        | inr (s, f) ↦ (
          original,
          board,
          id,
          s,
          h,
          k,
          λ key. lookup-set_board id folder_id folder_name original key,
          refl,
          f,
          ground arith,
        )
      ]

  validated-IsOutput :
      (q : Pipeline) (o : Option (Option (Assoc Json))) (raw : String)
      → parse library q.dashboard q.json ≡ o
      → text_of (validated library w q folder_id folder_name o).1 ≡ some raw
      → IsOutput (validated library w q folder_id folder_name o).0 raw
  validated-IsOutput q none raw h e = absurd cc
  validated-IsOutput q (some none) raw h e = absurd cc
  validated-IsOutput q (some (some board)) raw h e =
      finish-IsOutput (record q { board = some board }) board (uid library q.dashboard) raw h refl e

  resolved-IsOutput :
      (q : Pipeline) (o : Option String) (raw : String)
      → text_of (resolved library w q folder_id folder_name o).1 ≡ some raw
      → IsOutput (resolved library w q folder_id folder_name o).0 raw
  resolved-IsOutput q none raw e = absurd cc
  resolved-IsOutput q (some json) raw e =
      validated-IsOutput (record q { json = json }) (parse library q.dashboard json) raw refl e

  obtained-IsOutput :
      (known_hash : String) (force_recreate : Bool) (s : Step) (raw : String)
      → text_of (obtained library w known_hash folder_id folder_name force_recreate s).1 ≡ some raw
      → IsOutput (obtained library w known_hash folder_id folder_name force_recreate s).0 raw
  obtained-IsOutput known_hash force_recreate (failed q) raw e = absurd cc
  obtained-IsOutput known_hash force_recreate (done q) raw e =
      elim (Bool-cases (hash library q.dashboard == known_hash && not force_recreate)) [
        | inl f ↦ absurd (ground arith)
        | inr f ↦ rw f (
            resolved-IsOutput (record q { hash = hash library q.dashboard })
              (resolve_datasources w q.dashboard.spec.datasources q.json) raw (rw f at e))
      ]

  -- If a text is sent, it is the trimmed marshalled form of the document of the dashboard, in which
  -- `id` is null, `uid` is what `UID` returns, `folderId` and `folderName` are those of the folder,
  -- and every other key has the value that it has in the resolved JSON text.
  pub process_dashboard-IsOutput :
      (p : Pipeline) (known_hash : String) (force_recreate : Bool) (raw : String)
      → text_of (process_dashboard library w p known_hash folder_id folder_name force_recreate).1
        ≡ some raw
      → IsOutput
          (process_dashboard library w p known_hash folder_id folder_name force_recreate).0
          raw
  unfolding process_dashboard
  process_dashboard-IsOutput p known_hash force_recreate raw e =
      obtained-IsOutput known_hash force_recreate (obtain_json w p) raw e
