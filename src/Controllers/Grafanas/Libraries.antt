-- ===== src/Controllers/Grafanas/Libraries.antt =====
-- The jsonnet libraries, of controllers/grafana/grafonnet_utils.go: the config maps with the annotation are
-- written to files.
use grafana_operator.Common.{
  String, ◌⧺◌, ◌==◌, Bool, false, Option, none, some, List, [], ◌∷◌, Assoc, lookup, if◌then◌else◌,
}
use grafana_operator.Common.Run.{Result, ok, err, Run, ◌>>=◌, return, panic}
use grafana_operator.Config.ConfigValue.{Values, get_config_string}
use grafana_operator.Api.Users.{Accounts}
use grafana_operator.Controllers.Selectors.{Selector}
use grafana_operator.Controllers.Grafanas.Types.{
  Resource, LibraryMap, Stat, exists, is_missing, unknown, Outside, plain,
}

abbrev is_library : Option String → Bool
is_library none = false
is_library (some text) = text == "true"

module _ (o : Outside) where
  abbrev Files : Type 0 → Type 0
  Files A = Run (Accounts o.site) A

  unfoldable pub validate_file_extension : (file_path : String) → Option o.Error
  validate_file_extension file_path =
      if o.extension file_path == ".libsonnet"
      then none
      else some (o.new_error "unknown extension, expected .libsonnet")

  abbrev after_stat : String → Stat o.Error → Files (Option o.Error)
  after_stat path exists = return none
  after_stat path is_missing = plain o (o.mkdir path)
  after_stat path (unknown e) = return (some e)

  -- Whether there is an error, for the folder of the config map.
  unfoldable pub create_folder : (folder_path : String) → Files (Option o.Error)
  create_folder folder_path accounts = after_stat folder_path (o.stat folder_path accounts) accounts

  abbrev write_if_valid : (path contents : String) → Option o.Error → Files (Option o.Error)
  write_if_valid path contents (some e) = return (some e)
  write_if_valid path contents none = plain o (o.write_file path contents)

  unfoldable pub create_file : (path contents : String) → Files (Option o.Error)
  unfolding validate_file_extension
  create_file path contents = write_if_valid path contents (validate_file_extension path)

  abbrev unless_error : Option o.Error → Files (Option o.Error) → Files (Option o.Error)
  unless_error (some e) next = return (some e)
  unless_error none next = next

  -- The first error ends the files of a map, and all maps. The order is that of the range over the map.
  unfoldable pub create_files : (folder_path : String) → Assoc String → Files (Option o.Error)
  unfolding create_file
  create_files folder_path [] = return none
  create_files folder_path ((filename, contents) ∷ l) = do
    e ← create_file (folder_path ⧺ ("/" ⧺ filename)) contents
    unless_error e (create_files folder_path l)

  -- A folder that cannot be made is only logged.
  abbrev create_files_if :
      (folder_path : String) → Assoc String → Option o.Error → Files (Option o.Error)
  create_files_if folder_path content (some e) = return none
  create_files_if folder_path content none = create_files folder_path content

  abbrev import_library : (base_path : String) → LibraryMap → Files (Option o.Error)
  import_library base_path config_map = do
    let folder_path = base_path ⧺ ("/" ⧺ config_map.name)
    e ← create_folder folder_path
    create_files_if folder_path config_map.content e

  abbrev import_if_library : (base_path : String) → LibraryMap → Files (Option o.Error)
  import_if_library base_path config_map =
      if is_library (lookup "jsonnet/library" config_map.annotations)
      then import_library base_path config_map
      else return none

  unfoldable pub import_libraries : (base_path : String) → List LibraryMap → Files (Option o.Error)
  unfolding create_folder create_files lookup
  import_libraries base_path [] = return none
  import_libraries base_path (config_map ∷ l) = do
    e ← import_if_library base_path config_map
    unless_error e (import_libraries base_path l)

  -- A base path that is not a text panics.
  abbrev import_listed : Option String → Result o.Error (List LibraryMap) → Files (Option o.Error)
  import_listed base_path (err e) = return (some e)
  import_listed (some base_path) (ok maps) = import_libraries base_path maps
  import_listed none (ok maps) = panic

  abbrev import_selected : Values → (namespace : String) → Option Selector → Files (Option o.Error)
  import_selected values namespace none accounts = return (some o.selector_error) accounts
  import_selected values namespace (some selector) accounts =
      import_listed (get_config_string "grafonnet.location" "/opt/jsonnet" values)
        (o.list_config_maps namespace selector accounts) accounts

  abbrev import_by :
      Values → (namespace : String) → Option (Option o.LabelSelector) → Files (Option o.Error)
  import_by values namespace none = return none
  import_by values namespace (some none) = return none
  import_by values namespace (some (some selector)) =
      import_selected values namespace (o.label_selector_as_selector selector)

  unfoldable pub reconcile_config_maps :
      Values → Resource o.kubernetes o.LabelSelector → Files (Option o.Error)
  unfolding import_libraries get_config_string
  reconcile_config_maps values cr = import_by values cr.grafana.served.namespace cr.jsonnet
