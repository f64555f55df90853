-- ===== src/Ini/Items.antt =====
-- `appendStr`, `appendInt`, `appendFloat` and `appendBool` of controllers/config/grafanaIni.go: a
-- value that is not set adds no line. The map from sections to lines is an association list.
use grafana_operator.Common.{
  String, ◌⧺◌, ◌==◌, Bool, true, false, Option, none, some, List, [], ◌∷◌, ◌++◌, ℤ, itoa, Assoc,
  if◌then◌else◌,
}

abbrev pub Config : Type 0
Config = Assoc (List String)

-- `fmt.Sprintf("%v = %v", key, value)`
unfoldable pub line : String → String → String
line key value = key ⧺ (" = " ⧺ value)

-- `%v` of a `bool`
abbrev pub format_bool : Bool → String
format_bool true = "true"
format_bool false = "false"

unfoldable pub append_str : List String → String → String → List String
append_str list key value = if value == "" then list else list ++ line key value ∷ []

unfoldable pub append_int : List String → String → Option ℤ → List String
append_int list key none = list
append_int list key (some value) = list ++ line key (itoa value) ∷ []

-- `format_float value` is the text that `%v` prints of the result of `strconv.ParseFloat(value,
-- 32)`, and `none` where that is an error.
abbrev append_float_value : List String → String → Option String → List String
append_float_value list key none = list
append_float_value list key (some f) = list ++ line key f ∷ []

unfoldable pub append_float : (String → Option String) → List String → String → String → List String
append_float format_float list key value =
    if value == "" then list else append_float_value list key (format_float value)

unfoldable pub append_bool : List String → String → Option Bool → List String
append_bool list key none = list
append_bool list key (some value) = list ++ line key (format_bool value) ∷ []
