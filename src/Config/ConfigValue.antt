-- ===== src/Config/ConfigValue.antt =====
-- The values of the map `Values` of controllers/config/controller_config.go and
-- controllers/config/notification_controller_config.go, and their operations, which are the same in
-- both files.
pub mod Laws
use grafana_operator.Common.{
  String, ◌==◌, Bool, true, false, ◌&&◌, not, Option, none, some, ℤ, Assoc, lookup, insert, delete,
  is_some, if◌then◌else◌,
}

-- `interface{}`: no value, a text, a Boolean, a point in time, or a value of another type.
pub data ConfigValue : Type 0 where
  nil : ConfigValue
  text : String → ConfigValue
  flag : Bool → ConfigValue
  timestamp : ℤ → ConfigValue
  other : ℤ → ConfigValue

abbrev pub Values : Type 0
Values = Assoc ConfigValue

-- `value != nil && value != ""`
abbrev pub is_item : ConfigValue → Bool
is_item nil = false
is_item (text s) = not (s == "")
is_item _ = true

unfoldable pub add_config_item : String → ConfigValue → Values → Values
add_config_item key value values =
    if not (key == "") && is_item value then insert key value values else values

unfoldable pub remove_config_item : String → Values → Values
remove_config_item key values = delete key values

unfoldable pub has_config_item : String → Values → Bool
has_config_item key values = is_some (lookup key values)

-- `Values[key]`, which is nil for a missing key
abbrev pub value_at : String → Values → ConfigValue
value_at key values = elim (lookup key values) [ none ↦ nil | some value ↦ value ]

unfoldable pub get_config_item : String → ConfigValue → Values → ConfigValue
unfolding has_config_item
get_config_item key default values =
    if has_config_item key values then value_at key values else default

-- A type assertion that fails panics, which is `none`.
abbrev pub as_text : ConfigValue → Option String
as_text (text s) = some s
as_text _ = none

abbrev pub as_flag : ConfigValue → Option Bool
as_flag (flag b) = some b
as_flag _ = none

abbrev pub as_timestamp : ConfigValue → Option ℤ
as_timestamp (timestamp t) = some t
as_timestamp _ = none

unfoldable pub get_config_string : String → String → Values → Option String
unfolding has_config_item
get_config_string key default values =
    if has_config_item key values then as_text (value_at key values) else some default

unfoldable pub get_config_bool : String → Bool → Values → Option Bool
unfolding has_config_item
get_config_bool key default values =
    if has_config_item key values then as_flag (value_at key values) else some default

unfoldable pub get_config_timestamp : String → ℤ → Values → Option ℤ
unfolding has_config_item
get_config_timestamp key default values =
    if has_config_item key values then as_timestamp (value_at key values) else some default
