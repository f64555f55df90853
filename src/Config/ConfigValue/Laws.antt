-- ===== src/Config/ConfigValue/Laws.antt =====
-- What is read back from the items.
use grafana_operator.Common.{
  String, ◌==◌, eq_iff, ◌≡◌, ◌&&◌, not, lookup-insert, if◌then◌else◌, arith,
}
use grafana_operator.Config.ConfigValue.{
  ConfigValue, Values, is_item, add_config_item, get_config_item,
}

-- Reading any key after `AddConfigItem`: the new value under its key, unless the key is empty or
-- the value is nil or the empty text, which changes nothing; and what was there under every other
-- key.
pub get-add_config_item :
    (key j : String) (value default : ConfigValue) (values : Values)
    → get_config_item j default (add_config_item key value values) ≡ (
        if (key == j) && (not (key == "") && is_item value)
        then value
        else get_config_item j default values)
unfolding get_config_item add_config_item
get-add_config_item key j value default values =
    ground (arith, lookup-insert key j value values, eq_iff key j)
