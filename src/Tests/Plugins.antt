-- ===== src/Tests/Plugins.antt =====
-- The choice of plugins (api/integreatly/v1alpha1/pluginsList.go,
-- controllers/grafana/pluginsHelper.go) at concrete lists.
use grafana_operator.Common.{
  String, ◌==◌, ℕ, ◌≡◌, ◌≢◌, refl, true, false, not, Option, none, some, [], ◌∷◌, ℤ, pos, negsuc,
  ltb, eqb, if◌then◌else◌, arith,
}
use grafana_operator.Plugins.PluginList.{
  GrafanaPlugin, PluginList, Semver, same_name, has_some_version_of, has_exact_version_of,
  get_installed_version_of, versions_of, has_newer_version_of, is_newer,
}
use grafana_operator.Plugins.PluginList.Laws.{all, get_installed_version_of-some}
use grafana_operator.Plugins.Helper.{
  filter_latest, filter_plugins, pick_latest_versions, latest_among, filter_loop, filter_plugin,
  removed_loop,
}
use grafana_operator.Plugins.Helper.Choice.{IsChoice, filter_latest-IsChoice}
use grafana_operator.Plugins.Helper.Stable.{filter_plugins_stable}
use grafana_operator.Plugins.Helper.Blocked.{asks_for, is_upgrade_of, filter_plugins_drops_upgrade}
use grafana_operator.Plugins.Helper.Latest.{
  IsOrder, has_version, newer, any, pick_latest_versions_lem,
}

abbrev clock_1 : GrafanaPlugin
clock_1 = record { name = "clock"; version = "1.0.0" }

abbrev clock_2 : GrafanaPlugin
clock_2 = record { name = "clock"; version = "2.0.0" }

abbrev pie : GrafanaPlugin
pie = record { name = "pie"; version = "1.0.0" }

abbrev requests : PluginList
requests = clock_2 ∷ clock_1 ∷ pie ∷ []

abbrev version_number : String → Option ℕ
version_number s = if s == "1.0.0" then some 1 else if s == "2.0.0" then some 2 else none

abbrev compare_numbers : ℕ → ℕ → ℤ
compare_numbers a b = if ltb b a then pos 1 else if eqb a b then pos 0 else negsuc 0

abbrev semver : Semver
semver = record { Version = ℕ; make = version_number; compare = compare_numbers }

semver-IsOrder : IsOrder semver
semver-IsOrder = record { irrefl = λ a. ground arith; trans = λ a b c h k. ground arith }

clock_installed : has_some_version_of (clock_1 ∷ []) clock_1 ≡ true
unfolding has_some_version_of
clock_installed = refl

clock_requested : versions_of (clock_2 ∷ clock_2 ∷ []) clock_1 ≢ 1
unfolding versions_of
clock_requested = λ h. absurd (omega (arith, h))

clock_upgraded : all (is_upgrade_of (clock_1 ∷ []) clock_1) (clock_2 ∷ clock_2 ∷ []) ≡ true
unfolding all has_exact_version_of has_some_version_of
clock_upgraded = refl

requests_valid : all (has_version semver) requests ≡ true
unfolding all
requests_valid = refl

clock_listed : has_some_version_of requests clock_1 ≡ true
unfolding has_some_version_of
clock_listed = refl

-- The newest requested version is chosen, and the other plugin.
chosen_test : filter_plugins semver requests [] [] ≡ (clock_2 ∷ pie ∷ [], true)
unfolding filter_plugins pick_latest_versions latest_among has_newer_version_of is_newer
    filter_latest filter_loop filter_plugin removed_loop has_some_version_of has_exact_version_of
    versions_of
chosen_test = refl

filter_latest-IsChoice_example :
    IsChoice requests (clock_1 ∷ []) [] (filter_latest requests (clock_1 ∷ []) [])
filter_latest-IsChoice_example = filter_latest-IsChoice requests (clock_1 ∷ []) []

filter_plugins_stable_example :
    let chosen = (filter_plugins semver requests [] []).0 in
    filter_plugins semver requests chosen [] ≡ (chosen, false)
filter_plugins_stable_example = filter_plugins_stable semver requests

clock_same : all (asks_for clock_1 "2.0.0") (clock_2 ∷ clock_2 ∷ []) ≡ true
unfolding all
clock_same = refl

filter_plugins_drops_upgrade_example :
    has_some_version_of (filter_plugins semver (clock_2 ∷ clock_2 ∷ []) (clock_1 ∷ []) []).0 clock_1
    ≡ false
filter_plugins_drops_upgrade_example =
    filter_plugins_drops_upgrade semver semver-IsOrder clock_1 "2.0.0" (clock_2 ∷ clock_2 ∷ [])
      (clock_1 ∷ []) [] clock_installed clock_requested clock_same clock_upgraded

pick_latest_versions_lem_example :
    (all (λ p. not (any (newer semver p) requests)) (pick_latest_versions semver requests) ≡ true)
    × (all (has_some_version_of (pick_latest_versions semver requests)) requests ≡ true)
pick_latest_versions_lem_example =
    pick_latest_versions_lem semver semver-IsOrder requests requests_valid

get_installed_version_of-some_example :
    (q : GrafanaPlugin) × (get_installed_version_of requests clock_1 ≡ some q)
    × (same_name q clock_1 ≡ true)
get_installed_version_of-some_example = get_installed_version_of-some requests clock_1 clock_listed
