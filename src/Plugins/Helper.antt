-- ===== src/Plugins/Helper.antt =====
-- `PluginsHelperImpl` of controllers/grafana/pluginsHelper.go. `PluginExists`, which asks grafana.com,
-- is left out, and so are log lines.
pub mod Loop
pub mod Served
pub mod Choice
pub mod Stable
pub mod Blocked
pub mod Latest
use grafana_operator.Common.{
  String, ◌⧺◌, join, ◌==◌, ℕ, Bool, true, false, ◌&&◌, not, Option, none, some, List, [], ◌∷◌, ◌++◌,
  map, eqb, if◌then◌else◌,
}
use grafana_operator.Plugins.PluginList.{
  GrafanaPlugin, PluginList, Semver, has_some_version_of, has_exact_version_of, versions_of,
  has_newer_version_of,
}

-- `BuildEnv`: `<name>:<version>,...`
unfoldable pub build_env : PluginList → String
build_env installed = join (map (λ p. p.name ⧺ (":" ⧺ p.version)) installed) ","

-- The loop of `pickLatestVersions`, behind the plugins `rest`; `none` is an error.
abbrev pub keep_unless_newer : GrafanaPlugin → Option Bool → Option PluginList → Option PluginList
keep_unless_newer p none rest = none
keep_unless_newer p (some true) rest = rest
keep_unless_newer p (some false) none = none
keep_unless_newer p (some false) (some latest) = some (p ∷ latest)

module _ (semver : Semver) where
  unfoldable pub latest_among : PluginList → PluginList → Option PluginList
  latest_among requested [] = some []
  latest_among requested (p ∷ rest) =
      keep_unless_newer p (has_newer_version_of semver requested p) (latest_among requested rest)

  -- Where a plugin has no semantic version, whichever comes first is taken later.
  unfoldable pub pick_latest_versions : PluginList → PluginList
  unfolding latest_among
  pick_latest_versions requested = elim (latest_among requested requested) [
    | none ↦ requested
    | some latest ↦ latest
  ]

-- One round of the loop of `FilterPlugins` over the requested plugins: the plugins to have, and
-- whether they change.
unfoldable pub filter_plugin :
    (requested installed failed : PluginList)
    → GrafanaPlugin
    → PluginList × Bool
    → PluginList × Bool
filter_plugin requested installed failed p (filtered, updated) =
    if has_some_version_of filtered p
    then (filtered, updated)
    else if has_exact_version_of failed p
    then (filtered, updated)
    else if has_exact_version_of installed p
    then (filtered ++ p ∷ [], updated)
    else if not (has_some_version_of installed p)
    then (filtered ++ p ∷ [], true)
    else if has_some_version_of installed p
        && (not (has_exact_version_of installed p) && eqb (versions_of requested p) 1)
    then (filtered ++ p ∷ [], true)
    else (filtered, updated)

unfoldable pub filter_loop :
    (requested installed failed : PluginList) → PluginList → PluginList × Bool → PluginList × Bool
filter_loop requested installed failed [] s = s
filter_loop requested installed failed (p ∷ rest) s =
    filter_loop requested installed failed rest (filter_plugin requested installed failed p s)

-- The loop that looks for removed plugins.
unfoldable pub removed_loop : PluginList → PluginList → Bool → Bool
removed_loop requested [] updated = updated
removed_loop requested (p ∷ rest) updated =
    removed_loop requested rest (if not (has_some_version_of requested p) then true else updated)

abbrev pub is_empty : PluginList → Bool
is_empty [] = true
is_empty (p ∷ l) = false

-- `FilterPlugins` behind the call of `pickLatestVersions`.
unfoldable pub filter_latest : (requested installed failed : PluginList) → PluginList × Bool
filter_latest requested installed failed =
    if is_empty requested && not (is_empty installed)
    then ([], true)
    else let (filtered, updated) = filter_loop requested installed failed requested ([], false) in
      (filtered, removed_loop requested installed updated)

unfoldable pub filter_plugins :
    Semver → (requested installed failed : PluginList) → PluginList × Bool
filter_plugins semver requested installed failed =
    filter_latest (pick_latest_versions semver requested) installed failed
