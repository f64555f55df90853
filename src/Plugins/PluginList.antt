-- ===== src/Plugins/PluginList.antt =====
-- `PluginList` of api/integreatly/v1alpha1/pluginsList.go. The semantic versions of
-- github.com/blang/semver are a parameter.
pub mod Laws
use grafana_operator.Common.{
  String, ◌==◌, eq_iff, ℕ, suc, ◌+◌, ◌≡◌, refl, Bool, true, false, ◌&&◌, Option, none, some, List,
  [], ◌∷◌, ℤ, pos, eqb_ℤ, if◌then◌else◌, arith,
}

pub record GrafanaPlugin : Type 0 where
  pub name : String
  pub version : String

abbrev pub PluginList : Type 0
PluginList = List GrafanaPlugin

-- `semver.Make`, with `none` for an error, and the method `Compare`, which returns -1, 0 or 1.
pub record Semver : Type 1 where
  pub Version : Type 0
  pub make : String → Option Version
  pub compare : Version → Version → ℤ

abbrev pub same_name : GrafanaPlugin → GrafanaPlugin → Bool
same_name p q = p.name == q.name

abbrev pub same_version : GrafanaPlugin → GrafanaPlugin → Bool
same_version p q = p.name == q.name && p.version == q.version

unfoldable pub has_some_version_of : PluginList → GrafanaPlugin → Bool
has_some_version_of [] plugin = false
has_some_version_of (listed ∷ l) plugin =
    if same_name listed plugin then true else has_some_version_of l plugin

unfoldable pub get_installed_version_of : PluginList → GrafanaPlugin → Option GrafanaPlugin
get_installed_version_of [] plugin = none
get_installed_version_of (listed ∷ l) plugin =
    if same_name listed plugin then some listed else get_installed_version_of l plugin

unfoldable pub has_exact_version_of : PluginList → GrafanaPlugin → Bool
has_exact_version_of [] plugin = false
has_exact_version_of (listed ∷ l) plugin =
    if same_version listed plugin then true else has_exact_version_of l plugin

unfoldable pub versions_of : PluginList → GrafanaPlugin → ℕ
versions_of [] plugin = 0
versions_of (listed ∷ l) plugin =
    let rest = versions_of l plugin in if same_name listed plugin then rest + 1 else rest

module _ (semver : Semver) where
  open semver use {Version, make, compare}

  -- `listedVersion.Compare(requestedVersion) == 1`, and `none` where one is no version
  unfoldable pub is_newer : Option Version → Option Version → Option Bool
  is_newer none requested = none
  is_newer (some listed) none = none
  is_newer (some listed) (some requested) = some (eqb_ℤ (compare listed requested) (pos 1))

  -- `none` is an error.
  abbrev pub or_else_newer : Option Bool → Option Bool → Option Bool
  or_else_newer none rest = none
  or_else_newer (some true) rest = some true
  or_else_newer (some false) rest = rest

  unfoldable pub has_newer_version_of : PluginList → GrafanaPlugin → Option Bool
  unfolding is_newer
  has_newer_version_of [] plugin = some false
  has_newer_version_of (listed ∷ l) plugin =
      let rest = has_newer_version_of l plugin in
      if same_name listed plugin
      then or_else_newer (is_newer (make listed.version) (make plugin.version)) rest
      else rest
