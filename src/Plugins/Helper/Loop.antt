-- ===== src/Plugins/Helper/Loop.antt =====
-- What the loop of `FilterPlugins` keeps true.
use grafana_operator.Common.{◌≡◌, Bool, true, ◌&&◌, ◌||◌, not, eqb, [], ◌∷◌, arith}
use grafana_operator.Plugins.PluginList.{
  GrafanaPlugin, PluginList, has_some_version_of, has_exact_version_of, versions_of,
}
use grafana_operator.Plugins.PluginList.Laws.{
  all, all-snoc, HasDistinctNames, HasDistinctNames-snoc,
}
use grafana_operator.Plugins.Helper.{filter_plugin, filter_loop, removed_loop}

-- What allows the plugin `p` among those to have: it has not failed before, and it is installed, or
-- new, or the only request of its name.
abbrev pub is_allowed : (requested installed failed : PluginList) → GrafanaPlugin → Bool
is_allowed requested installed failed p =
    not (has_exact_version_of failed p)
    && (has_exact_version_of installed p
        || (not (has_some_version_of installed p) || eqb (versions_of requested p) 1))

-- A plugin that is allowed is there in some version.
abbrev pub is_served : (requested installed failed chosen : PluginList) → GrafanaPlugin → Bool
is_served requested installed failed chosen p =
    not (is_allowed requested installed failed p) || has_some_version_of chosen p

-- The state of the loop.
pub record IsSound (requested installed failed : PluginList) (s : PluginList × Bool) : Type 0 where
  pub distinct : HasDistinctNames s.0
  pub allowed : all (is_allowed requested installed failed) s.0 ≡ true
  pub asked : all (has_exact_version_of requested) s.0 ≡ true
  pub changed : s.1 ≡ not (all (has_exact_version_of installed) s.0)

module _ (requested installed failed : PluginList) where
  filter_plugin-IsSound :
      (p : GrafanaPlugin) (s : PluginList × Bool)
      → has_exact_version_of requested p ≡ true
      → IsSound requested installed failed s
      → IsSound requested installed failed (filter_plugin requested installed failed p s)
  unfolding filter_plugin
  filter_plugin-IsSound p (filtered, updated) r h = record {
    distinct = ground (arith, HasDistinctNames-snoc filtered p);
    allowed = ground (arith, all-snoc (is_allowed requested installed failed) filtered p);
    asked = ground (arith, all-snoc (has_exact_version_of requested) filtered p);
    changed = ground (arith, all-snoc (has_exact_version_of installed) filtered p);
  }

  pub filter_loop-IsSound :
      (rest : PluginList) (s : PluginList × Bool)
      → all (has_exact_version_of requested) rest ≡ true
      → IsSound requested installed failed s
      → IsSound requested installed failed (filter_loop requested installed failed rest s)
  unfolding filter_loop all
  filter_loop-IsSound [] s r h = h
  filter_loop-IsSound (p ∷ rest) s r h =
      filter_loop-IsSound rest (filter_plugin requested installed failed p s) (ground arith)
        (filter_plugin-IsSound p s (ground arith) h)

pub removed_loop-eq :
    (requested l : PluginList) (updated : Bool)
    → removed_loop requested l updated ≡ (updated || not (all (has_some_version_of requested) l))
unfolding removed_loop all
removed_loop-eq requested [] updated = ground arith
removed_loop-eq requested (p ∷ l) updated =
    ground (arith, removed_loop-eq requested l true, removed_loop-eq requested l updated)
