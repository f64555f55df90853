-- ===== src/Plugins/Helper/Choice.antt =====
-- What `FilterPlugins` returns.
use grafana_operator.Common.{◌≡◌, refl, Bool, true, false, ◌&&◌, not, [], ◌∷◌, arith}
use grafana_operator.Plugins.PluginList.{PluginList, has_some_version_of, has_exact_version_of}
use grafana_operator.Plugins.PluginList.Laws.{all, all-has_exact, HasDistinctNames}
use grafana_operator.Plugins.Helper.{filter_loop, removed_loop, filter_latest}
use grafana_operator.Plugins.Helper.Loop.{
  is_allowed, is_served, IsSound, filter_loop-IsSound, removed_loop-eq,
}
use grafana_operator.Plugins.Helper.Served.{filter_loop-serves}

pub IsSound-filter_loop :
    (requested installed failed : PluginList)
    → IsSound requested installed failed
        (filter_loop requested installed failed requested ([], false))
IsSound-filter_loop requested installed failed =
    filter_loop-IsSound requested installed failed requested ([], false) (all-has_exact requested)
      (unfold all in record { distinct = tt; allowed = refl; asked = refl; changed = refl })

-- What the choice of plugins must satisfy: no plugin twice, only plugins that are requested and
-- that are allowed, of each requested plugin that is allowed some version, and an update exactly when some chosen plugin is not installed yet or some
-- installed plugin is no longer requested in any version.
pub record IsChoice (requested installed failed : PluginList) (r : PluginList × Bool) : Type 0 where
  pub distinct : HasDistinctNames r.0
  pub asked : all (has_exact_version_of requested) r.0 ≡ true
  pub allowed : all (is_allowed requested installed failed) r.0 ≡ true
  pub served : all (is_served requested installed failed r.0) requested ≡ true
  pub changed :
      r.1
      ≡ not (
          all (has_exact_version_of installed) r.0 && all (has_some_version_of requested) installed)

-- Whatever is requested, installed and failed, `FilterPlugins` behind `pickLatestVersions` returns
-- no plugin in two versions, only requested versions that are allowed, and some version of every plugin
-- that is requested in an allowed version. A version is allowed if it has not failed before, and it is
-- installed, or no version is installed, or its name is requested once only. An update is reported exactly
-- when a returned version is not installed, or an installed plugin is requested in no version.
pub filter_latest-IsChoice :
    (requested installed failed : PluginList)
    → IsChoice requested installed failed (filter_latest requested installed failed)
unfolding filter_latest
filter_latest-IsChoice [] [] failed =
    unfold filter_loop removed_loop all in
    record { distinct = tt; asked = refl; allowed = refl; served = refl; changed = refl }
filter_latest-IsChoice [] (i ∷ installed) failed =
    unfold all has_some_version_of in
    record { distinct = tt; asked = refl; allowed = refl; served = refl; changed = refl }
filter_latest-IsChoice (p ∷ requested) installed failed =
    let r = p ∷ requested in
    let h = IsSound-filter_loop r installed failed in
    record {
      distinct = h.distinct;
      asked = h.asked;
      allowed = h.allowed;
      served = filter_loop-serves r installed failed r ([], false);
      changed =
          rw (removed_loop-eq r installed (filter_loop r installed failed r ([], false)).1)
            (ground (arith, h.changed));
    }
