-- ===== src/Plugins/Helper/Served.antt =====
-- The loop of `FilterPlugins` leaves no plugin out that it may have.
use grafana_operator.Common.{◌≡◌, refl, Bool, true, eq_iff, [], ◌∷◌, arith}
use grafana_operator.Plugins.PluginList.{GrafanaPlugin, PluginList, has_some_version_of}
use grafana_operator.Plugins.PluginList.Laws.{all, has_some_version_of-snoc}
use grafana_operator.Plugins.Helper.{filter_plugin, filter_loop}
use grafana_operator.Plugins.Helper.Loop.{is_allowed, is_served}

module _ (requested installed failed : PluginList) where
  filter_plugin-keeps :
      (p q : GrafanaPlugin) (s : PluginList × Bool)
      → has_some_version_of s.0 q ≡ true
      → has_some_version_of (filter_plugin requested installed failed p s).0 q ≡ true
  unfolding filter_plugin
  filter_plugin-keeps p q (filtered, updated) h =
      ground (arith, has_some_version_of-snoc filtered p q)

  filter_loop-keeps_some :
      (rest : PluginList) (q : GrafanaPlugin) (s : PluginList × Bool)
      → has_some_version_of s.0 q ≡ true
      → has_some_version_of (filter_loop requested installed failed rest s).0 q ≡ true
  unfolding filter_loop
  filter_loop-keeps_some [] q s h = h
  filter_loop-keeps_some (p ∷ rest) q s h =
      filter_loop-keeps_some rest q (filter_plugin requested installed failed p s)
        (filter_plugin-keeps p q s h)

  filter_plugin-serves :
      (p : GrafanaPlugin) (s : PluginList × Bool)
      → is_allowed requested installed failed p ≡ true
      → has_some_version_of (filter_plugin requested installed failed p s).0 p ≡ true
  unfolding filter_plugin
  filter_plugin-serves p (filtered, updated) h =
      ground (arith, has_some_version_of-snoc filtered p p, eq_iff p.name p.name)

  pub filter_loop-serves :
      (rest : PluginList) (s : PluginList × Bool)
      → all
          (is_served requested installed failed (filter_loop requested installed failed rest s).0)
          rest
        ≡ true
  unfolding filter_loop all
  filter_loop-serves [] s = refl
  filter_loop-serves (p ∷ rest) s =
      let next = filter_plugin requested installed failed p s in
      ground (
        arith,
        filter_plugin-serves p s,
        filter_loop-keeps_some rest p next,
        filter_loop-serves rest next,
      )
