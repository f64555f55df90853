-- ===== src/Plugins/Helper/Stable.antt =====
-- Once the chosen plugins are installed, the same requests change nothing.
use grafana_operator.Common.{
  Bool-cases, inl, inr, ◌≡◌, refl, ◌∙◌, sym, ap, Bool, true, false, [], ◌∷◌, ◌++◌, arith,
}
use grafana_operator.Plugins.PluginList.{
  GrafanaPlugin, PluginList, Semver, has_some_version_of, has_exact_version_of,
}
use grafana_operator.Plugins.PluginList.Laws.{
  all-has_some, has_exact_version_of-snoc, same_version_refl,
}
use grafana_operator.Plugins.Helper.{
  filter_plugin, filter_loop, removed_loop, filter_latest, filter_plugins, pick_latest_versions,
}
use grafana_operator.Plugins.Helper.Loop.{removed_loop-eq}
use grafana_operator.Plugins.Helper.Choice.{IsSound-filter_loop}

-- The loop keeps what it has chosen.
filter_loop-keeps :
    (requested rest : PluginList) (s : PluginList × Bool) (q : GrafanaPlugin)
    → has_exact_version_of s.0 q ≡ true
    → has_exact_version_of (filter_loop requested [] [] rest s).0 q ≡ true
unfolding filter_loop
filter_loop-keeps requested [] s q h = h
filter_loop-keeps requested (p ∷ rest) s q h =
    filter_loop-keeps requested rest (filter_plugin requested [] [] p s) q
      (unfold filter_plugin in ground (arith, has_exact_version_of-snoc s.0 p q))

last_is_exact :
    (filtered : PluginList) (p : GrafanaPlugin) → has_exact_version_of (filtered ++ p ∷ []) p ≡ true
last_is_exact filtered p =
    rw (has_exact_version_of-snoc filtered p p) (ground (arith, same_version_refl p))

-- One round, for a plugin that is there already, for a new one and for an installed one.
module _ (requested installed : PluginList) (p : GrafanaPlugin) (filtered : PluginList) where
  skipped :
      (updated : Bool)
      → has_some_version_of filtered p ≡ true
      → filter_plugin requested installed [] p (filtered, updated) ≡ (filtered, updated)
  unfolding filter_plugin
  skipped updated h = ground arith

  added_installed :
      has_some_version_of filtered p ≡ false
      → has_exact_version_of installed p ≡ true
      → filter_plugin requested installed [] p (filtered, false) ≡ (filtered ++ p ∷ [], false)
  unfolding filter_plugin has_exact_version_of
  added_installed h k = ground arith

added_new :
    (requested : PluginList) (p : GrafanaPlugin) (filtered : PluginList) (updated : Bool)
    → has_some_version_of filtered p ≡ false
    → filter_plugin requested [] [] p (filtered, updated) ≡ (filtered ++ p ∷ [], true)
unfolding filter_plugin has_exact_version_of has_some_version_of
added_new requested p filtered updated h = ground arith

-- The second pass, with the plugins `chosen` of the first installed, chooses them again.
second_pass :
    (requested chosen rest filtered : PluginList) (updated : Bool)
    → (filter_loop requested [] [] rest (filtered, updated)).0 ≡ chosen
    → filter_loop requested chosen [] rest (filtered, false) ≡ (chosen, false)
unfolding filter_loop
second_pass requested chosen [] filtered updated h = ground arith
second_pass requested chosen (p ∷ rest) filtered updated h =
    elim (Bool-cases (has_some_version_of filtered p)) [
      | inl e ↦
          ap (filter_loop requested chosen [] rest) (skipped requested chosen p filtered false e)
          ∙ second_pass requested chosen rest filtered updated (
              ap (λ (s : PluginList × Bool). (filter_loop requested [] [] rest s).0)
                (sym (skipped requested [] p filtered updated e))
              ∙ h)
      | inr e ↦
          let h' : (filter_loop requested [] [] rest (filtered ++ p ∷ [], true)).0 ≡ chosen =
            ap (λ (s : PluginList × Bool). (filter_loop requested [] [] rest s).0)
              (sym (added_new requested p filtered updated e))
            ∙ h in
          let kept : has_exact_version_of chosen p ≡ true = rw (← h') (
            filter_loop-keeps requested rest (filtered ++ p ∷ [], true) p
              (last_is_exact filtered p)) in
          ap (filter_loop requested chosen [] rest)
            (added_installed requested chosen p filtered e kept)
          ∙ second_pass requested chosen rest (filtered ++ p ∷ []) true h'
    ]

-- The same for `FilterPlugins` behind `pickLatestVersions`.
filter_latest_stable :
    (requested : PluginList)
    → (let chosen = (filter_latest requested [] []).0 in
        filter_latest requested chosen [] ≡ (chosen, false))
unfolding filter_latest
filter_latest_stable [] = unfold filter_loop removed_loop in refl
filter_latest_stable (p ∷ requested) =
    let r = p ∷ requested in
    let chosen = (filter_loop r [] [] r ([], false)).0 in
    let again = second_pass r chosen r [] false refl in
    let present = all-has_some r chosen (IsSound-filter_loop r [] []).asked in
    rw again (rw (removed_loop-eq r chosen false) (rw present))

-- What `FilterPlugins` chooses from nothing installed and nothing failed, it chooses again for the same
-- requests, and reports no update, once exactly that is installed and nothing has failed.
pub filter_plugins_stable :
    (semver : Semver) (requested : PluginList)
    → (let chosen = (filter_plugins semver requested [] []).0 in
        filter_plugins semver requested chosen [] ≡ (chosen, false))
unfolding filter_plugins
filter_plugins_stable semver requested =
    filter_latest_stable (pick_latest_versions semver requested)
