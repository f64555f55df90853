-- ===== src/Plugins/Helper/Blocked.antt =====
-- An upgrade that several dashboards ask for.
use mathlib.Core.Path.{subst, subst⁻¹}
use mathlib.Core.Option.{some-injective}
use grafana_operator.Common.{
  eq_iff, ℕ, ◌+◌, sym, ◌∙◌, Bool-cases, Option-cases, inl, inr, if◌then◌else◌, String, ◌==◌, Option,
  none, some, ◌≡◌, ◌≢◌, refl, Bool, true, false, ◌||◌, not, [], ◌∷◌, arith,
}
use grafana_operator.Plugins.PluginList.{
  GrafanaPlugin, PluginList, Semver, has_newer_version_of, is_newer, or_else_newer, same_name,
  has_some_version_of, has_exact_version_of, versions_of,
}
use grafana_operator.Plugins.PluginList.Laws.{all, has_some_version_of-snoc}
use grafana_operator.Plugins.Helper.{
  filter_plugin, filter_loop, removed_loop, filter_latest, filter_plugins, pick_latest_versions,
  latest_among, keep_unless_newer,
}
use grafana_operator.Plugins.Helper.Latest.{IsOrder}

-- The requested plugin has another name than `p`, or is not installed in that version.
abbrev pub is_upgrade_of : (installed : PluginList) (p q : GrafanaPlugin) → Bool
is_upgrade_of installed p q = not (same_name q p) || not (has_exact_version_of installed q)

-- Both tests look at the name alone.
versions_of_name :
    (l : PluginList) (p q : GrafanaPlugin) → p.name ≡ q.name → versions_of l p ≡ versions_of l q
unfolding versions_of
versions_of_name [] p q h = refl
versions_of_name (x ∷ l) p q h =
    ground (arith, versions_of_name l p q h, eq_iff x.name p.name, eq_iff x.name q.name)

has_some_version_of_name :
    (l : PluginList) (p q : GrafanaPlugin)
    → p.name ≡ q.name
    → has_some_version_of l p ≡ has_some_version_of l q
unfolding has_some_version_of
has_some_version_of_name [] p q h = refl
has_some_version_of_name (x ∷ l) p q h =
    ground (arith, has_some_version_of_name l p q h, eq_iff x.name p.name, eq_iff x.name q.name)

module _ (requested installed failed : PluginList) (p : GrafanaPlugin)
    (present : has_some_version_of installed p ≡ true) (several : versions_of requested p ≢ 1) where
  blocked_step :
      (q : GrafanaPlugin) (s : PluginList × Bool)
      → is_upgrade_of installed p q ≡ true
      → has_some_version_of s.0 p ≡ false
      → has_some_version_of (filter_plugin requested installed failed q s).0 p ≡ false
  unfolding filter_plugin
  blocked_step q (filtered, updated) h k = ground (
    arith,
    eq_iff q.name p.name,
    versions_of_name requested q p,
    has_some_version_of_name installed q p,
    has_some_version_of-snoc filtered q p,
  )

  blocked_loop :
      (rest : PluginList) (s : PluginList × Bool)
      → all (is_upgrade_of installed p) rest ≡ true
      → has_some_version_of s.0 p ≡ false
      → has_some_version_of (filter_loop requested installed failed rest s).0 p ≡ false
  unfolding filter_loop all
  blocked_loop [] s h k = k
  blocked_loop (q ∷ rest) s h k =
      blocked_loop rest (filter_plugin requested installed failed q s) (ground arith)
        (blocked_step q s (ground arith) k)

-- Behind `pickLatestVersions`: a plugin that is installed, and whose name is requested other than once,
-- each time in a version that is not the installed one, is in no version among the plugins to have.
filter_latest_drops_upgrade :
    (requested installed failed : PluginList) (p : GrafanaPlugin)
    → has_some_version_of installed p ≡ true
    → versions_of requested p ≢ 1
    → all (is_upgrade_of installed p) requested ≡ true
    → has_some_version_of (filter_latest requested installed failed).0 p ≡ false
unfolding filter_latest
filter_latest_drops_upgrade [] installed failed p h k a =
    unfold filter_loop removed_loop has_some_version_of in ground arith
filter_latest_drops_upgrade (q ∷ requested) installed failed p h k a =
    blocked_loop (q ∷ requested) installed failed p h k (q ∷ requested) ([], false) a
      (unfold has_some_version_of in refl)

-- A request of the name of `p` asks for the version `v`.
abbrev pub asks_for : (p : GrafanaPlugin) → (v : String) → GrafanaPlugin → Bool
asks_for p v q = not (same_name q p) || q.version == v

module _ (semver : Semver) (order : IsOrder semver) (p : GrafanaPlugin) (v : String) where
  is_newer-same : (a : Option semver.Version) → is_newer semver a a ≢ some true
  unfolding is_newer
  is_newer-same none h = absurd cc
  is_newer-same (some a) h = absurd (ground (arith, order.irrefl a))

  or_else_newer-same :
      (a rest : Option Bool)
      → a ≢ some true
      → or_else_newer semver a rest ≡ some true
      → rest ≡ some true
  or_else_newer-same none rest h k = absurd cc
  or_else_newer-same (some true) rest h k = absurd (h refl)
  or_else_newer-same (some false) rest h k = k

  has_newer_version_of-same :
      (l : PluginList) (q : GrafanaPlugin)
      → all (asks_for p v) l ≡ true
      → same_name q p ≡ true
      → q.version ≡ v
      → has_newer_version_of semver l q ≢ some true
  unfolding has_newer_version_of all
  has_newer_version_of-same [] q h same e k = absurd cc
  has_newer_version_of-same (x ∷ l) q h same e k = elim (Bool-cases (same_name x q)) [
    | inr n ↦ has_newer_version_of-same l q (ground arith) same e (rw n at k)
    | inl n ↦
        let names : (x.version == v) ≡ true =
          ground (arith, eq_iff x.name q.name, eq_iff q.name p.name, eq_iff x.name p.name) in
        let w : x.version ≡ q.version = (eq_iff x.version v).0 names ∙ sym e in
        let none_newer : is_newer semver (semver.make x.version) (semver.make q.version)
            ≢ some true =
          subst⁻¹ (λ t. is_newer semver (semver.make t) (semver.make q.version) ≢ some true) w
            (is_newer-same (semver.make q.version)) in
        has_newer_version_of-same l q (ground arith) same e
          (or_else_newer-same _ _ none_newer (rw n at k))
  ]

  kept-versions :
      (q : GrafanaPlugin) (newer : Option Bool) (rest : Option PluginList) (latest : PluginList)
      (n : ℕ)
      → keep_unless_newer q newer rest ≡ some latest
      → (same_name q p ≡ true → newer ≢ some true)
      → ((l : PluginList) → rest ≡ some l → versions_of l p ≡ n)
      → versions_of latest p ≡ (if same_name q p then n + 1 else n)
  unfolding versions_of
  kept-versions q none rest latest n e h k = absurd cc
  kept-versions q (some true) rest latest n e h k = elim (Bool-cases (same_name q p)) [
    | inl same ↦ absurd (h same refl)
    | inr other ↦ rw other (k latest e)
  ]
  kept-versions q (some false) none latest n e h k = absurd cc
  kept-versions q (some false) (some l) latest n e h k =
      subst (λ t. versions_of t p ≡ (if same_name q p then n + 1 else n)) (some-injective _ _ e)
        (rw (k l refl) refl)

  latest_among-same :
      (requested rest latest : PluginList)
      → all (asks_for p v) requested ≡ true
      → all (asks_for p v) rest ≡ true
      → latest_among semver requested rest ≡ some latest
      → versions_of latest p ≡ versions_of rest p
  unfolding latest_among versions_of all
  latest_among-same requested [] latest h k e =
      subst (λ t. versions_of t p ≡ 0) (some-injective _ _ e) refl
  latest_among-same requested (q ∷ rest) latest h k e =
      kept-versions q (has_newer_version_of semver requested q) (latest_among semver requested rest)
        latest (versions_of rest p) e
        (λ same.
          has_newer_version_of-same requested q h same ((eq_iff q.version v).0 (ground arith)))
        (λ l f. latest_among-same requested rest l h (ground arith) f)

  kept-all :
      (f : GrafanaPlugin → Bool) (q : GrafanaPlugin) (newer : Option Bool)
      (rest : Option PluginList) (latest : PluginList)
      → keep_unless_newer q newer rest ≡ some latest
      → f q ≡ true
      → ((l : PluginList) → rest ≡ some l → all f l ≡ true)
      → all f latest ≡ true
  unfolding all
  kept-all f q none rest latest e h k = absurd cc
  kept-all f q (some true) rest latest e h k = k latest e
  kept-all f q (some false) none latest e h k = absurd cc
  kept-all f q (some false) (some l) latest e h k =
      subst (λ t. all f t ≡ true) (some-injective _ _ e) (rw (h, k l refl) refl)

  latest_among-all :
      (f : GrafanaPlugin → Bool) (requested rest latest : PluginList)
      → all f rest ≡ true
      → latest_among semver requested rest ≡ some latest
      → all f latest ≡ true
  unfolding latest_among all
  latest_among-all f requested [] latest h e =
      subst (λ t. all f t ≡ true) (some-injective _ _ e) refl
  latest_among-all f requested (q ∷ rest) latest h e =
      kept-all f q (has_newer_version_of semver requested q) (latest_among semver requested rest)
        latest e (ground arith) (λ l g. latest_among-all f requested rest l (ground arith) g)

  picked :
      (requested installed : PluginList)
      → all (asks_for p v) requested ≡ true
      → all (is_upgrade_of installed p) requested ≡ true
      → (versions_of (pick_latest_versions semver requested) p ≡ versions_of requested p)
        × (all (is_upgrade_of installed p) (pick_latest_versions semver requested) ≡ true)
  unfolding pick_latest_versions
  picked requested installed same upgrade =
      elim (Option-cases (latest_among semver requested requested)) [
        | inl e ↦
            let q : pick_latest_versions semver requested ≡ requested = ground (arith, e) in
            rw q (refl, upgrade)
        | inr (latest, e) ↦
            let q : pick_latest_versions semver requested ≡ latest = ground (arith, e) in
            rw q (
              latest_among-same requested requested latest same same e,
              latest_among-all (is_upgrade_of installed p) requested requested latest upgrade e,
            )
      ]

  -- If no version is newer than itself, the plugin `p` is installed in some version, and its name is
  -- requested other than once, each time in one and the same version that is not the installed one, then
  -- `FilterPlugins` returns no version of it: it is not upgraded, and the next update of the list leaves it
  -- out, though it is requested.
  pub filter_plugins_drops_upgrade :
      (requested installed failed : PluginList)
      → has_some_version_of installed p ≡ true
      → versions_of requested p ≢ 1
      → all (asks_for p v) requested ≡ true
      → all (is_upgrade_of installed p) requested ≡ true
      → has_some_version_of (filter_plugins semver requested installed failed).0 p ≡ false
  unfolding filter_plugins
  filter_plugins_drops_upgrade requested installed failed h several same upgrade =
      let (one_version, upgraded) = picked requested installed same upgrade in
      filter_latest_drops_upgrade (pick_latest_versions semver requested) installed failed p h
        (λ one. several (sym one_version ∙ one)) upgraded
