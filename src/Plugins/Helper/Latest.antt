-- ===== src/Plugins/Helper/Latest.antt =====
-- `pickLatestVersions` keeps the newest version of each plugin.
use grafana_operator.Common.{
  eq_iff, ◌≡◌, refl, Bool, true, false, ◌&&◌, ◌||◌, not, Option, none, some, [], ◌∷◌, pos, eqb_ℤ,
  if◌then◌else◌, arith, Bool-cases, inl, inr, is_some, Option-cases,
}
use grafana_operator.Plugins.PluginList.{
  GrafanaPlugin, PluginList, Semver, same_name, has_some_version_of, has_exact_version_of,
  has_newer_version_of, is_newer,
}
use grafana_operator.Plugins.PluginList.Laws.{all, all-weaken, all-has_exact, has_exact-has_some}
use grafana_operator.Plugins.Helper.{latest_among, pick_latest_versions}

-- What semantic versions promise: "newer" is a strict order.
pub record IsOrder (semver : Semver) : Type 0 where
  pub irrefl : (a : semver.Version) → eqb_ℤ (semver.compare a a) (pos 1) ≡ false
  pub trans :
      (a b c : semver.Version)
      → eqb_ℤ (semver.compare a b) (pos 1) ≡ true
      → eqb_ℤ (semver.compare b c) (pos 1) ≡ true
      → eqb_ℤ (semver.compare a c) (pos 1) ≡ true

-- The plugin has a semantic version.
abbrev pub has_version : Semver → GrafanaPlugin → Bool
has_version semver p = is_some (semver.make p.version)

abbrev is_true : Option Bool → Bool
is_true none = false
is_true (some b) = b

-- Some plugin of the list passes the test.
unfoldable pub any : (GrafanaPlugin → Bool) → PluginList → Bool
any f [] = false
any f (p ∷ l) = f p || any f l

-- Two versions, one of them newer, or none.
abbrev newer_version : (semver : Semver) → Option semver.Version → Option semver.Version → Bool
newer_version semver a b = is_true (is_newer semver a b)

-- `q` has the name of `p` and a newer version.
abbrev pub newer : Semver → GrafanaPlugin → GrafanaPlugin → Bool
newer semver p q =
    same_name q p && newer_version semver (semver.make q.version) (semver.make p.version)

-- The plugins of `rest` of which `requested` has no newer version.
keep_latest : Semver → PluginList → PluginList → PluginList
keep_latest semver requested [] = []
keep_latest semver requested (p ∷ rest) =
    let kept = keep_latest semver requested rest in
    if any (newer semver p) requested then kept else p ∷ kept

module _ (semver : Semver) where
  has_newer_version_of-eq :
      (l : PluginList) (p : GrafanaPlugin)
      → has_version semver p ≡ true
      → all (has_version semver) l ≡ true
      → has_newer_version_of semver l p ≡ some (any (newer semver p) l)
  unfolding has_newer_version_of any all
  has_newer_version_of-eq [] p h k = refl
  has_newer_version_of-eq (q ∷ l) p h k = ground (
    arith,
    has_newer_version_of-eq l p,
    Option-cases (semver.make q.version),
    Option-cases (semver.make p.version),
  )

  latest_among-eq :
      (requested rest : PluginList)
      → all (has_version semver) requested ≡ true
      → all (has_version semver) rest ≡ true
      → latest_among semver requested rest ≡ some (keep_latest semver requested rest)
  unfolding latest_among keep_latest all
  latest_among-eq requested [] h k = refl
  latest_among-eq requested (p ∷ rest) h k =
      ground (arith, has_newer_version_of-eq requested p, latest_among-eq requested rest)

  keep_latest-all :
      (requested rest : PluginList)
      → all (λ p. not (any (newer semver p) requested)) (keep_latest semver requested rest) ≡ true
  unfolding keep_latest all
  keep_latest-all requested [] = refl
  keep_latest-all requested (p ∷ rest) = ground (arith, keep_latest-all requested rest)

  has_some-keep_latest :
      (requested rest : PluginList) (p : GrafanaPlugin)
      → any (λ m. same_name m p && not (any (newer semver m) requested)) rest ≡ true
      → has_some_version_of (keep_latest semver requested rest) p ≡ true
  unfolding keep_latest any has_some_version_of
  has_some-keep_latest requested [] p h = h
  has_some-keep_latest requested (x ∷ rest) p h =
      ground (arith, has_some-keep_latest requested rest p)

  no_newer_name :
      (l : PluginList) (x p : GrafanaPlugin)
      → same_name x p ≡ true
      → has_some_version_of l p ≡ false
      → any (newer semver x) l ≡ false
  unfolding any has_some_version_of
  no_newer_name [] x p h k = refl
  no_newer_name (q ∷ l) x p h k =
      ground (
        arith,
        no_newer_name l x p,
        eq_iff q.name x.name,
        eq_iff x.name p.name,
        eq_iff q.name p.name,
      )

module _ (semver : Semver) (order : IsOrder semver) where
  newer_version_trans :
      (a b c : Option semver.Version)
      → newer_version semver a b ≡ true
      → newer_version semver b c ≡ true
      → newer_version semver a c ≡ true
  unfolding is_newer
  newer_version_trans (some a) (some b) (some c) h k = order.trans a b c h k
  newer_version_trans none b c h k = ground arith
  newer_version_trans (some a) none c h k = ground arith
  newer_version_trans (some a) (some b) none h k = ground arith

  newer_version_irrefl : (a : Option semver.Version) → newer_version semver a a ≡ false
  unfolding is_newer
  newer_version_irrefl none = refl
  newer_version_irrefl (some a) = order.irrefl a

  newer_trans :
      (p q r : GrafanaPlugin)
      → newer semver q r ≡ true
      → newer semver p q ≡ true
      → newer semver p r ≡ true
  newer_trans p q r h k = ground (
    arith,
    newer_version_trans (semver.make r.version) (semver.make q.version) (semver.make p.version),
    eq_iff r.name q.name,
    eq_iff q.name p.name,
    eq_iff r.name p.name,
  )

  newer_irrefl : (p : GrafanaPlugin) → newer semver p p ≡ false
  newer_irrefl p = ground (arith, newer_version_irrefl (semver.make p.version))

  any-newer_trans :
      (l : PluginList) (p q : GrafanaPlugin)
      → newer semver p q ≡ true
      → any (newer semver q) l ≡ true
      → any (newer semver p) l ≡ true
  unfolding any
  any-newer_trans [] p q h k = k
  any-newer_trans (r ∷ l) p q h k = ground (arith, newer_trans p q r, any-newer_trans l p q)

  -- Among the plugins of a name there is one than which none is newer.
  newest :
      (l : PluginList) (p : GrafanaPlugin)
      → has_some_version_of l p ≡ true
      → (m : GrafanaPlugin) × ((f : GrafanaPlugin → Bool) → f m ≡ true → any f l ≡ true)
        × (same_name m p ≡ true)
        × (any (newer semver m) l ≡ false)
  unfolding any has_some_version_of
  newest [] p h = absurd cc
  newest (x ∷ l) p h = elim (Bool-cases (has_some_version_of l p)) [
    | inr none_left ↦
        let same : same_name x p ≡ true = ground arith in
        (x, λ f e. ground arith, same, ground (arith, newer_irrefl x, no_newer_name semver l x p))
    | inl more ↦
        let (m, among, same, top) = newest l p more in
        elim (Bool-cases (newer semver m x)) [
          | inl above ↦ (
            x,
            λ f e. ground arith,
            ground (arith, eq_iff x.name m.name, eq_iff m.name p.name, eq_iff x.name p.name),
            ground (arith, newer_irrefl x, any-newer_trans l m x),
          )
          | inr below ↦ (m, λ f e. ground (arith, among f e), same, ground arith)
        ]
  ]

  pick_latest_versions-eq :
      (requested : PluginList)
      → all (has_version semver) requested ≡ true
      → pick_latest_versions semver requested ≡ keep_latest semver requested requested
  unfolding pick_latest_versions
  pick_latest_versions-eq requested h =
      ground (arith, latest_among-eq semver requested requested h h)

  kept_names :
      (requested : PluginList)
      → all (has_version semver) requested ≡ true
      → (p : GrafanaPlugin) → has_exact_version_of requested p ≡ true
      → has_some_version_of (keep_latest semver requested requested) p ≡ true
  kept_names requested h p present =
      let (m, among, same, top) = newest requested p (has_exact-has_some requested p present) in
      has_some-keep_latest semver requested requested p
        (among (λ q. same_name q p && not (any (newer semver q) requested)) (ground arith))

  -- If "newer" is a strict order and every requested plugin has a semantic version, `pickLatestVersions` keeps no plugin of
  -- which a newer version is requested, and keeps some version of every requested plugin.
  pub pick_latest_versions_lem :
      (requested : PluginList)
      → all (has_version semver) requested ≡ true
      → (all (λ p. not (any (newer semver p) requested)) (pick_latest_versions semver requested)
          ≡ true)
        × (all (has_some_version_of (pick_latest_versions semver requested)) requested ≡ true)
  pick_latest_versions_lem requested h = rw (pick_latest_versions-eq requested h) (
    keep_latest-all semver requested requested,
    all-weaken (has_exact_version_of requested) _ requested (kept_names requested h)
        (all-has_exact requested),
  )
