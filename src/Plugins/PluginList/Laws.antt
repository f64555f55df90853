-- ===== src/Plugins/PluginList/Laws.antt =====
-- Lemmas on lists of plugins: what one more plugin changes, and what lists of chosen plugins
-- satisfy.
use grafana_operator.Common.{
  eq_iff, ◌≡◌, refl, Bool, true, false, ◌&&◌, ◌||◌, some, [], ◌∷◌, ◌++◌, arith, Bool-cases, inl,
  inr,
}
use grafana_operator.Plugins.PluginList.{
  GrafanaPlugin, PluginList, same_name, same_version, has_some_version_of, has_exact_version_of,
  get_installed_version_of,
}

pub has_some_version_of-snoc :
    (l : PluginList) (q p : GrafanaPlugin)
    → has_some_version_of (l ++ q ∷ []) p ≡ (has_some_version_of l p || same_name q p)
unfolding has_some_version_of
has_some_version_of-snoc [] q p = ground arith
has_some_version_of-snoc (x ∷ l) q p = ground (arith, has_some_version_of-snoc l q p)

pub has_exact_version_of-snoc :
    (l : PluginList) (q p : GrafanaPlugin)
    → has_exact_version_of (l ++ q ∷ []) p ≡ (has_exact_version_of l p || same_version q p)
unfolding has_exact_version_of
has_exact_version_of-snoc [] q p = ground arith
has_exact_version_of-snoc (x ∷ l) q p = ground (arith, has_exact_version_of-snoc l q p)

pub same_version_refl : (p : GrafanaPlugin) → same_version p p ≡ true
same_version_refl p = ground (arith, eq_iff p.name p.name, eq_iff p.version p.version)

-- A test that the plugins of a list all pass.
unfoldable pub all : (GrafanaPlugin → Bool) → PluginList → Bool
all f [] = true
all f (p ∷ l) = f p && all f l

pub all-snoc :
    (f : GrafanaPlugin → Bool) (l : PluginList) (p : GrafanaPlugin)
    → all f (l ++ p ∷ []) ≡ (all f l && f p)
unfolding all
all-snoc f [] p = ground arith
all-snoc f (x ∷ l) p = ground (arith, all-snoc f l p)

-- No two plugins of the list have the same name.
abbrev pub HasDistinctNames : PluginList → Type 0
HasDistinctNames [] = Unit
HasDistinctNames (p ∷ l) = (has_some_version_of l p ≡ false) × HasDistinctNames l

pub HasDistinctNames-snoc :
    (l : PluginList) (p : GrafanaPlugin)
    → has_some_version_of l p ≡ false
    → HasDistinctNames l
    → HasDistinctNames (l ++ p ∷ [])
unfolding has_some_version_of
HasDistinctNames-snoc [] p h d = (refl, tt)
HasDistinctNames-snoc (x ∷ l) p h d = (
  rw (has_some_version_of-snoc l p x) (ground (arith, eq_iff x.name p.name, eq_iff p.name x.name)),
  HasDistinctNames-snoc l p (ground arith) d.1,
)

pub has_exact-has_some :
    (l : PluginList) (p : GrafanaPlugin)
    → has_exact_version_of l p ≡ true
    → has_some_version_of l p ≡ true
unfolding has_exact_version_of has_some_version_of
has_exact-has_some [] p h = h
has_exact-has_some (x ∷ l) p h = ground (arith, has_exact-has_some l p)

-- The version behind a plugin that `HasSomeVersionOf` has found is there, so the log lines of
-- `FilterPlugins` read no nil pointer.
pub get_installed_version_of-some :
    (l : PluginList) (p : GrafanaPlugin)
    → has_some_version_of l p ≡ true
    → (q : GrafanaPlugin) × (get_installed_version_of l p ≡ some q) × (same_name q p ≡ true)
unfolding has_some_version_of get_installed_version_of
get_installed_version_of-some [] p h = absurd (cc)
get_installed_version_of-some (x ∷ l) p h = elim (Bool-cases (same_name x p)) [
  | inl e ↦ (x, rw e, e)
  | inr e ↦
      let (q, found, same) = get_installed_version_of-some l p (ground arith) in
      (q, rw e found, same)
]

pub all-weaken :
    (f g : GrafanaPlugin → Bool) (l : PluginList)
    → ((p : GrafanaPlugin) → f p ≡ true → g p ≡ true)
    → all f l ≡ true
    → all g l ≡ true
unfolding all
all-weaken f g [] imp h = refl
all-weaken f g (p ∷ l) imp h = ground (arith, imp p, all-weaken f g l imp)

-- Every plugin of a list is in it.
pub all-has_exact : (l : PluginList) → all (has_exact_version_of l) l ≡ true
unfolding all has_exact_version_of
all-has_exact [] = refl
all-has_exact (p ∷ l) = ground (
  arith,
  same_version_refl p,
  all-weaken (has_exact_version_of l) (has_exact_version_of (p ∷ l)) l (λ q h. ground arith)
      (all-has_exact l),
)

pub all-has_some :
    (requested l : PluginList)
    → all (has_exact_version_of requested) l ≡ true
    → all (has_some_version_of requested) l ≡ true
all-has_some requested l =
    all-weaken (has_exact_version_of requested) (has_some_version_of requested) l
      (has_exact-has_some requested)
