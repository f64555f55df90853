-- ===== src/Config/ControllerConfig/Plugins.antt =====
-- The plugins that each dashboard asks for. A dashboard is known by its namespace and its name with a slash
-- between, which tells two dashboards apart since the names of namespaces have no slash.
use Prim.Native.Char.{code}
use mathlib.Core.Path.{ap₂}
use text.Mathlib.TextLemmas.{nil-append, cons-append}
use grafana_operator.Common.{
  String, ◌⧺◌, ◌==◌, eq_iff, ◌≡◌, refl, sym, ap, ◌∙◌, Bool, false, true, ◌&&◌, not, eqb, Bool-cases,
  inl, inr, [], lookup-insert, lookup-delete, if◌then◌else◌, arith,
}
use grafana_operator.Dashboard.Resource.{GrafanaDashboard}
use grafana_operator.Config.ControllerConfig.{
  ControllerConfig, get_dashboard_id, get_plugins_for, set_plugins_for, remove_plugins_for,
}

-- No character of the text is a slash.
abbrev pub has_no_slash : String → Bool
has_no_slash String.[] = true
has_no_slash (String.◌∷◌ c s) = not (eqb (code c) 47) && has_no_slash s

-- What stands in front of the first slash, and what stands behind it.
unfoldable split_slash : String → String × String
split_slash String.[] = ("", "")
split_slash (String.◌∷◌ c s) =
    let (front, behind) = split_slash s in
    if eqb (code c) 47 then ("", s) else (String.◌∷◌ c front, behind)

slash-append : (s : String) → "/" ⧺ s ≡ String.◌∷◌ "/" s
slash-append s = cons-append "/" "" s ∙ ap (String.◌∷◌ "/") (nil-append s)

split_slash-append : (a b : String) → has_no_slash a ≡ true → split_slash (a ⧺ ("/" ⧺ b)) ≡ (a, b)
unfolding split_slash
split_slash-append String.[] b h = rw (nil-append, slash-append) refl
split_slash-append (String.◌∷◌ c a) b h =
    rw (cons-append c a) (rw (split_slash-append a b (ground arith)) (ground arith))

-- Two identifiers are equal exactly when the namespaces and the names are.
get_dashboard_id-eq :
    (a b c d : String)
    → has_no_slash a ≡ true
    → has_no_slash c ≡ true
    → (get_dashboard_id a b == get_dashboard_id c d) ≡ (a == c && b == d)
unfolding get_dashboard_id
get_dashboard_id-eq a b c d h k = elim (Bool-cases (a == c && b == d)) [
  | inl e ↦
      let same : a ≡ c = (eq_iff a c).0 (ground arith) in
      let name : b ≡ d = (eq_iff b d).0 (ground arith) in
      rw e ((eq_iff _ _).1 (ap₂ (λ x y. x ⧺ ("/" ⧺ y)) same name))
  | inr e ↦ elim (Bool-cases (a ⧺ ("/" ⧺ b) == c ⧺ ("/" ⧺ d))) [
    | inr f ↦ rw (e, f) refl
    | inl f ↦
        let parts : (a, b) ≡ (c, d) =
          sym (split_slash-append a b h)
          ∙ ap split_slash ((eq_iff _ _).0 f)
          ∙ split_slash-append c d k in
        let same : (a == c) ≡ true = (eq_iff a c).1 (ap (λ t. t.0) parts) in
        let name : (b == d) ≡ true = (eq_iff b d).1 (ap (λ t. t.1) parts) in
        let both : (a == c && b == d) ≡ true = rw (same, name) refl in
        let no : false ≡ true = sym e ∙ both in absurd cc
  ]
]

-- If neither namespace has a slash in it, as no namespace of a cluster has, then after `SetPluginsFor` of
-- the dashboard `d` the plugins of `d` are those that it asks for, and after `RemovePluginsFor` there are
-- none, while the plugins of a dashboard with another namespace or another name are what they were.
pub get_plugins_for-set_remove :
    (d e : GrafanaDashboard) (c : ControllerConfig)
    → has_no_slash d.namespace ≡ true
    → has_no_slash e.namespace ≡ true
    → (get_plugins_for e (set_plugins_for d c) ≡ (
        if d.namespace == e.namespace && d.name == e.name
        then d.spec.plugins
        else get_plugins_for e c))
      × (get_plugins_for e (remove_plugins_for d.namespace d.name c)
          ≡ (if d.namespace == e.namespace && d.name == e.name then [] else get_plugins_for e c))
unfolding get_plugins_for set_plugins_for remove_plugins_for
get_plugins_for-set_remove d e c h k =
    let one = get_dashboard_id d.namespace d.name in
    let other = get_dashboard_id e.namespace e.name in
    let same = get_dashboard_id-eq d.namespace d.name e.namespace e.name h k in
    (
      ground (arith, lookup-insert one other d.spec.plugins c.plugins, same),
      ground (arith, lookup-delete one other c.plugins, same),
    )
