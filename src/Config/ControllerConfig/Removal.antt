-- ===== src/Config/ControllerConfig/Removal.antt =====
-- `RemoveDashboard` of controllers/config/controller_config.go, which puts the last reference in
-- the place of the one it removes.
use mathlib.Core.Path.{subst}
use grafana_operator.Common.{
  String, ◌==◌, eq_iff, ℕ, zero, suc, ◌≡◌, ◌≢◌, refl, Option, none, some, List, [], ◌∷◌, last,
  drop_last_elem, swap_remove, if◌then◌else◌, arith,
}
use grafana_operator.Dashboard.Resource.{GrafanaDashboardRef}
use grafana_operator.Config.ControllerConfig.{
  ControllerConfig, index_of_uid, has_dashboard, remove_at, remove_dashboard,
}
use grafana_operator.Config.ControllerConfig.Dashboards.{HasDistinctUids, find_ref, find_ref-none}

index_of_uid-none :
    (str : String) (l : List GrafanaDashboardRef)
    → find_ref str l ≡ none
    → index_of_uid str l ≡ none
unfolding index_of_uid find_ref
index_of_uid-none str [] h = refl
index_of_uid-none str (v ∷ l) h = ground (arith, index_of_uid-none str l)

last-ne :
    (j : String) (v : GrafanaDashboardRef) (l : List GrafanaDashboardRef)
    → find_ref j (v ∷ l) ≡ none
    → (last v l).uid ≢ j
unfolding find_ref
last-ne j v [] h = ground (arith, eq_iff v.uid j)
last-ne j v (w ∷ l) h = last-ne j w l (ground arith)

-- The last reference may stand first.
find_ref-last :
    (j : String) (v : GrafanaDashboardRef) (l : List GrafanaDashboardRef)
    → HasDistinctUids (v ∷ l)
    → find_ref j (last v l ∷ drop_last_elem v l) ≡ find_ref j (v ∷ l)
unfolding find_ref
find_ref-last j v [] d = refl
find_ref-last j v (w ∷ l) d =
    let other = last-ne v.uid w l (find_ref-none v.uid (w ∷ l) d.0) in
    ground (arith, find_ref-last j w l d.1, eq_iff v.uid j, eq_iff (last w l).uid j)

HasDistinctUids-last :
    (v : GrafanaDashboardRef) (l : List GrafanaDashboardRef)
    → HasDistinctUids (v ∷ l)
    → HasDistinctUids (last v l ∷ drop_last_elem v l)
unfolding index_of_uid find_ref
HasDistinctUids-last v [] d = d
HasDistinctUids-last v (w ∷ l) d =
    let rest = HasDistinctUids-last w l d.1 in
    let other = last-ne v.uid w l (find_ref-none v.uid (w ∷ l) d.0) in
    let gone : find_ref v.uid (drop_last_elem w l) ≡ none = ground (
      arith,
      find_ref-last v.uid w l d.1,
      find_ref-none v.uid (w ∷ l),
      eq_iff (last w l).uid v.uid,
    ) in
    (
      ground (arith, rest.0, eq_iff v.uid (last w l).uid),
      (index_of_uid-none v.uid (drop_last_elem w l) gone, rest.1),
    )

swap_remove-step :
    (v w : GrafanaDashboardRef) (l : List GrafanaDashboardRef) (i : ℕ)
    → swap_remove (v ∷ w ∷ l) (suc i) ≡ v ∷ swap_remove (w ∷ l) i
unfolding swap_remove
swap_remove-step v w l zero = refl
swap_remove-step v w l (suc i) = refl

find_ref-swap_remove :
    (j str : String) (l : List GrafanaDashboardRef) (i : ℕ)
    → index_of_uid str l ≡ some i
    → HasDistinctUids l
    → find_ref j (swap_remove l i) ≡ (if str == j then none else find_ref j l)
unfolding index_of_uid find_ref
find_ref-swap_remove j str [] i h d = absurd cc
find_ref-swap_remove j str (v ∷ []) zero h d =
    unfold swap_remove in ground (arith, eq_iff v.uid str, eq_iff v.uid j, eq_iff str j)
find_ref-swap_remove j str (v ∷ []) (suc i) h d = absurd (ground arith)
find_ref-swap_remove j str (v ∷ w ∷ l) zero h d =
    let e : v.uid ≡ str = ground (arith, eq_iff v.uid str) in
    let gone = find_ref-none str (w ∷ l) (subst (λ x. index_of_uid x (w ∷ l) ≡ none) e d.0) in
    unfold swap_remove in
    ground (arith, find_ref-last j w l d.1, e, gone, eq_iff v.uid j, eq_iff str j)
find_ref-swap_remove j str (v ∷ w ∷ l) (suc i) h d = rw (swap_remove-step v w l i) (
    ground (
      arith,
      find_ref-swap_remove j str (w ∷ l) i,
      d.1,
      eq_iff v.uid j,
      eq_iff str j,
      eq_iff v.uid str,
    ))

HasDistinctUids-swap_remove :
    (str : String) (l : List GrafanaDashboardRef) (i : ℕ)
    → index_of_uid str l ≡ some i
    → HasDistinctUids l
    → HasDistinctUids (swap_remove l i)
unfolding index_of_uid
HasDistinctUids-swap_remove str [] i h d = absurd cc
HasDistinctUids-swap_remove str (v ∷ []) zero h d = unfold swap_remove in tt
HasDistinctUids-swap_remove str (v ∷ []) (suc i) h d = absurd (ground arith)
HasDistinctUids-swap_remove str (v ∷ w ∷ l) zero h d =
    unfold swap_remove in HasDistinctUids-last w l d.1
HasDistinctUids-swap_remove str (v ∷ w ∷ l) (suc i) h d =
    let found : index_of_uid str (w ∷ l) ≡ some i = ground arith in
    let gone : find_ref v.uid (swap_remove (w ∷ l) i) ≡ none = ground (
      arith,
      find_ref-swap_remove v.uid str (w ∷ l) i found d.1,
      find_ref-none v.uid (w ∷ l) d.0,
    ) in
    rw (swap_remove-step v w l i) (
      index_of_uid-none v.uid (swap_remove (w ∷ l) i) gone,
      HasDistinctUids-swap_remove str (w ∷ l) i found d.1,
    )

remove_at_lem :
    (j str : String) (l : List GrafanaDashboardRef) (found : Option ℕ)
    → index_of_uid str l ≡ found
    → HasDistinctUids l
    → HasDistinctUids (remove_at found l)
      × (find_ref j (remove_at found l) ≡ (if str == j then none else find_ref j l))
remove_at_lem j str l none h d = (d, ground (arith, find_ref-none str l h, eq_iff str j))
remove_at_lem j str l (some i) h d =
    (HasDistinctUids-swap_remove str l i h d, find_ref-swap_remove j str l i h d)

-- If the identifiers of the references are distinct, then after `RemoveDashboard` they still are,
-- the removed identifier has no reference, and every other has the one it had.
pub find_ref-remove_dashboard :
    (j str : String) (c : ControllerConfig)
    → HasDistinctUids c.dashboards
    → HasDistinctUids (remove_dashboard str c).dashboards
      × (find_ref j (remove_dashboard str c).dashboards
          ≡ (if str == j then none else find_ref j c.dashboards))
unfolding remove_dashboard has_dashboard
find_ref-remove_dashboard j str c d = remove_at_lem j str c.dashboards _ refl d
