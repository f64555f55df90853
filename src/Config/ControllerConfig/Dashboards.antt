-- ===== src/Config/ControllerConfig/Dashboards.antt =====
-- The list of dashboards: one reference to each identifier.
use grafana_operator.Common.{
  String, ◌==◌, eq_iff, ℕ, zero, suc, ◌≡◌, ◌≢◌, refl, Option, none, some, List, [], ◌∷◌, ◌++◌, ℤ,
  get_elem?, set, if◌then◌else◌, arith,
}
use grafana_operator.Dashboard.Json.{Library}
use grafana_operator.Dashboard.Resource.{GrafanaDashboard, GrafanaDashboardRef, uid}
use grafana_operator.Config.ControllerConfig.{
  ControllerConfig, index_of_uid, has_dashboard, add_dashboard, put_dashboard, dashboard_ref,
}

-- The references hold no identifier twice.
abbrev pub HasDistinctUids : List GrafanaDashboardRef → Type 0
HasDistinctUids [] = Unit
HasDistinctUids (v ∷ l) = (index_of_uid v.uid l ≡ none) × HasDistinctUids l

-- The first reference with the identifier.
unfoldable pub find_ref : String → List GrafanaDashboardRef → Option GrafanaDashboardRef
find_ref str [] = none
find_ref str (v ∷ l) = if v.uid == str then some v else find_ref str l

abbrev option_suc : Option ℕ → Option ℕ
option_suc none = none
option_suc (some i) = some (suc i)

-- The position that is found is that of the reference that is found.
pub index_of_uid-find :
    (str : String) (l : List GrafanaDashboardRef) (i : ℕ)
    → index_of_uid str l ≡ some i
    → (v : GrafanaDashboardRef) × (get_elem? l i ≡ some v)
      × (v.uid ≡ str)
      × (find_ref str l ≡ some v)
unfolding index_of_uid find_ref
index_of_uid-find str [] i h = absurd cc
index_of_uid-find str (v ∷ l) zero h =
    (v, refl, ground (arith, eq_iff v.uid str), ground (arith, eq_iff v.uid str))
index_of_uid-find str (v ∷ l) (suc i) h =
    let (w, e, f, g) = index_of_uid-find str l i (ground arith) in (w, e, f, ground arith)

find_ref-set :
    (j str : String) (l : List GrafanaDashboardRef) (i : ℕ) (w : GrafanaDashboardRef)
    → index_of_uid str l ≡ some i
    → w.uid ≡ str
    → find_ref j (set l i w) ≡ (if str == j then some w else find_ref j l)
unfolding index_of_uid find_ref
find_ref-set j str [] i w h k = absurd cc
find_ref-set j str (v ∷ l) zero w h k =
    ground (arith, eq_iff v.uid str, eq_iff v.uid j, eq_iff str j, eq_iff w.uid j)
find_ref-set j str (v ∷ l) (suc i) w h k =
    ground (arith, eq_iff v.uid str, eq_iff v.uid j, eq_iff str j, find_ref-set j str l i w)

find_ref-append :
    (j str : String) (l : List GrafanaDashboardRef) (w : GrafanaDashboardRef)
    → index_of_uid str l ≡ none
    → w.uid ≡ str
    → find_ref j (l ++ w ∷ []) ≡ (if str == j then some w else find_ref j l)
unfolding index_of_uid find_ref
find_ref-append j str [] w h k = ground (arith, eq_iff str j, eq_iff w.uid j)
find_ref-append j str (v ∷ l) w h k =
    ground (arith, eq_iff v.uid str, eq_iff v.uid j, eq_iff str j, find_ref-append j str l w)

index_of_uid-set :
    (j str : String) (l : List GrafanaDashboardRef) (i : ℕ) (w : GrafanaDashboardRef)
    → index_of_uid str l ≡ some i
    → w.uid ≡ str
    → index_of_uid j (set l i w) ≡ index_of_uid j l
unfolding index_of_uid
index_of_uid-set j str [] i w h k = absurd cc
index_of_uid-set j str (v ∷ l) zero w h k =
    ground (arith, eq_iff v.uid str, eq_iff v.uid j, eq_iff w.uid j)
index_of_uid-set j str (v ∷ l) (suc i) w h k =
    ground (arith, eq_iff v.uid str, eq_iff v.uid j, index_of_uid-set j str l i w)

index_of_uid-append :
    (j str : String) (l : List GrafanaDashboardRef) (w : GrafanaDashboardRef)
    → index_of_uid j l ≡ none
    → w.uid ≡ str
    → str ≢ j
    → index_of_uid j (l ++ w ∷ []) ≡ none
unfolding index_of_uid
index_of_uid-append j str [] w h k n = ground (arith, eq_iff w.uid j)
index_of_uid-append j str (v ∷ l) w h k n = ground (arith, index_of_uid-append j str l w)

HasDistinctUids-set :
    (str : String) (l : List GrafanaDashboardRef) (i : ℕ) (w : GrafanaDashboardRef)
    → index_of_uid str l ≡ some i
    → w.uid ≡ str
    → HasDistinctUids l
    → HasDistinctUids (set l i w)
unfolding index_of_uid
HasDistinctUids-set str [] i w h k d = absurd cc
HasDistinctUids-set str (v ∷ l) zero w h k d =
    let e : v.uid ≡ w.uid = ground (arith, eq_iff v.uid str) in (rw (← e) d.0, d.1)
HasDistinctUids-set str (v ∷ l) (suc i) w h k d =
    let found : index_of_uid str l ≡ some i = ground arith in
    (rw (index_of_uid-set v.uid str l i w found k) d.0, HasDistinctUids-set str l i w found k d.1)

HasDistinctUids-append :
    (str : String) (l : List GrafanaDashboardRef) (w : GrafanaDashboardRef)
    → index_of_uid str l ≡ none
    → w.uid ≡ str
    → HasDistinctUids l
    → HasDistinctUids (l ++ w ∷ [])
unfolding index_of_uid
HasDistinctUids-append str [] w h k d = (refl, tt)
HasDistinctUids-append str (v ∷ l) w h k d =
    let other : index_of_uid str l ≡ none = ground arith in
    (
      index_of_uid-append v.uid str l w d.0 k (ground (arith, eq_iff v.uid str)),
      HasDistinctUids-append str l w other k d.1,
    )

-- What `AddDashboard` stores for the dashboard `d` whose identifier is `id`, given what was there.
abbrev pub stored_ref :
    Library
    → GrafanaDashboard
    → String
    → Option ℤ
    → String
    → Option GrafanaDashboardRef
    → GrafanaDashboardRef
stored_ref library d id folder_id folder_name none =
    dashboard_ref library d id folder_id d.spec.custom_folder_name
stored_ref library d id folder_id folder_name (some _) =
    dashboard_ref library d id folder_id folder_name

pub find_ref-none :
    (str : String) (l : List GrafanaDashboardRef)
    → index_of_uid str l ≡ none
    → find_ref str l ≡ none
unfolding index_of_uid find_ref
find_ref-none str [] h = refl
find_ref-none str (v ∷ l) h = ground (arith, find_ref-none str l)

put_dashboard_lem :
    (library : Library) (d : GrafanaDashboard) (id : String) (folder_id : Option ℤ)
    (folder_name j : String) (l : List GrafanaDashboardRef) (found : Option ℕ)
    → index_of_uid id l ≡ found
    → (find_ref j (put_dashboard library d id folder_id folder_name found l) ≡ (
        if id == j
        then some (stored_ref library d id folder_id folder_name (find_ref id l))
        else find_ref j l))
put_dashboard_lem library d id folder_id folder_name j l none h =
    rw (find_ref-none id l h) (
      find_ref-append j id l (dashboard_ref library d id folder_id d.spec.custom_folder_name) h
        refl)
put_dashboard_lem library d id folder_id folder_name j l (some i) h =
    let (v, e, f, g) = index_of_uid-find id l i h in
    rw g (find_ref-set j id l i (dashboard_ref library d id folder_id folder_name) h refl)

put_dashboard-HasDistinctUids :
    (library : Library) (d : GrafanaDashboard) (id : String) (folder_id : Option ℤ)
    (folder_name : String) (l : List GrafanaDashboardRef) (found : Option ℕ)
    → index_of_uid id l ≡ found
    → HasDistinctUids l
    → HasDistinctUids (put_dashboard library d id folder_id folder_name found l)
put_dashboard-HasDistinctUids library d id folder_id folder_name l none h k =
    HasDistinctUids-append id l _ h refl k
put_dashboard-HasDistinctUids library d id folder_id folder_name l (some i) h k =
    HasDistinctUids-set id l i _ h refl k

-- If the dashboard `d` has an identifier, then `AddDashboard` returns, it makes that identifier
-- name the reference of `d`, with the folder name of the resource if there was no reference and
-- that of the caller if there was, and it leaves the reference of every other identifier as it was.
-- If the identifiers of the references were distinct, they still are.
pub find_ref-add_dashboard :
    (library : Library) (d : GrafanaDashboard) (folder_id : Option ℤ) (folder_name id : String)
    (c : ControllerConfig)
    → uid library d ≡ some id
    → HasDistinctUids c.dashboards
    → (new : ControllerConfig) × (add_dashboard library d folder_id folder_name c ≡ some new)
      × HasDistinctUids new.dashboards
      × ((j : String)
          → find_ref j new.dashboards ≡ (
              if id == j
              then some (stored_ref library d id folder_id folder_name (find_ref id c.dashboards))
              else find_ref j c.dashboards))
unfolding add_dashboard has_dashboard
find_ref-add_dashboard library d folder_id folder_name id c h k = (
  record c {
    dashboards =
        put_dashboard library d id folder_id folder_name (index_of_uid id c.dashboards)
          c.dashboards;
  },
  rw h refl,
  put_dashboard-HasDistinctUids library d id folder_id folder_name c.dashboards _ refl k,
  λ j. put_dashboard_lem library d id folder_id folder_name j c.dashboards _ refl,
)
