-- ===== src/Controllers/Dashboards/Known.antt =====
-- The dashboards that are known when a reconciliation starts. For a request with a namespace they are
-- the slice of the configuration itself: what is written to its positions shows in them, until an append
-- moves the configuration to another array.
use grafana_operator.Common.{
  String, ◌==◌, ℕ, zero, suc, Bool, true, false, ◌&&◌, ◌||◌, List, [], ◌∷◌, length, if◌then◌else◌,
}
use grafana_operator.Dashboard.Resource.{GrafanaDashboard, GrafanaDashboardRef}
use grafana_operator.Config.ControllerConfig.{ControllerConfig, get_dashboards}

pub data Known : Type 0 where
  shared : (size : ℕ) → Known
  separate : List GrafanaDashboardRef → Known

abbrev take : {A : Type 0} → ℕ → List A → List A
take zero l = []
take (suc n) [] = []
take (suc n) (x ∷ l) = x ∷ take n l

abbrev pub known_refs : Known → ControllerConfig → List GrafanaDashboardRef
known_refs (shared size) c = take size c.dashboards
known_refs (separate l) c = l

-- `r.config.GetDashboards(request.Namespace)`
unfoldable pub known_dashboards : (namespace : String) → ControllerConfig → Known
unfolding get_dashboards
known_dashboards namespace c =
    if namespace == "" then separate (get_dashboards namespace c) else shared (length c.dashboards)

abbrev is_longer : {A : Type 0} → List A → List A → Bool
is_longer [] l = false
is_longer (x ∷ xs) [] = true
is_longer (x ∷ xs) (y ∷ l) = is_longer xs l

-- What is known after the configuration has become `after`; `moves` tells whether an append to the
-- references moves them.
abbrev pub known_after :
    (moves : List GrafanaDashboardRef → Bool) → Known → (before after : ControllerConfig) → Known
known_after moves (separate l) before after = separate l
known_after moves (shared size) before after =
    if is_longer after.dashboards before.dashboards && moves before.dashboards
    then separate (take size before.dashboards)
    else shared size

unfoldable pub in_namespace : List GrafanaDashboard → GrafanaDashboardRef → Bool
in_namespace [] item = false
in_namespace (d ∷ l) item =
    (d.name == item.name && d.namespace == item.namespace) || in_namespace l item

abbrev is_ref_of : GrafanaDashboard → GrafanaDashboardRef → Bool
is_ref_of item d = item.name == d.name && item.namespace == d.namespace

unfoldable pub find_hash : List GrafanaDashboardRef → GrafanaDashboard → String
find_hash [] item = ""
find_hash (d ∷ l) item = if is_ref_of item d then d.hash else find_hash l item

unfoldable pub find_uid : List GrafanaDashboardRef → GrafanaDashboard → String
find_uid [] item = ""
find_uid (d ∷ l) item = if is_ref_of item d then d.uid else find_uid l item

-- The dashboards that are known and not found any longer.
unfoldable pub dashboards_to_delete :
    List GrafanaDashboard → List GrafanaDashboardRef → List GrafanaDashboardRef
unfolding in_namespace
dashboards_to_delete items [] = []
dashboards_to_delete items (d ∷ l) =
    let rest = dashboards_to_delete items l in if in_namespace items d then rest else d ∷ rest
