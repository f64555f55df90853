-- ===== src/Dashboard/GrafanaCom.antt =====
-- The revisions of a dashboard of grafana.com, in
-- controllers/grafanadashboard/dashboard_pipeline.go.
pub mod Latest
use grafana_operator.Common.{
  String, ◌⧺◌, ◌==◌, Bool, true, false, ◌&&◌, Option, none, some, List, [], ◌∷◌, ℤ, pos, itoa, last,
  ltb_ℤ, if◌then◌else◌,
}

pub record DashboardRevisionItem : Type 0 where
  pub revision : ℤ

pub record ListDashboardRevisionsResponse : Type 0 where
  pub items : List DashboardRevisionItem
  pub order_by : String
  pub direction : String

-- The greatest revision, from 0.
unfoldable pub max_revision : ℤ → List DashboardRevisionItem → ℤ
max_revision m [] = m
max_revision m (item ∷ items) =
    max_revision (if ltb_ℤ m item.revision then item.revision else m) items

abbrev pub last_revision : List DashboardRevisionItem → Option ℤ
last_revision [] = none
last_revision (item ∷ items) = some (last item items).revision

abbrev pub first_revision : List DashboardRevisionItem → Option ℤ
first_revision [] = none
first_revision (item ∷ items) = some item.revision

-- `none` is the panic of an index out of range.
unfoldable pub get_maximum_revision : ListDashboardRevisionsResponse → Option ℤ
unfolding max_revision
get_maximum_revision resp =
    if resp.order_by == "revision" && resp.direction == "asc"
    then last_revision resp.items
    else if resp.order_by == "revision" && resp.direction == "desc"
    then first_revision resp.items
    else some (max_revision (pos 0) resp.items)

abbrev pub grafana_com_root : String
grafana_com_root = "https://grafana.com/api/dashboards"

-- What `path.Join` makes of the root and the parts.
abbrev pub revisions_url : ℤ → String
revisions_url id = grafana_com_root ⧺ ("/" ⧺ (itoa id ⧺ "/revisions"))

abbrev pub download_url : (id revision : ℤ) → String
download_url id revision = revisions_url id ⧺ ("/" ⧺ (itoa revision ⧺ "/download"))
