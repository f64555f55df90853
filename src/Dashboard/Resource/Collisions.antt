-- ===== src/Dashboard/Resource/Collisions.antt =====
-- Different dashboards for which `Hash` digests one text: the parts are joined with nothing
-- between.
use text.Mathlib.TextLemmas.{append_assoc as text_append_assoc}
use grafana_operator.Common.{String, ◌⧺◌, ◌≡◌, ap, some, List, [], ◌∷◌, ◌++◌, ℤ, itoa}
use grafana_operator.Dashboard.Json.{Library}
use grafana_operator.Dashboard.Resource.{
  GrafanaDashboard, GrafanaDashboardDatasource, hash_datasources, hash, hash_grafana_com,
}

-- `d` with other inputs, and with another dashboard of grafana.com.
abbrev pub with_datasources : GrafanaDashboard → List GrafanaDashboardDatasource → GrafanaDashboard
with_datasources d l = record d { spec = record d.spec { datasources = l } }

abbrev pub with_grafana_com : GrafanaDashboard → (id revision : ℤ) → GrafanaDashboard
with_grafana_com d i r = record d {
  spec = record d.spec { grafana_com = some (record { id = i; revision = some r }) };
}

datasources_split :
    (before rest : List GrafanaDashboardDatasource) (a b c : String)
    → hash_datasources (before ++ record { datasource_name = a ⧺ b; input_name = c } ∷ rest)
      ≡ hash_datasources (before ++ record { datasource_name = a; input_name = b ⧺ c } ∷ rest)
unfolding hash_datasources
datasources_split [] rest a b c = simp text_append_assoc
datasources_split (input ∷ before) rest a b c =
    ap (λ t. input.datasource_name ⧺ (input.input_name ⧺ t)) (datasources_split before rest a b c)

grafana_com_split :
    (i i' r r' : ℤ) (x : String)
    → itoa i ≡ itoa i' ⧺ x
    → itoa r' ≡ x ⧺ itoa r
    → hash_grafana_com (some (record { id = i; revision = some r }))
      ≡ hash_grafana_com (some (record { id = i'; revision = some r' }))
unfolding hash_grafana_com
grafana_com_split i i' r r' x h k = rw (h, k) (simp text_append_assoc)

-- Two dashboards that differ only in one input, in where the name of its data source ends and its own
-- begins, have the same hash, whatever the digest and wherever the input stands.
pub hash-datasources_split :
    (library : Library) (d : GrafanaDashboard) (before rest : List GrafanaDashboardDatasource)
    (a b c : String)
    → hash library
        (with_datasources d (before ++ record { datasource_name = a ⧺ b; input_name = c } ∷ rest))
      ≡ hash library
          (with_datasources d (before ++ record { datasource_name = a; input_name = b ⧺ c } ∷ rest))
unfolding hash
hash-datasources_split library d before rest a b c =
    let e = datasources_split before rest a b c in cc e

-- Two dashboards that differ only in where the number of a dashboard of grafana.com ends and that
-- of its revision begins, as 12 and 3, and 1 and 23, have the same hash, whatever the digest.
hash-grafana_com_split :
    (library : Library) (d : GrafanaDashboard) (i i' r r' : ℤ) (x : String)
    → itoa i ≡ itoa i' ⧺ x
    → itoa r' ≡ x ⧺ itoa r
    → hash library (with_grafana_com d i r) ≡ hash library (with_grafana_com d i' r')
unfolding hash
hash-grafana_com_split library d i i' r r' x h k = cc (grafana_com_split i i' r r' x h k)
