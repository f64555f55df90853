-- ===== src/Ini/ParseConfig/Rows.antt =====
-- Tables of sections: what a table holds under a name, and when a map agrees with a table.
use mathlib.Core.Option
use grafana_operator.Common.{
  String, ◌==◌, eq_iff, ◌≡◌, refl, Bool, true, ◌&&◌, not, Option, none, some, List, [], ◌∷◌, ◌++◌,
  arith, insert, lookup, lookup-insert, if◌then◌else◌,
}
use grafana_operator.Ini.Types.{GrafanaConfigPaths}
use grafana_operator.Ini.Items.{Config, line}
use grafana_operator.Ini.ParseConfig.{when, default_paths}

abbrev pub Row : Type 0
Row = String × Option (List String)

-- What the first row of the name holds.
unfoldable pub find_row : String → List Row → Option (List String)
find_row k [] = none
find_row k ((j, o) ∷ t) = if j == k then o else find_row k t

abbrev pub is_fresh : String → List Row → Bool
is_fresh k [] = true
is_fresh k ((j, o) ∷ t) = not (j == k) && is_fresh k t

-- The lines of the paths, which stand there without a struct too.
unfoldable pub paths_items : Option GrafanaConfigPaths → List String
paths_items none = default_paths
paths_items (some p) = default_paths ++ line "temp_data_lifetime" p.temp_data_lifetime ∷ []

pub find_row-snoc :
    (k j : String) (t : List Row) (o : Option (List String))
    → is_fresh k t ≡ true
    → find_row j (t ++ (k, o) ∷ []) ≡ (if k == j then o else find_row j t)
unfolding find_row
find_row-snoc k j [] o h = refl
find_row-snoc k j ((i, p) ∷ t) o h =
    ground (arith, eq_iff i k, eq_iff i j, eq_iff k j, find_row-snoc k j t o)

pub find_row_fresh : (k : String) (t : List Row) → is_fresh k t ≡ true → find_row k t ≡ none
unfolding find_row
find_row_fresh k [] h = refl
find_row_fresh k ((j, o) ∷ t) h = ground (arith, find_row_fresh k t)

-- The map holds what the table says.
pub record Holds (t : List Row) (m : Config) : Type 0 where
  pub at : (j : String) → lookup j m ≡ find_row j t

-- One more section with a new name.
pub Holds-when :
    {A : Type 0} {t : List Row} {m : Config} (o : Option A) (k : String) (f : A → Config → Config)
    (g : A → List String)
    → ((c : A) (m : Config) → f c m ≡ insert k (g c) m)
    → is_fresh k t ≡ true
    → Holds t m
    → Holds (t ++ (k, Option.map g o) ∷ []) (when o f m)
unfolding when
Holds-when {t = t} none k f g same new h = record {
  at = λ j.
      rw (find_row-snoc k j t none new)
        (ground (arith, h.at j, eq_iff k j, find_row_fresh k t new));
}
Holds-when {t = t} {m = m} (some c) k f g same new h = record {
  at = λ j. rw (same c m, find_row-snoc k j t (some (g c)) new) (rw lookup-insert (rw h.at));
}
