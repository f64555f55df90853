-- ===== src/Ini/Write.antt =====
-- `Write` of controllers/config/grafanaIni.go: the sections in ascending order, the lines of each
-- in ascending order, and the SHA-256 of the text.
pub mod Order
pub mod Reader
pub mod RoundTrip
use grafana_operator.Common.{String, ◌⧺◌, Option, List, map, sort_strings, keys, concat}
use grafana_operator.Ini.Types.{GrafanaConfig}
use grafana_operator.Ini.Items.{Config}
use grafana_operator.Ini.ParseConfig.{parse_config, section_lines}

-- A line with the byte that ends it.
abbrev pub newline : String
newline = "\n"

unfoldable pub end_line : String → String
end_line l = l ⧺ newline

unfoldable pub section_text : Config → String → String
unfolding end_line section_lines
section_text config key =
    end_line ("[" ⧺ (key ⧺ "]"))
    ⧺ (concat (map end_line (sort_strings (section_lines key config))) ⧺ newline)

-- The text for a map whose keys the loop over the map has found in the order `found`.
unfoldable pub render : List String → Config → String
unfolding section_text
render found config = concat (map (section_text config) (sort_strings found))

-- `order` is the order in which the runtime ranges over the keys of a map, and `sha256` gives the
-- hexadecimal digest of a text.
unfoldable pub write :
    (List String → List String)
    → (String → String)
    → (String → Option String)
    → GrafanaConfig
    → String × String
unfolding render
write order sha256 format_float cfg =
    let config = parse_config format_float cfg List.[] in
    let text = render (order (keys config)) config in (text, sha256 text)
