-- ===== src/Ini/Write/RoundTrip.antt =====
-- Reading the text back gives the sections.
use mathlib.Core.List.{append-nil}
use text.Mathlib.TextLemmas.{append_assoc as text_append_assoc}
use grafana_operator.Common.{
  String, Option, ◌≡◌, refl, ap, ◌++◌, Bool, true, ◌&&◌, List, [], ◌∷◌, map, sort_strings, keys,
  concat, Assoc, arith, ◌⧺◌,
}
use grafana_operator.Ini.Types.{GrafanaConfig}
use grafana_operator.Ini.Items.{Config}
use grafana_operator.Ini.ParseConfig.{parse_config, section_lines}
use grafana_operator.Ini.Write.{end_line, section_text, render, write}
use grafana_operator.Ini.Write.Reader.{
  split_lines, read_lines, all_lines, read_ini, is_one_line, is_setting, all, all_lines-end_line,
  all_lines-newline, all_lines-concat, drop_last-append, read_lines-settings, all_one_line,
  sort_strings-all, bracket-is_one_line, bracket-append,
}

-- What the settings of a section are, under a key of the map.
abbrev pub sorted_section : Config → String → String × List String
sorted_section config key = (key, sort_strings (section_lines key config))

all_lines-section_text :
    (config : Config) (key s : String)
    → is_one_line key ≡ true
    → all is_one_line (sort_strings (section_lines key config)) ≡ true
    → all_lines (section_text config key ⧺ s)
      ≡ (String.◌∷◌ "[" (key ⧺ "]")) ∷ (sort_strings (section_lines key config) ++ "" ∷ all_lines s)
unfolding section_text
all_lines-section_text config key s h k =
    let xs = sort_strings (section_lines key config) in
    let body = concat (map end_line xs) in
    rw (bracket-append key) (
      rw (text_append_assoc (end_line (String.◌∷◌ "[" (key ⧺ "]"))) (body ⧺ "\n") s) (
        rw (text_append_assoc body "\n" s) (
          rw
            (all_lines-end_line (String.◌∷◌ "[" (key ⧺ "]")) (body ⧺ ("\n" ⧺ s))
              (bracket-is_one_line key h))
            (ap (◌∷◌ (String.◌∷◌ "[" (key ⧺ "]")))
              (rw (all_lines-concat xs ("\n" ⧺ s) k) (ap (λ t. xs ++ t) (all_lines-newline s)))))))

read_lines-header :
    (k : String) (r : List String)
    → read_lines ((String.◌∷◌ "[" (k ⧺ "]")) ∷ r) ≡ ([], (k, (read_lines r).0) ∷ (read_lines r).1)
unfolding read_lines
read_lines-header k r = rw (drop_last-append k)

read_lines-blank : (r : List String) → read_lines ("" ∷ r) ≡ read_lines r
unfolding read_lines
read_lines-blank r = refl

-- Every line of the section is a setting, and its name is one line.
abbrev pub is_plain_section : Config → String → Bool
is_plain_section config key = is_one_line key && all is_setting (section_lines key config)

read-section_text :
    (config : Config) (key s : String)
    → is_plain_section config key ≡ true
    → read_lines (all_lines (section_text config key ⧺ s)) ≡ (
      [],
      (key, sort_strings (section_lines key config) ++ (read_lines (all_lines s)).0)
          ∷ (read_lines (all_lines s)).1,
    )
read-section_text config key s h =
    let xs = sort_strings (section_lines key config) in
    let settings : all is_setting xs ≡ true =
      sort_strings-all is_setting (section_lines key config) (ground arith) in
    rw (all_lines-section_text config key s (ground arith) (all_one_line xs settings)) (
      rw (read_lines-header key (xs ++ "" ∷ all_lines s)) (
        rw (read_lines-settings xs ("" ∷ all_lines s) settings)
          (rw (read_lines-blank (all_lines s)))))

read-sections :
    (config : Config) (ks : List String)
    → all (is_plain_section config) ks ≡ true
    → read_lines (all_lines (concat (map (section_text config) ks)))
      ≡ ([], map (sorted_section config) ks)
unfolding concat
read-sections config [] h = unfold all_lines split_lines read_lines in refl
read-sections config (k ∷ ks) h =
    rw (read-section_text config k (concat (map (section_text config) ks)) (ground arith)) (
      rw (read-sections config ks (ground arith))
        (rw (append-nil (sort_strings (section_lines k config)))))

read_ini-render :
    (found : List String) (config : Config)
    → all (is_plain_section config) found ≡ true
    → read_ini (render found config) ≡ map (sorted_section config) (sort_strings found)
unfolding read_ini render
read_ini-render found config h =
    ap (λ (r : List String × Assoc (List String)). r.1)
      (read-sections config (sort_strings found)
        (sort_strings-all (is_plain_section config) found h))

-- Reading back what `Write` returns gives the sections of the configuration, in ascending order of
-- their names, each with its lines in ascending order, if no section's name and no line has a
-- newline in it and no line is empty or begins with a bracket.
pub read_ini-write :
    (order : List String → List String) (sha256 : String → String)
    (format_float : String → Option String) (cfg : GrafanaConfig)
    → (let config = parse_config format_float cfg [] in
        all (is_plain_section config) (order (keys config)) ≡ true)
    → read_ini (write order sha256 format_float cfg).0 ≡ (
        let config = parse_config format_float cfg [] in
        map (sorted_section config) (sort_strings (order (keys config))))
unfolding write
read_ini-write order sha256 format_float cfg h =
    let config = parse_config format_float cfg [] in read_ini-render (order (keys config)) config h
