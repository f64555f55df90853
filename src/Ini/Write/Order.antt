-- ===== src/Ini/Write/Order.antt =====
-- The text does not depend on the order in which the runtime ranges over the map.
use mathlib.Core.List.{Perm}
use mathlib.Core.List.Perm
use grafana_operator.Common.{String, Option, List, ◌≡◌, ap, sort_strings-perm, keys}
use grafana_operator.Ini.Types.{GrafanaConfig}
use grafana_operator.Ini.Items.{Config}
use grafana_operator.Ini.ParseConfig.{parse_config}
use grafana_operator.Ini.Write.{render, write}

render-perm :
    (config : Config) {found found' : List String}
    → Perm found found'
    → render found config ≡ render found' config
unfolding render
render-perm config p = rw (sort_strings-perm p)

-- Go ranges over a map in an unspecified order. Whatever two orders two runs of `Write` meet, as
-- long as each is a permutation of the keys, the text and its hash are the same.
pub write_order :
    (order order' : List String → List String) (sha256 : String → String)
    (format_float : String → Option String) (cfg : GrafanaConfig)
    → ((l : List String) → Perm (order l) l)
    → ((l : List String) → Perm (order' l) l)
    → write order sha256 format_float cfg ≡ write order' sha256 format_float cfg
unfolding write
write_order order order' sha256 format_float cfg h h' =
    let config = parse_config format_float cfg List.[] in
    ap (λ (text : String). (text, sha256 text))
      (render-perm config (Perm.trans (h (keys config)) (Perm.symm (h' (keys config)))))
