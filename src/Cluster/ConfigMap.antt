-- ===== src/Cluster/ConfigMap.antt =====
-- The config map with grafana.ini, of controllers/model/grafanaConfig.go, and the hash that the
-- reconciler takes from it for the deployment, of controllers/grafana/grafana_reconciler.go.
use grafana_operator.Common.{
  String, ◌≡◌, refl, Option, none, some, [], ◌∷◌, Assoc, lookup, insert, is_some, arith,
  if◌then◌else◌,
}

pub record ConfigMap : Type 0 where
  pub name : String
  pub namespace : String
  pub annotations : Assoc String
  pub content : Option (Assoc String)

abbrev pub last_config_annotation : String
last_config_annotation = "last-config"

-- `written` is the text of grafana.ini and its hash.
unfoldable pub grafana_config : (namespace : String) → (written : String × String) → ConfigMap
grafana_config namespace (config, hash) = record {
  name = "grafana-config";
  namespace = namespace;
  annotations = ("lastConfig", hash) ∷ [];
  content = some (("grafana.ini", config) ∷ []);
}

abbrev reconciled_with :
    (written : String × String) → ConfigMap → Option (Assoc String) → Option ConfigMap
reconciled_with (config, hash) current none = none
reconciled_with (config, hash) current (some content) = some (record current {
  annotations = (last_config_annotation, hash) ∷ [];
  content = some (insert "grafana.ini" config content);
})

-- `none` is the panic of writing into a map that is nil.
unfoldable pub grafana_config_reconciled :
    (written : String × String) → ConfigMap → Option ConfigMap
grafana_config_reconciled written current = reconciled_with written current current.content

-- `config.Annotations[constants.LastConfigAnnotation]`, of the config map that is created if there
-- is none, and else of the one that is updated.
abbrev annotation_of : Option String → String
annotation_of none = ""
annotation_of (some hash) = hash

abbrev desired_config :
    (namespace : String) → (String × String) → Option ConfigMap → Option ConfigMap
desired_config namespace written none = some (grafana_config namespace written)
desired_config namespace written (some current) = grafana_config_reconciled written current

abbrev hash_of : Option ConfigMap → Option String
hash_of none = none
hash_of (some c) = some (annotation_of (lookup last_config_annotation c.annotations))

unfoldable pub config_hash :
    (namespace : String) → (written : String × String) → Option ConfigMap → Option String
unfolding grafana_config grafana_config_reconciled
config_hash namespace written current = hash_of (desired_config namespace written current)

-- The hash that the deployment gets is that of grafana.ini if the config map exists, whose data must not
-- be nil, or the reconciliation panics; but it is empty when the config map is created, whatever
-- grafana.ini holds.
pub config_hash_branches :
    (namespace config hash : String) (current : ConfigMap)
    → (config_hash namespace (config, hash) (some current)
        ≡ (if is_some current.content then some hash else none))
      × (config_hash namespace (config, hash) none ≡ some "")
unfolding config_hash lookup
config_hash_branches namespace config hash current = (ground arith, refl)
