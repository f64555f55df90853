-- ===== src/Objects/Storage.antt =====
-- The claim of storage, of controllers/model/grafanaDataPvc.go, and the config map of the data sources,
-- of controllers/model/grafanaDatasources.go.
use grafana_operator.Common.{
  String, ◌==◌, Option, none, some, List, [], ◌∷◌, Assoc, ◌>>=◌, if◌then◌else◌,
}
use grafana_operator.Cluster.Service.{merge_annotations}
use grafana_operator.Cluster.ConfigMap.{ConfigMap, last_config_annotation}
use grafana_operator.Objects.Resource.{Kubernetes, GrafanaDataStorage, Grafana}
use grafana_operator.Objects.Ingress.{Published}

pub record ClaimSpec : Type 0 where
  pub access_modes : List String
  pub storage_request : String
  pub storage_class_name : Option String

module _ (k : Kubernetes) where
  abbrev of_storage {ℓ} : {A : Type ℓ} → Grafana k → A → (GrafanaDataStorage → A) → A
  of_storage cr default part = elim cr.data_storage [ none ↦ default | some s ↦ part s ]

  unfoldable pub get_pvc_labels : Grafana k → Option (Assoc String)
  get_pvc_labels cr = of_storage cr none λ s. some s.labels

  unfoldable pub get_pvc_annotations : Grafana k → Option (Assoc String) → Option (Assoc String)
  unfolding merge_annotations
  get_pvc_annotations cr existing =
      of_storage cr existing λ s. some (merge_annotations s.annotations existing)

  unfoldable pub get_storage_class : Grafana k → Option String
  get_storage_class cr =
      of_storage cr none λ s. if s.storage_class == "" then none else some s.storage_class

  -- The code panics, which is `none`, if the resource asks for no storage.
  unfoldable pub get_pvc_spec : Grafana k → Option ClaimSpec
  unfolding get_storage_class
  get_pvc_spec cr = of_storage cr none λ s. some record {
    access_modes = s.access_modes;
    storage_request = s.size;
    storage_class_name = get_storage_class cr;
  }

  unfoldable pub grafana_data_pvc : Grafana k → Option (Published ClaimSpec)
  unfolding get_pvc_spec get_pvc_labels get_pvc_annotations
  grafana_data_pvc cr = do
    spec ← get_pvc_spec cr
    some record {
      name = "grafana-pvc";
      namespace = cr.served.namespace;
      labels = get_pvc_labels cr;
      annotations = get_pvc_annotations cr none;
      spec = spec;
    }

  -- The specification of a claim that is there stays.
  unfoldable pub grafana_pvc_reconciled : Grafana k → Published ClaimSpec → Published ClaimSpec
  unfolding get_pvc_labels get_pvc_annotations
  grafana_pvc_reconciled cr current_state = record current_state {
    labels = get_pvc_labels cr;
    annotations = get_pvc_annotations cr current_state.annotations;
  }

  unfoldable pub grafana_datasources_config : Grafana k → ConfigMap
  grafana_datasources_config cr = record {
    name = "grafana-datasources";
    namespace = cr.served.namespace;
    annotations = (last_config_annotation, "") ∷ [];
    content = none;
  }
