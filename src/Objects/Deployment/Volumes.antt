-- ===== src/Objects/Deployment/Volumes.antt =====
-- The volumes of a pod and where the containers mount them.
pub mod Mounted
use grafana_operator.Common.{
  String, ◌⧺◌, ◌==◌, Bool, true, false, ◌||◌, Option, none, some, List, [], ◌∷◌, ◌++◌, is_some,
  if◌then◌else◌,
}
use grafana_operator.Objects.Resource.{
  Kubernetes, VolumeMount, Volume, VolumeSource, empty_dir, persistent_volume_claim, config_map,
  secret, Grafana,
}
use grafana_operator.Objects.Deployment.Pod.{of_deployment}

abbrev pub plugins_path : String
plugins_path = "/var/lib/grafana/plugins"

abbrev pub secret_name : String → String
secret_name name = "secret-" ⧺ name

abbrev pub config_map_name : String → String
config_map_name name = "configmap-" ⧺ name

unfoldable pub mounts_plugins : List VolumeMount → Bool
mounts_plugins [] = false
mounts_plugins (item ∷ items) =
    if item.mount_path == plugins_path then true else mounts_plugins items

unfoldable pub secret_mounts : List String → List VolumeMount
secret_mounts [] = []
secret_mounts (name ∷ l) =
    record { name = secret_name name; mount_path = "/etc/grafana-secrets/" ⧺ name }
    ∷ secret_mounts l

unfoldable pub config_map_mounts : List String → List VolumeMount
config_map_mounts [] = []
config_map_mounts (name ∷ l) =
    record { name = config_map_name name; mount_path = "/etc/grafana-configmaps/" ⧺ name }
    ∷ config_map_mounts l

abbrev pub mount : String → String → VolumeMount
mount name path = record { name = name; mount_path = path }

abbrev provisioning_mounts : List VolumeMount
provisioning_mounts =
    mount "grafana-provision-plugins" "/etc/grafana/provisioning/plugins"
    ∷ mount "grafana-provision-dashboards" "/etc/grafana/provisioning/dashboards"
    ∷ mount "grafana-provision-notifiers" "/etc/grafana/provisioning/notifiers"
    ∷ mount "grafana-logs" "/var/log/grafana"
    ∷ mount "grafana-datasources" "/etc/grafana/provisioning/datasources"
    ∷ []

-- A mount that is not there under the name or the path.
abbrev pub is_mounted : VolumeMount → List VolumeMount → Bool
is_mounted m [] = false
is_mounted m (existing ∷ l) =
    (existing.name == m.name || existing.mount_path == m.mount_path) || is_mounted m l

unfoldable pub append_if_empty : List VolumeMount → VolumeMount → List VolumeMount
append_if_empty mounts m = if is_mounted m mounts then mounts else mounts ++ m ∷ []

unfoldable pub append_all_if_empty : List VolumeMount → List VolumeMount → List VolumeMount
unfolding append_if_empty
append_all_if_empty mounts [] = mounts
append_all_if_empty mounts (m ∷ l) = append_all_if_empty (append_if_empty mounts m) l

module _ (k : Kubernetes) where
  abbrev pub volume : String → VolumeSource k → Volume k
  volume name source = record { name = name; source = source }

  unfoldable pub secret_volumes : List String → List (Volume k)
  secret_volumes [] = []
  secret_volumes (name ∷ l) = volume (secret_name name) (secret name true) ∷ secret_volumes l

  unfoldable pub config_map_volumes : List String → List (Volume k)
  config_map_volumes [] = []
  config_map_volumes (name ∷ l) =
      volume (config_map_name name) (config_map name) ∷ config_map_volumes l

  abbrev pub extra_mounts : Grafana k → List VolumeMount
  extra_mounts cr = of_deployment k cr [] λ d. d.extra_volume_mounts

  abbrev pub extra_volumes : Grafana k → List (Volume k)
  extra_volumes cr = of_deployment k cr [] λ d. d.extra_volumes

  abbrev data_source : Bool → VolumeSource k
  data_source true = persistent_volume_claim "grafana-pvc"
  data_source false = empty_dir

  abbrev plugin_volumes : Bool → List (Volume k)
  plugin_volumes true = []
  plugin_volumes false = volume "grafana-plugins" empty_dir ∷ []

  abbrev plugin_mounts : Bool → List VolumeMount
  plugin_mounts true = []
  plugin_mounts false = mount "grafana-plugins" plugins_path ∷ []

  abbrev fixed_volumes : Bool → List (Volume k)
  fixed_volumes persistent =
      volume "grafana-provision-plugins" empty_dir
      ∷ volume "grafana-provision-dashboards" empty_dir
      ∷ volume "grafana-provision-notifiers" empty_dir
      ∷ volume "grafana-config" (config_map "grafana-config")
      ∷ volume "grafana-logs" empty_dir
      ∷ volume "grafana-data" (data_source persistent)
      ∷ []

  unfoldable pub get_volumes : Grafana k → List (Volume k)
  unfolding mounts_plugins secret_volumes config_map_volumes
  get_volumes cr =
      fixed_volumes (is_some cr.data_storage)
      ++ (extra_volumes cr
          ++ (plugin_volumes (mounts_plugins (extra_mounts cr))
              ++ (volume "grafana-datasources" (config_map "grafana-datasources")
                  ∷ (secret_volumes cr.secrets ++ config_map_volumes cr.config_maps))))

  unfoldable pub get_volume_mounts : Grafana k → List VolumeMount
  unfolding mounts_plugins secret_mounts config_map_mounts
  get_volume_mounts cr =
      mount "grafana-config" "/etc/grafana/"
      ∷ mount "grafana-data" "/var/lib/grafana"
      ∷ (extra_mounts cr
          ++ (plugin_mounts (mounts_plugins (extra_mounts cr))
              ++ (provisioning_mounts
                  ++ (secret_mounts cr.secrets ++ config_map_mounts cr.config_maps))))

  unfoldable pub get_extra_container_volume_mounts : Grafana k → List VolumeMount → List VolumeMount
  unfolding append_all_if_empty secret_mounts config_map_mounts
  get_extra_container_volume_mounts cr mounts =
      append_all_if_empty (append_all_if_empty mounts (secret_mounts cr.secrets))
        (config_map_mounts cr.config_maps)
