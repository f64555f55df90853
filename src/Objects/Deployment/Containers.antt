-- ===== src/Objects/Deployment/Containers.antt =====
-- The containers of a pod.
use grafana_operator.Common.{
  String, ◌⧺◌, ◌==◌, Option, none, some, List, [], ◌∷◌, ◌++◌, pos, to_int32, map, if◌then◌else◌,
  ◌>>=◌,
}
use grafana_operator.Cluster.Service.{get_grafana_port}
use grafana_operator.Config.ConfigValue.{Values, get_config_string}
use grafana_operator.Objects.Resource.{
  Kubernetes, VolumeMount, GrafanaHttpProxy, EnvVar, value, secret_key, Container, Grafana,
}
use grafana_operator.Objects.Deployment.Pod.{
  of_deployment, get_skip_create_admin_account, get_resources, get_init_resources,
  get_container_security_context, get_env_from,
}
use grafana_operator.Objects.Deployment.Probes.{get_liveness_probe, get_readiness_probe}
use grafana_operator.Objects.Deployment.Volumes.{
  plugins_path, mount, extra_mounts, get_volume_mounts, get_extra_container_volume_mounts,
}

-- The name of the volume that the last mount of the path has.
unfoldable pub plugin_volume_name : String → List VolumeMount → String
plugin_volume_name name [] = name
plugin_volume_name name (item ∷ items) =
    plugin_volume_name (if item.mount_path == plugins_path then item.name else name) items

-- The image of the resource, or that of the configuration; a value there of another type panics, which
-- is `none`.
abbrev configured_image :
    Values → (image_key default_image tag_key default_tag : String) → Option String
configured_image values image_key default_image tag_key default_tag = do
  img ← get_config_string image_key default_image values
  tag ← get_config_string tag_key default_tag values
  some (img ⧺ (":" ⧺ tag))

unfoldable pub image_of :
    (image : String)
    → Values
    → (image_key default_image tag_key default_tag : String) → Option String
image_of image values image_key default_image tag_key default_tag =
    if image == ""
    then configured_image values image_key default_image tag_key default_tag
    else some image

module _ (k : Kubernetes) where
  unfoldable pub grafana_image_of : Values → Grafana k → Option String
  unfolding image_of
  grafana_image_of values cr =
      image_of cr.base_image values "grafana.image.url" "docker.io/grafana/grafana"
        "grafana.image.tag" "8.2.2"

  unfoldable pub init_image_of : Values → Grafana k → Option String
  unfolding image_of
  init_image_of values cr =
      image_of cr.init_image values "grafana.plugins.init.container.image.url"
        "quay.io/grafana-operator/grafana_plugins_init" "grafana.plugins.init.container.image.tag"
        "0.0.5"

  abbrev pub env_var : String → String → EnvVar k
  env_var name text = record { name = name; content = value text }

  abbrev enabled_proxy : GrafanaHttpProxy → List (EnvVar k)
  enabled_proxy proxy = if proxy.enabled then env_var "HTTP_PROXY" proxy.url ∷ [] else []

  abbrev pub proxy_vars : Grafana k → List (EnvVar k)
  proxy_vars cr =
      of_deployment k cr [] λ d. elim d.http_proxy [ none ↦ [] | some proxy ↦ enabled_proxy proxy ]

  abbrev pub admin_var : String → EnvVar k
  admin_var key = record { name = key; content = secret_key "grafana-admin-credentials" key }

  unfoldable pub admin_vars : Grafana k → List (EnvVar k)
  unfolding get_skip_create_admin_account
  admin_vars cr =
      if get_skip_create_admin_account k cr
      then []
      else admin_var "GF_SECURITY_ADMIN_USER" ∷ admin_var "GF_SECURITY_ADMIN_PASSWORD" ∷ []

  abbrev pub grafana_container : Grafana k → (config_hash ds_hash image : String) → Container k
  grafana_container cr config_hash ds_hash image = record {
    name = "grafana";
    image = image;
    args = "-config=/etc/grafana/grafana.ini" ∷ [];
    ports =
        record {
          name = "grafana-http";
          container_port = to_int32 (get_grafana_port cr.served);
          protocol = "TCP";
        }
        ∷ [];
    env =
        env_var "LAST_CONFIG" config_hash
        ∷ env_var "LAST_DATASOURCES" ds_hash
        ∷ (proxy_vars cr ++ ((of_deployment k cr [] λ d. d.env) ++ admin_vars cr));
    env_from = get_env_from k cr;
    resources = get_resources k cr;
    volume_mounts = get_volume_mounts k cr;
    liveness_probe = some (get_liveness_probe k cr (pos 60) (pos 30) (pos 10));
    readiness_probe = some (get_readiness_probe k cr (pos 5) (pos 3) (pos 1));
    termination_message_path = "/dev/termination-log";
    termination_message_policy = "File";
    image_pull_policy = "IfNotPresent";
    security_context = some (get_container_security_context k cr);
  }

  -- An extra container, with the mounts of secrets and config maps.
  abbrev pub with_mounts : Grafana k → Container k → Container k
  with_mounts cr container = record container {
    volume_mounts = get_extra_container_volume_mounts k cr container.volume_mounts;
  }

  unfoldable pub get_containers :
      Values → Grafana k → (config_hash ds_hash : String) → Option (List (Container k))
  unfolding grafana_image_of get_grafana_port admin_vars get_env_from get_resources
      get_volume_mounts get_liveness_probe get_readiness_probe get_container_security_context
      get_extra_container_volume_mounts
  get_containers values cr config_hash ds_hash = do
    image ← grafana_image_of values cr
    some (grafana_container cr config_hash ds_hash image ∷ map (with_mounts cr) cr.containers)

  abbrev pub init_container : Grafana k → (plugins image : String) → Container k
  init_container cr plugins image = record {
    name = "grafana-plugins-init";
    image = image;
    args = [];
    ports = [];
    env = env_var "GRAFANA_PLUGINS" plugins ∷ proxy_vars cr;
    env_from = [];
    resources = get_init_resources k cr;
    volume_mounts =
        mount (plugin_volume_name "grafana-plugins" (extra_mounts k cr)) "/opt/plugins" ∷ [];
    liveness_probe = none;
    readiness_probe = none;
    termination_message_path = "/dev/termination-log";
    termination_message_policy = "File";
    image_pull_policy = "IfNotPresent";
    security_context = none;
  }

  unfoldable pub get_init_containers :
      Values → Grafana k → (plugins : String) → Option (List (Container k))
  unfolding init_image_of get_init_resources plugin_volume_name
  get_init_containers values cr plugins = do
    image ← init_image_of values cr
    some (init_container cr plugins image ∷ [])
