-- ===== src/Tests/Objects.antt =====
-- The objects that the operator wants (controllers/model) at concrete inputs.
use grafana_operator.Common.{
  String, ◌≡◌, refl, ℕ, true, none, some, [], ◌∷◌, pos, lookup, or_other, map, if◌then◌else◌,
}
use grafana_operator.Objects.Resource.{
  Kubernetes, VolumeMount, empty_dir, Container, GrafanaDeployment, Grafana,
}
use grafana_operator.Objects.Deployment.Volumes.{get_volumes}
use grafana_operator.Objects.Deployment.Volumes.Mounted.{has_volume}
use grafana_operator.Objects.Deployment.Containers.{
  grafana_container, with_mounts, init_container, grafana_image_of, init_image_of, image_of,
  get_containers, get_init_containers,
}
use grafana_operator.Objects.Deployment.Spec.{DeploymentSpec, template_of, get_deployment_spec}
use grafana_operator.Objects.Deployment.Spec.Declared.{AllMounted, get_deployment_spec-AllMounted}
use grafana_operator.Objects.Accounts.{is_among, merge_image_pull_secrets, Secret, get_data}
use grafana_operator.Objects.Accounts.Laws.{get_data-settles, count, count-merge_image_pull_secrets}

abbrev pub kubernetes : Kubernetes
kubernetes = record {
  Affinity = ℕ;
  PodSecurityContext = ℕ;
  SecurityContext = ℕ;
  Toleration = ℕ;
  Strategy = ℕ;
  OtherSource = ℕ;
  EnvFrom = ℕ;
  no_affinity = 0;
  no_pod_security_context = 0;
  no_security_context = 0;
  rolling_update = λ unavailable surge. 25;
}

abbrev mount : String → String → VolumeMount
mount name path = record { name = name; mount_path = path }

abbrev sidecar : Container kubernetes
sidecar = record {
  name = "sidecar";
  image = "sidecar:1";
  args = [];
  ports = [];
  env = [];
  env_from = [];
  resources = record { requests = []; limits = [] };
  volume_mounts = mount "grafana-data" "/data" ∷ [];
  liveness_probe = none;
  readiness_probe = none;
  termination_message_path = "";
  termination_message_policy = "";
  image_pull_policy = "";
  security_context = none;
}

abbrev deployment : GrafanaDeployment kubernetes
deployment = record {
  annotations = [];
  labels = none;
  replicas = some (pos 1);
  node_selector = none;
  tolerations = [];
  affinity = none;
  security_context = none;
  container_security_context = none;
  termination_grace_period_seconds = none;
  env_from = [];
  env = [];
  skip_create_admin_account = none;
  priority_class_name = "";
  extra_volumes = record { name = "my-plugins"; source = empty_dir } ∷ [];
  extra_volume_mounts = mount "my-plugins" "/var/lib/grafana/plugins" ∷ [];
  strategy = none;
  http_proxy = none;
}

abbrev pub grafana : Grafana kubernetes
grafana = record {
  served = record { namespace = "monitoring"; service = none; server = none };
  containers = sidecar ∷ [];
  init_resources = none;
  resources = none;
  secrets = "ldap" ∷ [];
  config_maps = "extra" ∷ [];
  deployment = some deployment;
  base_image = "grafana:8";
  init_image = "init:1";
  liveness_probe_spec = none;
  readiness_probe_spec = none;
  ingress = none;
  data_storage = none;
  service_account = none;
  security = none;
}

abbrev spec : DeploymentSpec kubernetes
spec = record {
  replicas = some (pos 1);
  selector = ("app", "grafana") ∷ [];
  template =
      template_of kubernetes grafana none (init_container kubernetes grafana "p:1" "init:1" ∷ []) (
        grafana_container kubernetes grafana "c" "d" "grafana:8"
        ∷ map (with_mounts kubernetes grafana) (sidecar ∷ []));
  strategy = 25;
}

spec_made : get_deployment_spec kubernetes [] grafana none "c" "p:1" "d" ≡ some spec
unfolding get_deployment_spec get_containers get_init_containers grafana_image_of init_image_of
    image_of
spec_made = refl

extra_mounted : has_volume kubernetes "my-plugins" (get_volumes kubernetes grafana) ≡ true
unfolding has_volume get_volumes
extra_mounted = refl

data_mounted : has_volume kubernetes "grafana-data" (get_volumes kubernetes grafana) ≡ true
unfolding has_volume get_volumes
data_mounted = refl

get_deployment_spec-AllMounted_example :
    AllMounted kubernetes spec.template.pod_spec.volumes spec.template.pod_spec.init_containers
    × AllMounted kubernetes spec.template.pod_spec.volumes spec.template.pod_spec.containers
get_deployment_spec-AllMounted_example =
    get_deployment_spec-AllMounted kubernetes [] grafana none "c" "p:1" "d" spec spec_made
      (extra_mounted, tt) ((data_mounted, tt), tt)

abbrev secret : Secret
secret = record {
  name = "grafana-admin-credentials";
  namespace = "monitoring";
  content = ("GF_SECURITY_ADMIN_USER", "admin") ∷ ("GF_SECURITY_ADMIN_PASSWORD", "random") ∷ [];
}

secret_made : secret.content ≡ (get_data kubernetes "random" grafana none []).0
unfolding get_data
secret_made = refl

get_data-settles_example :
    ((get_data kubernetes "other" grafana (some secret) []).0 ≡ secret.content)
    × ((key : String)
        → lookup key (get_data kubernetes "other" grafana (some secret) []).1
          ≡ or_other (lookup key secret.content) (lookup key []))
get_data-settles_example =
    get_data-settles kubernetes "random" "other" grafana none [] [] secret secret_made

count-merge_image_pull_secrets_example :
    count "b" (merge_image_pull_secrets ("a" ∷ "b" ∷ []) ("a" ∷ [])) ≡ (
      if is_among "b" ("a" ∷ [])
      then count "b" ("a" ∷ [])
      else if is_among "b" ("a" ∷ "b" ∷ [])
      then 1
      else 0)
count-merge_image_pull_secrets_example =
    count-merge_image_pull_secrets "b" ("a" ∷ "b" ∷ []) ("a" ∷ [])
