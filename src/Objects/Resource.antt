-- ===== src/Objects/Resource.antt =====
-- The specification of a `Grafana` resource, as far as the objects in controllers/model need it: the
-- structs of api/integreatly/v1alpha1/grafana_types.go, and those of k8s.io/api that they use, with the
-- fields that the operator reads or sets. A nil pointer is `none`, and so is a nil map where the code
-- tests for one.
use grafana_operator.Common.{String, Bool, ℤ, Option, List, Assoc}
use grafana_operator.Cluster.Service.{Grafana as ServedGrafana, IntOrString}
use grafana_operator.Ini.Types.{GrafanaConfigSecurity}

-- Types of k8s.io/api whose values the operator only hands on, with their zero values.
pub record Kubernetes : Type 1 where
  pub Affinity : Type 0
  pub PodSecurityContext : Type 0
  pub SecurityContext : Type 0
  pub Toleration : Type 0
  pub Strategy : Type 0
  pub OtherSource : Type 0
  pub EnvFrom : Type 0
  pub no_affinity : Affinity
  pub no_pod_security_context : PodSecurityContext
  pub no_security_context : SecurityContext
  pub rolling_update : (max_unavailable max_surge : IntOrString) → Strategy

-- A quantity is the text that it is parsed from.
pub record ResourceRequirements : Type 0 where
  pub requests : Assoc String
  pub limits : Assoc String

pub record VolumeMount : Type 0 where
  pub name : String
  pub mount_path : String

pub record Probe : Type 0 where
  pub path : String
  pub port : IntOrString
  pub scheme : String
  pub initial_delay_seconds : ℤ
  pub timeout_seconds : ℤ
  pub period_seconds : ℤ
  pub success_threshold : ℤ
  pub failure_threshold : ℤ

-- `LivenessProbeSpec` and `ReadinessProbeSpec`, which have the same fields.
pub record ProbeSpec : Type 0 where
  pub initial_delay_seconds : Option ℤ
  pub timeout_seconds : Option ℤ
  pub period_seconds : Option ℤ
  pub success_threshold : Option ℤ
  pub failure_threshold : Option ℤ
  pub scheme : String

pub record ContainerPort : Type 0 where
  pub name : String
  pub container_port : ℤ
  pub protocol : String

pub record GrafanaHttpProxy : Type 0 where
  pub enabled : Bool
  pub url : String

pub record GrafanaIngress : Type 0 where
  pub annotations : Assoc String
  pub hostname : String
  pub labels : Assoc String
  pub path : String
  pub enabled : Bool
  pub tls_enabled : Bool
  pub tls_secret_name : String
  pub target_port : String
  pub termination : String
  pub ingress_class_name : String
  pub path_type : String

pub record GrafanaDataStorage : Type 0 where
  pub annotations : Assoc String
  pub labels : Assoc String
  pub access_modes : List String
  pub size : String
  pub storage_class : String

pub record GrafanaServiceAccount : Type 0 where
  pub skip : Option Bool
  pub annotations : Assoc String
  pub labels : Assoc String
  pub image_pull_secrets : List String

module _ (k : Kubernetes) where
  open k use {
    Affinity, PodSecurityContext, SecurityContext, Toleration, Strategy, OtherSource, EnvFrom,
  }

  -- The sources of volumes that the operator makes, and those of a resource.
  pub data VolumeSource : Type 0 where
    empty_dir : VolumeSource
    persistent_volume_claim : (claim_name : String) → VolumeSource
    config_map : (name : String) → VolumeSource
    secret : (secret_name : String) → (is_optional : Bool) → VolumeSource
    other_volume : OtherSource → VolumeSource

  pub record Volume : Type 0 where
    pub name : String
    pub source : VolumeSource

  -- The value of a variable: a text, a key of a secret, or another source of a resource.
  pub data EnvVarValue : Type 0 where
    value : String → EnvVarValue
    secret_key : (secret_name key : String) → EnvVarValue
    other_value : OtherSource → EnvVarValue

  pub record EnvVar : Type 0 where
    pub name : String
    pub content : EnvVarValue

  pub record Container : Type 0 where
    pub name : String
    pub image : String
    pub args : List String
    pub ports : List ContainerPort
    pub env : List EnvVar
    pub env_from : List EnvFrom
    pub resources : ResourceRequirements
    pub volume_mounts : List VolumeMount
    pub liveness_probe : Option Probe
    pub readiness_probe : Option Probe
    pub termination_message_path : String
    pub termination_message_policy : String
    pub image_pull_policy : String
    pub security_context : Option SecurityContext

  pub record GrafanaDeployment : Type 0 where
    pub annotations : Assoc String
    pub labels : Option (Assoc String)
    pub replicas : Option ℤ
    pub node_selector : Option (Assoc String)
    pub tolerations : List Toleration
    pub affinity : Option Affinity
    pub security_context : Option PodSecurityContext
    pub container_security_context : Option SecurityContext
    pub termination_grace_period_seconds : Option ℤ
    pub env_from : List EnvFrom
    pub env : List EnvVar
    pub skip_create_admin_account : Option Bool
    pub priority_class_name : String
    pub extra_volumes : List Volume
    pub extra_volume_mounts : List VolumeMount
    pub strategy : Option Strategy
    pub http_proxy : Option GrafanaHttpProxy

  -- `served` is what the service needs: the namespace, the service and the section of the server.
  pub record Grafana : Type 0 where
    pub served : ServedGrafana
    pub containers : List Container
    pub init_resources : Option ResourceRequirements
    pub resources : Option ResourceRequirements
    pub secrets : List String
    pub config_maps : List String
    pub deployment : Option GrafanaDeployment
    pub base_image : String
    pub init_image : String
    pub liveness_probe_spec : Option ProbeSpec
    pub readiness_probe_spec : Option ProbeSpec
    pub ingress : Option GrafanaIngress
    pub data_storage : Option GrafanaDataStorage
    pub service_account : Option GrafanaServiceAccount
    pub security : Option GrafanaConfigSecurity
