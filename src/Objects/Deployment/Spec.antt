-- ===== src/Objects/Deployment/Spec.antt =====
-- The deployment of Grafana: when it is created, and when it is reconciled with the one that is there.
pub mod Declared
use grafana_operator.Common.{String, Option, none, some, List, [], ◌∷◌, ℤ, Assoc, ◌>>=◌}
use grafana_operator.Config.ConfigValue.{Values}
use grafana_operator.Objects.Resource.{Kubernetes, Volume, Container, Grafana}
use grafana_operator.Objects.Deployment.Pod.{
  get_replicas, get_termination_grace_period, get_affinities, get_security_context,
  get_deployment_strategy, shared_deployment_labels, get_pod_labels, get_pod_annotations,
  get_node_selectors, get_pod_priority_class_name, get_tolerations,
}
use grafana_operator.Objects.Deployment.Volumes.{get_volumes}
use grafana_operator.Objects.Deployment.Containers.{get_containers, get_init_containers}

module _ (k : Kubernetes) where
  open k use {Affinity, PodSecurityContext, Toleration, Strategy}

  pub record PodSpec : Type 0 where
    pub node_selector : Assoc String
    pub tolerations : List Toleration
    pub affinity : Affinity
    pub security_context : PodSecurityContext
    pub volumes : List (Volume k)
    pub init_containers : List (Container k)
    pub containers : List (Container k)
    pub service_account_name : String
    pub termination_grace_period_seconds : Option ℤ
    pub priority_class_name : String

  pub record PodTemplate : Type 0 where
    pub name : String
    pub labels : Assoc String
    pub annotations : Option (Assoc String)
    pub pod_spec : PodSpec

  pub record DeploymentSpec : Type 0 where
    pub replicas : Option ℤ
    pub selector : Assoc String
    pub template : PodTemplate
    pub strategy : Strategy

  pub record Deployment : Type 0 where
    pub name : String
    pub namespace : String
    pub labels : Assoc String
    pub spec : DeploymentSpec

  abbrev pub template_of :
      Grafana k
      → Option (Assoc String)
      → (init_containers containers : List (Container k)) → PodTemplate
  template_of cr annotations init_containers containers = record {
    name = "grafana-deployment";
    labels = get_pod_labels k cr;
    annotations = some (get_pod_annotations k cr annotations);
    pod_spec = record {
      node_selector = get_node_selectors k cr;
      tolerations = get_tolerations k cr;
      affinity = get_affinities k cr;
      security_context = get_security_context k cr;
      volumes = get_volumes k cr;
      init_containers = init_containers;
      containers = containers;
      service_account_name = "grafana-serviceaccount";
      termination_grace_period_seconds = get_termination_grace_period k cr;
      priority_class_name = get_pod_priority_class_name k cr;
    };
  }

  unfoldable pub get_deployment_spec :
      Values
      → Grafana k
      → (annotations : Option (Assoc String)) → (config_hash plugins ds_hash : String)
      → Option DeploymentSpec
  unfolding get_init_containers get_containers get_replicas get_deployment_strategy get_pod_labels
      get_pod_annotations get_node_selectors get_tolerations get_affinities get_security_context
      get_volumes get_termination_grace_period get_pod_priority_class_name
  get_deployment_spec values cr annotations config_hash plugins ds_hash = do
    init_containers ← get_init_containers k values cr plugins
    containers ← get_containers k values cr config_hash ds_hash
    some record {
      replicas = get_replicas k cr;
      selector = ("app", "grafana") ∷ [];
      template = template_of cr annotations init_containers containers;
      strategy = get_deployment_strategy k cr;
    }

  -- The deployment that is created. It has no plugins.
  unfoldable pub grafana_deployment :
      Values → Grafana k → (config_hash ds_hash : String) → Option Deployment
  unfolding get_deployment_spec shared_deployment_labels
  grafana_deployment values cr config_hash ds_hash = do
    spec ← get_deployment_spec values cr none config_hash "" ds_hash
    some record {
      name = "grafana-deployment";
      namespace = cr.served.namespace;
      labels = shared_deployment_labels k cr;
      spec = spec;
    }

  unfoldable pub grafana_deployment_reconciled :
      Values
      → Grafana k
      → (current_state : Deployment) → (config_hash plugins ds_hash : String) → Option Deployment
  unfolding get_deployment_spec
  grafana_deployment_reconciled values cr current_state config_hash plugins ds_hash = do
    spec ←
        get_deployment_spec values cr current_state.spec.template.annotations config_hash plugins
          ds_hash
    some record current_state { spec = spec }
