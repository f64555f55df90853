-- ===== src/Objects/Deployment/Pod.antt =====
-- What a pod of the deployment takes from the resource, with the defaults.
use grafana_operator.Common.{
  String, Bool, false, Option, none, some, List, [], ◌∷◌, ℤ, pos, itoa, Assoc, insert,
}
use grafana_operator.Cluster.Service.{from_int, get_grafana_port, merge_annotations}
use grafana_operator.Objects.Resource.{Kubernetes, ResourceRequirements, GrafanaDeployment, Grafana}

abbrev pub or_default {ℓ} : {A : Type ℓ} → Option A → A → A
or_default none default = default
or_default (some a) default = a

abbrev requirements :
    (memory_request cpu_request memory_limit cpu_limit : String) → ResourceRequirements
requirements memory_request cpu_request memory_limit cpu_limit = record {
  requests = ("memory", memory_request) ∷ ("cpu", cpu_request) ∷ [];
  limits = ("memory", memory_limit) ∷ ("cpu", cpu_limit) ∷ [];
}

module _ (k : Kubernetes) where
  open k use {Affinity, PodSecurityContext, SecurityContext, Toleration, Strategy, EnvFrom}

  -- `cr.Spec.Deployment != nil`, and a part of it.
  abbrev pub of_deployment {ℓ} : {A : Type ℓ} → Grafana k → A → (GrafanaDeployment k → A) → A
  of_deployment cr default part = elim cr.deployment [ none ↦ default | some d ↦ part d ]

  unfoldable pub get_skip_create_admin_account : Grafana k → Bool
  get_skip_create_admin_account cr =
      of_deployment cr false λ d. or_default d.skip_create_admin_account false

  unfoldable pub get_replicas : Grafana k → Option ℤ
  get_replicas cr = of_deployment cr none λ d. d.replicas

  unfoldable pub get_termination_grace_period : Grafana k → Option ℤ
  get_termination_grace_period cr = of_deployment cr none λ d. d.termination_grace_period_seconds

  unfoldable pub get_init_resources : Grafana k → ResourceRequirements
  get_init_resources cr = or_default cr.init_resources (requirements "128Mi" "250m" "512Mi" "1000m")

  unfoldable pub get_resources : Grafana k → ResourceRequirements
  get_resources cr = or_default cr.resources (requirements "256Mi" "100m" "1024Mi" "500m")

  unfoldable pub get_affinities : Grafana k → Affinity
  get_affinities cr = of_deployment cr k.no_affinity λ d. or_default d.affinity k.no_affinity

  unfoldable pub get_security_context : Grafana k → PodSecurityContext
  get_security_context cr =
      of_deployment cr k.no_pod_security_context
        λ d. or_default d.security_context k.no_pod_security_context

  unfoldable pub get_container_security_context : Grafana k → SecurityContext
  get_container_security_context cr =
      of_deployment cr k.no_security_context
        λ d. or_default d.container_security_context k.no_security_context

  unfoldable pub get_rolling_update_strategy : Strategy
  get_rolling_update_strategy = k.rolling_update (from_int (pos 25)) (from_int (pos 25))

  unfoldable pub get_deployment_strategy : Grafana k → Strategy
  unfolding get_rolling_update_strategy
  get_deployment_strategy cr =
      of_deployment cr get_rolling_update_strategy
        λ d. or_default d.strategy get_rolling_update_strategy

  -- The labels of the resource, or a new map.
  unfoldable pub get_deployment_labels : Grafana k → Assoc String
  get_deployment_labels cr = of_deployment cr [] λ d. or_default d.labels []

  -- The write goes into the map of the resource, if it has one.
  unfoldable pub get_pod_labels : Grafana k → Assoc String
  get_pod_labels cr = insert "app" "grafana" (of_deployment cr [] λ d. or_default d.labels [])

  -- `get_deployment_labels` gives the same map as `get_pod_labels` if the resource has labels, so after
  -- the latter has written to it, the former's result has what was written.
  unfoldable pub shared_deployment_labels : Grafana k → Assoc String
  unfolding get_pod_labels
  shared_deployment_labels cr =
      of_deployment cr [] λ d. elim d.labels [ none ↦ [] | some _ ↦ get_pod_labels cr ]

  unfoldable pub get_pod_annotations : Grafana k → Option (Assoc String) → Assoc String
  unfolding get_grafana_port merge_annotations
  get_pod_annotations cr existing =
      let fixed =
        ("prometheus.io/scrape", "true")
        ∷ ("prometheus.io/port", itoa (get_grafana_port cr.served))
        ∷ [] in
      let annotations = merge_annotations fixed existing in
      of_deployment cr annotations λ d. merge_annotations d.annotations (some annotations)

  unfoldable pub get_node_selectors : Grafana k → Assoc String
  get_node_selectors cr = of_deployment cr [] λ d. or_default d.node_selector []

  unfoldable pub get_pod_priority_class_name : Grafana k → String
  get_pod_priority_class_name cr = of_deployment cr "" λ d. d.priority_class_name

  unfoldable pub get_tolerations : Grafana k → List Toleration
  get_tolerations cr = of_deployment cr [] λ d. d.tolerations

  unfoldable pub get_env_from : Grafana k → List EnvFrom
  get_env_from cr = of_deployment cr [] λ d. d.env_from
