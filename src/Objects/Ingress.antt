-- ===== src/Objects/Ingress.antt =====
-- How Grafana is reached from outside of the cluster: the ingress of controllers/model/grafanaIngress.go
-- and the route of controllers/model/grafanaRoute.go. Both point to the service.
use grafana_operator.Common.{
  String, ◌==◌, ◌||◌, Option, none, some, List, [], ◌∷◌, ℤ, pos, eqb_ℤ, Assoc, to_int32, ◌>>=◌,
  if◌then◌else◌,
}
use grafana_operator.Cluster.Service.{
  IntOrString, from_int, from_string, get_grafana_port, get_service_name, merge_annotations,
}
use grafana_operator.Objects.Resource.{Kubernetes, GrafanaIngress, Grafana}

-- `IngressTLS` of k8s.io/api
pub record IngressTls : Type 0 where
  pub hosts : List String
  pub secret_name : String

-- `ServiceBackendPort` of k8s.io/api: a name or a number, the other being empty or 0.
pub record BackendPort : Type 0 where
  pub name : String
  pub number : ℤ

-- The specification of an ingress with its one rule, and the one path of that.
pub record IngressSpec : Type 0 where
  pub tls : List IngressTls
  pub ingress_class_name : Option String
  pub host : String
  pub path : String
  pub path_type : Option String
  pub service : String
  pub port : BackendPort

pub record RouteSpec : Type 0 where
  pub host : String
  pub path : String
  pub service : String
  pub target_port : IntOrString
  pub termination : String
  pub wildcard_policy : String

-- An object of the cluster with its metadata. A nil map is `none`.
pub record Published (S : Type 0) : Type 0 where
  pub name : String
  pub namespace : String
  pub labels : Option (Assoc String)
  pub annotations : Option (Assoc String)
  pub spec : S

abbrev ingress_tls : GrafanaIngress → List IngressTls
ingress_tls i =
    if i.tls_enabled
    then record { hosts = i.hostname ∷ []; secret_name = i.tls_secret_name } ∷ []
    else []

abbrev class_name_of : GrafanaIngress → Option String
class_name_of i = if i.ingress_class_name == "" then none else some i.ingress_class_name

abbrev path_type_of : String → Option String
path_type_of t =
    if (t == "Exact" || t == "Prefix") || t == "ImplementationSpecific" then some t else none

abbrev path_of : GrafanaIngress → String
path_of i = if i.path == "" then "/" else i.path

abbrev target_port_of : IntOrString → GrafanaIngress → IntOrString
target_port_of default i = if i.target_port == "" then default else from_string i.target_port

abbrev termination_of : String → String
termination_of t = if (t == "edge" || t == "reencrypt") || t == "passthrough" then t else "edge"

-- An ingress gets the port's number unless that is 0, and its name otherwise.
abbrev backend_port : IntOrString → BackendPort
backend_port (from_int n) =
    if eqb_ℤ n (pos 0)
    then record { name = ""; number = pos 0 }
    else record { name = ""; number = n }
backend_port (from_string name) = record { name = name; number = pos 0 }

module _ (k : Kubernetes) where
  -- `cr.Spec.Ingress != nil`, and a part of it.
  abbrev of_ingress {ℓ} : {A : Type ℓ} → Grafana k → A → (GrafanaIngress → A) → A
  of_ingress cr default part = elim cr.ingress [ none ↦ default | some i ↦ part i ]

  unfoldable pub get_ingress_tls : Grafana k → List IngressTls
  get_ingress_tls cr = of_ingress cr [] ingress_tls

  -- The code reads the ingress through the pointer: it panics, which is `none`, if there is none.
  unfoldable pub get_ingress_path_type : Grafana k → Option (Option String)
  get_ingress_path_type cr = of_ingress cr none λ i. some (path_type_of i.path_type)

  unfoldable pub get_ingress_class_name : Grafana k → Option (Option String)
  get_ingress_class_name cr = of_ingress cr none λ i. some (class_name_of i)

  unfoldable pub get_host : Grafana k → String
  get_host cr = of_ingress cr "" λ i. i.hostname

  unfoldable pub get_path : Grafana k → String
  get_path cr = of_ingress cr "/" path_of

  unfoldable pub get_ingress_labels : Grafana k → Option (Assoc String)
  get_ingress_labels cr = of_ingress cr none λ i. some i.labels

  unfoldable pub get_ingress_annotations : Grafana k → Option (Assoc String) → Option (Assoc String)
  unfolding merge_annotations
  get_ingress_annotations cr existing =
      of_ingress cr existing λ i. some (merge_annotations i.annotations existing)

  -- `intstr.FromInt` narrows the number to 32 bits.
  unfoldable pub get_ingress_target_port : Grafana k → IntOrString
  unfolding get_grafana_port
  get_ingress_target_port cr =
      let default = from_int (to_int32 (get_grafana_port cr.served)) in
      of_ingress cr default (target_port_of default)

  unfoldable pub get_termination : Grafana k → String
  get_termination cr = of_ingress cr "edge" λ i. termination_of i.termination

  unfoldable pub get_ingress_spec : Grafana k → Option IngressSpec
  unfolding get_ingress_class_name get_ingress_path_type get_ingress_target_port get_ingress_tls
      get_host get_path get_service_name
  get_ingress_spec cr = do
    ingress_class_name ← get_ingress_class_name cr
    path_type ← get_ingress_path_type cr
    some record {
      tls = get_ingress_tls cr;
      ingress_class_name = ingress_class_name;
      host = get_host cr;
      path = get_path cr;
      path_type = path_type;
      service = get_service_name cr.served;
      port = backend_port (get_ingress_target_port cr);
    }

  unfoldable pub grafana_ingress : Grafana k → Option (Published IngressSpec)
  unfolding get_ingress_spec get_ingress_labels get_ingress_annotations
  grafana_ingress cr = do
    spec ← get_ingress_spec cr
    some record {
      name = "grafana-ingress";
      namespace = cr.served.namespace;
      labels = get_ingress_labels cr;
      annotations = get_ingress_annotations cr none;
      spec = spec;
    }

  unfoldable pub grafana_ingress_reconciled :
      Grafana k → Published IngressSpec → Option (Published IngressSpec)
  unfolding get_ingress_spec get_ingress_labels get_ingress_annotations
  grafana_ingress_reconciled cr current_state = do
    spec ← get_ingress_spec cr
    some record current_state {
      labels = get_ingress_labels cr;
      annotations = get_ingress_annotations cr current_state.annotations;
      spec = spec;
    }

  unfoldable pub get_route_spec : Grafana k → RouteSpec
  unfolding get_host get_path get_service_name get_ingress_target_port get_termination
  get_route_spec cr = record {
    host = get_host cr;
    path = get_path cr;
    service = get_service_name cr.served;
    target_port = get_ingress_target_port cr;
    termination = get_termination cr;
    wildcard_policy = "None";
  }

  unfoldable pub grafana_route : Grafana k → Published RouteSpec
  unfolding get_route_spec get_ingress_labels get_ingress_annotations
  grafana_route cr = record {
    name = "grafana-route";
    namespace = cr.served.namespace;
    labels = get_ingress_labels cr;
    annotations = get_ingress_annotations cr none;
    spec = get_route_spec cr;
  }

  unfoldable pub grafana_route_reconciled : Grafana k → Published RouteSpec → Published RouteSpec
  unfolding get_route_spec get_ingress_labels get_ingress_annotations
  grafana_route_reconciled cr current_state = record current_state {
    labels = get_ingress_labels cr;
    annotations = get_ingress_annotations cr current_state.annotations;
    spec = get_route_spec cr;
  }
