-- ===== src/Cluster/Service.antt =====
-- The service of Grafana, of controllers/model/grafanaService.go, and `MergeAnnotations` of
-- controllers/model/utils.go. A nil map or slice, where the code tests for it, is `none`.
pub mod Laws
use grafana_operator.Common.{
  String, ◌==◌, Bool, true, false, ◌&&◌, ◌||◌, not, Option, none, some, List, [], ◌∷◌, ◌++◌, ℤ, pos,
  eqb_ℤ, Assoc, insert, atoi, to_int32, if◌then◌else◌,
}
use grafana_operator.Ini.Types.{GrafanaConfigServer}

-- `IntOrString` of k8s.io/apimachinery
pub data IntOrString : Type 0 where
  from_int : ℤ → IntOrString
  from_string : String → IntOrString

pub record ServicePort : Type 0 where
  pub name : String
  pub protocol : String
  pub port : ℤ
  pub target_port : IntOrString
  pub node_port : ℤ

-- The service of the specification of a `Grafana` resource.
pub record GrafanaService : Type 0 where
  pub name : String
  pub annotations : Assoc String
  pub labels : Assoc String
  pub service_type : String
  pub ports : Option (List ServicePort)
  pub cluster_ip : String

-- The resource, as far as its service goes: its namespace, and of its specification the service and
-- the section of the server.
pub record Grafana : Type 0 where
  pub namespace : String
  pub service : Option GrafanaService
  pub server : Option GrafanaConfigServer

-- A service of the cluster.
pub record Service : Type 0 where
  pub name : String
  pub namespace : String
  pub labels : Option (Assoc String)
  pub annotations : Option (Assoc String)
  pub ports : List ServicePort
  pub selector : Assoc String
  pub cluster_ip : String
  pub service_type : String

unfoldable pub insert_all : Assoc String → Assoc String → Assoc String
insert_all [] existing = existing
insert_all ((k, v) ∷ requested) existing = insert_all requested (insert k v existing)

unfoldable pub merge_annotations : Assoc String → Option (Assoc String) → Assoc String
unfolding insert_all
merge_annotations requested none = requested
merge_annotations requested (some existing) = insert_all requested existing

abbrev service_name : Option GrafanaService → String
service_name none = "grafana-service"
service_name (some service) = if not (service.name == "") then service.name else "grafana-service"

unfoldable pub get_service_name : Grafana → String
get_service_name cr = service_name cr.service

abbrev service_labels : Option GrafanaService → Option (Assoc String)
service_labels none = none
service_labels (some service) = some service.labels

abbrev service_annotations : Option GrafanaService → Option (Assoc String) → Option (Assoc String)
service_annotations none existing = existing
service_annotations (some service) existing = some (merge_annotations service.annotations existing)

unfoldable pub get_service_annotations : Grafana → Option (Assoc String) → Option (Assoc String)
unfolding merge_annotations
get_service_annotations cr existing = service_annotations cr.service existing

abbrev service_type_of : Option GrafanaService → String
service_type_of none = "ClusterIP"
service_type_of (some service) =
    if service.service_type == "" then "ClusterIP" else service.service_type

abbrev cluster_ip_of : Option GrafanaService → String
cluster_ip_of none = ""
cluster_ip_of (some service) = service.cluster_ip

abbrev number_or_default : Option ℤ → ℤ
number_or_default none = pos 3000
number_or_default (some port) = port

abbrev server_port : Option GrafanaConfigServer → ℤ
server_port none = pos 3000
server_port (some server) =
    if server.http_port == "" then pos 3000 else number_or_default (atoi server.http_port)

unfoldable pub get_grafana_port : Grafana → ℤ
get_grafana_port cr = server_port cr.server

abbrev pub http_port_name : String
http_port_name = "grafana"

abbrev pub default_port : ℤ → ServicePort
default_port port = record {
  name = http_port_name;
  protocol = "TCP";
  port = port;
  target_port = from_string "grafana-http";
  node_port = pos 0;
}

-- The default port takes the node port of the port of that name, the last one if there are several.
unfoldable pub reassign : List ServicePort → ServicePort → ServicePort
reassign [] default = default
reassign (p ∷ ports) default =
    reassign ports
      (if p.name == http_port_name then record default { node_port = p.node_port } else default)

abbrev pub is_reserved : ℤ → ServicePort → Bool
is_reserved port p = p.name == http_port_name || eqb_ℤ p.port port

-- The ports that the resource adds.
unfoldable pub additional : ℤ → List ServicePort → List ServicePort
additional port [] = []
additional port (p ∷ ports) =
    let rest = additional port ports in if is_reserved port p then rest else p ∷ rest

abbrev requested_ports : ℤ → Option (List ServicePort) → List ServicePort
requested_ports port none = []
requested_ports port (some ports) = additional port ports

abbrev current_ports : Option Service → List ServicePort
current_ports none = []
current_ports (some current) = current.ports

abbrev service_ports : ℤ → Option GrafanaService → Option Service → List ServicePort
service_ports port none current = default_port port ∷ []
service_ports port (some service) current =
    reassign (current_ports current) (default_port port) ∷ requested_ports port service.ports

unfoldable pub get_service_ports : Grafana → Option Service → List ServicePort
unfolding get_grafana_port reassign additional
get_service_ports cr current = service_ports (to_int32 (get_grafana_port cr)) cr.service current

unfoldable pub grafana_service : Grafana → Service
unfolding get_service_name get_service_annotations get_service_ports
grafana_service cr = record {
  name = get_service_name cr;
  namespace = cr.namespace;
  labels = service_labels cr.service;
  annotations = get_service_annotations cr none;
  ports = get_service_ports cr none;
  selector = ("app", "grafana") ∷ [];
  cluster_ip = cluster_ip_of cr.service;
  service_type = service_type_of cr.service;
}

unfoldable pub grafana_service_reconciled : Grafana → Service → Service
unfolding get_service_name get_service_annotations get_service_ports
grafana_service_reconciled cr current = record current {
  name = get_service_name cr;
  labels = service_labels cr.service;
  annotations = get_service_annotations cr current.annotations;
  ports = get_service_ports cr (some current);
  service_type = service_type_of cr.service;
}
