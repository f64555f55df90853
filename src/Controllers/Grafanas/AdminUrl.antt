-- ===== src/Controllers/Grafanas/AdminUrl.antt =====
-- `getGrafanaAdminUrl`: where the controller of dashboards reaches Grafana.
pub mod Nonempty
use grafana_operator.Common.{
  String, ◌⧺◌, ◌==◌, Bool, true, false, ◌||◌, not, Option, none, some, List, [], ◌∷◌, ℤ, itoa,
  to_int32, if◌then◌else◌,
}
use grafana_operator.Cluster.Service.{Service, get_grafana_port}
use grafana_operator.Cluster.State.{ClusterState, LiveIngress, LoadBalancerIngress}
use grafana_operator.Objects.Resource.{Kubernetes, GrafanaIngress}
use grafana_operator.Objects.Ingress.{Published, RouteSpec}
use grafana_operator.Controllers.Grafanas.Types.{ClientSpec, Resource}

abbrev pub get_prefer_service_value : Option ClientSpec → Bool
get_prefer_service_value none = false
get_prefer_service_value (some client) = elim client.prefer_service [ none ↦ false | some b ↦ b ]

abbrev pub or_url : Option String → Option String → Option String
or_url none next = next
or_url (some url) next = some url

abbrev pub route_url : Option (Published RouteSpec) → Option String
route_url none = none
route_url (some route) = some ("https://" ⧺ route.spec.host)

abbrev pub balancer_url : List LoadBalancerIngress → Option String
balancer_url [] = none
balancer_url (ingress ∷ _) =
    some ("https://" ⧺ (if ingress.hostname == "" then ingress.ip else ingress.hostname))

abbrev pub hostname_url : Option GrafanaIngress → Option String
hostname_url none = none
hostname_url (some ingress) =
    if ingress.hostname == "" then none else some ("https://" ⧺ ingress.hostname)

abbrev pub ingress_url : Option GrafanaIngress → Option LiveIngress → Option String
ingress_url spec none = none
ingress_url spec (some ingress) = or_url (hostname_url spec) (balancer_url ingress.load_balancer)

abbrev pub service_url : (namespace : String) → (port : ℤ) → Option Service → Option String
service_url namespace port none = none
service_url namespace port (some service) =
    some ("http://" ⧺ (service.name ⧺ ("." ⧺ (namespace ⧺ (".svc.cluster.local:" ⧺ itoa port)))))

abbrev pub unless : Bool → Option String → Option String
unless true url = none
unless false url = url

module _ (k : Kubernetes) {S : Type 0} where
  -- `none` is the error that there is none.
  unfoldable pub get_grafana_admin_url : Resource k S → ClusterState k → Option String
  unfolding get_grafana_port
  get_grafana_admin_url cr state =
      let prefer_service = get_prefer_service_value cr.client in
      or_url (unless prefer_service (route_url state.grafana_route)) (
        or_url (unless prefer_service (ingress_url cr.grafana.ingress state.grafana_ingress)) (
          service_url cr.grafana.served.namespace (to_int32 (get_grafana_port cr.grafana.served))
            state.grafana_service))
