-- ===== src/Controllers/Grafanas/AdminUrl/Nonempty.antt =====
-- An URL that is found is not empty: it has its scheme.
use text.Mathlib.TextLemmas.{append-eq-nil_iff}
use grafana_operator.Common.{
  String, ◌⧺◌, ◌==◌, ◌≡◌, ◌≢◌, ap, Bool, true, false, Option, none, some, List, [], ◌∷◌, ℤ,
  to_int32, Bool-cases, inl, inr,
}
use grafana_operator.Cluster.Service.{Service, get_grafana_port}
use grafana_operator.Cluster.State.{ClusterState, LiveIngress, LoadBalancerIngress}
use grafana_operator.Objects.Resource.{Kubernetes, GrafanaIngress}
use grafana_operator.Objects.Ingress.{Published, RouteSpec}
use grafana_operator.Controllers.Grafanas.Types.{Resource}
use grafana_operator.Controllers.Grafanas.AdminUrl.{
  or_url, route_url, balancer_url, hostname_url, ingress_url, service_url, unless,
  get_prefer_service_value, get_grafana_admin_url,
}

abbrev IsNonempty : Option String → Type 0
IsNonempty none = Unit
IsNonempty (some url) = url ≢ ""

abbrev has_first : String → Bool
has_first String.[] = false
has_first (String.◌∷◌ c s) = true

https-ne-empty : (rest : String) → ("https://" ⧺ rest) ≢ ""
https-ne-empty rest p =
    let e : true ≡ false = ap has_first ((append-eq-nil_iff {p = "https://"} {q = rest}).0 p).0 in
    absurd cc

http-ne-empty : (rest : String) → ("http://" ⧺ rest) ≢ ""
http-ne-empty rest p =
    let e : true ≡ false = ap has_first ((append-eq-nil_iff {p = "http://"} {q = rest}).0 p).0 in
    absurd cc

or_url-IsNonempty :
    (url next : Option String) → IsNonempty url → IsNonempty next → IsNonempty (or_url url next)
or_url-IsNonempty none next h k = k
or_url-IsNonempty (some url) next h k = h

unless-IsNonempty : (b : Bool) (url : Option String) → IsNonempty url → IsNonempty (unless b url)
unless-IsNonempty true url h = tt
unless-IsNonempty false url h = h

route_url-IsNonempty : (route : Option (Published RouteSpec)) → IsNonempty (route_url route)
route_url-IsNonempty none = tt
route_url-IsNonempty (some route) = https-ne-empty route.spec.host

balancer_url-IsNonempty : (l : List LoadBalancerIngress) → IsNonempty (balancer_url l)
balancer_url-IsNonempty [] = tt
balancer_url-IsNonempty (ingress ∷ l) = https-ne-empty _

hostname_url-IsNonempty : (spec : Option GrafanaIngress) → IsNonempty (hostname_url spec)
hostname_url-IsNonempty none = tt
hostname_url-IsNonempty (some ingress) = elim (Bool-cases (ingress.hostname == "")) [
  | inl e ↦ rw e tt
  | inr e ↦ rw e (https-ne-empty ingress.hostname)
]

ingress_url-IsNonempty :
    (spec : Option GrafanaIngress) (ingress : Option LiveIngress)
    → IsNonempty (ingress_url spec ingress)
ingress_url-IsNonempty spec none = tt
ingress_url-IsNonempty spec (some ingress) =
    or_url-IsNonempty (hostname_url spec) _ (hostname_url-IsNonempty spec)
      (balancer_url-IsNonempty ingress.load_balancer)

service_url-IsNonempty :
    (namespace : String) (port : ℤ) (service : Option Service)
    → IsNonempty (service_url namespace port service)
service_url-IsNonempty namespace port none = tt
service_url-IsNonempty namespace port (some service) = http-ne-empty _

module _ {S : Type 0} (k : Kubernetes) (cr : Resource k S) (state : ClusterState k) where
  admin_url-IsNonempty : IsNonempty (get_grafana_admin_url k cr state)
  unfolding get_grafana_admin_url
  admin_url-IsNonempty =
      let prefer_service = get_prefer_service_value cr.client in
      let from_route = unless prefer_service (route_url state.grafana_route) in
      let from_ingress =
        unless prefer_service (ingress_url cr.grafana.ingress state.grafana_ingress) in
      let from_service =
        service_url cr.grafana.served.namespace (to_int32 (get_grafana_port cr.grafana.served))
          state.grafana_service in
      or_url-IsNonempty from_route (or_url from_ingress from_service)
        (unless-IsNonempty prefer_service (route_url state.grafana_route)
          (route_url-IsNonempty state.grafana_route))
        (or_url-IsNonempty from_ingress from_service
          (unless-IsNonempty prefer_service (ingress_url cr.grafana.ingress state.grafana_ingress)
            (ingress_url-IsNonempty cr.grafana.ingress state.grafana_ingress))
          (service_url-IsNonempty cr.grafana.served.namespace
            (to_int32 (get_grafana_port cr.grafana.served)) state.grafana_service))

  pub get_grafana_admin_url-nonempty :
      (url : String) → get_grafana_admin_url k cr state ≡ some url → url ≢ ""
  get_grafana_admin_url-nonempty url e =
      let h : IsNonempty (some url) = rw e at admin_url-IsNonempty in h
