-- ===== src/Controllers/State.antt =====
-- `ControllerState` of controllers/common/controllerState.go, which the controller of Grafana sends to
-- that of the dashboards. A label selector is that of k8s.io/apimachinery.
use grafana_operator.Common.{String, Bool, Option, List, ℤ}

pub record ControllerState (S : Type 0) : Type 0 where
  pub dashboard_selectors : Option (List S)
  pub dashboard_namespace_selector : Option S
  pub admin_url : String
  pub grafana_ready : Bool
  pub client_timeout : ℤ
  pub admin_user : String
