-- ===== src/Cluster/Readiness.antt =====
-- The checks of controllers/common/readiness_checks.go, on the parts of the status of a route, an
-- ingress and a deployment that they read. A nil pointer is `none`.
pub mod Laws
use grafana_operator.Common.{
  String, ◌==◌, ℕ, ◌<◌, Bool, true, false, ◌&&◌, not, Option, none, some, List, [], ◌∷◌, ℤ, eqb_ℤ,
  ltb, length, if◌then◌else◌,
}

pub record Condition : Type 0 where
  pub condition_type : String
  pub status : String
  pub reason : String

-- The conditions of each ingress of a route.
pub record Route : Type 0 where
  pub ingress : List (List Condition)

-- The points at which the load balancer of an ingress is reached.
pub record Ingress : Type 0 where
  pub load_balancer : List String

pub record Deployment : Type 0 where
  pub conditions : List Condition
  pub ready_replicas : ℤ
  pub replicas : ℤ

-- The result of a check: whether the object is ready, or the reason of a failure.
pub data Check : Type 0 where
  checked : Bool → Check
  failure : String → Check

abbrev pub condition_status_success : String
condition_status_success = "True"

abbrev pub is_unadmitted : Condition → Bool
is_unadmitted c = c.condition_type == "Admitted" && not (c.status == condition_status_success)

unfoldable pub conditions_admitted : List Condition → Bool
conditions_admitted [] = true
conditions_admitted (c ∷ l) = if is_unadmitted c then false else conditions_admitted l

unfoldable pub ingresses_admitted : List (List Condition) → Bool
unfolding conditions_admitted
ingresses_admitted [] = true
ingresses_admitted (conditions ∷ l) =
    if conditions_admitted conditions then ingresses_admitted l else false

unfoldable pub is_route_ready : Option Route → Bool
unfolding ingresses_admitted
is_route_ready none = false
is_route_ready (some route) = ingresses_admitted route.ingress

unfoldable pub is_ingress_ready : Option Ingress → Bool
is_ingress_ready none = false
is_ingress_ready (some ingress) = ltb 0 (length ingress.load_balancer)

abbrev pub is_stalled : Condition → Bool
is_stalled c = c.condition_type == "Progressing" && not (c.status == condition_status_success)

-- The loop over the conditions, with what follows it.
unfoldable pub check_conditions : List Condition → Check → Check
check_conditions [] result = result
check_conditions (c ∷ l) result =
    let rest = check_conditions l result in
    if c.condition_type == "ReplicaFailure"
    then failure c.reason
    else if is_stalled c
    then checked false
    else rest

unfoldable pub is_deployment_ready : Option Deployment → Check
unfolding check_conditions
is_deployment_ready none = checked false
is_deployment_ready (some d) =
    check_conditions d.conditions (checked (eqb_ℤ d.ready_replicas d.replicas))
