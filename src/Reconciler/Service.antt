-- ===== src/Reconciler/Service.antt =====
-- The service that a change of its name leaves behind.
use grafana_operator.Common.{
  String, ◌==◌, eq_iff, ◌≡◌, Bool, some, Option-cases, List, [], ◌∷◌, if◌then◌else◌, arith,
}
use grafana_operator.Reconciler.{Action, update, service, ClusterState, GrafanaSpec, get_service}

-- If a service is found, whether or not the specification names one, then the reconciliation after one that
-- returned `previous` for the status only updates the service, whether or not the first one deleted
-- a service that was left behind; it keeps the name in the status, or puts that of the service
-- found there if the first one deleted it.
pub get_service-settles :
    (valid : String → Bool) (state : ClusterState) (cr : GrafanaSpec) (current previous : String)
    (actions : List Action)
    → state.service_name ≡ some current
    → get_service valid state cr ≡ some (actions, previous)
    → get_service valid state (record cr { previous_service_name = previous })
      ≡ some (update service ∷ [], if previous == "" then current else previous)
unfolding get_service
get_service-settles valid state cr current previous actions e h = ground (
  arith,
  Option-cases cr.service,
  eq_iff previous "",
  eq_iff cr.previous_service_name "",
  eq_iff current "",
  eq_iff cr.previous_service_name current,
  eq_iff previous current,
)
