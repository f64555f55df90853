-- ===== src/Cluster/Actions.antt =====
-- The actions and their runner, of controllers/common/clusterActions.go. A message of an action is
-- left out, and so are log lines.
pub mod Runs
pub mod Exposed
use grafana_operator.Common.{
  String, ◌==◌, Bool, true, false, Option, none, some, List, [], ◌∷◌, ◌++◌, Assoc, insert,
  if◌then◌else◌,
}
use grafana_operator.Cluster.Readiness.{
  Route, Ingress, Deployment, Check, checked, failure, is_route_ready, is_ingress_ready,
  is_deployment_ready,
}

-- The client of the cluster and its errors: `SetControllerReference`, which gives the object with
-- its owner; `Create`, `Update` and `Delete`, each with the next state of the cluster and the
-- error, if there is one; the data of a secret and of a config map; and `IsConflict`.
pub record Client : Type 1 where
  pub Object : Type 0
  pub State : Type 0
  pub Error : Type 0
  pub set_controller_reference : Object → Option Object
  pub reference_error : Error
  pub create : Object → State → State × Option Error
  pub update : Object → State → State × Option Error
  pub delete : Object → State → State × Option Error
  pub is_conflict : Error → Bool
  pub get_secret : (namespace name : String) → State → Option (Assoc String)
  pub get_config_map : (namespace name : String) → State → Option (Assoc String)
  pub get_error : Error
  pub new_error : String → Error

-- `os.Setenv` for each key of the data that is the variable; the order is that of the range over
-- the map.
unfoldable pub expose_var : String → Assoc String → Assoc String → Assoc String
expose_var exposed_var [] env = env
expose_var exposed_var ((key, value) ∷ l) env =
    expose_var exposed_var l (if exposed_var == key then insert key value env else env)

unfoldable pub expose_vars : List String → Assoc String → Assoc String → Assoc String
unfolding expose_var
expose_vars [] values env = env
expose_vars (exposed_var ∷ vars) values env =
    expose_vars vars values (expose_var exposed_var values env)

abbrev pub exposed_vars : List String
exposed_vars = "GF_SECURITY_ADMIN_USER" ∷ "GF_SECURITY_ADMIN_PASSWORD" ∷ []

module _ (client : Client) where
  open client use {
    Object, State, Error, set_controller_reference, reference_error, is_conflict, get_secret,
    get_error, new_error,
  }

  pub data ClusterAction : Type 0 where
    generic_create : Object → ClusterAction
    generic_update : Object → ClusterAction
    generic_delete : Object → ClusterAction
    log : ClusterAction
    route_ready : Option Route → ClusterAction
    ingress_ready : Option Ingress → ClusterAction
    deployment_ready : Option Deployment → ClusterAction
    expose_secret_env_var : (namespace name : String) → ClusterAction
    expose_config_map_env_var : (namespace name : String) → ClusterAction

  -- The cluster, and the environment of the operator.
  pub record ClusterWorld : Type 0 where
    pub cluster : State
    pub environment : Assoc String

  -- A nil action is not added.
  unfoldable pub add_action : Option ClusterAction → List ClusterAction → List ClusterAction
  add_action none desired = desired
  add_action (some action) desired = desired ++ action ∷ []

  unfoldable pub add_actions : List (Option ClusterAction) → List ClusterAction → List ClusterAction
  unfolding add_action
  add_actions [] desired = desired
  add_actions (action ∷ actions) desired = add_actions actions (add_action action desired)

  abbrev pub in_cluster : ClusterWorld → State × Option Error → ClusterWorld × Option Error
  in_cluster s (cluster, e) = (record s { cluster = cluster }, e)

  abbrev owned :
      Option Object
      → (Object → State → State × Option Error)
      → ClusterWorld
      → ClusterWorld × Option Error
  owned none call s = (s, some reference_error)
  owned (some o) call s = in_cluster s (call o s.cluster)

  abbrev pub ignore_conflict : Option Error → Option Error
  ignore_conflict none = none
  ignore_conflict (some e) = if is_conflict e then none else some e

  -- `Update`, of which a conflict is no error.
  abbrev pub update_quietly : Object → State → State × Option Error
  update_quietly o cluster =
      let (cluster', e) = client.update o cluster in (cluster', ignore_conflict e)

  abbrev unless : Bool → String → ClusterWorld → ClusterWorld × Option Error
  unless true message s = (s, none)
  unless false message s = (s, some (new_error message))

  abbrev check_result : Check → ClusterWorld → ClusterWorld × Option Error
  check_result (failure reason) s = (s, some (new_error reason))
  check_result (checked b) s = unless b "deployment not ready" s

  abbrev expose : Option (Assoc String) → ClusterWorld → ClusterWorld × Option Error
  expose none s = (s, some get_error)
  expose (some values) s =
      (record s { environment = expose_vars exposed_vars values s.environment }, none)

  unfoldable pub run : ClusterAction → ClusterWorld → ClusterWorld × Option Error
  unfolding is_route_ready is_ingress_ready is_deployment_ready expose_vars
  run (generic_create o) s = owned (set_controller_reference o) client.create s
  run (generic_update o) s = owned (set_controller_reference o) update_quietly s
  run (generic_delete o) s = in_cluster s (client.delete o s.cluster)
  run log s = (s, none)
  run (route_ready ref) s = unless (is_route_ready ref) "route not ready" s
  run (ingress_ready ref) s = unless (is_ingress_ready ref) "ingress not ready" s
  run (deployment_ready ref) s = check_result (is_deployment_ready ref) s
  run (expose_secret_env_var namespace name) s = expose (get_secret namespace name s.cluster) s
  run (expose_config_map_env_var namespace name) s =
      expose (client.get_config_map namespace name s.cluster) s

  abbrev run_rest :
      ClusterWorld × Option Error
      → (ClusterWorld → ClusterWorld × Option Error)
      → ClusterWorld × Option Error
  run_rest (s, none) next = next s
  run_rest (s, some e) next = (s, some e)

  unfoldable pub run_all : List ClusterAction → ClusterWorld → ClusterWorld × Option Error
  unfolding run
  run_all [] s = (s, none)
  run_all (action ∷ actions) s = run_rest (run action s) (λ s'. run_all actions s')
