-- ===== src/Reconciler.antt =====
-- `GrafanaReconciler.Reconcile` of controllers/grafana/grafana_reconciler.go: the actions that it
-- wants, in their order. An action names the kind of its object; what the objects hold is left to other
-- modules. Of the consolidation of plugins only its place is here, as the action that logs it.
pub mod Actions
pub mod Service
use grafana_operator.Common.{
  String, ◌==◌, Bool, true, false, ◌&&◌, ◌||◌, not, Option, none, some, List, [], ◌∷◌, ◌++◌,
  get_elem?, is_some, if◌then◌else◌, ◌>>=◌,
}

pub data Kind : Type 0 where
  admin_secret service data_pvc service_account config datasources route ingress deployment : Kind

pub data Action : Type 0 where
  create : Kind → Action
  update : Kind → Action
  delete : Kind → Action
  delete_service : String → Action
  log : Action
  expose_config_map : String → Action
  expose_secret : String → Action
  ready : Kind → Action

-- A source of the environment of a container: the name of a config map and of a secret.
pub record EnvFromSource : Type 0 where
  pub config_map_ref : Option String
  pub secret_ref : Option String

pub record Container : Type 0 where
  pub name : String
  pub env_from : List EnvFromSource

-- `ClusterState` of controllers/common/clusterState.go: the name of the service and the containers
-- of the deployment, if they are there, and which of the other objects are.
pub record ClusterState : Type 0 where
  pub service_name : Option String
  pub has_data_pvc : Bool
  pub has_service_account : Bool
  pub has_config : Bool
  pub has_datasources : Bool
  pub has_route : Bool
  pub has_ingress : Bool
  pub has_admin_secret : Bool
  pub containers : Option (List Container)

-- What the reconciler reads of the specification; a nil pointer is `none`.
pub record GrafanaSpec : Type 0 where
  pub service : Option String
  pub used_persistent_volume : Bool
  pub skip_service_account : Option (Option Bool)
  pub skip_create_admin_account : Option (Option Bool)
  pub ingress_enabled : Option Bool
  pub prefer_service : Option (Option Bool)
  pub api_url : Option String
  pub previous_service_name : String

-- `p != nil && p.q != nil && *p.q`
abbrev pub is_set : Option (Option Bool) → Bool
is_set none = false
is_set (some none) = false
is_set (some (some b)) = b

abbrev create_or_update : Kind → Bool → Action
create_or_update kind found = if found then update kind else create kind

abbrev pub is_enabled : Option Bool → Bool
is_enabled none = false
is_enabled (some b) = b

unfoldable pub get_admin_user_secret : ClusterState → GrafanaSpec → List Action
get_admin_user_secret state cr =
    if is_set cr.skip_create_admin_account
    then []
    else create_or_update admin_secret state.has_admin_secret ∷ []

-- The name of the service of the specification, of which the regular expression is a test; reading
-- it from a nil pointer panics, which is `none`.
abbrev obsolete :
    (valid : String → Bool) → GrafanaSpec → (current : String) → Option String → Option Bool
obsolete valid cr current none = none
obsolete valid cr current (some name) = some (valid name)

abbrev update_service : GrafanaSpec → (current : String) → List Action × String
update_service cr current = (
  update service ∷ [],
  if cr.previous_service_name == "" then current else cr.previous_service_name,
)

abbrev delete_or_update :
    GrafanaSpec → (current : String) → Option Bool → Option (List Action × String)
delete_or_update cr current none = none
delete_or_update cr current (some true) = some (delete_service cr.previous_service_name ∷ [], "")
delete_or_update cr current (some false) = some (update_service cr current)

-- The name of a service that is left behind is kept in the status until it is deleted.
abbrev pub service_found :
    (valid : String → Bool) → GrafanaSpec → Option String → Option (List Action × String)
service_found valid cr none = some (create service ∷ [], cr.previous_service_name)
service_found valid cr (some current) =
    if not (cr.previous_service_name == "")
      && (not (current == "") && not (cr.previous_service_name == current))
    then delete_or_update cr current (obsolete valid cr current cr.service)
    else some (update_service cr current)

-- The actions, and the previous name of the service that the status has afterwards.
unfoldable pub get_service :
    (valid : String → Bool) → ClusterState → GrafanaSpec → Option (List Action × String)
get_service valid state cr = service_found valid cr state.service_name

unfoldable pub get_data_pvc : ClusterState → GrafanaSpec → List Action
get_data_pvc state cr =
    if cr.used_persistent_volume then create_or_update data_pvc state.has_data_pvc ∷ [] else []

unfoldable pub get_service_account : ClusterState → GrafanaSpec → List Action
get_service_account state cr =
    if is_set cr.skip_service_account
    then []
    else create_or_update service_account state.has_service_account ∷ []

-- The host of the URL of the generic OAuth provider; a nil pointer or a URL without it panics.
unfoldable pub hyperauth_url : (split : String → List String) → GrafanaSpec → Option String
hyperauth_url split cr = do url ← cr.api_url; get_elem? (split url) 2

unfoldable pub get_config :
    (split : String → List String) → ClusterState → GrafanaSpec → Option (List Action)
unfolding hyperauth_url
get_config split state cr = do
  host ← hyperauth_url split cr
  some (create_or_update config state.has_config ∷ [])

unfoldable pub get_datasource_config : ClusterState → List Action
get_datasource_config state = if state.has_datasources then [] else create datasources ∷ []

unfoldable pub get_external_access : (openshift : Bool) → ClusterState → GrafanaSpec → List Action
get_external_access openshift state cr =
    if not (is_enabled cr.ingress_enabled)
    then if openshift && state.has_route
      then delete route ∷ []
      else if not openshift && state.has_ingress
      then delete ingress ∷ []
      else []
    else if openshift
    then create_or_update route state.has_route ∷ []
    else create_or_update ingress state.has_ingress ∷ []

unfoldable pub get_deployment : ClusterState → List Action
get_deployment state = create_or_update deployment (is_some state.containers) ∷ []

abbrev is_named : Option String → Bool
is_named none = false
is_named (some name) = not (name == "")

abbrev name_of : Option String → String
name_of none = ""
name_of (some name) = name

unfoldable pub source_actions : List EnvFromSource → List Action
source_actions [] = []
source_actions (source ∷ sources) =
    let rest = source_actions sources in
    if is_named source.config_map_ref
    then expose_config_map (name_of source.config_map_ref) ∷ rest
    else if is_named source.secret_ref
    then expose_secret (name_of source.secret_ref) ∷ rest
    else rest

unfoldable pub container_actions : List Container → List Action
unfolding source_actions
container_actions [] = []
container_actions (container ∷ containers) =
    let rest = container_actions containers in
    if container.name == "grafana" then source_actions container.env_from ++ rest else rest

-- `p != nil && p.q != nil && !*p.q`
abbrev is_unset : Option (Option Bool) → Bool
is_unset none = false
is_unset (some none) = false
is_unset (some (some b)) = not b

abbrev env_vars : GrafanaSpec → Option (List Container) → List Action
env_vars cr none = []
env_vars cr (some containers) =
    if is_unset cr.skip_create_admin_account then [] else container_actions containers

unfoldable pub get_env_vars : ClusterState → GrafanaSpec → List Action
unfolding container_actions
get_env_vars state cr = env_vars cr state.containers

unfoldable pub get_readiness : (openshift : Bool) → GrafanaSpec → List Action
get_readiness openshift cr =
    let external = is_enabled cr.ingress_enabled && not (is_set cr.prefer_service) in
    let first = if openshift && external then ready route ∷ [] else [] in
    let second = if not openshift && external then ready ingress ∷ [] else [] in
    first ++ (second ++ ready deployment ∷ [])

-- `none` is a panic.
unfoldable pub reconcile :
    (valid : String → Bool)
    → (split : String → List String) → (openshift : Bool) → ClusterState
    → GrafanaSpec
    → Option (List Action × String)
unfolding get_service get_config get_admin_user_secret get_data_pvc get_service_account
    get_datasource_config get_external_access get_deployment get_env_vars get_readiness
reconcile valid split openshift state cr = do
  (service_actions, previous) ← get_service valid state cr
  config_actions ← get_config split state cr
  some (
    get_admin_user_secret state cr
        ++ (service_actions
            ++ (get_data_pvc state cr
                ++ (get_service_account state cr
                    ++ (config_actions
                        ++ (get_datasource_config state
                            ++ (get_external_access openshift state cr
                                ++ (log
                                    ∷ (get_deployment state
                                        ++ (get_env_vars state cr
                                            ++ get_readiness openshift cr))))))))),
    previous,
  )
