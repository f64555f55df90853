-- ===== src/Reconciler/Actions.antt =====
-- The order of the actions, and what they name.
use mathlib.Core.List.{append_assoc}
use grafana_operator.Common.{
  String, ◌==◌, ltb, length, ◌≡◌, refl, ◌∙◌, Bool, true, false, ◌&&◌, not, Option, none, some, List,
  [], ◌∷◌, ◌++◌, if◌then◌else◌, arith, Option-cases, inl, inr,
}
use grafana_operator.Reconciler.{
  Kind, route, ingress, deployment, Action, create, update, delete, delete_service, log, ready,
  EnvFromSource, Container, ClusterState, GrafanaSpec, get_admin_user_secret, get_service,
  get_data_pvc, get_service_account, get_config, get_datasource_config, get_external_access,
  get_deployment, get_env_vars, get_readiness, source_actions, container_actions, reconcile,
  env_vars, is_set, is_enabled,
}

-- The action changes the cluster.
abbrev pub is_write : Action → Bool
is_write (create _) = true
is_write (update _) = true
is_write (delete _) = true
is_write (delete_service _) = true
is_write _ = false

abbrev pub no_write : List Action → Bool
no_write [] = true
no_write (a ∷ l) = not (is_write a) && no_write l

no_write-append : (l m : List Action) → no_write (l ++ m) ≡ (no_write l && no_write m)
no_write-append [] m = refl
no_write-append (a ∷ l) m = ground (arith, no_write-append l m)

source_actions-no_write : (l : List EnvFromSource) → no_write (source_actions l) ≡ true
unfolding source_actions
source_actions-no_write [] = refl
source_actions-no_write (source ∷ l) = ground (arith, source_actions-no_write l)

container_actions-no_write : (l : List Container) → no_write (container_actions l) ≡ true
unfolding container_actions
container_actions-no_write [] = refl
container_actions-no_write (c ∷ l) = ground (
  arith,
  container_actions-no_write l,
  source_actions-no_write c.env_from,
  no_write-append (source_actions c.env_from) (container_actions l),
)

env_vars-no_write :
    (cr : GrafanaSpec) (o : Option (List Container)) → no_write (env_vars cr o) ≡ true
env_vars-no_write cr none = refl
env_vars-no_write cr (some l) = ground (arith, container_actions-no_write l)

env_vars_lem : (state : ClusterState) (cr : GrafanaSpec) → no_write (get_env_vars state cr) ≡ true
unfolding get_env_vars
env_vars_lem state cr = env_vars-no_write cr state.containers

-- The checks in front of the one of the deployment.
abbrev pub external_readiness : Bool → GrafanaSpec → List Action
external_readiness openshift cr =
    let external = is_enabled cr.ingress_enabled && not (is_set cr.prefer_service) in
    let first = if openshift && external then ready route ∷ [] else [] in
    let second = if not openshift && external then ready ingress ∷ [] else [] in first ++ second

get_readiness-eq :
    (openshift : Bool) (cr : GrafanaSpec)
    → get_readiness openshift cr ≡ external_readiness openshift cr ++ ready deployment ∷ []
unfolding get_readiness
get_readiness-eq openshift cr = simp append_assoc

external_readiness-no_write :
    (openshift : Bool) (cr : GrafanaSpec) → no_write (external_readiness openshift cr) ≡ true
external_readiness-no_write true cr = ground arith
external_readiness-no_write false cr = ground arith

-- The actions for one result of each of the parts that may panic.
abbrev assembled :
    Bool → ClusterState → GrafanaSpec → (service_actions config_actions : List Action) → List Action
assembled openshift state cr service_actions config_actions =
    get_admin_user_secret state cr
    ++ (service_actions
        ++ (get_data_pvc state cr
            ++ (get_service_account state cr
                ++ (config_actions
                    ++ (get_datasource_config state
                        ++ (get_external_access openshift state cr
                            ++ (log
                                ∷ (get_deployment state
                                    ++ (get_env_vars state cr ++ get_readiness openshift cr)))))))))

assembled-eq :
    (openshift : Bool) (state : ClusterState) (cr : GrafanaSpec)
    (service_actions config_actions : List Action)
    → assembled openshift state cr service_actions config_actions
      ≡ (get_admin_user_secret state cr
          ++ (service_actions ++ (get_data_pvc state cr ++ get_service_account state cr)))
        ++ (config_actions
            ++ ((get_datasource_config state
                  ++ (get_external_access openshift state cr ++ log ∷ []))
                ++ (get_deployment state
                    ++ ((get_env_vars state cr ++ external_readiness openshift cr)
                        ++ ready deployment ∷ []))))
assembled-eq openshift state cr service_actions config_actions =
    rw (get_readiness-eq openshift cr) (simp append_assoc)

behind-no_write :
    (openshift : Bool) (state : ClusterState) (cr : GrafanaSpec)
    → no_write (get_env_vars state cr ++ external_readiness openshift cr) ≡ true
behind-no_write openshift state cr =
    rw (no_write-append (get_env_vars state cr) (external_readiness openshift cr))
      (ground (arith, env_vars_lem state cr, external_readiness-no_write openshift cr))

-- If the reconciliation does not panic, then the action on the deployment stands behind those on
-- the config map of grafana.ini, no action behind it changes the cluster, and the last action
-- checks whether the deployment is ready.
pub reconcile-deployment_last :
    (valid : String → Bool) (split : String → List String) (openshift : Bool) (state : ClusterState)
    (cr : GrafanaSpec) (actions : List Action) (previous : String)
    → reconcile valid split openshift state cr ≡ some (actions, previous)
    → (before : List Action) × (config_actions : List Action) × (between : List Action)
      × (behind : List Action) × (get_config split state cr ≡ some config_actions)
      × (actions
          ≡ before
            ++ (config_actions
                ++ (between ++ (get_deployment state ++ (behind ++ ready deployment ∷ [])))))
      × (no_write behind ≡ true)
unfolding reconcile
reconcile-deployment_last valid split openshift state cr actions previous h =
    elim (Option-cases (get_service valid state cr)) [
      | inl e ↦ absurd (ground arith)
      | inr ((service_actions, kept), e) ↦ elim (Option-cases (get_config split state cr)) [
        | inl f ↦ absurd (ground arith)
        | inr (config_actions, f) ↦
            let same : actions ≡ assembled openshift state cr service_actions config_actions =
              ground arith in
            (
              _,
              config_actions,
              _,
              _,
              f,
              same ∙ assembled-eq openshift state cr service_actions config_actions,
              behind-no_write openshift state cr,
            )
      ]
    ]

-- The status names a service that another one has replaced.
abbrev pub is_service_left : (current : Option String) → (previous : String) → Bool
is_service_left none previous = false
is_service_left (some current) previous =
    not (current == "") && (not (previous == "") && not (current == previous))

-- The URL has a third part, its host.
abbrev pub has_host : (split : String → List String) → (api_url : Option String) → Bool
has_host split none = false
has_host split (some url) = ltb 2 (length (split url))

abbrev kind_of : Action → Option Kind
kind_of (create k) = some k
kind_of (update k) = some k
kind_of (delete k) = some k
kind_of (ready k) = some k
kind_of _ = none

-- The kind of object that gives access from outside on the other sort of cluster.
abbrev is_foreign : (openshift : Bool) → Option Kind → Bool
is_foreign true (some ingress) = true
is_foreign false (some route) = true
is_foreign _ _ = false

abbrev pub none_foreign : (openshift : Bool) → List Action → Bool
none_foreign openshift [] = true
none_foreign openshift (a ∷ l) = not (is_foreign openshift (kind_of a)) && none_foreign openshift l

-- On OpenShift neither the external access nor the readiness checks name an ingress, and elsewhere
-- they name no route.
pub get_external_access-none_foreign :
    (openshift : Bool) (state : ClusterState) (cr : GrafanaSpec)
    → (none_foreign openshift (get_external_access openshift state cr) ≡ true)
      × (none_foreign openshift (get_readiness openshift cr) ≡ true)
unfolding get_external_access get_readiness
get_external_access-none_foreign true state cr = (ground arith, ground arith)
get_external_access-none_foreign false state cr = (ground arith, ground arith)
