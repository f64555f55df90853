-- ===== src/Controllers/Grafanas/Types.antt =====
-- What the controller of Grafana works on.
use grafana_operator.Common.{String, Bool, Option, none, some, List, ℤ, Assoc, ◌++◌, [], ◌∷◌}
use grafana_operator.Common.Run.{Result, Run}
use grafana_operator.Plugins.PluginList.{PluginList}
use grafana_operator.Dashboard.Resource.{GrafanaDashboardRef}
use grafana_operator.Config.ControllerConfig.{ControllerConfig}
use grafana_operator.Cluster.State.{ClusterState, Reader}
use grafana_operator.Objects.Resource.{Kubernetes, Grafana}
use grafana_operator.Api.Users.{Site, Accounts}
use grafana_operator.Controllers.State.{ControllerState}
use grafana_operator.Controllers.Selectors.{Selector}

-- `GrafanaStatus`
pub record GrafanaStatus : Type 0 where
  pub phase : String
  pub previous_service_name : String
  pub message : String
  pub installed_dashboards : List GrafanaDashboardRef
  pub installed_plugins : PluginList
  pub failed_plugins : PluginList

-- `GrafanaClient` of the resource
pub record ClientSpec : Type 0 where
  pub timeout_seconds : Option ℤ
  pub prefer_service : Option Bool

-- The resource. Of `Jsonnet` there is its one field.
pub record Resource (k : Kubernetes) (S : Type 0) : Type 0 where
  pub grafana : Grafana k
  pub client : Option ClientSpec
  pub dashboard_label_selector : Option (List S)
  pub dashboard_namespace_selector : Option S
  pub jsonnet : Option (Option S)
  pub status : GrafanaStatus

pub record LibraryMap : Type 0 where
  pub name : String
  pub annotations : Assoc String
  pub content : Assoc String

-- What `os.Stat` tells of a path.
pub data Stat (E : Type 0) : Type 0 where
  exists is_missing : Stat E
  unknown : E → Stat E

-- The packages and services around the controller. What `NewGrafanaReconciler().Reconcile` and `RunAll`
-- do together is one argument, `reach`: it may change the status of the resource, the shared
-- configuration and what is outside. The reads of the cluster are as they are in a state of the network, and
-- the file system is part of that.
pub record Outside : Type 1 where
  pub kubernetes : Kubernetes
  pub site : Site
  pub Error : Type 0
  pub LabelSelector : Type 0
  pub label_selector_as_selector : LabelSelector → Option Selector
  pub selector_error : Error
  pub message : Error → String
  pub is_conflict : Error → Bool
  pub is_not_found : Error → Bool
  pub new_error : String → Error
  pub reader : Accounts site → Reader kubernetes Error
  pub get_instance :
      (namespace name : String) → Accounts site → Result Error (Resource kubernetes LabelSelector)
  pub update_status :
      Resource kubernetes LabelSelector → Accounts site → Accounts site × Option Error
  pub deep_equal : GrafanaStatus → GrafanaStatus → Bool
  pub reach :
      Resource kubernetes LabelSelector
      → ClusterState kubernetes
      → Run (ControllerConfig × Accounts site) (Resource kubernetes LabelSelector × Option Error)
  pub list_config_maps :
      (namespace : String) → Selector → Accounts site → Result Error (List LibraryMap)
  pub stat : String → Accounts site → Stat Error
  pub mkdir : String → Accounts site → Accounts site × Option Error
  pub write_file : (path contents : String) → Accounts site → Accounts site × Option Error
  pub extension : String → String

module _ (o : Outside) where
  -- The shared configuration, what is outside, the states that were sent to the controller of
  -- dashboards, and how many warnings were recorded for the resource.
  pub record GrafanasState : Type 0 where
    pub config : ControllerConfig
    pub accounts : Accounts o.site
    pub published : List (ControllerState o.LabelSelector)
    pub events : List String

  abbrev pub Step : Type 0 → Type 0
  Step A = Run GrafanasState A

  unfoldable pub get : Step GrafanasState
  get s = some (s, s)

  unfoldable pub or_panic : {A : Type 0} → Option A → Step A
  or_panic none s = none
  or_panic (some a) s = some (s, a)

  unfoldable pub change_config : (ControllerConfig → ControllerConfig) → Step Unit
  change_config f s = some (record s { config = f s.config }, tt)

  -- `common.ControllerEvents <- state`
  unfoldable pub publish : ControllerState o.LabelSelector → Step Unit
  publish state s = some (record s { published = s.published ++ state ∷ [] }, tt)

  unfoldable pub record_warning : (message : String) → Step Unit
  record_warning message s = some (record s { events = s.events ++ message ∷ [] }, tt)

  -- A call that changes only what is outside.
  abbrev pub moved :
      {A : Type 0} → GrafanasState → Option (Accounts o.site × A) → Option (GrafanasState × A)
  moved s none = none
  moved s (some (accounts, a)) = some (record s { accounts = accounts }, a)

  unfoldable pub outside : {A : Type 0} → Run (Accounts o.site) A → Step A
  outside f s = moved s (f s.accounts)

  abbrev pub reached :
      {A : Type 0}
      → GrafanasState
      → Option ((ControllerConfig × Accounts o.site) × A)
      → Option (GrafanasState × A)
  reached s none = none
  reached s (some ((config, accounts), a)) =
      some (record s { config = config; accounts = accounts }, a)

  unfoldable pub inside : {A : Type 0} → Run (ControllerConfig × Accounts o.site) A → Step A
  inside f s = reached s (f (s.config, s.accounts))

  -- A call that cannot panic.
  abbrev pub plain :
      {A : Type 0} → (Accounts o.site → Accounts o.site × A) → Run (Accounts o.site) A
  plain f a = some (f a)
