-- ===== src/Controllers/Dashboards/Publish.antt =====
-- What the controller of dashboards works on, and what it does once Grafana has a dashboard
-- (`manageSuccess`, `manageError` and `CreateGrafanaPermission`).
use grafana_operator.Common.{
  String, ◌⧺◌, ◌==◌, Bool, Option, none, some, List, [], ◌∷◌, ◌++◌, ℤ, pos, itoa, eqb_ℤ, Assoc,
  lookup, if◌then◌else◌,
}
use grafana_operator.Common.Run.{Result, Run, ◌>>=◌, ◌>>◌, return}
use grafana_operator.Dashboard.Json.{Library}
use grafana_operator.Dashboard.Resource.{GrafanaDashboard, GrafanaDashboardRef, uid}
use grafana_operator.Dashboard.Pipeline.{World}
use grafana_operator.Config.ControllerConfig.{ControllerConfig, add_dashboard, set_plugins_for}
use grafana_operator.Api.Types.{GrafanaClient, GrafanaFolderResponse}
use grafana_operator.Api.Users.{
  Site, Accounts, call, get_grafana_user, create_grafana_user, get_grafana_key,
  get_grafana_dashboard_id,
}
use grafana_operator.Controllers.State.{ControllerState}
use grafana_operator.Controllers.Selectors.{Selector}
use grafana_operator.Controllers.Dashboards.Known.{Known, known_after}

-- A resource that the client of the cluster was asked for.
pub data Found (A : Type 0) : Type 0 where
  found : A → Found A
  not_found : Found A
  failed : Found A

-- The packages and services around the controller: the pipeline's world and the reads of the cluster, as
-- they are in a state of the network; the client for an URL, a user and a password with a timeout; and
-- whether an append to the known references moves them.
pub record Outside : Type 1 where
  pub library : Library
  pub site : Site
  pub Error : Type 0
  pub LabelSelector : Type 0
  pub label_selector_as_selector : LabelSelector → Option Selector
  pub world : Accounts site → World
  pub moves : List GrafanaDashboardRef → Bool
  pub list_dashboards : Accounts site → Result Error (List GrafanaDashboard)
  pub get_dashboard : (namespace name : String) → Accounts site → Found GrafanaDashboard
  pub get_namespace_labels : String → Accounts site → Option (Assoc String)
  pub new_client :
      (url user password : String) → (timeout : ℤ) → GrafanaClient Error (Accounts site)

-- An event that is recorded for a dashboard.
pub record Event : Type 0 where
  pub namespace : String
  pub name : String
  pub event_type : String
  pub reason : String

module _ (o : Outside) where
  pub record DashboardsState : Type 0 where
    pub config : ControllerConfig
    pub accounts : Accounts o.site
    pub events : List Event
    pub environment : Assoc String
    pub state : ControllerState o.LabelSelector
    pub known : Known

  abbrev pub Step : Type 0 → Type 0
  Step A = Run DashboardsState A

  abbrev pub moved :
      {A : Type 0} → DashboardsState → Option (Accounts o.site × A) → Option (DashboardsState × A)
  moved s none = none
  moved s (some (accounts, a)) = some (record s { accounts = accounts }, a)

  -- A call that changes only what is outside.
  unfoldable pub outside : {A : Type 0} → Run (Accounts o.site) A → Step A
  outside f s = moved s (f s.accounts)

  -- A change of the configuration, or a panic. It may show in what is known.
  abbrev pub with_config :
      DashboardsState → Option ControllerConfig → Option (DashboardsState × Unit {0})
  with_config s none = none
  with_config s (some config) =
      some (record s { config = config; known = known_after o.moves s.known s.config config }, tt)

  unfoldable pub change_config : (ControllerConfig → Option ControllerConfig) → Step Unit
  change_config f s = with_config s (f s.config)

  -- `r.config.SetPluginsFor`
  unfoldable pub set_plugins : GrafanaDashboard → Step Unit
  unfolding change_config set_plugins_for
  set_plugins d = change_config (λ c. some (set_plugins_for d c))

  unfoldable pub get : Step DashboardsState
  get s = some (s, s)

  unfoldable pub or_panic : {A : Type 0} → Option A → Step A
  or_panic none s = none
  or_panic (some a) s = some (s, a)

  unfoldable pub record_event : GrafanaDashboard → (event_type reason : String) → Step Unit
  record_event d event_type reason s =
      let event : Event = record {
        namespace = d.namespace;
        name = d.name;
        event_type = event_type;
        reason = reason;
      } in
      some (record s { events = s.events ++ event ∷ [] }, tt)

  -- The message of the error is left out, and so is what is logged.
  unfoldable pub manage_error : GrafanaDashboard → Step Unit
  unfolding record_event
  manage_error d = record_event d "Warning" "ProcessingError"

  -- The identifier of the last folder of the title.
  unfoldable pub folder_uid : (folder_name fuid : String) → List GrafanaFolderResponse → String
  folder_uid folder_name fuid [] = fuid
  folder_uid folder_name fuid (folder ∷ l) =
      folder_uid folder_name (if folder.title == folder_name then folder.uid else fuid) l

  abbrev permission_of : ℤ → String
  permission_of user =
      "\n\t\t\t{\n\t\t\t\"userId\": " ⧺ (itoa user ⧺ ",\n\t\t\t\"permission\": 1\n\t\t\t}")

  unfoldable pub permissions : List ℤ → String
  permissions [] = ""
  permissions (user ∷ []) = permission_of user
  permissions (user ∷ other ∷ l) = permission_of user ⧺ ("," ⧺ permissions (other ∷ l))

  unfoldable pub perm_body : List ℤ → String
  unfolding permissions
  perm_body users = "{\n\t\t\"items\": [" ⧺ (permissions users ⧺ "\n\t\t\t]\n\t\t}")

  abbrev permissions_url : (fuid : String) → String
  permissions_url fuid =
      "http://grafana-service.monitoring.svc.cluster.local:3000/api/folders/"
      ⧺ (fuid ⧺ "/permissions")

  abbrev set_grafana_key : String → Run (Accounts o.site) Unit
  set_grafana_key key s = some (record s { grafana_key = key }, tt)

  -- The first of the users is logged: an empty list panics.
  abbrev first_of : List ℤ → Option ℤ
  first_of [] = none
  first_of (user ∷ _) = some user

  unfoldable pub create_grafana_permission :
      GrafanaClient o.Error (Accounts o.site)
      → (user_ids : List ℤ) → (folder_name : String) → Step Unit
  unfolding perm_body folder_uid get_grafana_key outside or_panic
  create_grafana_permission client user_ids folder_name = do
    or_panic (first_of user_ids)
    (folders, e) ← outside client.get_all_folders
    key ← outside (get_grafana_key o.site)
    outside (set_grafana_key key)
    outside (
        call o.site "POST" (permissions_url (folder_uid folder_name "" folders))
          (some (perm_body user_ids))
          (("Content-Type", "application/json; charset=UTF-8") ∷ ("Authorization", key) ∷ []))
    return tt

  abbrev user_or_created : (user : String) → ℤ → Run (Accounts o.site) ℤ
  user_or_created user id =
      if eqb_ℤ id (pos 0)
      then (create_grafana_user o.site user >> get_grafana_user o.site user)
      else return id

  -- The identifier of each user, who is created if Grafana does not know them.
  unfoldable pub user_ids_of : List String → Run (Accounts o.site) (List ℤ)
  unfolding get_grafana_user create_grafana_user
  user_ids_of [] = return []
  user_ids_of (user ∷ l) = do
    response ← get_grafana_user o.site user
    id ← user_or_created user response
    ids ← user_ids_of l
    return (id ∷ ids)

  -- `strings.Split`, of which an empty first part is replaced by the whole text; it has a first part.
  abbrev users_of : (user_ids : String) → List String → Option (List String)
  users_of user_ids [] = none
  users_of user_ids (first ∷ l) = some ((if first == "" then user_ids else first) ∷ l)

  abbrev annotation : GrafanaDashboard → String
  annotation d = elim (lookup "userId" d.annotations) [ none ↦ "" | some users ↦ users ]

  unfoldable pub manage_success :
      GrafanaClient o.Error (Accounts o.site)
      → GrafanaDashboard
      → (folder_id : ℤ) → (folder_name : String) → Step Unit
  unfolding add_dashboard uid get_grafana_dashboard_id user_ids_of create_grafana_permission lookup
      record_event get or_panic change_config set_plugins outside
  manage_success client d folder_id folder_name = do
    record_event d "Normal" "Success"
    change_config (add_dashboard o.library d (some folder_id) folder_name)
    set_plugins d
    t ← get
    users ← or_panic (users_of (annotation d) ((o.world t.accounts).split (annotation d) ","))
    id ← or_panic (uid o.library d)
    outside (get_grafana_dashboard_id o.site id)
    ids ← outside (user_ids_of users)
    create_grafana_permission client ids folder_name
