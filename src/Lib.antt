-- ===== src/Lib.antt =====
-- grafana-operator: a model of the operator that runs Grafana in a Kubernetes cluster.
--
-- The program. Controllers watch resources of the cluster. The controller of `Grafana`
-- (controllers/grafana) reads the state of the cluster, computes a list of actions that brings it to
-- the state that the resource asks for, with grafana.ini rendered from the resource
-- (controllers/config/grafanaIni.go) and the plugins that all dashboards ask for consolidated
-- (controllers/grafana/pluginsHelper.go), and runs the actions (controllers/common/clusterActions.go).
-- The controller of dashboards (controllers/grafanadashboard) obtains the document of each dashboard
-- and sends it to Grafana, and that of notification channels
-- (controllers/grafananotificationchannel) does the same for channels. The first two share a state in
-- memory (controllers/config/controller_config.go): values, the plugins of each dashboard, and references to the dashboards that Grafana has.
--
-- The files.
--   Common: Boolean tests, signed integers, texts, maps, sorting, decimal numbers and lists.
--   Ini: grafana.ini. Ini/Types are the structs of api/integreatly/v1alpha1/grafana_types.go, a field
--     for each field; Ini/Sections are the `cfg...` methods of controllers/config/grafanaIni.go and
--     the blocks of `parseConfig` that have no method; Ini/ParseConfig is `parseConfig`; Ini/Write is
--     `Write`, with a reader of its text.
--   Plugins: PluginList is api/integreatly/v1alpha1/pluginsList.go, Helper is
--     controllers/grafana/pluginsHelper.go.
--   Config: ConfigValue are the values and ControllerConfig the rest of
--     controllers/config/controller_config.go.
--   Dashboard: Json are the documents; Resource is `GrafanaDashboard` of
--     api/integreatly/v1alpha1/grafanadashboard_types.go, with `Hash`, `Parse` and `UID`; GrafanaCom,
--     Pipeline and Processing are controllers/grafanadashboard/dashboard_pipeline.go.
--   Cluster: Actions is controllers/common/clusterActions.go, Readiness
--     controllers/common/readiness_checks.go, Service controllers/model/grafanaService.go with
--     `MergeAnnotations` of controllers/model/utils.go, and ConfigMap controllers/model/grafanaConfig.go
--     with the part of controllers/grafana/grafana_reconciler.go that reads its hash.
--     Cluster/State is `ClusterState` of controllers/common/clusterState.go.
--   Objects: Resource is the specification of a `Grafana` resource, Deployment
--     controllers/model/grafanaDeployment.go, Ingress grafanaIngress.go and grafanaRoute.go of that
--     directory, Accounts grafanaServiceAccount.go and adminUserSecret.go, Storage grafanaDataPvc.go and
--     grafanaDatasources.go.
--   Api: Types and Client are controllers/grafanadashboard/grafana_client.go, whose `GrafanaClient` the
--     controller of dashboards takes as an argument; Users are the calls for accounts and keys of
--     controllers/grafana/grafana_controller.go.
--   Controllers: State is controllers/common/controllerState.go, Selectors
--     api/integreatly/v1alpha1/selectors.go, Dashboards
--     controllers/grafanadashboard/grafanadashboard_controller.go, and Grafanas
--     controllers/grafana/grafana_controller.go with controllers/grafana/grafonnet_utils.go.
--   Notifications: Config is controllers/config/notification_controller_config.go, Pipeline, Client and
--     Controller are grafananotificationchannel_pipeline.go, grafana_client.go and
--     grafananotificationchannel_controller.go of controllers/grafananotificationchannel.
--   Reconciler: `Reconcile` and the `get...DesiredState` methods of
--     controllers/grafana/grafana_reconciler.go, with actions that name the kinds of their objects.
--   Tests: the theorems at concrete inputs.
--
-- How the code is read. A pointer is an `Option`, an error or a panic is `none` or a constructor of a
-- result type, and a method that changes its receiver returns the new value. A Go map is an association
-- list; where the code ranges over one, the order is an argument. All loops run over lists, so no
-- function takes fuel, but for the decimal digits of a number, where the number itself is enough.
-- An `int` is an integer without bounds, but for the port, which is cut to 32 bits as the code does.
--
-- The controllers are calls on a state (Common/Run): a call returns the next state and a value, or
-- panics. What is outside of the process is part of the state, and its changes are those of the calls;
-- other processes change nothing between two calls of one reconciliation. The states that the controller of
-- Grafana sends are a list. The known dashboards of a reconciliation are the slice of the shared state
-- or a copy (Controllers/Dashboards/Known); those of the notification channels are read through the
-- pointers that the shared state holds (Notifications/Controller/Known).
--
-- What is a parameter. The code of the packages that the operator calls, and functions of Go's library
-- on JSON, URLs, digests and texts that the theorems need nothing of: `Semver` (Plugins/PluginList),
-- `Library` (Dashboard/Json), `Http` (Api/Types), `Site` (Api/Users), `Kubernetes` (Objects/Resource),
-- `Reader` (Cluster/State), the three records `Outside` of the controllers, `World`
-- (Dashboard/Pipeline), `Client` (Cluster/Actions), the digest, the formatting of floats and the order of
-- a map (Ini/Write). The hypotheses on such code are that "newer" is a strict order on semantic versions
-- (Plugins/Helper/Latest and Plugins/Helper/Blocked); that grafana.com keeps the order of revisions that it
-- states (Dashboard/GrafanaCom/Latest); and of Grafana, around one call, that it answers the two requests for
-- its folders with 200, that the titles it then lists are distinct, and that a folder it has created has the
-- title asked for and is listed (Api/Client/Folders). What the reconciler of Grafana and the runner of its
-- actions do together is an argument of the controller.
--
-- What is not modelled: log lines and most messages; the mutex of the shared state, each operation being
-- one step; the set-up of the controllers and their watches; `reconcilePlugins`; the data
-- sources; generated code and the start of the program.
pub mod Common
pub mod Ini
pub mod Plugins
pub mod Dashboard
pub mod Config
pub mod Cluster
pub mod Reconciler
pub mod Objects
pub mod Api
pub mod Controllers
pub mod Notifications
mod Tests
