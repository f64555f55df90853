-- ===== src/Plugins.antt =====
-- The plugins that dashboards ask for: lists of them (api/integreatly/v1alpha1/pluginsList.go) and
-- the choice of those to install (controllers/grafana/pluginsHelper.go).
pub mod PluginList
pub mod Helper
