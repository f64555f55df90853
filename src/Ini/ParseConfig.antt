-- ===== src/Ini/ParseConfig.antt =====
-- `parseConfig` of controllers/config/grafanaIni.go: the section of each pointer that is set, under
-- its name, over the section of the paths, which is always there.
pub mod Rows
pub mod SectionTable
pub mod Ignored
use grafana_operator.Common.{String, ◌⧺◌, Option, none, some, List, [], ◌∷◌, ◌++◌, insert, lookup}
use grafana_operator.Ini.Types.{GrafanaConfig, GrafanaConfigPaths}
use grafana_operator.Ini.Items.{Config, line}
use grafana_operator.Ini.Sections.General.{
  cfg_server, cfg_database, cfg_remote_cache, cfg_security, cfg_users, cfg_log, cfg_log_frontend,
  cfg_log_console,
}
use grafana_operator.Ini.Sections.Auth.{
  cfg_auth_basic, cfg_auth_anonymous, cfg_auth, cfg_auth_saml, cfg_auth_azure_ad, cfg_auth_google,
  cfg_auth_git_hub, cfg_auth_gitlab, cfg_auth_generic_oauth, cfg_auth_ldap, cfg_auth_okta,
  cfg_auth_proxy,
}
use grafana_operator.Ini.Sections.Features.{
  cfg_data_proxy, cfg_analytics, cfg_dashboards, cfg_smtp, cfg_metrics, cfg_snapshots,
  cfg_metrics_graphite, cfg_alerting, cfg_unified_alerting, cfg_panels, cfg_plugins, cfg_rendering,
  cfg_feature_toggles,
}
use grafana_operator.Ini.Sections.Storage.{
  cfg_external_image_storage, cfg_external_image_storage_s3, cfg_external_image_storage_webdav,
  cfg_external_image_storage_gcs, cfg_external_image_storage_azure_blob,
}

-- The constants of controllers/config/controller_config.go.
abbrev pub grafana_data_path : String
grafana_data_path = "/var/lib/grafana"

abbrev pub grafana_logs_path : String
grafana_logs_path = "/var/log/grafana"

abbrev pub grafana_plugins_path : String
grafana_plugins_path = "/var/lib/grafana/plugins"

abbrev pub grafana_provisioning_path : String
grafana_provisioning_path = "/etc/grafana/provisioning/"

-- `config[key]`, which is empty for a missing key
unfoldable pub section_lines : String → Config → List String
section_lines key config = elim (lookup key config) [ none ↦ [] | some lines ↦ lines ]

-- `if p != nil { config = f(config) }`
unfoldable pub when {ℓ} : {A : Type ℓ} → Option A → (A → Config → Config) → Config → Config
when none f config = config
when (some a) f config = f a config

-- The paths that every configuration has.
unfoldable pub default_paths : List String
default_paths =
    ("data = " ⧺ grafana_data_path)
    ∷ ("logs = " ⧺ grafana_logs_path)
    ∷ ("plugins = " ⧺ grafana_plugins_path)
    ∷ ("provisioning = " ⧺ grafana_provisioning_path)
    ∷ []

unfoldable pub cfg_paths : GrafanaConfigPaths → Config → Config
cfg_paths p config =
    insert "paths"
      (section_lines "paths" config ++ line "temp_data_lifetime" p.temp_data_lifetime ∷ []) config

unfoldable pub parse_config : (String → Option String) → GrafanaConfig → Config → Config
unfolding default_paths section_lines when cfg_paths
parse_config format_float cfg config =
    let config = insert "paths" default_paths config in
    let config = when cfg.paths cfg_paths config in
    let config = when cfg.server cfg_server config in
    let config = when cfg.database cfg_database config in
    let config = when cfg.remote_cache cfg_remote_cache config in
    let config = when cfg.security cfg_security config in
    let config = when cfg.users cfg_users config in
    let config = when cfg.auth_basic cfg_auth_basic config in
    let config = when cfg.auth_anonymous cfg_auth_anonymous config in
    let config = when cfg.auth cfg_auth config in
    let config = when cfg.log cfg_log config in
    let config = when cfg.log_frontend (cfg_log_frontend format_float) config in
    let config = when cfg.log_console cfg_log_console config in
    let config = when cfg.auth_saml cfg_auth_saml config in
    let config = when cfg.auth_azure_ad cfg_auth_azure_ad config in
    let config = when cfg.auth_google cfg_auth_google config in
    let config = when cfg.auth_github cfg_auth_git_hub config in
    let config = when cfg.auth_gitlab cfg_auth_gitlab config in
    let config = when cfg.auth_generic_oauth cfg_auth_generic_oauth config in
    let config = when cfg.auth_ldap cfg_auth_ldap config in
    let config = when cfg.auth_okta cfg_auth_okta config in
    let config = when cfg.auth_proxy cfg_auth_proxy config in
    let config = when cfg.data_proxy cfg_data_proxy config in
    let config = when cfg.analytics cfg_analytics config in
    let config = when cfg.dashboards cfg_dashboards config in
    let config = when cfg.smtp cfg_smtp config in
    let config = when cfg.metrics cfg_metrics config in
    let config = when cfg.snapshots cfg_snapshots config in
    let config = when cfg.metrics_graphite cfg_metrics_graphite config in
    let config = when cfg.external_image_storage cfg_external_image_storage config in
    let config = when cfg.external_image_storage_s3 cfg_external_image_storage_s3 config in
    let config = when cfg.external_image_storage_webdav cfg_external_image_storage_webdav config in
    let config = when cfg.external_image_storage_gcs cfg_external_image_storage_gcs config in
    let config =
      when cfg.external_image_storage_azure_blob cfg_external_image_storage_azure_blob config in
    let config = when cfg.alerting cfg_alerting config in
    let config = when cfg.unified_alerting cfg_unified_alerting config in
    let config = when cfg.panels cfg_panels config in
    let config = when cfg.plugins cfg_plugins config in
    let config = when cfg.rendering cfg_rendering config in
    when cfg.feature_toggles cfg_feature_toggles config
