-- ===== src/Ini/Sections/Features.antt =====
-- The sections of features, metrics and alerting: the `cfg...` methods of
-- controllers/config/grafanaIni.go and the blocks of `parseConfig` that have no method of their
-- own.
use grafana_operator.Common.{String, List, [], insert}
use grafana_operator.Ini.Types.{
  GrafanaConfigDataProxy, GrafanaConfigAnalytics, GrafanaConfigDashboards, GrafanaConfigSmtp,
  GrafanaConfigMetrics, GrafanaConfigSnapshots, GrafanaConfigMetricsGraphite, GrafanaConfigAlerting,
  GrafanaConfigUnifiedAlerting, GrafanaConfigPanels, GrafanaConfigPlugins, GrafanaConfigRendering,
  GrafanaConfigFeatureToggles,
}
use grafana_operator.Ini.Items.{Config, append_bool, append_int, append_str}

unfoldable pub cfg_data_proxy_items : GrafanaConfigDataProxy → List String
cfg_data_proxy_items c =
    let items : List String = [] in
    let items = append_bool items "logging" c.logging in
    let items = append_int items "timeout" c.timeout in
    append_bool items "send_user_header" c.send_user_header

unfoldable pub cfg_data_proxy : GrafanaConfigDataProxy → Config → Config
cfg_data_proxy c config = insert "dataproxy" (cfg_data_proxy_items c) config

unfoldable pub cfg_analytics_items : GrafanaConfigAnalytics → List String
cfg_analytics_items c =
    let items : List String = [] in
    let items = append_bool items "reporting_enabled" c.reporting_enabled in
    let items = append_str items "google_analytics_ua_id" c.google_analytics_ua_id in
    append_bool items "check_for_updates" c.check_for_updates

unfoldable pub cfg_analytics : GrafanaConfigAnalytics → Config → Config
cfg_analytics c config = insert "analytics" (cfg_analytics_items c) config

unfoldable pub cfg_dashboards_items : GrafanaConfigDashboards → List String
cfg_dashboards_items c =
    let items : List String = [] in
    let items = append_int items "versions_to_keep" c.versions_to_keep in
    append_str items "default_home_dashboard_path" c.default_home_dashboard_path

unfoldable pub cfg_dashboards : GrafanaConfigDashboards → Config → Config
cfg_dashboards c config = insert "dashboards" (cfg_dashboards_items c) config

unfoldable pub cfg_smtp_items : GrafanaConfigSmtp → List String
cfg_smtp_items c =
    let items : List String = [] in
    let items = append_bool items "enabled" c.enabled in
    let items = append_str items "host" c.host in
    let items = append_str items "user" c.user in
    let items = append_str items "password" c.password in
    let items = append_str items "cert_file" c.cert_file in
    let items = append_str items "key_file" c.key_file in
    let items = append_bool items "skip_verify" c.skip_verify in
    let items = append_str items "from_address" c.from_address in
    let items = append_str items "from_name" c.from_name in
    append_str items "ehlo_identity" c.ehlo_identity

unfoldable pub cfg_smtp : GrafanaConfigSmtp → Config → Config
cfg_smtp c config = insert "smtp" (cfg_smtp_items c) config

unfoldable pub cfg_metrics_items : GrafanaConfigMetrics → List String
cfg_metrics_items c =
    let items : List String = [] in
    let items = append_bool items "enabled" c.enabled in
    let items = append_str items "basic_auth_username" c.basic_auth_username in
    let items = append_str items "basic_auth_password" c.basic_auth_password in
    append_int items "interval_seconds" c.interval_seconds

unfoldable pub cfg_metrics : GrafanaConfigMetrics → Config → Config
cfg_metrics c config = insert "metrics" (cfg_metrics_items c) config

unfoldable pub cfg_snapshots_items : GrafanaConfigSnapshots → List String
cfg_snapshots_items c =
    let items : List String = [] in
    let items = append_bool items "external_enabled" c.external_enabled in
    let items = append_str items "external_snapshot_url" c.external_snapshot_url in
    let items = append_str items "external_snapshot_name" c.external_snapshot_name in
    append_bool items "snapshot_remove_expired" c.snapshot_remove_expired

unfoldable pub cfg_snapshots : GrafanaConfigSnapshots → Config → Config
cfg_snapshots c config = insert "snapshots" (cfg_snapshots_items c) config

unfoldable pub cfg_metrics_graphite_items : GrafanaConfigMetricsGraphite → List String
cfg_metrics_graphite_items c =
    let items : List String = [] in
    let items = append_str items "address" c.address in append_str items "prefix" c.prefix

unfoldable pub cfg_metrics_graphite : GrafanaConfigMetricsGraphite → Config → Config
cfg_metrics_graphite c config = insert "metrics.graphite" (cfg_metrics_graphite_items c) config

unfoldable pub cfg_alerting_items : GrafanaConfigAlerting → List String
cfg_alerting_items c =
    let items : List String = [] in
    let items = append_bool items "enabled" c.enabled in
    let items = append_bool items "execute_alerts" c.execute_alerts in
    let items = append_str items "error_or_timeout" c.error_or_timeout in
    let items = append_str items "nodata_or_nullvalues" c.nodata_or_nullvalues in
    let items = append_int items "concurrent_render_limit" c.concurrent_render_limit in
    let items = append_int items "evaluation_timeout_seconds" c.evaluation_timeout_seconds in
    let items = append_int items "notification_timeout_seconds" c.notification_timeout_seconds in
    append_int items "max_attempts" c.max_attempts

unfoldable pub cfg_alerting : GrafanaConfigAlerting → Config → Config
cfg_alerting c config = insert "alerting" (cfg_alerting_items c) config

unfoldable pub cfg_unified_alerting_items : GrafanaConfigUnifiedAlerting → List String
cfg_unified_alerting_items c =
    let items : List String = [] in
    let items = append_bool items "enabled" c.enabled in
    let items = append_bool items "execute_alerts" c.execute_alerts in
    let items = append_str items "evaluation_timeout" c.evaluation_timeout in
    let items = append_int items "max_attempts" c.max_attempts in
    append_str items "min_interval" c.min_interval

unfoldable pub cfg_unified_alerting : GrafanaConfigUnifiedAlerting → Config → Config
cfg_unified_alerting c config = insert "unified_alerting" (cfg_unified_alerting_items c) config

unfoldable pub cfg_panels_items : GrafanaConfigPanels → List String
cfg_panels_items c =
    let items : List String = [] in
    append_bool items "disable_sanitize_html" c.disable_sanitize_html

unfoldable pub cfg_panels : GrafanaConfigPanels → Config → Config
cfg_panels c config = insert "panels" (cfg_panels_items c) config

unfoldable pub cfg_plugins_items : GrafanaConfigPlugins → List String
cfg_plugins_items c =
    let items : List String = [] in append_bool items "enable_alpha" c.enable_alpha

unfoldable pub cfg_plugins : GrafanaConfigPlugins → Config → Config
cfg_plugins c config = insert "plugins" (cfg_plugins_items c) config

unfoldable pub cfg_rendering_items : GrafanaConfigRendering → List String
cfg_rendering_items c =
    let items : List String = [] in
    let items = append_str items "server_url" c.server_url in
    let items = append_str items "callback_url" c.callback_url in
    append_int items "concurrent_render_request_limit" c.concurrent_render_request_limit

unfoldable pub cfg_rendering : GrafanaConfigRendering → Config → Config
cfg_rendering c config = insert "rendering" (cfg_rendering_items c) config

unfoldable pub cfg_feature_toggles_items : GrafanaConfigFeatureToggles → List String
cfg_feature_toggles_items c = let items : List String = [] in append_str items "enable" c.enable

unfoldable pub cfg_feature_toggles : GrafanaConfigFeatureToggles → Config → Config
cfg_feature_toggles c config = insert "feature_toggles" (cfg_feature_toggles_items c) config
