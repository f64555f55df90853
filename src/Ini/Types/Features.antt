-- ===== src/Ini/Types/Features.antt =====
-- The structs of api/integreatly/v1alpha1/grafana_types.go that configure features, metrics and
-- alerting. A pointer is an `Option`, and an `int` an integer.
use grafana_operator.Common.{String, ℤ, Option, Bool}

pub record GrafanaConfigDataProxy : Type 0 where
  pub logging : Option Bool
  pub timeout : Option ℤ
  pub send_user_header : Option Bool

pub record GrafanaConfigAnalytics : Type 0 where
  pub reporting_enabled : Option Bool
  pub google_analytics_ua_id : String
  pub check_for_updates : Option Bool

pub record GrafanaConfigDashboards : Type 0 where
  pub versions_to_keep : Option ℤ
  pub default_home_dashboard_path : String

pub record GrafanaConfigSmtp : Type 0 where
  pub enabled : Option Bool
  pub host : String
  pub user : String
  pub password : String
  pub cert_file : String
  pub key_file : String
  pub skip_verify : Option Bool
  pub from_address : String
  pub from_name : String
  pub ehlo_identity : String

pub record GrafanaConfigLive : Type 0 where
  pub max_connections : Option ℤ
  pub allowed_origins : String

pub record GrafanaConfigMetrics : Type 0 where
  pub enabled : Option Bool
  pub basic_auth_username : String
  pub basic_auth_password : String
  pub interval_seconds : Option ℤ

pub record GrafanaConfigMetricsGraphite : Type 0 where
  pub address : String
  pub prefix : String

pub record GrafanaConfigSnapshots : Type 0 where
  pub external_enabled : Option Bool
  pub external_snapshot_url : String
  pub external_snapshot_name : String
  pub snapshot_remove_expired : Option Bool

pub record GrafanaConfigAlerting : Type 0 where
  pub enabled : Option Bool
  pub execute_alerts : Option Bool
  pub error_or_timeout : String
  pub nodata_or_nullvalues : String
  pub concurrent_render_limit : Option ℤ
  pub evaluation_timeout_seconds : Option ℤ
  pub notification_timeout_seconds : Option ℤ
  pub max_attempts : Option ℤ

pub record GrafanaConfigUnifiedAlerting : Type 0 where
  pub enabled : Option Bool
  pub execute_alerts : Option Bool
  pub evaluation_timeout : String
  pub max_attempts : Option ℤ
  pub min_interval : String

pub record GrafanaConfigPanels : Type 0 where
  pub disable_sanitize_html : Option Bool

pub record GrafanaConfigPlugins : Type 0 where
  pub enable_alpha : Option Bool

pub record GrafanaConfigRendering : Type 0 where
  pub server_url : String
  pub callback_url : String
  pub concurrent_render_request_limit : Option ℤ

pub record GrafanaConfigFeatureToggles : Type 0 where
  pub enable : String
