-- ===== src/Ini/Types/General.antt =====
-- The structs of api/integreatly/v1alpha1/grafana_types.go that configure paths, server, database,
-- security, users and logs. A pointer is an `Option`, and an `int` an integer.
use grafana_operator.Common.{String, ℤ, Option, Bool}

pub record GrafanaConfigPaths : Type 0 where
  pub temp_data_lifetime : String

pub record GrafanaConfigServer : Type 0 where
  pub http_addr : String
  pub http_port : String
  pub protocol : String
  pub socket : String
  pub domain : String
  pub enforce_domain : Option Bool
  pub root_url : String
  pub serve_from_sub_path : Option Bool
  pub static_root_path : String
  pub enable_gzip : Option Bool
  pub cert_file : String
  pub cert_key : String
  pub router_logging : Option Bool

pub record GrafanaConfigDatabase : Type 0 where
  pub url : String
  pub type : String
  pub path : String
  pub host : String
  pub name : String
  pub user : String
  pub password : String
  pub ssl_mode : String
  pub ca_cert_path : String
  pub client_key_path : String
  pub client_cert_path : String
  pub server_cert_name : String
  pub max_idle_conn : Option ℤ
  pub max_open_conn : Option ℤ
  pub conn_max_lifetime : Option ℤ
  pub log_queries : Option Bool
  pub cache_mode : String

pub record GrafanaConfigRemoteCache : Type 0 where
  pub type : String
  pub conn_str : String

pub record GrafanaConfigSecurity : Type 0 where
  pub admin_user : String
  pub admin_password : String
  pub login_remember_days : Option ℤ
  pub secret_key : String
  pub disable_gravatar : Option Bool
  pub data_source_proxy_whitelist : String
  pub cookie_secure : Option Bool
  pub cookie_samesite : String
  pub allow_embedding : Option Bool
  pub strict_transport_security : Option Bool
  pub strict_transport_security_max_age_seconds : Option ℤ
  pub strict_transport_security_preload : Option Bool
  pub strict_transport_security_subdomains : Option Bool
  pub x_content_type_options : Option Bool
  pub x_xss_protection : Option Bool

pub record GrafanaConfigUsers : Type 0 where
  pub allow_sign_up : Option Bool
  pub allow_org_create : Option Bool
  pub auto_assign_org : Option Bool
  pub auto_assign_org_id : String
  pub auto_assign_org_role : String
  pub viewers_can_edit : Option Bool
  pub editors_can_admin : Option Bool
  pub login_hint : String
  pub password_hint : String
  pub default_theme : String

pub record GrafanaConfigLog : Type 0 where
  pub mode : String
  pub level : String
  pub filters : String

pub record GrafanaConfigLogFrontend : Type 0 where
  pub enabled : Option Bool
  pub sentry_dsn : String
  pub custom_endpoint : String
  pub sample_rate : String
  pub log_endpoint_requests_per_second_limit : Option ℤ
  pub log_endpoint_burst_limit : Option ℤ

pub record GrafanaConfigLogConsole : Type 0 where
  pub level : String
  pub format : String
