-- ===== src/Ini/Sections/General.antt =====
-- The sections of paths, server, database, security, users and logs: the `cfg...` methods of
-- controllers/config/grafanaIni.go and the blocks of `parseConfig` that have no method of their
-- own.
use grafana_operator.Common.{String, List, [], insert, Option}
use grafana_operator.Ini.Types.{
  GrafanaConfigServer, GrafanaConfigDatabase, GrafanaConfigRemoteCache, GrafanaConfigSecurity,
  GrafanaConfigUsers, GrafanaConfigLog, GrafanaConfigLogFrontend, GrafanaConfigLogConsole,
}
use grafana_operator.Ini.Items.{Config, append_bool, append_float, append_int, append_str}

unfoldable pub cfg_server_items : GrafanaConfigServer → List String
cfg_server_items c =
    let items : List String = [] in
    let items = append_str items "http_addr" c.http_addr in
    let items = append_str items "http_port" c.http_port in
    let items = append_str items "protocol" c.protocol in
    let items = append_str items "socket" c.socket in
    let items = append_str items "domain" c.domain in
    let items = append_bool items "enforce_domain" c.enforce_domain in
    let items = append_str items "root_url" c.root_url in
    let items = append_bool items "serve_from_sub_path" c.serve_from_sub_path in
    let items = append_str items "static_root_path" c.static_root_path in
    let items = append_bool items "enable_gzip" c.enable_gzip in
    let items = append_str items "cert_file" c.cert_file in
    let items = append_str items "cert_key" c.cert_key in
    append_bool items "router_logging" c.router_logging

unfoldable pub cfg_server : GrafanaConfigServer → Config → Config
cfg_server c config = insert "server" (cfg_server_items c) config

unfoldable pub cfg_database_items : GrafanaConfigDatabase → List String
cfg_database_items c =
    let items : List String = [] in
    let items = append_str items "url" c.url in
    let items = append_str items "type" c.type in
    let items = append_str items "path" c.path in
    let items = append_str items "host" c.host in
    let items = append_str items "name" c.name in
    let items = append_str items "user" c.user in
    let items = append_str items "password" c.password in
    let items = append_str items "ssl_mode" c.ssl_mode in
    let items = append_str items "ca_cert_path" c.ca_cert_path in
    let items = append_str items "client_key_path" c.client_key_path in
    let items = append_str items "client_cert_path" c.client_cert_path in
    let items = append_str items "server_cert_name" c.server_cert_name in
    let items = append_int items "max_idle_conn" c.max_idle_conn in
    let items = append_int items "max_open_conn" c.max_open_conn in
    let items = append_int items "conn_max_lifetime" c.conn_max_lifetime in
    let items = append_bool items "log_queries" c.log_queries in
    append_str items "cache_mode" c.cache_mode

unfoldable pub cfg_database : GrafanaConfigDatabase → Config → Config
cfg_database c config = insert "database" (cfg_database_items c) config

unfoldable pub cfg_remote_cache_items : GrafanaConfigRemoteCache → List String
cfg_remote_cache_items c =
    let items : List String = [] in
    let items = append_str items "type" c.type in append_str items "connstr" c.conn_str

unfoldable pub cfg_remote_cache : GrafanaConfigRemoteCache → Config → Config
cfg_remote_cache c config = insert "remote_cache" (cfg_remote_cache_items c) config

unfoldable pub cfg_security_items : GrafanaConfigSecurity → List String
cfg_security_items c =
    let items : List String = [] in
    let items = append_str items "admin_user" c.admin_user in
    let items = append_str items "admin_password" c.admin_password in
    let items = append_int items "login_remember_days" c.login_remember_days in
    let items = append_str items "secret_key" c.secret_key in
    let items = append_bool items "disable_gravatar" c.disable_gravatar in
    let items = append_str items "data_source_proxy_whitelist" c.data_source_proxy_whitelist in
    let items = append_bool items "cookie_secure" c.cookie_secure in
    let items = append_str items "cookie_samesite" c.cookie_samesite in
    let items = append_bool items "allow_embedding" c.allow_embedding in
    let items = append_bool items "strict_transport_security" c.strict_transport_security in
    let items =
      append_int items "strict_transport_security_max_age_seconds"
        c.strict_transport_security_max_age_seconds in
    let items =
      append_bool items "strict_transport_security_preload" c.strict_transport_security_preload in
    let items =
      append_bool items "strict_transport_security_subdomains"
        c.strict_transport_security_subdomains in
    let items = append_bool items "x_content_type_options" c.x_content_type_options in
    append_bool items "x_xss_protection" c.x_xss_protection

unfoldable pub cfg_security : GrafanaConfigSecurity → Config → Config
cfg_security c config = insert "security" (cfg_security_items c) config

unfoldable pub cfg_users_items : GrafanaConfigUsers → List String
cfg_users_items c =
    let items : List String = [] in
    let items = append_bool items "allow_sign_up" c.allow_sign_up in
    let items = append_bool items "allow_org_create" c.allow_org_create in
    let items = append_bool items "auto_assign_org" c.auto_assign_org in
    let items = append_str items "auto_assign_org_id" c.auto_assign_org_id in
    let items = append_str items "auto_assign_org_role" c.auto_assign_org_role in
    let items = append_bool items "viewers_can_edit" c.viewers_can_edit in
    let items = append_bool items "editors_can_admin" c.editors_can_admin in
    let items = append_str items "login_hint" c.login_hint in
    append_str items "password_hint" c.password_hint

unfoldable pub cfg_users : GrafanaConfigUsers → Config → Config
cfg_users c config = insert "users" (cfg_users_items c) config

unfoldable pub cfg_log_items : GrafanaConfigLog → List String
cfg_log_items c =
    let items : List String = [] in
    let items = append_str items "mode" c.mode in
    let items = append_str items "level" c.level in append_str items "filters" c.filters

unfoldable pub cfg_log : GrafanaConfigLog → Config → Config
cfg_log c config = insert "log" (cfg_log_items c) config

unfoldable pub cfg_log_frontend_items :
    (String → Option String) → GrafanaConfigLogFrontend → List String
cfg_log_frontend_items format_float c =
    let items : List String = [] in
    let items = append_bool items "enabled" c.enabled in
    let items = append_str items "sentry_dsn" c.sentry_dsn in
    let items = append_str items "custom_endpoint" c.custom_endpoint in
    let items = append_int items "log_endpoint_burst_limit" c.log_endpoint_burst_limit in
    let items =
      append_int items "log_endpoint_requests_per_second_limit"
        c.log_endpoint_requests_per_second_limit in
    append_float format_float items "sample_rate" c.sample_rate

unfoldable pub cfg_log_frontend :
    (String → Option String) → GrafanaConfigLogFrontend → Config → Config
cfg_log_frontend format_float c config =
    insert "log.frontend" (cfg_log_frontend_items format_float c) config

unfoldable pub cfg_log_console_items : GrafanaConfigLogConsole → List String
cfg_log_console_items c =
    let items : List String = [] in
    let items = append_str items "level" c.level in append_str items "format" c.format

unfoldable pub cfg_log_console : GrafanaConfigLogConsole → Config → Config
cfg_log_console c config = insert "log.console" (cfg_log_console_items c) config
