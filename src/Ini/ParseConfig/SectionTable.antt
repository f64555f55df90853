-- ===== src/Ini/ParseConfig/SectionTable.antt =====
-- The sections of grafana.ini as a table: the name of each with the lines that its own struct
-- gives. The names differ, so no section overwrites another.
use mathlib.Core.Option
use grafana_operator.Common.{String, ◌≡◌, refl, Option, none, some, List, [], ◌∷◌, insert, lookup}
use grafana_operator.Ini.Types.{GrafanaConfig, GrafanaConfigPaths}
use grafana_operator.Ini.ParseConfig.{parse_config, when, cfg_paths, default_paths, section_lines}
use grafana_operator.Ini.ParseConfig.Rows.{Row, find_row, paths_items, Holds, Holds-when}
use grafana_operator.Ini.Sections.General.{
  cfg_server, cfg_database, cfg_remote_cache, cfg_security, cfg_users, cfg_log, cfg_log_frontend,
  cfg_log_console, cfg_server_items, cfg_database_items, cfg_remote_cache_items, cfg_security_items,
  cfg_users_items, cfg_log_items, cfg_log_frontend_items, cfg_log_console_items,
}
use grafana_operator.Ini.Sections.Auth.{
  cfg_auth_basic, cfg_auth_anonymous, cfg_auth, cfg_auth_saml, cfg_auth_azure_ad, cfg_auth_google,
  cfg_auth_git_hub, cfg_auth_gitlab, cfg_auth_generic_oauth, cfg_auth_ldap, cfg_auth_okta,
  cfg_auth_proxy, cfg_auth_basic_items, cfg_auth_anonymous_items, cfg_auth_items,
  cfg_auth_saml_items, cfg_auth_azure_ad_items, cfg_auth_google_items, cfg_auth_git_hub_items,
  cfg_auth_gitlab_items, cfg_auth_generic_oauth_items, cfg_auth_ldap_items, cfg_auth_okta_items,
  cfg_auth_proxy_items,
}
use grafana_operator.Ini.Sections.Features.{
  cfg_data_proxy, cfg_analytics, cfg_dashboards, cfg_smtp, cfg_metrics, cfg_snapshots,
  cfg_metrics_graphite, cfg_alerting, cfg_unified_alerting, cfg_panels, cfg_plugins, cfg_rendering,
  cfg_feature_toggles, cfg_data_proxy_items, cfg_analytics_items, cfg_dashboards_items,
  cfg_smtp_items, cfg_metrics_items, cfg_snapshots_items, cfg_metrics_graphite_items,
  cfg_alerting_items, cfg_unified_alerting_items, cfg_panels_items, cfg_plugins_items,
  cfg_rendering_items, cfg_feature_toggles_items,
}
use grafana_operator.Ini.Sections.Storage.{
  cfg_external_image_storage, cfg_external_image_storage_s3, cfg_external_image_storage_webdav,
  cfg_external_image_storage_gcs, cfg_external_image_storage_azure_blob,
  cfg_external_image_storage_items, cfg_external_image_storage_s3_items,
  cfg_external_image_storage_webdav_items, cfg_external_image_storage_gcs_items,
  cfg_external_image_storage_azure_blob_items,
}

-- One row for each section, in the order in which the code looks at the pointers.
unfoldable pub sections : (String → Option String) → GrafanaConfig → List Row
sections format_float cfg =
    ("paths", some (paths_items cfg.paths))
    ∷ ("server", Option.map cfg_server_items cfg.server)
    ∷ ("database", Option.map cfg_database_items cfg.database)
    ∷ ("remote_cache", Option.map cfg_remote_cache_items cfg.remote_cache)
    ∷ ("security", Option.map cfg_security_items cfg.security)
    ∷ ("users", Option.map cfg_users_items cfg.users)
    ∷ ("auth.basic", Option.map cfg_auth_basic_items cfg.auth_basic)
    ∷ ("auth.anonymous", Option.map cfg_auth_anonymous_items cfg.auth_anonymous)
    ∷ ("auth", Option.map cfg_auth_items cfg.auth)
    ∷ ("log", Option.map cfg_log_items cfg.log)
    ∷ ("log.frontend", Option.map (cfg_log_frontend_items format_float) cfg.log_frontend)
    ∷ ("log.console", Option.map cfg_log_console_items cfg.log_console)
    ∷ ("auth.saml", Option.map cfg_auth_saml_items cfg.auth_saml)
    ∷ ("auth.azuread", Option.map cfg_auth_azure_ad_items cfg.auth_azure_ad)
    ∷ ("auth.google", Option.map cfg_auth_google_items cfg.auth_google)
    ∷ ("auth.github", Option.map cfg_auth_git_hub_items cfg.auth_github)
    ∷ ("auth.gitlab", Option.map cfg_auth_gitlab_items cfg.auth_gitlab)
    ∷ ("auth.generic_oauth", Option.map cfg_auth_generic_oauth_items cfg.auth_generic_oauth)
    ∷ ("auth.ldap", Option.map cfg_auth_ldap_items cfg.auth_ldap)
    ∷ ("auth.okta", Option.map cfg_auth_okta_items cfg.auth_okta)
    ∷ ("auth.proxy", Option.map cfg_auth_proxy_items cfg.auth_proxy)
    ∷ ("dataproxy", Option.map cfg_data_proxy_items cfg.data_proxy)
    ∷ ("analytics", Option.map cfg_analytics_items cfg.analytics)
    ∷ ("dashboards", Option.map cfg_dashboards_items cfg.dashboards)
    ∷ ("smtp", Option.map cfg_smtp_items cfg.smtp)
    ∷ ("metrics", Option.map cfg_metrics_items cfg.metrics)
    ∷ ("snapshots", Option.map cfg_snapshots_items cfg.snapshots)
    ∷ ("metrics.graphite", Option.map cfg_metrics_graphite_items cfg.metrics_graphite)
    ∷ (
      "external_image_storage",
      Option.map cfg_external_image_storage_items cfg.external_image_storage,
    )
    ∷ (
      "external_image_storage.s3",
      Option.map cfg_external_image_storage_s3_items cfg.external_image_storage_s3,
    )
    ∷ (
      "external_image_storage.webdav",
      Option.map cfg_external_image_storage_webdav_items cfg.external_image_storage_webdav,
    )
    ∷ (
      "external_image_storage.gcs",
      Option.map cfg_external_image_storage_gcs_items cfg.external_image_storage_gcs,
    )
    ∷ (
      "external_image_storage.azure_blob",
      Option.map cfg_external_image_storage_azure_blob_items cfg.external_image_storage_azure_blob,
    )
    ∷ ("alerting", Option.map cfg_alerting_items cfg.alerting)
    ∷ ("unified_alerting", Option.map cfg_unified_alerting_items cfg.unified_alerting)
    ∷ ("panels", Option.map cfg_panels_items cfg.panels)
    ∷ ("plugins", Option.map cfg_plugins_items cfg.plugins)
    ∷ ("rendering", Option.map cfg_rendering_items cfg.rendering)
    ∷ ("feature_toggles", Option.map cfg_feature_toggles_items cfg.feature_toggles)
    ∷ []

Holds-paths :
    (o : Option GrafanaConfigPaths)
    → Holds
        (("paths", some (paths_items o)) ∷ [])
        (when o cfg_paths (insert "paths" default_paths []))
unfolding when cfg_paths section_lines paths_items find_row lookup insert
Holds-paths none = record { at = λ j. refl }
Holds-paths (some p) = record { at = λ j. refl }

Holds-parse_config :
    (format_float : String → Option String) (cfg : GrafanaConfig)
    → Holds (sections format_float cfg) (parse_config format_float cfg [])
unfolding parse_config sections cfg_server cfg_database cfg_remote_cache cfg_security cfg_users
    cfg_auth_basic cfg_auth_anonymous cfg_auth cfg_log cfg_log_frontend cfg_log_console
    cfg_auth_saml cfg_auth_azure_ad cfg_auth_google cfg_auth_git_hub cfg_auth_gitlab
    cfg_auth_generic_oauth cfg_auth_ldap cfg_auth_okta cfg_auth_proxy cfg_data_proxy cfg_analytics
    cfg_dashboards cfg_smtp cfg_metrics cfg_snapshots cfg_metrics_graphite
    cfg_external_image_storage cfg_external_image_storage_s3 cfg_external_image_storage_webdav
    cfg_external_image_storage_gcs cfg_external_image_storage_azure_blob cfg_alerting
    cfg_unified_alerting cfg_panels cfg_plugins cfg_rendering cfg_feature_toggles
Holds-parse_config format_float cfg =
    Holds-when cfg.feature_toggles "feature_toggles" cfg_feature_toggles cfg_feature_toggles_items
      (λ c m. refl) refl
      (Holds-when cfg.rendering "rendering" cfg_rendering cfg_rendering_items (λ c m. refl) refl
        (Holds-when cfg.plugins "plugins" cfg_plugins cfg_plugins_items (λ c m. refl) refl
          (Holds-when cfg.panels "panels" cfg_panels cfg_panels_items (λ c m. refl) refl
            (Holds-when cfg.unified_alerting "unified_alerting" cfg_unified_alerting
              cfg_unified_alerting_items (λ c m. refl) refl
              (Holds-when cfg.alerting "alerting" cfg_alerting cfg_alerting_items (λ c m. refl) refl
                (Holds-when cfg.external_image_storage_azure_blob
                  "external_image_storage.azure_blob" cfg_external_image_storage_azure_blob
                  cfg_external_image_storage_azure_blob_items (λ c m. refl) refl
                  (Holds-when cfg.external_image_storage_gcs "external_image_storage.gcs"
                    cfg_external_image_storage_gcs cfg_external_image_storage_gcs_items
                    (λ c m. refl) refl
                    (Holds-when cfg.external_image_storage_webdav "external_image_storage.webdav"
                      cfg_external_image_storage_webdav cfg_external_image_storage_webdav_items
                      (λ c m. refl) refl
                      (Holds-when cfg.external_image_storage_s3 "external_image_storage.s3"
                        cfg_external_image_storage_s3 cfg_external_image_storage_s3_items
                        (λ c m. refl) refl
                        (Holds-when cfg.external_image_storage "external_image_storage"
                          cfg_external_image_storage cfg_external_image_storage_items (λ c m. refl)
                          refl
                          (Holds-when cfg.metrics_graphite "metrics.graphite" cfg_metrics_graphite
                            cfg_metrics_graphite_items (λ c m. refl) refl
                            (Holds-when cfg.snapshots "snapshots" cfg_snapshots cfg_snapshots_items
                              (λ c m. refl) refl
                              (Holds-when cfg.metrics "metrics" cfg_metrics cfg_metrics_items
                                (λ c m. refl) refl
                                (Holds-when cfg.smtp "smtp" cfg_smtp cfg_smtp_items (λ c m. refl)
                                  refl
                                  (Holds-when cfg.dashboards "dashboards" cfg_dashboards
                                    cfg_dashboards_items (λ c m. refl) refl
                                    (Holds-when cfg.analytics "analytics" cfg_analytics
                                      cfg_analytics_items (λ c m. refl) refl
                                      (Holds-when cfg.data_proxy "dataproxy" cfg_data_proxy
                                        cfg_data_proxy_items (λ c m. refl) refl
                                        (Holds-when cfg.auth_proxy "auth.proxy" cfg_auth_proxy
                                          cfg_auth_proxy_items (λ c m. refl) refl
                                          (Holds-when cfg.auth_okta "auth.okta" cfg_auth_okta
                                            cfg_auth_okta_items (λ c m. refl) refl
                                            (Holds-when cfg.auth_ldap "auth.ldap" cfg_auth_ldap
                                              cfg_auth_ldap_items (λ c m. refl) refl
                                              (Holds-when cfg.auth_generic_oauth
                                                "auth.generic_oauth" cfg_auth_generic_oauth
                                                cfg_auth_generic_oauth_items (λ c m. refl) refl
                                                (Holds-when cfg.auth_gitlab "auth.gitlab"
                                                  cfg_auth_gitlab cfg_auth_gitlab_items
                                                  (λ c m. refl) refl
                                                  (Holds-when cfg.auth_github "auth.github"
                                                    cfg_auth_git_hub cfg_auth_git_hub_items
                                                    (λ c m. refl) refl
                                                    (Holds-when cfg.auth_google "auth.google"
                                                      cfg_auth_google cfg_auth_google_items
                                                      (λ c m. refl) refl
                                                      (Holds-when cfg.auth_azure_ad "auth.azuread"
                                                        cfg_auth_azure_ad cfg_auth_azure_ad_items
                                                        (λ c m. refl) refl
                                                        (Holds-when cfg.auth_saml "auth.saml"
                                                          cfg_auth_saml cfg_auth_saml_items
                                                          (λ c m. refl) refl
                                                          (Holds-when cfg.log_console "log.console"
                                                            cfg_log_console cfg_log_console_items
                                                            (λ c m. refl) refl
                                                            (Holds-when cfg.log_frontend
                                                            "log.frontend"
                                                            (cfg_log_frontend format_float)
                                                            (cfg_log_frontend_items format_float)
                                                            (λ c m. refl) refl
                                                            (Holds-when cfg.log "log" cfg_log
                                                            cfg_log_items (λ c m. refl) refl
                                                            (Holds-when cfg.auth "auth" cfg_auth
                                                            cfg_auth_items (λ c m. refl) refl
                                                            (Holds-when cfg.auth_anonymous
                                                            "auth.anonymous" cfg_auth_anonymous
                                                            cfg_auth_anonymous_items (λ c m. refl)
                                                            refl
                                                            (Holds-when cfg.auth_basic "auth.basic"
                                                            cfg_auth_basic cfg_auth_basic_items
                                                            (λ c m. refl) refl
                                                            (Holds-when cfg.users "users" cfg_users
                                                            cfg_users_items (λ c m. refl) refl
                                                            (Holds-when cfg.security "security"
                                                            cfg_security cfg_security_items
                                                            (λ c m. refl) refl
                                                            (Holds-when cfg.remote_cache
                                                            "remote_cache" cfg_remote_cache
                                                            cfg_remote_cache_items (λ c m. refl)
                                                            refl
                                                            (Holds-when cfg.database "database"
                                                            cfg_database cfg_database_items
                                                            (λ c m. refl) refl
                                                            (Holds-when cfg.server "server"
                                                            cfg_server cfg_server_items
                                                            (λ c m. refl) refl
                                                            (Holds-paths
                                                            cfg.paths))))))))))))))))))))))))))))))))))))))

-- The map that `parseConfig` fills from an empty one has, under every name, exactly what the table
-- of the sections has: the lines of the struct of that name, if its pointer is set, and nothing
-- under a name that is not set or not of the table. The paths are always there, and the table has no
-- row for `live`.
pub lookup-parse_config :
    (format_float : String → Option String) (cfg : GrafanaConfig) (k : String)
    → lookup k (parse_config format_float cfg []) ≡ find_row k (sections format_float cfg)
lookup-parse_config format_float cfg k = (Holds-parse_config format_float cfg).at k
