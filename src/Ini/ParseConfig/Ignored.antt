-- ===== src/Ini/ParseConfig/Ignored.antt =====
-- The settings of the structs that no section shows: the file is the same whatever they hold.
use grafana_operator.Common.{String, Option, some, ◌≡◌, refl}
use grafana_operator.Ini.Types.{
  GrafanaConfig, GrafanaConfigUsers, GrafanaConfigAuth, GrafanaConfigAuthGitlab, GrafanaConfigLive,
}
use grafana_operator.Ini.Items.{Config}
use grafana_operator.Ini.ParseConfig.{parse_config}
use grafana_operator.Ini.Sections.General.{cfg_users, cfg_users_items}
use grafana_operator.Ini.Sections.Auth.{
  cfg_auth, cfg_auth_items, cfg_auth_gitlab, cfg_auth_gitlab_items,
}

module _ (format_float : String → Option String) (cfg : GrafanaConfig) (config : Config) where
  live_ignored :
      (live : Option GrafanaConfigLive)
      → parse_config format_float (record cfg { live = live }) config
        ≡ parse_config format_float cfg config
  unfolding parse_config
  live_ignored live = refl

  default_theme_ignored :
      (u : GrafanaConfigUsers) (theme : String)
      → parse_config format_float
          (record cfg { users = some (record u { default_theme = theme }) })
          config
        ≡ parse_config format_float (record cfg { users = some u }) config
  unfolding parse_config cfg_users cfg_users_items
  default_theme_ignored u theme = refl

  lifetime_durations_ignored :
      (a : GrafanaConfigAuth) (inactive lifetime : String)
      → parse_config format_float
          (record cfg {
            auth = some (record a {
              login_maximum_inactive_lifetime_duration = inactive;
              login_maximum_lifetime_duration = lifetime;
            });
          })
          config
        ≡ parse_config format_float (record cfg { auth = some a }) config
  unfolding parse_config cfg_auth cfg_auth_items
  lifetime_durations_ignored a inactive lifetime = refl

  allowed_groups_ignored :
      (g : GrafanaConfigAuthGitlab) (groups : String)
      → parse_config format_float
          (record cfg { auth_gitlab = some (record g { allowed_groups = groups }) })
          config
        ≡ parse_config format_float (record cfg { auth_gitlab = some g }) config
  unfolding parse_config cfg_auth_gitlab cfg_auth_gitlab_items
  allowed_groups_ignored g groups = refl

  -- The section `live`, the default theme of `users`, the two lifetimes of `auth` that are
  -- durations and the allowed groups of `auth.gitlab` never reach the map of sections, whatever
  -- they are set to.
  pub parse_config_ignores :
      (live : Option GrafanaConfigLive) (u : GrafanaConfigUsers) (theme : String)
      (a : GrafanaConfigAuth) (inactive lifetime : String) (g : GrafanaConfigAuthGitlab)
      (groups : String)
      → (parse_config format_float (record cfg { live = live }) config
          ≡ parse_config format_float cfg config)
        × (parse_config format_float
              (record cfg { users = some (record u { default_theme = theme }) })
              config
            ≡ parse_config format_float (record cfg { users = some u }) config)
        × (parse_config format_float
              (record cfg {
                auth = some (record a {
                  login_maximum_inactive_lifetime_duration = inactive;
                  login_maximum_lifetime_duration = lifetime;
                });
              })
              config
            ≡ parse_config format_float (record cfg { auth = some a }) config)
        × (parse_config format_float
              (record cfg { auth_gitlab = some (record g { allowed_groups = groups }) })
              config
            ≡ parse_config format_float (record cfg { auth_gitlab = some g }) config)
  parse_config_ignores live u theme a inactive lifetime g groups = (
    live_ignored live,
    default_theme_ignored u theme,
    lifetime_durations_ignored a inactive lifetime,
    allowed_groups_ignored g groups,
  )
