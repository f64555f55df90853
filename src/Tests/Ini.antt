-- ===== src/Tests/Ini.antt =====
-- grafana.ini (controllers/config/grafanaIni.go) for a concrete configuration.
use mathlib.Core.List.{Perm}
use mathlib.Core.List.Perm
use grafana_operator.Common.{
  String, ◌≡◌, refl, true, Option, none, some, List, [], ◌∷◌, map, lookup, insert, keys,
  sort_strings,
}
use grafana_operator.Ini.Types.{
  GrafanaConfig, GrafanaConfigServer, GrafanaConfigUsers, GrafanaConfigAuth,
  GrafanaConfigAuthGitlab,
}
use grafana_operator.Ini.Items.{line, append_str, append_bool}
use grafana_operator.Ini.Sections.General.{cfg_server, cfg_server_items}
use grafana_operator.Ini.ParseConfig.{parse_config, when, section_lines, default_paths}
use grafana_operator.Ini.ParseConfig.Rows.{find_row}
use grafana_operator.Ini.ParseConfig.SectionTable.{sections, lookup-parse_config}
use grafana_operator.Ini.ParseConfig.Ignored.{parse_config_ignores}
use grafana_operator.Ini.Write.{write}
use grafana_operator.Ini.Write.Order.{write_order}
use grafana_operator.Ini.Write.Reader.{read_ini, all}
use grafana_operator.Ini.Write.RoundTrip.{is_plain_section, sorted_section, read_ini-write}

abbrev server : GrafanaConfigServer
server = record {
  http_addr = "";
  http_port = "8080";
  protocol = "";
  socket = "";
  domain = "example.org";
  enforce_domain = none;
  root_url = "";
  serve_from_sub_path = none;
  static_root_path = "";
  enable_gzip = none;
  cert_file = "";
  cert_key = "";
  router_logging = none;
}

abbrev users : GrafanaConfigUsers
users = record {
  allow_sign_up = none;
  allow_org_create = none;
  auto_assign_org = none;
  auto_assign_org_id = "";
  auto_assign_org_role = "";
  viewers_can_edit = none;
  editors_can_admin = none;
  login_hint = "";
  password_hint = "";
  default_theme = "";
}

abbrev auth : GrafanaConfigAuth
auth = record {
  login_cookie_name = "";
  login_maximum_inactive_lifetime_days = none;
  login_maximum_inactive_lifetime_duration = "";
  login_maximum_lifetime_days = none;
  login_maximum_lifetime_duration = "";
  token_rotation_interval_minutes = none;
  disable_login_form = none;
  disable_signout_menu = none;
  sig_v4_auth_enabled = none;
  signout_redirect_url = "";
  oauth_auto_login = none;
}

abbrev gitlab : GrafanaConfigAuthGitlab
gitlab = record {
  enabled = none;
  allow_sign_up = none;
  client_id = "";
  client_secret = "";
  scopes = "";
  auth_url = "";
  token_url = "";
  api_url = "";
  allowed_groups = "";
}

abbrev config : GrafanaConfig
config = record {
  paths = none;
  server = some server;
  database = none;
  remote_cache = none;
  security = none;
  users = none;
  auth = none;
  auth_basic = none;
  auth_anonymous = none;
  auth_azure_ad = none;
  auth_google = none;
  auth_github = none;
  auth_gitlab = none;
  auth_generic_oauth = none;
  auth_okta = none;
  auth_ldap = none;
  auth_proxy = none;
  auth_saml = none;
  data_proxy = none;
  analytics = none;
  dashboards = none;
  smtp = none;
  live = none;
  log = none;
  log_console = none;
  log_frontend = none;
  metrics = none;
  metrics_graphite = none;
  snapshots = none;
  external_image_storage = none;
  external_image_storage_s3 = none;
  external_image_storage_webdav = none;
  external_image_storage_gcs = none;
  external_image_storage_azure_blob = none;
  alerting = none;
  unified_alerting = none;
  panels = none;
  plugins = none;
  rendering = none;
  feature_toggles = none;
}

abbrev format : String → Option String
format s = some s

abbrev in_order : List String → List String
in_order l = l

-- In place of a digest.
abbrev digest : String → String
digest s = s

abbrev swap_first : List String → List String
swap_first [] = []
swap_first (x ∷ []) = x ∷ []
swap_first (x ∷ y ∷ l) = y ∷ x ∷ l

swap_first-perm : (l : List String) → Perm (swap_first l) l
swap_first-perm [] = Perm.refl []
swap_first-perm (x ∷ []) = Perm.refl (x ∷ [])
swap_first-perm (x ∷ y ∷ l) = Perm.swap x y l

lookup-parse_config_example :
    lookup "server" (parse_config format config []) ≡ find_row "server" (sections format config)
lookup-parse_config_example = lookup-parse_config format config "server"

server_test :
    find_row "server" (sections format config)
    ≡ some ("http_port = 8080" ∷ "domain = example.org" ∷ [])
unfolding find_row sections cfg_server_items line append_str append_bool
server_test = refl

config_is_plain :
    (let sections_of = parse_config format config [] in
      all (is_plain_section sections_of) (in_order (keys sections_of)) ≡ true)
unfolding parse_config when cfg_server section_lines default_paths insert keys lookup
    cfg_server_items append_bool append_str line
config_is_plain = refl

read_ini-write_example : read_ini (write in_order digest format config).0 ≡ (
    let sections_of = parse_config format config [] in
    map (sorted_section sections_of) (sort_strings (in_order (keys sections_of))))
read_ini-write_example = read_ini-write in_order digest format config config_is_plain

write_order_example : write in_order digest format config ≡ write swap_first digest format config
write_order_example = write_order in_order swap_first digest format config Perm.refl swap_first-perm

parse_config_ignores_example :
    (parse_config format (record config { live = none }) [] ≡ parse_config format config [])
    × (parse_config format
          (record config { users = some (record users { default_theme = "dark" }) })
          []
        ≡ parse_config format (record config { users = some users }) [])
    × (parse_config format
          (record config {
            auth = some (record auth {
              login_maximum_inactive_lifetime_duration = "7d";
              login_maximum_lifetime_duration = "30d";
            });
          })
          []
        ≡ parse_config format (record config { auth = some auth }) [])
    × (parse_config format
          (record config { auth_gitlab = some (record gitlab { allowed_groups = "ops" }) })
          []
        ≡ parse_config format (record config { auth_gitlab = some gitlab }) [])
parse_config_ignores_example =
    parse_config_ignores format config [] none users "dark" auth "7d" "30d" gitlab "ops"
