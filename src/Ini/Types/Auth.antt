-- ===== src/Ini/Types/Auth.antt =====
-- The structs of api/integreatly/v1alpha1/grafana_types.go that configure authentication. A pointer
-- is an `Option`, and an `int` an integer.
use grafana_operator.Common.{String, ℤ, Option, Bool}

pub record GrafanaConfigAuth : Type 0 where
  pub login_cookie_name : String
  pub login_maximum_inactive_lifetime_days : Option ℤ
  pub login_maximum_inactive_lifetime_duration : String
  pub login_maximum_lifetime_days : Option ℤ
  pub login_maximum_lifetime_duration : String
  pub token_rotation_interval_minutes : Option ℤ
  pub disable_login_form : Option Bool
  pub disable_signout_menu : Option Bool
  pub sig_v4_auth_enabled : Option Bool
  pub signout_redirect_url : String
  pub oauth_auto_login : Option Bool

pub record GrafanaConfigAuthBasic : Type 0 where
  pub enabled : Option Bool

pub record GrafanaConfigAuthAnonymous : Type 0 where
  pub enabled : Option Bool
  pub org_name : String
  pub org_role : String

pub record GrafanaConfigAuthSaml : Type 0 where
  pub enabled : Option Bool
  pub single_logout : Option Bool
  pub allow_idp_initiated : Option Bool
  pub certificate_path : String
  pub key_path : String
  pub signature_algorithm : String
  pub idp_url : String
  pub max_issue_delay : String
  pub metadata_valid_duration : String
  pub relay_state : String
  pub assertion_attribute_name : String
  pub assertion_attribute_login : String
  pub assertion_attribute_email : String
  pub assertion_attribute_groups : String
  pub assertion_attribute_role : String
  pub assertion_attribute_org : String
  pub allowed_organizations : String
  pub org_mapping : String
  pub role_values_editor : String
  pub role_values_admin : String
  pub role_values_grafana_admin : String

pub record GrafanaConfigAuthAzureAd : Type 0 where
  pub enabled : Option Bool
  pub allow_sign_up : Option Bool
  pub client_id : String
  pub client_secret : String
  pub scopes : String
  pub auth_url : String
  pub token_url : String
  pub allowed_domains : String
  pub allowed_groups : String

pub record GrafanaConfigAuthGoogle : Type 0 where
  pub enabled : Option Bool
  pub client_id : String
  pub client_secret : String
  pub scopes : String
  pub auth_url : String
  pub token_url : String
  pub allowed_domains : String
  pub allow_sign_up : Option Bool

pub record GrafanaConfigAuthGithub : Type 0 where
  pub enabled : Option Bool
  pub allow_sign_up : Option Bool
  pub client_id : String
  pub client_secret : String
  pub scopes : String
  pub auth_url : String
  pub token_url : String
  pub api_url : String
  pub team_ids : String
  pub allowed_organizations : String

pub record GrafanaConfigAuthGitlab : Type 0 where
  pub enabled : Option Bool
  pub allow_sign_up : Option Bool
  pub client_id : String
  pub client_secret : String
  pub scopes : String
  pub auth_url : String
  pub token_url : String
  pub api_url : String
  pub allowed_groups : String

pub record GrafanaConfigAuthGenericOauth : Type 0 where
  pub enabled : Option Bool
  pub allow_sign_up : Option Bool
  pub client_id : String
  pub client_secret : String
  pub scopes : String
  pub auth_url : String
  pub token_url : String
  pub api_url : String
  pub allowed_domains : String
  pub role_attribute_path : String
  pub role_attribute_strict : Option Bool
  pub email_attribute_path : String
  pub tls_skip_verify_insecure : Option Bool
  pub tls_client_cert : String
  pub tls_client_key : String
  pub tls_client_ca : String

pub record GrafanaConfigAuthOkta : Type 0 where
  pub enabled : Option Bool
  pub name : String
  pub allow_sign_up : Option Bool
  pub client_id : String
  pub client_secret : String
  pub scopes : String
  pub auth_url : String
  pub token_url : String
  pub api_url : String
  pub allowed_domains : String
  pub allowed_groups : String
  pub role_attribute_path : String
  pub role_attribute_strict : Option Bool

pub record GrafanaConfigAuthLdap : Type 0 where
  pub enabled : Option Bool
  pub allow_sign_up : Option Bool
  pub config_file : String

pub record GrafanaConfigAuthProxy : Type 0 where
  pub enabled : Option Bool
  pub header_name : String
  pub header_property : String
  pub auto_sign_up : Option Bool
  pub ldap_sync_ttl : String
  pub whitelist : String
  pub headers : String
  pub enable_login_token : Option Bool
