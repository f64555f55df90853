-- ===== src/Ini/Sections/Auth.antt =====
-- The sections of authentication: the `cfg...` methods of controllers/config/grafanaIni.go and the
-- blocks of `parseConfig` that have no method of their own.
use grafana_operator.Common.{String, List, [], insert}
use grafana_operator.Ini.Types.{
  GrafanaConfigAuthBasic, GrafanaConfigAuthAnonymous, GrafanaConfigAuth, GrafanaConfigAuthSaml,
  GrafanaConfigAuthAzureAd, GrafanaConfigAuthGoogle, GrafanaConfigAuthGithub,
  GrafanaConfigAuthGitlab, GrafanaConfigAuthGenericOauth, GrafanaConfigAuthLdap,
  GrafanaConfigAuthOkta, GrafanaConfigAuthProxy,
}
use grafana_operator.Ini.Items.{Config, append_bool, append_int, append_str}

unfoldable pub cfg_auth_basic_items : GrafanaConfigAuthBasic → List String
cfg_auth_basic_items c = let items : List String = [] in append_bool items "enabled" c.enabled

unfoldable pub cfg_auth_basic : GrafanaConfigAuthBasic → Config → Config
cfg_auth_basic c config = insert "auth.basic" (cfg_auth_basic_items c) config

unfoldable pub cfg_auth_anonymous_items : GrafanaConfigAuthAnonymous → List String
cfg_auth_anonymous_items c =
    let items : List String = [] in
    let items = append_bool items "enabled" c.enabled in
    let items = append_str items "org_name" c.org_name in append_str items "org_role" c.org_role

unfoldable pub cfg_auth_anonymous : GrafanaConfigAuthAnonymous → Config → Config
cfg_auth_anonymous c config = insert "auth.anonymous" (cfg_auth_anonymous_items c) config

unfoldable pub cfg_auth_items : GrafanaConfigAuth → List String
cfg_auth_items c =
    let items : List String = [] in
    let items = append_str items "login_cookie_name" c.login_cookie_name in
    let items =
      append_int items "login_maximum_inactive_lifetime_days"
        c.login_maximum_inactive_lifetime_days in
    let items = append_int items "login_maximum_lifetime_days" c.login_maximum_lifetime_days in
    let items =
      append_int items "token_rotation_interval_minutes" c.token_rotation_interval_minutes in
    let items = append_bool items "disable_login_form" c.disable_login_form in
    let items = append_bool items "disable_signout_menu" c.disable_signout_menu in
    let items = append_str items "signout_redirect_url" c.signout_redirect_url in
    let items = append_bool items "oauth_auto_login" c.oauth_auto_login in
    append_bool items "sigv4_auth_enabled" c.sig_v4_auth_enabled

unfoldable pub cfg_auth : GrafanaConfigAuth → Config → Config
cfg_auth c config = insert "auth" (cfg_auth_items c) config

unfoldable pub cfg_auth_saml_items : GrafanaConfigAuthSaml → List String
cfg_auth_saml_items c =
    let items : List String = [] in
    let items = append_bool items "enabled" c.enabled in
    let items = append_bool items "single_logout" c.single_logout in
    let items = append_bool items "allow_idp_initiated" c.allow_idp_initiated in
    let items = append_str items "certificate_path" c.certificate_path in
    let items = append_str items "private_key_path" c.key_path in
    let items = append_str items "signature_algorithm" c.signature_algorithm in
    let items = append_str items "idp_metadata_url" c.idp_url in
    let items = append_str items "max_issue_delay" c.max_issue_delay in
    let items = append_str items "metadata_valid_duration" c.metadata_valid_duration in
    let items = append_str items "relay_state" c.relay_state in
    let items = append_str items "assertion_attribute_name" c.assertion_attribute_name in
    let items = append_str items "assertion_attribute_login" c.assertion_attribute_login in
    let items = append_str items "assertion_attribute_email" c.assertion_attribute_email in
    let items = append_str items "assertion_attribute_groups" c.assertion_attribute_groups in
    let items = append_str items "assertion_attribute_role" c.assertion_attribute_role in
    let items = append_str items "assertion_attribute_org" c.assertion_attribute_org in
    let items = append_str items "allowed_organizations" c.allowed_organizations in
    let items = append_str items "org_mapping" c.org_mapping in
    let items = append_str items "role_values_editor" c.role_values_editor in
    let items = append_str items "role_values_admin" c.role_values_admin in
    append_str items "role_values_grafana_admin" c.role_values_grafana_admin

unfoldable pub cfg_auth_saml : GrafanaConfigAuthSaml → Config → Config
cfg_auth_saml c config = insert "auth.saml" (cfg_auth_saml_items c) config

unfoldable pub cfg_auth_azure_ad_items : GrafanaConfigAuthAzureAd → List String
cfg_auth_azure_ad_items c =
    let items : List String = [] in
    let items = append_bool items "enabled" c.enabled in
    let items = append_str items "client_id" c.client_id in
    let items = append_str items "client_secret" c.client_secret in
    let items = append_str items "scopes" c.scopes in
    let items = append_str items "auth_url" c.auth_url in
    let items = append_str items "token_url" c.token_url in
    let items = append_str items "allowed_domains" c.allowed_domains in
    let items = append_str items "allowed_groups" c.allowed_groups in
    append_bool items "allow_sign_up" c.allow_sign_up

unfoldable pub cfg_auth_azure_ad : GrafanaConfigAuthAzureAd → Config → Config
cfg_auth_azure_ad c config = insert "auth.azuread" (cfg_auth_azure_ad_items c) config

unfoldable pub cfg_auth_google_items : GrafanaConfigAuthGoogle → List String
cfg_auth_google_items c =
    let items : List String = [] in
    let items = append_bool items "enabled" c.enabled in
    let items = append_str items "client_id" c.client_id in
    let items = append_str items "client_secret" c.client_secret in
    let items = append_str items "scopes" c.scopes in
    let items = append_str items "auth_url" c.auth_url in
    let items = append_str items "token_url" c.token_url in
    let items = append_str items "allowed_domains" c.allowed_domains in
    append_bool items "allow_sign_up" c.allow_sign_up

unfoldable pub cfg_auth_google : GrafanaConfigAuthGoogle → Config → Config
cfg_auth_google c config = insert "auth.google" (cfg_auth_google_items c) config

unfoldable pub cfg_auth_git_hub_items : GrafanaConfigAuthGithub → List String
cfg_auth_git_hub_items c =
    let items : List String = [] in
    let items = append_bool items "enabled" c.enabled in
    let items = append_bool items "allow_sign_up" c.allow_sign_up in
    let items = append_str items "client_id" c.client_id in
    let items = append_str items "client_secret" c.client_secret in
    let items = append_str items "scopes" c.scopes in
    let items = append_str items "auth_url" c.auth_url in
    let items = append_str items "token_url" c.token_url in
    let items = append_str items "api_url" c.api_url in
    let items = append_str items "team_ids" c.team_ids in
    append_str items "allowed_organizations" c.allowed_organizations

unfoldable pub cfg_auth_git_hub : GrafanaConfigAuthGithub → Config → Config
cfg_auth_git_hub c config = insert "auth.github" (cfg_auth_git_hub_items c) config

unfoldable pub cfg_auth_gitlab_items : GrafanaConfigAuthGitlab → List String
cfg_auth_gitlab_items c =
    let items : List String = [] in
    let items = append_bool items "enabled" c.enabled in
    let items = append_bool items "allow_sign_up" c.allow_sign_up in
    let items = append_str items "client_id" c.client_id in
    let items = append_str items "client_secret" c.client_secret in
    let items = append_str items "scopes" c.scopes in
    let items = append_str items "auth_url" c.auth_url in
    let items = append_str items "token_url" c.token_url in append_str items "api_url" c.api_url

unfoldable pub cfg_auth_gitlab : GrafanaConfigAuthGitlab → Config → Config
cfg_auth_gitlab c config = insert "auth.gitlab" (cfg_auth_gitlab_items c) config

unfoldable pub cfg_auth_generic_oauth_items : GrafanaConfigAuthGenericOauth → List String
cfg_auth_generic_oauth_items c =
    let items : List String = [] in
    let items = append_bool items "enabled" c.enabled in
    let items = append_bool items "allow_sign_up" c.allow_sign_up in
    let items = append_str items "client_id" c.client_id in
    let items = append_str items "client_secret" c.client_secret in
    let items = append_str items "scopes" c.scopes in
    let items = append_str items "auth_url" c.auth_url in
    let items = append_str items "token_url" c.token_url in
    let items = append_str items "api_url" c.api_url in
    let items = append_str items "allowed_domains" c.allowed_domains in
    let items = append_str items "role_attribute_path" c.role_attribute_path in
    let items = append_bool items "role_attribute_strict" c.role_attribute_strict in
    let items = append_str items "email_attribute_path" c.email_attribute_path in
    let items = append_bool items "tls_skip_verify_insecure" c.tls_skip_verify_insecure in
    let items = append_str items "tls_client_cert" c.tls_client_cert in
    let items = append_str items "tls_client_key" c.tls_client_key in
    append_str items "tls_client_ca" c.tls_client_ca

unfoldable pub cfg_auth_generic_oauth : GrafanaConfigAuthGenericOauth → Config → Config
cfg_auth_generic_oauth c config =
    insert "auth.generic_oauth" (cfg_auth_generic_oauth_items c) config

unfoldable pub cfg_auth_ldap_items : GrafanaConfigAuthLdap → List String
cfg_auth_ldap_items c =
    let items : List String = [] in
    let items = append_bool items "enabled" c.enabled in
    let items = append_bool items "allow_sign_up" c.allow_sign_up in
    append_str items "config_file" c.config_file

unfoldable pub cfg_auth_ldap : GrafanaConfigAuthLdap → Config → Config
cfg_auth_ldap c config = insert "auth.ldap" (cfg_auth_ldap_items c) config

unfoldable pub cfg_auth_okta_items : GrafanaConfigAuthOkta → List String
cfg_auth_okta_items c =
    let items : List String = [] in
    let items = append_bool items "enabled" c.enabled in
    let items = append_str items "name" c.name in
    let items = append_bool items "allow_sign_up" c.allow_sign_up in
    let items = append_str items "client_id" c.client_id in
    let items = append_str items "client_secret" c.client_secret in
    let items = append_str items "scopes" c.scopes in
    let items = append_str items "auth_url" c.auth_url in
    let items = append_str items "token_url" c.token_url in
    let items = append_str items "api_url" c.api_url in
    let items = append_str items "allowed_domains" c.allowed_domains in
    let items = append_str items "allowed_groups" c.allowed_groups in
    let items = append_str items "role_attribute_path" c.role_attribute_path in
    append_bool items "role_attribute_strict" c.role_attribute_strict

unfoldable pub cfg_auth_okta : GrafanaConfigAuthOkta → Config → Config
cfg_auth_okta c config = insert "auth.okta" (cfg_auth_okta_items c) config

unfoldable pub cfg_auth_proxy_items : GrafanaConfigAuthProxy → List String
cfg_auth_proxy_items c =
    let items : List String = [] in
    let items = append_bool items "enabled" c.enabled in
    let items = append_str items "header_name" c.header_name in
    let items = append_str items "header_property" c.header_property in
    let items = append_bool items "auto_sign_up" c.auto_sign_up in
    let items = append_str items "ldap_sync_ttl" c.ldap_sync_ttl in
    let items = append_str items "whitelist" c.whitelist in
    let items = append_str items "headers" c.headers in
    append_bool items "enable_login_token" c.enable_login_token

unfoldable pub cfg_auth_proxy : GrafanaConfigAuthProxy → Config → Config
cfg_auth_proxy c config = insert "auth.proxy" (cfg_auth_proxy_items c) config
