-- ===== src/Ini/Types.antt =====
-- `GrafanaConfig` of api/integreatly/v1alpha1/grafana_types.go: the sections of grafana.ini that a
-- `Grafana` resource may configure, each behind a pointer.
mod General
mod Auth
mod Features
mod Storage
pub use General.{
  GrafanaConfigPaths, GrafanaConfigServer, GrafanaConfigDatabase, GrafanaConfigRemoteCache,
  GrafanaConfigSecurity, GrafanaConfigUsers, GrafanaConfigLog, GrafanaConfigLogConsole,
  GrafanaConfigLogFrontend,
}
pub use Auth.{
  GrafanaConfigAuth, GrafanaConfigAuthBasic, GrafanaConfigAuthAnonymous, GrafanaConfigAuthSaml,
  GrafanaConfigAuthAzureAd, GrafanaConfigAuthGoogle, GrafanaConfigAuthGithub,
  GrafanaConfigAuthGitlab, GrafanaConfigAuthGenericOauth, GrafanaConfigAuthOkta,
  GrafanaConfigAuthLdap, GrafanaConfigAuthProxy,
}
pub use Features.{
  GrafanaConfigDataProxy, GrafanaConfigAnalytics, GrafanaConfigDashboards, GrafanaConfigSmtp,
  GrafanaConfigLive, GrafanaConfigMetrics, GrafanaConfigMetricsGraphite, GrafanaConfigSnapshots,
  GrafanaConfigAlerting, GrafanaConfigUnifiedAlerting, GrafanaConfigPanels, GrafanaConfigPlugins,
  GrafanaConfigRendering, GrafanaConfigFeatureToggles,
}
pub use Storage.{
  GrafanaConfigExternalImageStorage, GrafanaConfigExternalImageStorageS3,
  GrafanaConfigExternalImageStorageWebdav, GrafanaConfigExternalImageStorageGcs,
  GrafanaConfigExternalImageStorageAzureBlob,
}
use grafana_operator.Common.{Option}

pub record GrafanaConfig : Type 0 where
  pub paths : Option GrafanaConfigPaths
  pub server : Option GrafanaConfigServer
  pub database : Option GrafanaConfigDatabase
  pub remote_cache : Option GrafanaConfigRemoteCache
  pub security : Option GrafanaConfigSecurity
  pub users : Option GrafanaConfigUsers
  pub auth : Option GrafanaConfigAuth
  pub auth_basic : Option GrafanaConfigAuthBasic
  pub auth_anonymous : Option GrafanaConfigAuthAnonymous
  pub auth_azure_ad : Option GrafanaConfigAuthAzureAd
  pub auth_google : Option GrafanaConfigAuthGoogle
  pub auth_github : Option GrafanaConfigAuthGithub
  pub auth_gitlab : Option GrafanaConfigAuthGitlab
  pub auth_generic_oauth : Option GrafanaConfigAuthGenericOauth
  pub auth_okta : Option GrafanaConfigAuthOkta
  pub auth_ldap : Option GrafanaConfigAuthLdap
  pub auth_proxy : Option GrafanaConfigAuthProxy
  pub auth_saml : Option GrafanaConfigAuthSaml
  pub data_proxy : Option GrafanaConfigDataProxy
  pub analytics : Option GrafanaConfigAnalytics
  pub dashboards : Option GrafanaConfigDashboards
  pub smtp : Option GrafanaConfigSmtp
  pub live : Option GrafanaConfigLive
  pub log : Option GrafanaConfigLog
  pub log_console : Option GrafanaConfigLogConsole
  pub log_frontend : Option GrafanaConfigLogFrontend
  pub metrics : Option GrafanaConfigMetrics
  pub metrics_graphite : Option GrafanaConfigMetricsGraphite
  pub snapshots : Option GrafanaConfigSnapshots
  pub external_image_storage : Option GrafanaConfigExternalImageStorage
  pub external_image_storage_s3 : Option GrafanaConfigExternalImageStorageS3
  pub external_image_storage_webdav : Option GrafanaConfigExternalImageStorageWebdav
  pub external_image_storage_gcs : Option GrafanaConfigExternalImageStorageGcs
  pub external_image_storage_azure_blob : Option GrafanaConfigExternalImageStorageAzureBlob
  pub alerting : Option GrafanaConfigAlerting
  pub unified_alerting : Option GrafanaConfigUnifiedAlerting
  pub panels : Option GrafanaConfigPanels
  pub plugins : Option GrafanaConfigPlugins
  pub rendering : Option GrafanaConfigRendering
  pub feature_toggles : Option GrafanaConfigFeatureToggles
