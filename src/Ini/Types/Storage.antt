-- ===== src/Ini/Types/Storage.antt =====
-- The structs of api/integreatly/v1alpha1/grafana_types.go that configure external image storage. A
-- pointer is an `Option`, and an `int` an integer.
use grafana_operator.Common.{String}

pub record GrafanaConfigExternalImageStorage : Type 0 where
  pub provider : String

pub record GrafanaConfigExternalImageStorageS3 : Type 0 where
  pub bucket : String
  pub region : String
  pub path : String
  pub bucket_url : String
  pub access_key : String
  pub secret_key : String

pub record GrafanaConfigExternalImageStorageWebdav : Type 0 where
  pub url : String
  pub public_url : String
  pub username : String
  pub password : String

pub record GrafanaConfigExternalImageStorageGcs : Type 0 where
  pub key_file : String
  pub bucket : String
  pub path : String

pub record GrafanaConfigExternalImageStorageAzureBlob : Type 0 where
  pub account_name : String
  pub account_key : String
  pub container_name : String
