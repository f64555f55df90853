-- ===== src/Ini/Sections/Storage.antt =====
-- The sections of external image storage: the `cfg...` methods of controllers/config/grafanaIni.go
-- and the blocks of `parseConfig` that have no method of their own.
use grafana_operator.Common.{String, List, [], insert}
use grafana_operator.Ini.Types.{
  GrafanaConfigExternalImageStorage, GrafanaConfigExternalImageStorageS3,
  GrafanaConfigExternalImageStorageWebdav, GrafanaConfigExternalImageStorageGcs,
  GrafanaConfigExternalImageStorageAzureBlob,
}
use grafana_operator.Ini.Items.{Config, append_str}

unfoldable pub cfg_external_image_storage_items : GrafanaConfigExternalImageStorage → List String
cfg_external_image_storage_items c =
    let items : List String = [] in append_str items "provider" c.provider

unfoldable pub cfg_external_image_storage : GrafanaConfigExternalImageStorage → Config → Config
cfg_external_image_storage c config =
    insert "external_image_storage" (cfg_external_image_storage_items c) config

unfoldable pub cfg_external_image_storage_s3_items :
    GrafanaConfigExternalImageStorageS3 → List String
cfg_external_image_storage_s3_items c =
    let items : List String = [] in
    let items = append_str items "bucket" c.bucket in
    let items = append_str items "region" c.region in
    let items = append_str items "path" c.path in
    let items = append_str items "bucket_url" c.bucket_url in
    let items = append_str items "access_key" c.access_key in
    append_str items "secret_key" c.secret_key

unfoldable pub cfg_external_image_storage_s3 : GrafanaConfigExternalImageStorageS3 → Config → Config
cfg_external_image_storage_s3 c config =
    insert "external_image_storage.s3" (cfg_external_image_storage_s3_items c) config

unfoldable pub cfg_external_image_storage_webdav_items :
    GrafanaConfigExternalImageStorageWebdav → List String
cfg_external_image_storage_webdav_items c =
    let items : List String = [] in
    let items = append_str items "url" c.url in
    let items = append_str items "public_url" c.public_url in
    let items = append_str items "username" c.username in append_str items "password" c.password

unfoldable pub cfg_external_image_storage_webdav :
    GrafanaConfigExternalImageStorageWebdav → Config → Config
cfg_external_image_storage_webdav c config =
    insert "external_image_storage.webdav" (cfg_external_image_storage_webdav_items c) config

unfoldable pub cfg_external_image_storage_gcs_items :
    GrafanaConfigExternalImageStorageGcs → List String
cfg_external_image_storage_gcs_items c =
    let items : List String = [] in
    let items = append_str items "key_file" c.key_file in
    let items = append_str items "bucket" c.bucket in append_str items "path" c.path

unfoldable pub cfg_external_image_storage_gcs :
    GrafanaConfigExternalImageStorageGcs → Config → Config
cfg_external_image_storage_gcs c config =
    insert "external_image_storage.gcs" (cfg_external_image_storage_gcs_items c) config

unfoldable pub cfg_external_image_storage_azure_blob_items :
    GrafanaConfigExternalImageStorageAzureBlob → List String
cfg_external_image_storage_azure_blob_items c =
    let items : List String = [] in
    let items = append_str items "account_name" c.account_name in
    let items = append_str items "account_key" c.account_key in
    append_str items "container_name" c.container_name

unfoldable pub cfg_external_image_storage_azure_blob :
    GrafanaConfigExternalImageStorageAzureBlob → Config → Config
cfg_external_image_storage_azure_blob c config =
    insert "external_image_storage.azure_blob" (cfg_external_image_storage_azure_blob_items c)
      config
