-- ===== src/Notifications/Pipeline.antt =====
-- controllers/grafananotificationchannel/grafananotificationchannel_pipeline.go. The field `Channel` of the
-- source, which only one run reads, is passed on.
use grafana_operator.Common.{String, ◌==◌, Option, none, some, Assoc, if◌then◌else◌}
use grafana_operator.Dashboard.Json.{Json, Library}
use grafana_operator.Dashboard.Processing.{Outcome, unchanged, processed, error}
use grafana_operator.Notifications.Config.{GrafanaNotificationChannel}

pub record NotificationChannelPipeline : Type 0 where
  pub notification_channel : GrafanaNotificationChannel
  pub json : String
  pub hash : String

unfoldable pub new_notification_channel_pipeline :
    GrafanaNotificationChannel → NotificationChannelPipeline
new_notification_channel_pipeline channel = record {
  notification_channel = channel;
  json = "";
  hash = "";
}

-- `none` is an error.
unfoldable pub obtain_channel_json :
    NotificationChannelPipeline → Option NotificationChannelPipeline
obtain_channel_json r =
    if r.notification_channel.spec.json == ""
    then none
    else some (record r { json = r.notification_channel.spec.json })

-- `json.Marshal` of a map that is nil writes `null`.
abbrev pub marshal_map : Library → Option (Assoc Json) → Option String
marshal_map library none = some "null"
marshal_map library (some channel) = library.marshal channel

-- `trim_space` is `bytes.TrimSpace`.
module _ (library : Library) (trim_space : String → String) where
  unfoldable pub generate_channel_hash : NotificationChannelPipeline → String
  generate_channel_hash r = library.sha256 r.notification_channel.spec.json

  abbrev pub written : Option String → Outcome
  written none = error
  written (some raw) = processed (trim_space raw)

  -- What comes after `validateJson`, which decodes the document.
  abbrev pub validated_channel : Option (Option (Assoc Json)) → Outcome
  validated_channel none = error
  validated_channel (some channel) = written (marshal_map library channel)

  abbrev pub with_json :
      (known_hash : String)
      → NotificationChannelPipeline
      → Option NotificationChannelPipeline
      → NotificationChannelPipeline × Outcome
  with_json known_hash before none = (before, error)
  with_json known_hash before (some r) =
      let hash = generate_channel_hash r in
      if hash == known_hash
      then (record r { hash = known_hash }, unchanged)
      else (record r { hash = hash }, validated_channel (library.unmarshal r.json))

  unfoldable pub process_notification_channel :
      NotificationChannelPipeline → (known_hash : String) → NotificationChannelPipeline × Outcome
  unfolding obtain_channel_json generate_channel_hash
  process_notification_channel r known_hash = with_json known_hash r (obtain_channel_json r)
