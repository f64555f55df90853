-- ===== src/Notifications/Controller/Publish.antt =====
-- One channel: its status, and how it is sent to Grafana.
use grafana_operator.Common.{
  String, Bool, true, false, Option, none, some, List, [], ◌∷◌, ◌++◌, Assoc,
}
use grafana_operator.Common.Run.{Result, ok, err, Run, ◌>>=◌, ◌>>◌, return}
use grafana_operator.Dashboard.Processing.{Outcome, unchanged, processed, error, panicked}
use grafana_operator.Controllers.State.{ControllerState}
use grafana_operator.Controllers.Dashboards.Publish.{Event}
use grafana_operator.Notifications.Config.{
  GrafanaNotificationChannel, NotificationControllerConfig, add_notification_channel,
}
use grafana_operator.Notifications.Pipeline.{NotificationChannelPipeline}
use grafana_operator.Notifications.Client.{ChannelClient, ChannelResponse}
use grafana_operator.Notifications.Controller.Known.{
  GrafanaChannel, Outside, submitted_status, failing_status,
}

module _ (o : Outside) where
  pub record ChannelsState : Type 0 where
    pub config : NotificationControllerConfig
    pub network : o.Network
    pub events : List Event
    pub environment : Assoc String
    pub state : ControllerState o.LabelSelector

  abbrev pub Step : Type 0 → Type 0
  Step A = Run ChannelsState A

  abbrev pub Client : Type 0
  Client = ChannelClient o.Error o.Network

  unfoldable pub get_state : Step ChannelsState
  get_state s = some (s, s)

  unfoldable pub or_nil_panic : {A : Type 0} → Option A → Step A
  or_nil_panic none s = none
  or_nil_panic (some a) s = some (s, a)

  abbrev with_network : {A : Type 0} → ChannelsState → o.Network × A → ChannelsState × A
  with_network s (n, a) = (record s { network = n }, a)

  unfoldable pub request_outside : {A : Type 0} → (o.Network → o.Network × A) → Step A
  request_outside f s = some (with_network s (f s.network))

  unfoldable pub change_channels :
      (NotificationControllerConfig → NotificationControllerConfig) → Step Unit
  change_channels f s = some (record s { config = f s.config }, tt)

  unfoldable pub record_channel_event :
      GrafanaNotificationChannel → (event_type reason : String) → Step Unit
  record_channel_event channel event_type reason s =
      let event : Event = record {
        namespace = channel.namespace;
        name = channel.name;
        event_type = event_type;
        reason = reason;
      } in
      some (record s { events = s.events ++ event ∷ [] }, tt)

  -- An update of the status that fails is ignored, or logged.
  unfoldable pub manage_channel_error : GrafanaNotificationChannel → (issue : o.Error) → Step Unit
  unfolding record_channel_event request_outside
  manage_channel_error channel issue = do
    record_channel_event channel "Warning" "ProcessingError"
    request_outside (o.update_status (failing_status channel (o.message issue)))
    return tt

  abbrev pub if_status_failed : GrafanaNotificationChannel → Option o.Error → Step Unit
  if_status_failed channel none = return tt
  if_status_failed channel (some e) = manage_channel_error channel e

  -- With what the loop does if the update of the status fails.
  unfoldable pub manage_channel_success :
      GrafanaNotificationChannel → ChannelResponse → (hash : String) → Step Unit
  unfolding record_channel_event or_nil_panic change_channels add_notification_channel
      request_outside manage_channel_error
  manage_channel_success channel status hash = do
    record_channel_event channel "Normal" "Success"
    uid ← or_nil_panic status.uid
    id ← or_nil_panic status.id
    let submitted = submitted_status channel uid id hash
    change_channels (add_notification_channel submitted)
    e ← request_outside (o.update_status submitted)
    if_status_failed submitted e

  -- An error of reading the channel is taken for one that Grafana does not have.
  abbrev pub create_or_update_channel :
      Client → (raw uid : String) → Option o.Error → Step (ChannelResponse × Option o.Error)
  create_or_update_channel client raw uid (some e) = request_outside (client.create raw)
  create_or_update_channel client raw uid none = request_outside (client.update raw uid)

  abbrev pub channel_submitted :
      GrafanaNotificationChannel → (hash : String) → ChannelResponse × Option o.Error → Step Unit
  channel_submitted channel hash (status, some e) = manage_channel_error channel e
  channel_submitted channel hash (status, none) = manage_channel_success channel status hash

  -- Whether the loop goes on: a document that cannot be decoded ends the reconciliation.
  unfoldable pub submit_channel :
      Client
      → NotificationChannelPipeline
      → (raw : String) → Result o.Error GrafanaChannel
      → Step Bool
  unfolding or_nil_panic request_outside manage_channel_error manage_channel_success
  submit_channel client p raw (err e) = return false
  submit_channel client p raw (ok channel) = do
    uid ← or_nil_panic channel.uid
    (_, e) ← request_outside (client.get uid)
    result ← create_or_update_channel client raw uid e
    channel_submitted p.notification_channel p.hash result
    return true

  abbrev pub channel_processed : Client → NotificationChannelPipeline × Outcome → Step Bool
  channel_processed client (p, processed raw) =
      submit_channel client p raw (o.unmarshal_channel raw)
  channel_processed client (p, unchanged) = return true
  channel_processed client (p, error) =
      manage_channel_error p.notification_channel (o.pipeline_error p) >> return true
  channel_processed client (p, panicked) = or_nil_panic none
