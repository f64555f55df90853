-- ===== src/Notifications/Controller/Reconcile.antt =====
-- `reconcileNotificationChannels`, and `Reconcile` with what it calls.
use grafana_operator.Common.{
  String, ◌==◌, Bool, true, false, Option, none, some, List, [], ◌∷◌, Assoc, lookup, if◌then◌else◌,
}
use grafana_operator.Common.Run.{Result, ok, err, ◌>>=◌, ◌>>◌, return}
use grafana_operator.Config.ConfigValue.{flag, add_config_item}
use grafana_operator.Controllers.State.{ControllerState}
use grafana_operator.Controllers.Selectors.{matches_selectors}
use grafana_operator.Controllers.Dashboards.Publish.{Found, found, not_found, failed}
use grafana_operator.Controllers.Dashboards.Reconcile.{
  Reconciled, Request, done, requeue_after_delay, failed_at_once, variable,
}
use grafana_operator.Notifications.Config.{
  GrafanaNotificationChannel, GrafanaNotificationChannelRef, NotificationControllerConfig,
  remove_notification_channel,
}
use grafana_operator.Notifications.Pipeline.{
  new_notification_channel_pipeline, process_notification_channel,
}
use grafana_operator.Notifications.Controller.Known.{
  Outside, KnownChannels, known_channels, known_at_first, find_channel_hash, channels_to_delete,
  deletion_logged,
}
use grafana_operator.Notifications.Controller.Publish.{
  ChannelsState, Step, Client, get_state, or_nil_panic, request_outside, change_channels,
  manage_channel_error, submit_channel, channel_processed,
}

module _ (o : Outside) where
  abbrev or_no_match : Option Bool → Bool
  or_no_match none = false
  or_no_match (some match) = match

  unfoldable pub is_channel_match :
      Option (List o.LabelSelector) → GrafanaNotificationChannel → Bool
  unfolding matches_selectors
  is_channel_match none item = false
  is_channel_match (some selectors) item =
      or_no_match
        (matches_selectors o.LabelSelector o.label_selector_as_selector (o.labels item) selectors)

  unfoldable pub reconcile_channel :
      Client o → KnownChannels → GrafanaNotificationChannel → Step o Bool
  unfolding is_channel_match known_channels find_channel_hash process_notification_channel
      new_notification_channel_pipeline submit_channel manage_channel_error or_nil_panic get_state
  reconcile_channel client known channel = do
    s ← get_state o
    if is_channel_match s.state.dashboard_selectors channel
        then channel_processed o client (
            process_notification_channel o.library o.trim_space
              (new_notification_channel_pipeline channel)
              (find_channel_hash (known_channels known s.config) channel))
        else return true

  abbrev pub go_on_with : Bool → Step o Bool → Step o Bool
  go_on_with true rest = rest
  go_on_with false rest = return false

  unfoldable pub reconcile_each_channel :
      Client o → KnownChannels → List GrafanaNotificationChannel → Step o Bool
  unfolding reconcile_channel
  reconcile_each_channel client known [] = return true
  reconcile_each_channel client known (channel ∷ l) = do
    goes_on ← reconcile_channel client known channel
    go_on_with goes_on (reconcile_each_channel client known l)

  -- The reference is removed even if Grafana could not delete the channel.
  unfoldable pub delete_channel : Client o → GrafanaNotificationChannelRef → Step o Unit
  unfolding request_outside or_nil_panic change_channels remove_notification_channel
  delete_channel client v = do
    status ← request_outside o (client.delete_by_uid v.uid)
    or_nil_panic o (deletion_logged status)
    change_channels o (remove_notification_channel v.namespace v.name)

  unfoldable pub delete_channels : Client o → List GrafanaNotificationChannelRef → Step o Unit
  unfolding delete_channel
  delete_channels client [] = return tt
  delete_channels client (v ∷ l) = do delete_channel client v; delete_channels client l

  abbrev pub mark_synced : NotificationControllerConfig → NotificationControllerConfig
  mark_synced c = record c {
    values = add_config_item "grafana.notificationchannels.synced" (flag true) c.values;
  }

  abbrev pub finish_channels :
      Client o → List GrafanaNotificationChannelRef → (goes_on : Bool) → Step o Reconciled
  finish_channels client to_delete false = return failed_at_once
  finish_channels client to_delete true = do
    delete_channels client to_delete
    change_channels o mark_synced
    return done

  abbrev pub reconcile_channel_items :
      Client o
      → KnownChannels
      → Result o.Error (List GrafanaNotificationChannel)
      → Step o Reconciled
  reconcile_channel_items client known (err e) = return failed_at_once
  reconcile_channel_items client known (ok items) = do
    s ← get_state o
    let to_delete = channels_to_delete items (known_channels known s.config)
    goes_on ← reconcile_each_channel client known items
    finish_channels client to_delete goes_on

  -- The channels of all namespaces are listed, whatever the namespace of the request.
  unfoldable pub reconcile_notification_channels :
      (namespace : String) → Client o → Step o Reconciled
  unfolding known_at_first known_channels channels_to_delete reconcile_each_channel delete_channels
      change_channels add_config_item get_state
  reconcile_notification_channels namespace client = do
    s ← get_state o
    reconcile_channel_items client (known_at_first o.order namespace s.config)
        (o.list_channels s.network)

  -- `none` is an error.
  unfoldable pub get_channel_client :
      ControllerState o.LabelSelector → (environment : Assoc String) → Option (Client o)
  unfolding lookup
  get_channel_client state environment =
      let username = variable "GF_SECURITY_ADMIN_USER" environment in
      let password = variable "GF_SECURITY_ADMIN_PASSWORD" environment in
      if state.admin_url == ""
      then none
      else if username == ""
      then none
      else if password == ""
      then none
      else some (o.new_client state.admin_url username password state.client_timeout)

  abbrev pub reconcile_channel_instance :
      Client o
      → Request
      → Option (List o.LabelSelector)
      → Found GrafanaNotificationChannel
      → Step o Reconciled
  reconcile_channel_instance client request selectors failed = return failed_at_once
  reconcile_channel_instance client request selectors not_found =
      reconcile_notification_channels request.namespace client
  reconcile_channel_instance client request selectors (found channel) =
      if is_channel_match selectors channel
      then reconcile_notification_channels request.namespace client
      else return done

  abbrev pub reconcile_channel_request :
      Client o → Request → Option (List o.LabelSelector) → o.Network → Step o Reconciled
  reconcile_channel_request client request none n = return requeue_after_delay
  reconcile_channel_request client request (some selectors) n =
      reconcile_channel_instance client request (some selectors)
        (o.get_channel request.namespace request.name n)

  -- Without a client it is repeated after the delay, with no error.
  abbrev pub reconcile_channels_with :
      Request → ChannelsState o → Option (Client o) → Step o Reconciled
  reconcile_channels_with request s none = return requeue_after_delay
  reconcile_channels_with request s (some client) =
      if request.name == ""
      then reconcile_notification_channels request.namespace client
      else reconcile_channel_request client request s.state.dashboard_selectors s.network

  abbrev pub if_grafana_ready : Bool → Step o Reconciled → Step o Reconciled
  if_grafana_ready true next = next
  if_grafana_ready false next = return done

  unfoldable pub reconcile_notifications : Request → Step o Reconciled
  unfolding get_channel_client reconcile_notification_channels is_channel_match get_state
  reconcile_notifications request = do
    s ← get_state o
    if_grafana_ready s.state.grafana_ready
        (reconcile_channels_with request s (get_channel_client s.state s.environment))
