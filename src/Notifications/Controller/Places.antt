-- ===== src/Notifications/Controller/Places.antt =====
-- Whatever the cluster and Grafana answer, every reference stays under its own namespace.
use grafana_operator.Common.{String, ◌≡◌, Bool, true, false, Option, none, some, List, [], ◌∷◌}
use grafana_operator.Common.Run.{Result, ok, err}
use grafana_operator.Common.Keeps.{Keeps, Keeps-bind, Keeps-then, keeps_rules, Keeps-result}
use grafana_operator.Dashboard.Processing.{Outcome, unchanged, processed, error, panicked}
use grafana_operator.Controllers.Dashboards.Publish.{Found, found, not_found, failed}
use grafana_operator.Controllers.Dashboards.Reconcile.{Reconciled, Request}
use grafana_operator.Notifications.Config.{
  GrafanaNotificationChannel, GrafanaNotificationChannelRef, add_notification_channel,
  remove_notification_channel,
}
use grafana_operator.Notifications.Config.Placed.{
  IsPlaced, add_notification_channel-IsPlaced, remove_notification_channel-IsPlaced,
}
use grafana_operator.Notifications.Pipeline.{NotificationChannelPipeline}
use grafana_operator.Notifications.Client.{ChannelResponse}
use grafana_operator.Notifications.Controller.Known.{GrafanaChannel, Outside, KnownChannels}
use grafana_operator.Notifications.Controller.Publish.{
  ChannelsState, Step, Client, get_state, or_nil_panic, request_outside, change_channels,
  record_channel_event, manage_channel_error, if_status_failed, manage_channel_success,
  create_or_update_channel, channel_submitted, submit_channel, channel_processed,
}
use grafana_operator.Notifications.Controller.Reconcile.{
  reconcile_channel, go_on_with, reconcile_each_channel, delete_channel, delete_channels,
  mark_synced, finish_channels, reconcile_channel_items, reconcile_notification_channels,
  reconcile_channel_instance, reconcile_channel_request, reconcile_channels_with, if_grafana_ready,
  reconcile_notifications,
}

module _ (o : Outside) where
  abbrev Placed : ChannelsState o → Type 0
  Placed s = IsPlaced s.config

  get_state-Keeps : Keeps Placed (get_state o)
  unfolding get_state
  get_state-Keeps = record { at = λ s h. h }

  or_nil_panic-Keeps : {A : Type 0} (a : Option A) → Keeps Placed (or_nil_panic o a)
  unfolding or_nil_panic
  or_nil_panic-Keeps none = record { at = λ s h. tt }
  or_nil_panic-Keeps (some a) = record { at = λ s h. h }

  request_outside-Keeps :
      {A : Type 0} (f : o.Network → o.Network × A) → Keeps Placed (request_outside o f)
  unfolding request_outside
  request_outside-Keeps f = record { at = λ s h. h }

  record_channel_event-Keeps :
      (channel : GrafanaNotificationChannel) (event_type reason : String)
      → Keeps Placed (record_channel_event o channel event_type reason)
  unfolding record_channel_event
  record_channel_event-Keeps channel event_type reason = record { at = λ s h. h }

  add-Keeps :
      (channel : GrafanaNotificationChannel)
      → Keeps Placed (change_channels o (add_notification_channel channel))
  unfolding change_channels
  add-Keeps channel = record { at = λ s h. add_notification_channel-IsPlaced channel s.config h }

  remove-Keeps :
      (namespace name : String)
      → Keeps Placed (change_channels o (remove_notification_channel namespace name))
  unfolding change_channels
  remove-Keeps namespace name = record {
    at = λ s h. remove_notification_channel-IsPlaced namespace name s.config h;
  }

  mark_synced-Keeps : Keeps Placed (change_channels o (mark_synced o))
  unfolding change_channels
  mark_synced-Keeps = record { at = λ s h. h }

  ruleset channel_rules = (
    keeps_rules, get_state-Keeps, or_nil_panic-Keeps, request_outside-Keeps,
    record_channel_event-Keeps, add-Keeps, remove-Keeps, mark_synced-Keeps,
  )

  manage_channel_error-Keeps :
      (channel : GrafanaNotificationChannel) (issue : o.Error)
      → Keeps Placed (manage_channel_error o channel issue)
  unfolding manage_channel_error
  manage_channel_error-Keeps channel issue = search channel_rules depth 9

  if_status_failed-Keeps :
      (channel : GrafanaNotificationChannel) (e : Option o.Error)
      → Keeps Placed (if_status_failed o channel e)
  if_status_failed-Keeps channel none = search channel_rules
  if_status_failed-Keeps channel (some e) = manage_channel_error-Keeps channel e

  manage_channel_success-Keeps :
      (channel : GrafanaNotificationChannel) (status : ChannelResponse) (hash : String)
      → Keeps Placed (manage_channel_success o channel status hash)
  unfolding manage_channel_success
  manage_channel_success-Keeps channel status hash =
      search (channel_rules, if_status_failed-Keeps) depth 16

  create_or_update_channel-Keeps :
      (client : Client o) (raw uid : String) (e : Option o.Error)
      → Keeps Placed (create_or_update_channel o client raw uid e)
  create_or_update_channel-Keeps client raw uid none = search channel_rules
  create_or_update_channel-Keeps client raw uid (some e) = search channel_rules

  channel_submitted-Keeps :
      (channel : GrafanaNotificationChannel) (hash : String)
      (result : ChannelResponse × Option o.Error)
      → Keeps Placed (channel_submitted o channel hash result)
  channel_submitted-Keeps channel hash (status, some e) = manage_channel_error-Keeps channel e
  channel_submitted-Keeps channel hash (status, none) =
      manage_channel_success-Keeps channel status hash

  submit_channel-Keeps :
      (client : Client o) (p : NotificationChannelPipeline) (raw : String)
      (channel : Result o.Error GrafanaChannel)
      → Keeps Placed (submit_channel o client p raw channel)
  unfolding submit_channel
  submit_channel-Keeps client p raw (err e) = search channel_rules
  submit_channel-Keeps client p raw (ok channel) =
      search (channel_rules, create_or_update_channel-Keeps, channel_submitted-Keeps) depth 14

  channel_processed-Keeps :
      (client : Client o) (result : NotificationChannelPipeline × Outcome)
      → Keeps Placed (channel_processed o client result)
  channel_processed-Keeps client (p, processed raw) =
      submit_channel-Keeps client p raw (o.unmarshal_channel raw)
  channel_processed-Keeps client (p, unchanged) = search channel_rules
  channel_processed-Keeps client (p, error) =
      search (channel_rules, manage_channel_error-Keeps) depth 6
  channel_processed-Keeps client (p, panicked) = search channel_rules

  reconcile_channel-Keeps :
      (client : Client o) (known : KnownChannels) (channel : GrafanaNotificationChannel)
      → Keeps Placed (reconcile_channel o client known channel)
  unfolding reconcile_channel
  reconcile_channel-Keeps client known channel =
      search (channel_rules, channel_processed-Keeps) depth 9

  go_on_with-Keeps :
      (b : Bool) (rest : Step o Bool) → Keeps Placed rest → Keeps Placed (go_on_with o b rest)
  go_on_with-Keeps true rest k = k
  go_on_with-Keeps false rest k = search channel_rules

  reconcile_each_channel-Keeps :
      (client : Client o) (known : KnownChannels) (l : List GrafanaNotificationChannel)
      → Keeps Placed (reconcile_each_channel o client known l)
  unfolding reconcile_each_channel
  reconcile_each_channel-Keeps client known [] = search channel_rules
  reconcile_each_channel-Keeps client known (channel ∷ l) =
      Keeps-bind _ _ (reconcile_channel-Keeps client known channel)
        (λ goes_on. go_on_with-Keeps goes_on _ (reconcile_each_channel-Keeps client known l))

  delete_channel-Keeps :
      (client : Client o) (v : GrafanaNotificationChannelRef)
      → Keeps Placed (delete_channel o client v)
  unfolding delete_channel
  delete_channel-Keeps client v = search channel_rules depth 9

  delete_channels-Keeps :
      (client : Client o) (l : List GrafanaNotificationChannelRef)
      → Keeps Placed (delete_channels o client l)
  unfolding delete_channels
  delete_channels-Keeps client [] = search channel_rules
  delete_channels-Keeps client (v ∷ l) =
      Keeps-then _ _ (delete_channel-Keeps client v) (delete_channels-Keeps client l)

  finish_channels-Keeps :
      (client : Client o) (l : List GrafanaNotificationChannelRef) (goes_on : Bool)
      → Keeps Placed (finish_channels o client l goes_on)
  finish_channels-Keeps client l false = search channel_rules
  finish_channels-Keeps client l true = search (channel_rules, delete_channels-Keeps) depth 9

  reconcile_channel_items-Keeps :
      (client : Client o) (known : KnownChannels)
      (items : Result o.Error (List GrafanaNotificationChannel))
      → Keeps Placed (reconcile_channel_items o client known items)
  reconcile_channel_items-Keeps client known (err e) = search channel_rules
  reconcile_channel_items-Keeps client known (ok items) =
      search (channel_rules, reconcile_each_channel-Keeps, finish_channels-Keeps) depth 12

  reconcile_notification_channels-Keeps :
      (client : Client o) (namespace : String)
      → Keeps Placed (reconcile_notification_channels o namespace client)
  unfolding reconcile_notification_channels
  reconcile_notification_channels-Keeps client namespace =
      search (channel_rules, reconcile_channel_items-Keeps) depth 9

  reconcile_channel_instance-Keeps :
      (client : Client o) (request : Request) (selectors : Option (List o.LabelSelector))
      (instance_found : Found GrafanaNotificationChannel)
      → Keeps Placed (reconcile_channel_instance o client request selectors instance_found)
  reconcile_channel_instance-Keeps client request selectors failed = search channel_rules
  reconcile_channel_instance-Keeps client request selectors not_found =
      reconcile_notification_channels-Keeps client request.namespace
  reconcile_channel_instance-Keeps client request selectors (found channel) =
      search (channel_rules, reconcile_notification_channels-Keeps) depth 6

  reconcile_channel_request-Keeps :
      (client : Client o) (request : Request) (selectors : Option (List o.LabelSelector))
      (n : o.Network)
      → Keeps Placed (reconcile_channel_request o client request selectors n)
  reconcile_channel_request-Keeps client request none n = search channel_rules
  reconcile_channel_request-Keeps client request (some selectors) n =
      reconcile_channel_instance-Keeps client request (some selectors)
        (o.get_channel request.namespace request.name n)

  reconcile_channels_with-Keeps :
      (request : Request) (s : ChannelsState o) (client : Option (Client o))
      → Keeps Placed (reconcile_channels_with o request s client)
  reconcile_channels_with-Keeps request s none = search channel_rules
  reconcile_channels_with-Keeps request s (some client) =
      search (channel_rules, reconcile_notification_channels-Keeps, reconcile_channel_request-Keeps)
        depth 6

  if_grafana_ready-Keeps :
      (b : Bool) (next : Step o Reconciled)
      → Keeps Placed next
      → Keeps Placed (if_grafana_ready o b next)
  if_grafana_ready-Keeps true next k = k
  if_grafana_ready-Keeps false next k = search channel_rules

  reconcile_notifications-Keeps :
      (request : Request) → Keeps Placed (reconcile_notifications o request)
  unfolding reconcile_notifications
  reconcile_notifications-Keeps request =
      search (channel_rules, if_grafana_ready-Keeps, reconcile_channels_with-Keeps) depth 9

  -- Whatever the cluster and Grafana answer, and whatever is asked for: if every reference in the
  -- configuration stands under its own namespace, and a reconciliation of notification channels returns,
  -- then every reference does in the state that it leaves.
  pub reconcile_notifications-IsPlaced :
      (request : Request) (s s' : ChannelsState o) (result : Reconciled)
      → reconcile_notifications o request s ≡ some (s', result)
      → IsPlaced s.config
      → IsPlaced s'.config
  reconcile_notifications-IsPlaced request s s' result e h =
      Keeps-result (reconcile_notifications o request) s s' result
        (reconcile_notifications-Keeps request) e h
