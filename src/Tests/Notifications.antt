-- ===== src/Tests/Notifications.antt =====
-- Notification channels: tests, and the theorems at concrete inputs.
use grafana_operator.Common.{
  String, ◌==◌, ◌&&◌, ◌≡◌, refl, none, some, List, [], ◌∷◌, swap_remove, Option, true, ℕ, suc, pos,
  insert, lookup, eq_iff, Bool-cases, inl, inr, if◌then◌else◌,
}
use grafana_operator.Dashboard.Json.{Library}
use grafana_operator.Dashboard.Processing.{unchanged, processed}
use grafana_operator.Notifications.Config.{
  GrafanaNotificationChannel, GrafanaNotificationChannelRef, NotificationControllerConfig,
  new_notification_config, channel_ref, add_notification_channel, remove_notification_channel,
  invalidate_notification_channels, get_notification_channels,
}
use grafana_operator.Notifications.Config.Laws.{find_channel, find_channel-add_notification_channel}
use grafana_operator.Notifications.Pipeline.{
  new_notification_channel_pipeline, process_notification_channel,
}
use grafana_operator.Common.Run.{ok, err, ◌>>=◌, ◌>>◌, return}
use grafana_operator.Config.ConfigValue.{flag}
use grafana_operator.Controllers.Dashboards.Publish.{not_found}
use grafana_operator.Controllers.Dashboards.Reconcile.{Request, done}
use grafana_operator.Notifications.Config.Placed.{IsPlaced}
use grafana_operator.Notifications.Controller.Known.{Outside}
use grafana_operator.Notifications.Controller.Publish.{ChannelsState}
use grafana_operator.Notifications.Controller.Reconcile.{reconcile_notifications}
use grafana_operator.Notifications.Controller.Places.{reconcile_notifications-IsPlaced}
use grafana_operator.Notifications.Client.{
  ChannelClient, new_channel_response, Op, op_create, op_delete, method_of, raw_url_of,
  request_body,
}

abbrev channel : (namespace name hash : String) → GrafanaNotificationChannel
channel namespace name hash = record {
  name = name;
  namespace = namespace;
  spec = record { json = "{}"; name = name };
  status = record { phase = ""; uid = name; id = 0; message = ""; hash = hash };
}

abbrev config : NotificationControllerConfig
config =
    add_notification_channel (channel "apps" "mail" "h1")
      (add_notification_channel (channel "apps" "chat" "h2") new_notification_config)

abbrev names : List GrafanaNotificationChannelRef → List (String × String)
names [] = []
names (v ∷ l) = (v.name, v.hash) ∷ names l

refreshed :
    names (
      get_notification_channels [] "apps"
        (add_notification_channel (channel "apps" "chat" "h3") config))
    ≡ (("chat", "h3") ∷ ("mail", "h1") ∷ [])
unfolding get_notification_channels add_notification_channel
refreshed = refl

removed :
    names (get_notification_channels [] "apps" (remove_notification_channel "apps" "chat" config))
    ≡ (("mail", "h1") ∷ [])
unfolding get_notification_channels add_notification_channel remove_notification_channel swap_remove
removed = refl

of_all_namespaces :
    names (
      get_notification_channels ("infra" ∷ "apps" ∷ []) "" (
        invalidate_notification_channels
          (add_notification_channel (channel "infra" "chat" "h4") config)))
    ≡ (("chat", "") ∷ ("chat", "") ∷ ("mail", "") ∷ [])
unfolding get_notification_channels add_notification_channel invalidate_notification_channels
of_all_namespaces = refl

abbrev library : Library
library = record {
  unmarshal = λ s. some (some []);
  marshal = λ m. some " {} ";
  sha1 = λ s. s;
  sha256 = λ s. s;
}

sent :
    (process_notification_channel library
      (λ s. "{}")
      (new_notification_channel_pipeline (channel "apps" "chat" ""))
      "").1
    ≡ processed "{}"
unfolding process_notification_channel new_notification_channel_pipeline
sent = refl

not_sent :
    (process_notification_channel library
      (λ s. s)
      (new_notification_channel_pipeline (channel "apps" "chat" ""))
      "{}").1
    ≡ unchanged
unfolding process_notification_channel new_notification_channel_pipeline
not_sent = refl

abbrev request : Op → String × (String × Option String)
request op = (method_of op, (raw_url_of op "http://g" "chat", request_body op "{}"))

request_to_delete :
    request op_delete ≡ ("DELETE", ("http://g/api/alert-notifications/uid/chat", none))
unfolding method_of raw_url_of request_body
request_to_delete = refl

request_to_create : request op_create ≡ ("POST", ("http://g/api/alert-notifications/", some "{}"))
unfolding method_of raw_url_of request_body
request_to_create = refl

find_channel-add_notification_channel_example :
    find_channel "apps" "chat" (add_notification_channel (channel "apps" "chat" "h3") config) ≡ (
      if "apps" == "apps" && "chat" == "chat"
      then some (channel_ref (channel "apps" "chat" "h3"))
      else find_channel "apps" "chat" config)
find_channel-add_notification_channel_example =
    find_channel-add_notification_channel (channel "apps" "chat" "h3") config "apps" "chat"

-- Grafana deletes what it is asked to, and the cluster has no channels.
abbrev client : ChannelClient String ℕ
client = record {
  create = λ channel n. (n, (new_channel_response, none));
  delete_by_uid = λ uid n. (suc n, (new_channel_response, none));
  update = λ channel uid n. (n, (new_channel_response, none));
  get = λ uid n. (n, (new_channel_response, none));
}

abbrev outside : Outside
outside = record {
  library = library;
  trim_space = λ s. s;
  Error = String;
  Network = ℕ;
  LabelSelector = ℕ;
  label_selector_as_selector = λ n. none;
  labels = λ c. [];
  unmarshal_channel = λ s. err "no channel";
  get_channel = λ namespace name n. not_found;
  list_channels = λ n. ok [];
  update_status = λ c n. (n, none);
  message = λ s. s;
  pipeline_error = λ p. "no json";
  order = "apps" ∷ [];
  new_client = λ url user password timeout. client;
}

abbrev one_channel : NotificationControllerConfig
one_channel = record {
  values = [];
  notification_channels = ("apps", channel_ref (channel "apps" "mail" "h1") ∷ []) ∷ [];
}

abbrev before : ChannelsState outside
before = record {
  config = one_channel;
  network = 0;
  events = [];
  environment = ("GF_SECURITY_ADMIN_USER", "admin") ∷ ("GF_SECURITY_ADMIN_PASSWORD", "secret") ∷ [];
  state = record {
    dashboard_selectors = none;
    dashboard_namespace_selector = none;
    admin_url = "http://grafana";
    grafana_ready = true;
    client_timeout = pos 5;
    admin_user = "";
  };
}

abbrev after : ChannelsState outside
after = record before {
  config = record {
    values = ("grafana.notificationchannels.synced", flag true) ∷ [];
    notification_channels = ("apps", []) ∷ [];
  };
  network = 1;
}

abbrev periodic : Request
periodic = record { namespace = "apps"; name = "" }

-- The channel that is no longer in the cluster is deleted.
reconciled : reconcile_notifications outside periodic before ≡ some (after, done)
unfolding reconcile_notifications ◌>>=◌ ◌>>◌ return insert swap_remove
reconciled = refl

one_channel-IsPlaced : IsPlaced one_channel
unfolding lookup channel_ref
one_channel-IsPlaced namespace = elim (Bool-cases ("apps" == namespace)) [
  | inl p ↦ rw p ((eq_iff "apps" namespace).0 p, tt)
  | inr p ↦ rw p tt
]

reconcile_notifications-IsPlaced_example : IsPlaced after.config
reconcile_notifications-IsPlaced_example =
    reconcile_notifications-IsPlaced outside periodic before after done reconciled
      one_channel-IsPlaced
