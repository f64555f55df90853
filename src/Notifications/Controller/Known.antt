-- ===== src/Notifications/Controller/Known.antt =====
-- The packages around the controller, and the channels that are known when a reconciliation starts.
use grafana_operator.Common.{
  String, ◌==◌, ℕ, zero, suc, Bool, true, false, Option, none, some, List, [], ◌∷◌, ◌++◌, length, ℤ,
  Assoc, lookup, if◌then◌else◌,
}
use grafana_operator.Common.Run.{Result}
use grafana_operator.Dashboard.Json.{Library}
use grafana_operator.Controllers.Selectors.{Selector}
use grafana_operator.Controllers.Dashboards.Publish.{Found}
use grafana_operator.Notifications.Config.{
  GrafanaNotificationChannel, GrafanaNotificationChannelRef, NotificationControllerConfig,
  channels_at,
}
use grafana_operator.Notifications.Pipeline.{NotificationChannelPipeline}
use grafana_operator.Notifications.Client.{ChannelClient, ChannelResponse}

pub record GrafanaChannel : Type 0 where
  pub id : Option ℕ
  pub uid : Option String
  pub name : Option String
  pub channel_type : Option String
  pub is_default : Option Bool
  pub send_reminder : Option Bool
  pub disable_resolve_message : Option Bool

-- The packages around the controller: the client of the cluster, encoding/json, the label selectors, the
-- client of Grafana, and the order in which the runtime ranges over the namespaces. `pipeline_error` is the
-- error with which the pipeline ended, which its outcome leaves out.
pub record Outside : Type 1 where
  pub library : Library
  pub trim_space : String → String
  pub Error : Type 0
  pub Network : Type 0
  pub LabelSelector : Type 0
  pub label_selector_as_selector : LabelSelector → Option Selector
  pub labels : GrafanaNotificationChannel → Assoc String
  pub unmarshal_channel : String → Result Error GrafanaChannel
  pub get_channel : (namespace name : String) → Network → Found GrafanaNotificationChannel
  pub list_channels : Network → Result Error (List GrafanaNotificationChannel)
  pub update_status : GrafanaNotificationChannel → Network → Network × Option Error
  pub message : Error → String
  pub pipeline_error : NotificationChannelPipeline → Error
  pub order : List String
  pub new_client : (url user password : String) → (timeout : ℤ) → ChannelClient Error Network

-- The references that are known: under each namespace as many as there were. They are pointers, so that
-- what changes in one shows here.
abbrev pub KnownChannels : Type 0
KnownChannels = List (String × ℕ)

abbrev take_refs : ℕ → List GrafanaNotificationChannelRef → List GrafanaNotificationChannelRef
take_refs zero l = []
take_refs (suc n) [] = []
take_refs (suc n) (v ∷ l) = v ∷ take_refs n l

unfoldable pub known_channels :
    KnownChannels → NotificationControllerConfig → List GrafanaNotificationChannelRef
unfolding lookup
known_channels [] c = []
known_channels ((namespace, n) ∷ known) c =
    take_refs n (channels_at namespace c) ++ known_channels known c

abbrev sizes : List String → NotificationControllerConfig → KnownChannels
sizes [] c = []
sizes (namespace ∷ order) c = (namespace, length (channels_at namespace c)) ∷ sizes order c

-- `r.config.GetNotificationChannels(request.Namespace)`
unfoldable pub known_at_first :
    (order : List String) → (namespace : String) → NotificationControllerConfig → KnownChannels
unfolding lookup
known_at_first order namespace c =
    if namespace == "" then sizes order c else sizes (namespace ∷ []) c

-- By the name alone, whatever the namespace.
unfoldable pub is_channel_listed : List GrafanaNotificationChannel → (item : String) → Bool
is_channel_listed [] item = false
is_channel_listed (channel ∷ l) item =
    if channel.name == item then true else is_channel_listed l item

unfoldable pub find_channel_hash :
    List GrafanaNotificationChannelRef → GrafanaNotificationChannel → String
find_channel_hash [] item = ""
find_channel_hash (d ∷ l) item = if item.name == d.name then d.hash else find_channel_hash l item

unfoldable pub channels_to_delete :
    List GrafanaNotificationChannel
    → List GrafanaNotificationChannelRef
    → List GrafanaNotificationChannelRef
unfolding is_channel_listed
channels_to_delete items [] = []
channels_to_delete items (v ∷ l) =
    let rest = channels_to_delete items l in
    if is_channel_listed items v.name then rest else v ∷ rest

-- What is logged of a deletion: the identifier, and before it the message if there is an error.
abbrev pub deletion_logged : {E : Type 0} → ChannelResponse × Option E → Option String
deletion_logged (response, none) = response.uid
deletion_logged (response, some e) = elim response.message [ none ↦ none | some _ ↦ response.uid ]

abbrev pub submitted_status :
    GrafanaNotificationChannel
    → (uid : String) → (id : ℕ) → (hash : String) → GrafanaNotificationChannel
submitted_status channel uid id hash = record channel {
  status = record { phase = "reconciling"; uid = uid; id = id; message = "success"; hash = hash };
}

abbrev pub failing_status :
    GrafanaNotificationChannel → (message : String) → GrafanaNotificationChannel
failing_status channel message = record channel {
  status = record channel.status { phase = "failing"; message = message };
}
