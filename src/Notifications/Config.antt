-- ===== src/Notifications/Config.antt =====
-- `NotificationControllerConfig` of controllers/config/notification_controller_config.go, and the resource
-- of api/integreatly/v1alpha1/grafananotificationchannel_types.go. The mutex is left out: each operation
-- is one step. The items of the map `Values` have the operations of Config/ConfigValue. References are
-- values here, whereas the source hands out pointers to them, which Controller/Known looks through.
pub mod Laws
pub mod Placed
use grafana_operator.Common.{
  String, ◌⧺◌, ◌==◌, ℕ, zero, suc, Option, none, some, List, [], ◌∷◌, ◌++◌, map, Assoc, lookup,
  insert, if◌then◌else◌,
}
use grafana_operator.Config.ConfigValue.{Values}
use grafana_operator.Config.ControllerConfig.{remove_at}

pub record GrafanaNotificationChannelSpec : Type 0 where
  pub json : String
  pub name : String

pub record GrafanaNotificationChannelStatus : Type 0 where
  pub phase : String
  pub uid : String
  pub id : ℕ
  pub message : String
  pub hash : String

pub record GrafanaNotificationChannel : Type 0 where
  pub name : String
  pub namespace : String
  pub spec : GrafanaNotificationChannelSpec
  pub status : GrafanaNotificationChannelStatus

pub record GrafanaNotificationChannelRef : Type 0 where
  pub name : String
  pub namespace : String
  pub uid : String
  pub hash : String

pub record NotificationControllerConfig : Type 0 where
  pub values : Values
  pub notification_channels : Assoc (List GrafanaNotificationChannelRef)

-- What `GetNotificationControllerConfig` returns at first.
abbrev pub new_notification_config : NotificationControllerConfig
new_notification_config = record { values = []; notification_channels = [] }

unfoldable pub get_notification_channel_id : (namespace name : String) → String
get_notification_channel_id namespace name = namespace ⧺ ("/" ⧺ name)

abbrev pub or_empty :
    Option (List GrafanaNotificationChannelRef) → List GrafanaNotificationChannelRef
or_empty none = []
or_empty (some l) = l

-- The references under a namespace. A missing key and an empty list are the same to every operation.
abbrev pub channels_at :
    (namespace : String) → NotificationControllerConfig → List GrafanaNotificationChannelRef
channels_at namespace c = or_empty (lookup namespace c.notification_channels)

-- The position of the first reference with the name, if there is one.
unfoldable pub index_of_name : String → List GrafanaNotificationChannelRef → Option ℕ
index_of_name name [] = none
index_of_name name (v ∷ l) =
    if v.name == name
    then some 0
    else elim (index_of_name name l) [ none ↦ none | some i ↦ some (suc i) ]

unfoldable pub has_notification_channel :
    (namespace name : String) → NotificationControllerConfig → Option ℕ
unfolding index_of_name lookup
has_notification_channel namespace name c = index_of_name name (channels_at namespace c)

unfoldable pub channel_ref : GrafanaNotificationChannel → GrafanaNotificationChannelRef
channel_ref channel = record {
  name = channel.name;
  namespace = channel.namespace;
  uid = channel.status.uid;
  hash = channel.status.hash;
}

-- The name stays as it is.
unfoldable pub refresh_ref :
    GrafanaNotificationChannel → GrafanaNotificationChannelRef → GrafanaNotificationChannelRef
refresh_ref channel v = record v {
  namespace = channel.namespace;
  uid = channel.status.uid;
  hash = channel.status.hash;
}

-- A position that is not there would make the source panic; none is given to it.
unfoldable pub refresh_at :
    GrafanaNotificationChannel
    → ℕ
    → List GrafanaNotificationChannelRef
    → List GrafanaNotificationChannelRef
unfolding refresh_ref
refresh_at channel i [] = []
refresh_at channel zero (v ∷ l) = refresh_ref channel v ∷ l
refresh_at channel (suc i) (v ∷ l) = v ∷ refresh_at channel i l

abbrev pub put_channel :
    GrafanaNotificationChannel
    → Option ℕ
    → List GrafanaNotificationChannelRef
    → List GrafanaNotificationChannelRef
put_channel channel none l = l ++ channel_ref channel ∷ []
put_channel channel (some i) l = refresh_at channel i l

abbrev pub with_channels :
    String
    → List GrafanaNotificationChannelRef
    → NotificationControllerConfig
    → NotificationControllerConfig
with_channels namespace l c = record c {
  notification_channels = insert namespace l c.notification_channels;
}

unfoldable pub add_notification_channel :
    GrafanaNotificationChannel → NotificationControllerConfig → NotificationControllerConfig
unfolding has_notification_channel channel_ref refresh_at insert lookup
add_notification_channel channel c =
    let i = has_notification_channel channel.namespace channel.name c in
    with_channels channel.namespace (put_channel channel i (channels_at channel.namespace c)) c

unfoldable pub clear_channel_hash : GrafanaNotificationChannelRef → GrafanaNotificationChannelRef
clear_channel_hash v = record v { hash = "" }

unfoldable pub clear_channels :
    Assoc (List GrafanaNotificationChannelRef) → Assoc (List GrafanaNotificationChannelRef)
unfolding clear_channel_hash
clear_channels [] = []
clear_channels ((namespace, l) ∷ rest) = (namespace, map clear_channel_hash l) ∷ clear_channels rest

unfoldable pub invalidate_notification_channels :
    NotificationControllerConfig → NotificationControllerConfig
unfolding clear_channels
invalidate_notification_channels c = record c {
  notification_channels = clear_channels c.notification_channels;
}

unfoldable pub set_notification_channels :
    Assoc (List GrafanaNotificationChannelRef)
    → NotificationControllerConfig
    → NotificationControllerConfig
set_notification_channels notification_channels c = record c {
  notification_channels = notification_channels;
}

abbrev pub remove_from :
    (namespace : String) → Option ℕ → NotificationControllerConfig → NotificationControllerConfig
remove_from namespace none c = c
remove_from namespace (some i) c =
    with_channels namespace (remove_at (some i) (channels_at namespace c)) c

unfoldable pub remove_notification_channel :
    (namespace name : String) → NotificationControllerConfig → NotificationControllerConfig
unfolding has_notification_channel insert lookup
remove_notification_channel namespace name c =
    remove_from namespace (has_notification_channel namespace name c) c

-- `order` is the list of keys in the order in which the runtime ranges over the map.
unfoldable pub all_channels :
    (order : List String) → NotificationControllerConfig → List GrafanaNotificationChannelRef
unfolding lookup
all_channels [] c = []
all_channels (namespace ∷ order) c = channels_at namespace c ++ all_channels order c

unfoldable pub get_notification_channels :
    (order : List String)
    → (namespace : String) → NotificationControllerConfig
    → List GrafanaNotificationChannelRef
unfolding all_channels lookup
get_notification_channels order namespace c =
    if namespace == "" then all_channels order c else channels_at namespace c
