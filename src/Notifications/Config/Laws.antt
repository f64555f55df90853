-- ===== src/Notifications/Config/Laws.antt =====
-- The references of the configuration: one name names one reference of a namespace.
use grafana_operator.Common.{
  String, ◌==◌, ◌&&◌, eq_iff, ℕ, zero, suc, ◌≡◌, refl, ap, ◌∙◌, Option, none, some, List, [], ◌∷◌,
  ◌++◌, lookup, lookup-insert, Bool-cases, inl, inr, if◌then◌else◌, arith,
}
use grafana_operator.Notifications.Config.{
  GrafanaNotificationChannel, GrafanaNotificationChannelRef, NotificationControllerConfig, or_empty,
  channels_at, index_of_name, has_notification_channel, channel_ref, refresh_ref, refresh_at,
  put_channel, add_notification_channel,
}

-- The first reference with the name.
unfoldable pub find_name :
    String → List GrafanaNotificationChannelRef → Option GrafanaNotificationChannelRef
find_name name [] = none
find_name name (v ∷ l) = if v.name == name then some v else find_name name l

-- The reference of a channel under a namespace.
abbrev pub find_channel :
    (namespace name : String) → NotificationControllerConfig → Option GrafanaNotificationChannelRef
find_channel namespace name c = find_name name (channels_at namespace c)

refresh_ref-eq :
    (channel : GrafanaNotificationChannel) (v : GrafanaNotificationChannelRef)
    → v.name ≡ channel.name
    → refresh_ref channel v ≡ channel_ref channel
unfolding refresh_ref channel_ref
refresh_ref-eq channel v h =
    ap
      (λ name. record {
        name = name;
        namespace = channel.namespace;
        uid = channel.status.uid;
        hash = channel.status.hash;
      })
      h

find_name-append :
    (channel : GrafanaNotificationChannel) (name : String) (l : List GrafanaNotificationChannelRef)
    → index_of_name channel.name l ≡ none
    → find_name name (l ++ channel_ref channel ∷ [])
      ≡ (if channel.name == name then some (channel_ref channel) else find_name name l)
unfolding index_of_name find_name channel_ref
find_name-append channel name [] h = refl
find_name-append channel name (v ∷ l) h = ground (
  arith,
  eq_iff v.name channel.name,
  eq_iff v.name name,
  eq_iff channel.name name,
  find_name-append channel name l,
)

find_name-refresh_at :
    (channel : GrafanaNotificationChannel) (name : String) (l : List GrafanaNotificationChannelRef)
    (i : ℕ)
    → index_of_name channel.name l ≡ some i
    → find_name name (refresh_at channel i l)
      ≡ (if channel.name == name then some (channel_ref channel) else find_name name l)
unfolding index_of_name find_name refresh_at
find_name-refresh_at channel name [] i h = absurd cc
find_name-refresh_at channel name (v ∷ l) zero h =
    let e : v.name ≡ channel.name = ground (arith, eq_iff v.name channel.name) in
    rw (refresh_ref-eq channel v e) ground (arith, eq_iff v.name name, eq_iff channel.name name)
find_name-refresh_at channel name (v ∷ l) (suc i) h = ground (
  arith,
  eq_iff v.name channel.name,
  eq_iff v.name name,
  eq_iff channel.name name,
  find_name-refresh_at channel name l i,
)

find_name-put_channel :
    (channel : GrafanaNotificationChannel) (name : String) (l : List GrafanaNotificationChannelRef)
    (found : Option ℕ)
    → index_of_name channel.name l ≡ found
    → find_name name (put_channel channel found l)
      ≡ (if channel.name == name then some (channel_ref channel) else find_name name l)
find_name-put_channel channel name l none h = find_name-append channel name l h
find_name-put_channel channel name l (some i) h = find_name-refresh_at channel name l i h

-- The references under a namespace change only for the namespace of the channel.
channels_at-add_notification_channel :
    (channel : GrafanaNotificationChannel) (c : NotificationControllerConfig) (namespace : String)
    → channels_at namespace (add_notification_channel channel c)
      ≡ or_empty (
          if channel.namespace == namespace
          then some (
              put_channel channel
                (index_of_name channel.name (channels_at channel.namespace c))
                (channels_at channel.namespace c))
          else lookup namespace c.notification_channels)
unfolding add_notification_channel has_notification_channel
channels_at-add_notification_channel channel c namespace =
    ap or_empty (lookup-insert channel.namespace namespace _ c.notification_channels)

-- After `AddNotificationChannel` the namespace and the name of the channel name the reference that holds
-- its identifier and its hash, whether it was known before or not, and every other namespace or name
-- names what it named.
pub find_channel-add_notification_channel :
    (channel : GrafanaNotificationChannel) (c : NotificationControllerConfig)
    (namespace name : String)
    → find_channel namespace name (add_notification_channel channel c) ≡ (
        if channel.namespace == namespace && channel.name == name
        then some (channel_ref channel)
        else find_channel namespace name c)
find_channel-add_notification_channel channel c namespace name =
    let l = channels_at channel.namespace c in
    ap (find_name name) (channels_at-add_notification_channel channel c namespace)
    ∙ elim (Bool-cases (channel.namespace == namespace)) [
      | inl p ↦
          rw (p, ← (eq_iff channel.namespace namespace).0 p)
            (find_name-put_channel channel name l _ refl)
      | inr p ↦ rw p refl
    ]
