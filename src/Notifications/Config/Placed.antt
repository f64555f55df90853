-- ===== src/Notifications/Config/Placed.antt =====
-- Every reference stands under its own namespace, so that the namespace and the name that it holds find it
-- again when it is to be removed.
use mathlib.Core.Path.{subst}
use grafana_operator.Common.{
  String, ◌==◌, eq_iff, ℕ, zero, suc, ◌≡◌, refl, sym, Option, none, some, List, [], ◌∷◌, ◌++◌, last,
  drop_last_elem, set, drop_end, swap_remove, lookup-insert, Bool-cases, inl, inr,
}
use grafana_operator.Notifications.Config.{
  GrafanaNotificationChannel, GrafanaNotificationChannelRef, NotificationControllerConfig, or_empty,
  channels_at, channel_ref, refresh_ref, refresh_at, put_channel, with_channels,
  add_notification_channel, remove_from, remove_notification_channel,
}

abbrev pub AreUnder : (namespace : String) → List GrafanaNotificationChannelRef → Type 0
AreUnder namespace [] = Unit
AreUnder namespace (v ∷ l) = (v.namespace ≡ namespace) × AreUnder namespace l

abbrev pub IsPlaced : NotificationControllerConfig → Type 0
IsPlaced c = (namespace : String) → AreUnder namespace (channels_at namespace c)

AreUnder-append :
    (channel : GrafanaNotificationChannel) (l : List GrafanaNotificationChannelRef)
    → AreUnder channel.namespace l
    → AreUnder channel.namespace (l ++ channel_ref channel ∷ [])
unfolding channel_ref
AreUnder-append channel [] h = (refl, tt)
AreUnder-append channel (v ∷ l) h = (h.0, AreUnder-append channel l h.1)

AreUnder-refresh_at :
    (channel : GrafanaNotificationChannel) (i : ℕ) (l : List GrafanaNotificationChannelRef)
    → AreUnder channel.namespace l
    → AreUnder channel.namespace (refresh_at channel i l)
unfolding refresh_at refresh_ref
AreUnder-refresh_at channel i [] h = tt
AreUnder-refresh_at channel zero (v ∷ l) h = (refl, h.1)
AreUnder-refresh_at channel (suc i) (v ∷ l) h = (h.0, AreUnder-refresh_at channel i l h.1)

AreUnder-put_channel :
    (channel : GrafanaNotificationChannel) (found : Option ℕ)
    (l : List GrafanaNotificationChannelRef)
    → AreUnder channel.namespace l
    → AreUnder channel.namespace (put_channel channel found l)
AreUnder-put_channel channel none l h = AreUnder-append channel l h
AreUnder-put_channel channel (some i) l h = AreUnder-refresh_at channel i l h

last-under :
    (namespace : String) (v : GrafanaNotificationChannelRef)
    (l : List GrafanaNotificationChannelRef)
    → AreUnder namespace (v ∷ l)
    → (last v l).namespace ≡ namespace
last-under namespace v [] h = h.0
last-under namespace v (w ∷ l) h = last-under namespace w l h.1

AreUnder-set :
    (namespace : String) (l : List GrafanaNotificationChannelRef) (i : ℕ)
    (v : GrafanaNotificationChannelRef)
    → v.namespace ≡ namespace
    → AreUnder namespace l
    → AreUnder namespace (set l i v)
AreUnder-set namespace [] i v e h = tt
AreUnder-set namespace (w ∷ l) zero v e h = (e, h.1)
AreUnder-set namespace (w ∷ l) (suc i) v e h = (h.0, AreUnder-set namespace l i v e h.1)

AreUnder-drop_last_elem :
    (namespace : String) (v : GrafanaNotificationChannelRef)
    (l : List GrafanaNotificationChannelRef)
    → AreUnder namespace (v ∷ l)
    → AreUnder namespace (drop_last_elem v l)
AreUnder-drop_last_elem namespace v [] h = tt
AreUnder-drop_last_elem namespace v (w ∷ l) h = (h.0, AreUnder-drop_last_elem namespace w l h.1)

AreUnder-drop_end :
    (namespace : String) (l : List GrafanaNotificationChannelRef)
    → AreUnder namespace l
    → AreUnder namespace (drop_end l)
AreUnder-drop_end namespace [] h = tt
AreUnder-drop_end namespace (v ∷ l) h = AreUnder-drop_last_elem namespace v l h

AreUnder-swap_remove :
    (namespace : String) (l : List GrafanaNotificationChannelRef) (i : ℕ)
    → AreUnder namespace l
    → AreUnder namespace (swap_remove l i)
unfolding swap_remove
AreUnder-swap_remove namespace [] i h = tt
AreUnder-swap_remove namespace (v ∷ l) i h =
    AreUnder-drop_end namespace (set (v ∷ l) i (last v l))
      (AreUnder-set namespace (v ∷ l) i (last v l) (last-under namespace v l h) h)

-- To write references of a namespace under it leaves every reference under its own.
with_channels-IsPlaced :
    (namespace : String) (l : List GrafanaNotificationChannelRef) (c : NotificationControllerConfig)
    → AreUnder namespace l
    → IsPlaced c
    → IsPlaced (with_channels namespace l c)
with_channels-IsPlaced namespace l c h k other =
    subst (λ t. AreUnder other (or_empty t))
      (sym (lookup-insert namespace other l c.notification_channels))
      (elim (Bool-cases (namespace == other)) [
        | inl p ↦ rw p (subst (λ t. AreUnder t l) ((eq_iff namespace other).0 p) h)
        | inr p ↦ rw p (k other)
      ])

pub add_notification_channel-IsPlaced :
    (channel : GrafanaNotificationChannel) (c : NotificationControllerConfig)
    → IsPlaced c
    → IsPlaced (add_notification_channel channel c)
unfolding add_notification_channel
add_notification_channel-IsPlaced channel c h =
    with_channels-IsPlaced channel.namespace _ c
      (AreUnder-put_channel channel _ (channels_at channel.namespace c) (h channel.namespace)) h

remove_from-IsPlaced :
    (namespace : String) (found : Option ℕ) (c : NotificationControllerConfig)
    → IsPlaced c
    → IsPlaced (remove_from namespace found c)
remove_from-IsPlaced namespace none c h = h
remove_from-IsPlaced namespace (some i) c h =
    with_channels-IsPlaced namespace _ c
      (AreUnder-swap_remove namespace (channels_at namespace c) i (h namespace)) h

pub remove_notification_channel-IsPlaced :
    (namespace name : String) (c : NotificationControllerConfig)
    → IsPlaced c
    → IsPlaced (remove_notification_channel namespace name c)
unfolding remove_notification_channel
remove_notification_channel-IsPlaced namespace name c h = remove_from-IsPlaced namespace _ c h
