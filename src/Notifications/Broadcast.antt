-- ===== src/Notifications/Broadcast.antt =====
-- The broadcasts of core/notifications.py: `send_fcm_to_all_sync`, `send_websocket_to_all_sync`,
-- `send_notification_to_all_sync` and `_dispatch_notification`, with the window of post updates.
-- What is sent is the list of devices handed to Firebase and of users whose group got the event.
pub mod Audience
pub mod Reach
pub mod Channels
pub mod Consent
use wikikracja.Common.{
  ℕ, ◌+◌, Bool, true, false, ◌&&◌, ◌||◌, not, Option, none, some, List, [], ◌∷◌, ◌==◌,
  if◌then◌else◌, ltb, exists_by, filter_by, map, Result, ok, err, operational,
}
use wikikracja.Notifications.Policy.{
  Category, PushEvent, Entry, Config, same_category, get_push_event_config,
}
use wikikracja.Notifications.Model.{
  Profile, User, Device, World, Notification, Topic, field_of, given, with_profile, is_subscribed,
  notifications_unsubscribed, ids_of, push_user_ids, user_of, is_fcm, migrate, lets_device, among,
  is_nobody,
}

-- What a broadcast sends.
pub record Sent : Type 0 where
  pub devices : List Device
  pub groups : List ℕ

abbrev pub nothing : Sent
nothing = record { devices = []; groups = [] }

-- The query of devices: the owner is active and subscribed, and does not turn this kind of device
-- off; an owner without a profile turns off nothing.
unfoldable pub is_target : List User → Device → Bool
unfolding user_of lets_device
is_target users d =
    d.is_active
    && (is_fcm d && (elim (user_of users d.user) [
      | none ↦ false
      | some u ↦ is_subscribed u && with_profile u.profile true (λ q. lets_device q d)
    ]))

-- The part after the migration of devices; an exception of Firebase is caught.
unfoldable pub fcm_targets : World → Notification → Option (List ℕ) → List Device
unfolding is_target
fcm_targets w n user_ids =
    if w.database && n.linkable
    then filter_by (λ d. is_target w.users d && among user_ids d.user) w.devices
    else []

abbrev pub default_ids : World → Option (List ℕ) → Option Topic → Option (List ℕ)
default_ids w (some ids) topic = some ids
default_ids w none topic = push_user_ids w topic

unfoldable pub fcm_to : World → Notification → Option (List ℕ) → Result (List Device × World)
unfolding migrate fcm_targets
fcm_to w n user_ids =
    if is_nobody user_ids
    then ok ([], w)
    else elim (migrate w) [ ok v ↦ ok (fcm_targets v n user_ids, v) | err e ↦ err e ]

-- `send_fcm_to_all_sync`
unfoldable pub send_fcm_to_all :
    World → Notification → Option (List ℕ) → Option Topic → Result (List Device × World)
unfolding fcm_to
send_fcm_to_all w n user_ids topic =
    if w.ready then fcm_to w n (default_ids w user_ids topic) else ok ([], w)

unfoldable pub groups_to : World → Option (List ℕ) → Result (List ℕ)
groups_to w user_ids =
    if is_nobody user_ids
    then ok []
    else if w.database
    then ok (
        filter_by w.reachable
          (ids_of (filter_by (λ u. is_subscribed u && among user_ids u.id) w.users)))
    else err operational

-- `send_websocket_to_all_sync`
unfoldable pub send_websocket_to_all : World → Option Topic → Option (List ℕ) → Result (List ℕ)
unfolding groups_to
send_websocket_to_all w topic user_ids =
    if w.layer then groups_to w (default_ids w user_ids topic) else ok []

-- `recipient_ids if user_ids is None else user_ids & recipient_ids`
abbrev pub narrowed : Option (List ℕ) → Option (List ℕ) → Option (List ℕ)
narrowed ids none = ids
narrowed none (some recipients) = some recipients
narrowed (some ids) (some recipients) =
    some (filter_by (λ k. exists_by (λ r. r == k) recipients) ids)

-- The two channels one after the other; an exception skips what is left.
unfoldable pub send_groups : World → Bool → Option (List ℕ) → List Device → Sent
unfolding send_websocket_to_all
send_groups w send_websocket user_ids devices =
    if send_websocket
    then elim (send_websocket_to_all w none user_ids) [
      | ok groups ↦ record { devices = devices; groups = groups }
      | err e ↦ record { devices = devices; groups = [] }
    ]
    else record { devices = devices; groups = [] }

unfoldable pub send_channels : World → Notification → Bool → Bool → Option (List ℕ) → Sent
unfolding send_fcm_to_all send_groups
send_channels w n send_push send_websocket user_ids =
    if send_push
    then elim (send_fcm_to_all w n user_ids none) [
      | ok sent ↦ send_groups sent.1 send_websocket user_ids sent.0
      | err e ↦ nothing
    ]
    else send_groups w send_websocket user_ids []

-- `send_notification_to_all_sync`
unfoldable pub send_notification_to_all :
    World → Notification → Option Topic → Bool → Bool → Option (List ℕ) → Sent
unfolding push_user_ids send_channels
send_notification_to_all w n topic send_push send_websocket recipient_ids =
    if send_push || send_websocket
    then send_channels w n send_push send_websocket (narrowed (push_user_ids w topic) recipient_ids)
    else nothing

-- The arguments of `_dispatch_notification` that decide who is told.
pub record Request : Type 0 where
  pub topic : Option Topic
  pub push_event : Option PushEvent
  pub recipient_ids : Option (List ℕ)
  pub send_push : Bool
  pub send_websocket : Bool

-- `notification_type and notification_type != config['module']`
abbrev pub is_of : Option Topic → Category → Bool
is_of none c = true
is_of (some Topic.unknown) c = false
is_of (some (Topic.known d)) c = same_category d c

unfoldable pub with_policy : Option Config → Request → Request
unfolding same_category
with_policy none r = record r { send_push = false; send_websocket = false }
with_policy (some config) r =
    if is_of r.topic config.category
    then record r {
      topic = some (Topic.known config.category);
      send_push = r.send_push && config.fcm;
      send_websocket = r.send_websocket && config.websocket;
    }
    else record r { send_push = false; send_websocket = false }

unfoldable pub governed : (PushEvent → Option Entry) → Request → Request
unfolding with_policy get_push_event_config
governed policy r = elim r.push_event [
  | none ↦ r
  | some key ↦ with_policy (get_push_event_config policy key) r
]

unfoldable pub dispatch_governed : World → Notification → Request → Sent
unfolding send_notification_to_all
dispatch_governed w n r =
    send_notification_to_all w n r.topic r.send_push r.send_websocket r.recipient_ids

-- `_dispatch_notification`, without the mail.
unfoldable pub dispatch : (PushEvent → Option Entry) → World → Notification → Request → Sent
unfolding governed dispatch_governed
dispatch policy w n r = dispatch_governed w n (governed policy r)

-- The mail of `_dispatch_notification`: whether it is sent; the recipient may be no user.
unfoldable pub mails : Bool → Bool → Bool → Option User → Bool
mails send_email has_address transactional recipient =
    send_email
    && (has_address
        && (transactional
            || not (elim recipient [ none ↦ false | some u ↦ notifications_unsubscribed u ])))
