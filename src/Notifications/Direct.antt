-- ===== src/Notifications/Direct.antt =====
-- The notifications to one user (core/notifications.py): `send_fcm_to_user_sync` and
-- `send_websocket_to_user_sync`.
use wikikracja.Common.{
  ℕ, Bool, true, false, ◌&&◌, not, Option, none, some, List, [], ◌==◌, if◌then◌else◌, exists_by,
  filter_by, Result, ok, err, operational,
}
use wikikracja.Notifications.Policy.{PushEvent, Entry, Config, get_push_event_config}
use wikikracja.Notifications.Model.{
  User, Device, World, Notification, Topic, field_of, with_profile, notifications_unsubscribed,
  is_fcm, migrate, lets_device, user_of,
}
use wikikracja.Notifications.Broadcast.{is_of}

-- `_push_enabled_for_user`
unfoldable pub push_enabled_for_user : User → Option Topic → Bool
push_enabled_for_user u topic =
    if notifications_unsubscribed u then false else elim (field_of topic) [
      | none ↦ true
      | some c ↦ with_profile u.profile true (λ q. q.enabled c)
    ]

-- `_push_muted_for_source`
unfoldable pub push_muted_for_source : User → Option ℕ → Bool
push_muted_for_source u none = false
push_muted_for_source u (some source) =
    with_profile u.profile false (λ q. exists_by (λ m. m == source) q.muted)

unfoldable pub user_devices : World → User → List Device
unfolding lets_device
user_devices w u =
    filter_by
      (λ d.
        d.user == u.id
        && (d.is_active && (is_fcm d && with_profile u.profile true (λ q. lets_device q d))))
      w.devices

-- What the policy of an event leaves of a topic: none when nothing is to be sent on the channel.
unfoldable pub policy_topic :
    (PushEvent → Option Entry)
    → (Config → Bool)
    → Option PushEvent
    → Option Topic
    → Option (Option Topic)
unfolding get_push_event_config
policy_topic policy channel none topic = some topic
policy_topic policy channel (some key) topic = elim (get_push_event_config policy key) [
  | none ↦ none
  | some config ↦
      if channel config && is_of topic config.category
      then some (some (Topic.known config.category))
      else none
]

unfoldable pub fcm_devices : World → User → Notification → Result (List Device × World)
unfolding migrate user_devices
fcm_devices w u n = elim (migrate w) [
  | ok v ↦
      if v.database then ok (if n.linkable then user_devices v u else [], v) else err operational
  | err e ↦ err e
]

unfoldable pub fcm_checked :
    World → User → Notification → Option Topic → Option ℕ → Result (List Device × World)
unfolding push_enabled_for_user push_muted_for_source fcm_devices
fcm_checked w u n topic source =
    if not w.ready
    then ok ([], w)
    else if not (push_enabled_for_user u topic)
    then ok ([], w)
    else if push_muted_for_source u source
    then ok ([], w)
    else fcm_devices w u n

-- `send_fcm_to_user_sync`: the devices that the message is handed over for.
unfoldable pub send_fcm_to_user :
    (PushEvent → Option Entry)
    → World
    → User
    → Notification
    → Option Topic
    → Option ℕ
    → Option PushEvent
    → Result (List Device × World)
unfolding policy_topic fcm_checked
send_fcm_to_user policy w u n topic source key = elim (policy_topic policy (λ c. c.fcm) key topic) [
  | none ↦ ok ([], w)
  | some t ↦ fcm_checked w u n t source
]

-- The lookup of an active user, made only for a topic.
unfoldable pub takes_event : World → ℕ → Option Topic → Result Bool
unfolding user_of push_enabled_for_user
takes_event w k none = ok true
takes_event w k (some t) = if not w.database then err operational else elim (user_of w.users k) [
  | none ↦ ok false
  | some u ↦ ok (u.is_active && push_enabled_for_user u (some t))
]

unfoldable pub event_for : World → ℕ → Option Topic → Result Bool
unfolding takes_event
event_for w k topic = elim (takes_event w k topic) [
  | ok takes ↦ ok (takes && (w.layer && w.reachable k))
  | err e ↦ err e
]

-- `send_websocket_to_user_sync`: whether the group of the user gets the event.
unfoldable pub send_websocket_to_user :
    (PushEvent → Option Entry) → World → ℕ → Option Topic → Option PushEvent → Result Bool
unfolding policy_topic event_for
send_websocket_to_user policy w k topic key =
    elim (policy_topic policy (λ c. c.websocket) key topic) [
      | none ↦ ok false
      | some t ↦ event_for w k t
    ]
