-- ===== src/Notifications/Broadcast/Channels.antt =====
-- What a broadcast without a policy reaches (`send_notification_to_all_sync` of
-- core/notifications.py).
use wikikracja.Common.{
  ℕ, ◌≡◌, sym, subst, Bool, true, false, ◌&&◌, ◌||◌, Option, List, [], ◌==◌, if◌then◌else◌,
  exists_by, filter_by, Bool-cases, inl, inr, arith,
}
use wikikracja.Notifications.Model.{
  User, Device, World, Notification, Topic, is_subscribed, user_of, among, migrate,
}
use wikikracja.Notifications.Broadcast.{
  Sent, Request, is_target, send_fcm_to_all, fcm_to, fcm_targets, send_groups,
  send_websocket_to_all, groups_to, send_channels, send_notification_to_all, dispatch_governed,
  nothing,
}
use wikikracja.Notifications.Broadcast.Audience.{
  IsKeyed, takes, holds_of, ids_for, subscribed_among,
}
use wikikracja.Notifications.Broadcast.Reach.{
  filter_by-cong, exists_by-groups_to, migrated_devices, send_channels_lem,
}

is_target-subscribed :
    (us : List User) (d : Device)
    → is_target us d ≡ (is_target us d && holds_of (user_of us d.user) is_subscribed)
unfolding is_target
is_target-subscribed us d = ground arith

is_target-takes :
    (w : World) (topic : Option Topic) (rs : Option (List ℕ)) (d : Device)
    → w.database ≡ true
    → IsKeyed w.users
    → (is_target w.users d && among (ids_for w topic rs) d.user)
      ≡ (is_target w.users d && takes w.users topic rs d.user)
is_target-takes w topic rs d h u =
    ground (arith, is_target-subscribed w.users d, subscribed_among w topic rs d.user h u)

send_channels_down :
    (w : World) (n : Notification) (push ws : Bool) (ids : Option (List ℕ))
    → w.database ≡ false
    → send_channels w n push ws ids ≡ nothing
unfolding send_channels send_fcm_to_all fcm_to migrate fcm_targets send_groups send_websocket_to_all
    groups_to
send_channels_down w n push ws ids h = ground arith

-- The devices that a request may reach: active ones, of an active and subscribed user who takes this
-- kind of device, has the category turned on and is among the recipients.
abbrev pub audience : World → Option Topic → Option (List ℕ) → List Device
audience w topic rs =
    filter_by (λ d. is_target w.users d && takes w.users topic rs d.user) (migrated_devices w)

-- What a request that no policy governs any more reaches.
abbrev pub Reaches : World → Notification → Request → Sent → Type 0
Reaches w n r sent =
    (sent.devices ≡ (
      if r.send_push && (w.database && (w.ready && n.linkable))
      then audience w r.topic r.recipient_ids
      else []))
    × ((k : ℕ)
        → exists_by (λ j. j == k) sent.groups ≡ (
            r.send_websocket
            && (w.database
                && (w.layer && (w.reachable k && takes w.users r.topic r.recipient_ids k)))))

send_channels-Reaches :
    (w : World) (n : Notification) (r : Request)
    → IsKeyed w.users
    → Reaches w n r
        (send_channels w n r.send_push r.send_websocket (ids_for w r.topic r.recipient_ids))
send_channels-Reaches w n r u = elim (Bool-cases w.database) [
  | inl up ↦
      subst (Reaches w n r)
        (sym (
          send_channels_lem w n r.send_push r.send_websocket (ids_for w r.topic r.recipient_ids)
            up))
        (
          ground (
            arith,
            filter_by-cong
                (λ d. is_target w.users d && among (ids_for w r.topic r.recipient_ids) d.user)
                (λ d. is_target w.users d && takes w.users r.topic r.recipient_ids d.user)
                (migrated_devices w) (λ d. is_target-takes w r.topic r.recipient_ids d up u),
          ),
          λ k. ground (
            arith,
            exists_by-groups_to w (ids_for w r.topic r.recipient_ids) k u,
            subscribed_among w r.topic r.recipient_ids k up u,
          ),
        )
  | inr down ↦
      subst (Reaches w n r)
        (sym (
          send_channels_down w n r.send_push r.send_websocket (ids_for w r.topic r.recipient_ids)
            down))
        (ground arith, λ k. ground arith)
]

pub dispatch_governed-Reaches :
    (w : World) (n : Notification) (r : Request)
    → IsKeyed w.users
    → Reaches w n r (dispatch_governed w n r)
unfolding dispatch_governed send_notification_to_all
dispatch_governed-Reaches w n r u = elim (Bool-cases (r.send_push || r.send_websocket)) [
  | inl on ↦
      subst (λ b. Reaches w n r (if b then sent else nothing)) (sym on)
        (send_channels-Reaches w n r u)
  | inr off ↦
      subst (λ b. Reaches w n r (if b then sent else nothing)) (sym off)
        (ground arith, λ k. ground arith)
]
  where
    sent : Sent
    sent = send_channels w n r.send_push r.send_websocket (ids_for w r.topic r.recipient_ids)
