-- ===== src/Notifications/Broadcast/Consent.antt =====
-- The recipients of a broadcast (`_dispatch_notification` of core/notifications.py), told by what the
-- users chose and by the policy of events.
use wikikracja.Common.{
  ℕ, ◌≡◌, refl, sym, ap, ◌∙◌, Bool, true, false, ◌&&◌, not, Option, none, some, List, ◌==◌, [],
  if◌then◌else◌, is_some, exists_by, filter_by, Bool-cases, inl, inr, arith,
}
use wikikracja.Notifications.Policy.{
  Category, PushEvent, Entry, Config, same_category, validated, get_push_event_config,
}
use wikikracja.Notifications.Model.{
  Profile, User, Device, DeviceName, World, Notification, Topic, field_of, user_of, among, is_fcm,
  with_profile, lets_device, is_subscribed,
}
use wikikracja.Notifications.Broadcast.{
  Sent, Request, is_target, is_of, with_policy, governed, dispatch,
}
use wikikracja.Notifications.Broadcast.Audience.{IsKeyed, takes, holds_of, accepts}
use wikikracja.Notifications.Broadcast.Reach.{filter_by-cong, migrated_devices}
use wikikracja.Notifications.Broadcast.Channels.{Reaches, audience, dispatch_governed-Reaches}

-- Whether a profile, if there is one, lets a category through: a user without a profile gets what has
-- no category.
abbrev pub consents : Option Profile → Option Category → Bool
consents none none = true
consents none (some c) = false
consents (some q) none = not q.unsubscribed
consents (some q) (some c) = not q.unsubscribed && q.enabled c

-- Whether a profile, if there is one, leaves a kind of device turned on.
abbrev pub takes_kind : Option Profile → DeviceName → Bool
takes_kind none name = true
takes_kind (some q) DeviceName.mobile = q.phone
takes_kind (some q) DeviceName.tablet = q.phone
takes_kind (some q) DeviceName.desktop = q.computer
takes_kind (some q) DeviceName.other = true

-- An active user of the table who consents and is among the recipients, when these are given.
abbrev pub told_user : List User → Option Category → Option (List ℕ) → ℕ → Bool
told_user users c recipients k =
    holds_of (user_of users k) (λ u. u.is_active && consents u.profile c) && among recipients k

-- An active device of the Firebase service whose owner leaves its kind turned on.
abbrev pub open_device : List User → Device → Bool
open_device users d =
    d.is_active && (is_fcm d && holds_of (user_of users d.user) (λ u. takes_kind u.profile d.name))

-- The type of a message, when it has one, is the module of the entry.
abbrev pub agrees : Option Topic → Option Category → Bool
agrees topic none = false
agrees none (some c) = true
agrees (some Topic.unknown) (some c) = false
agrees (some (Topic.known d)) (some c) = same_category d c

abbrev pub is_on : Option Bool → Bool
is_on none = false
is_on (some b) = b

-- An entry of the policy opens a channel: its module is valid and agrees with the type, both channels
-- are given, and this one is on.
abbrev pub opens : (Entry → Option Bool) → Option Topic → Option Entry → Bool
opens channel topic none = false
opens channel topic (some e) =
    is_some e.fcm && (is_some e.websocket && (is_on (channel e) && agrees topic e.module_key))

abbrev pub is_open :
    (PushEvent → Option Entry) → (Entry → Option Bool) → Option Topic → Option PushEvent → Bool
is_open policy channel topic none = true
is_open policy channel topic (some key) = opens channel topic (policy key)

abbrev pub module_of : Option Entry → Option Category
module_of none = none
module_of (some e) = e.module_key

-- The category of a message: the module of its event, or else its type.
abbrev pub category_of :
    (PushEvent → Option Entry) → Option Topic → Option PushEvent → Option Category
category_of policy topic none = field_of topic
category_of policy topic (some key) = module_of (policy key)

-- What is told on both channels: exactly those who consent when the policy leaves the channel open and
-- it works, nobody otherwise.
abbrev pub TellsAudience :
    (PushEvent → Option Entry) → World → Notification → Request → Sent → Type 0
TellsAudience policy w n r sent =
    (sent.devices ≡ (
      if (r.send_push && is_open policy (λ e. e.fcm) r.topic r.push_event)
        && (w.database && (w.ready && n.linkable))
      then filter_by
          (λ d.
            open_device w.users d
            && told_user w.users (category_of policy r.topic r.push_event) r.recipient_ids d.user)
          (migrated_devices w)
      else []))
    × ((k : ℕ)
        → exists_by (λ j. j == k) sent.groups ≡ (
            (r.send_websocket && is_open policy (λ e. e.websocket) r.topic r.push_event)
            && (w.database
                && (w.layer
                    && (w.reachable k
                        && told_user w.users (category_of policy r.topic r.push_event)
                            r.recipient_ids k)))))

accepts_lem : (c : Option Category) (u : User) → accepts c u ≡ (u.is_active && consents u.profile c)
accepts_lem none u = ground arith
accepts_lem (some c) u = ground arith

takes_lem :
    (users : List User) (topic : Option Topic) (rs : Option (List ℕ)) (k : ℕ)
    → takes users topic rs k ≡ told_user users (field_of topic) rs k
takes_lem users topic rs k = found (user_of users k)
  where
    found :
        (o : Option User)
        → (holds_of o (accepts (field_of topic)) && among rs k)
          ≡ (holds_of o (λ u. u.is_active && consents u.profile (field_of topic)) && among rs k)
    found none = refl
    found (some u) = ap (λ b. b && among rs k) (accepts_lem (field_of topic) u)

lets_device_lem :
    (o : Option Profile) (d : Device)
    → with_profile o true (λ q. lets_device q d) ≡ takes_kind o d.name
unfolding lets_device
lets_device_lem none d = refl
lets_device_lem (some q) d = ground arith

audience_lem :
    (users : List User) (topic : Option Topic) (rs : Option (List ℕ)) (d : Device)
    → (is_target users d && takes users topic rs d.user)
      ≡ (open_device users d && told_user users (field_of topic) rs d.user)
unfolding is_target
audience_lem users topic rs d =
    ap (λ b. is_target users d && b) (takes_lem users topic rs d.user)
    ∙ owned (user_of users d.user)
  where
    owned :
        (o : Option User)
        → ((d.is_active
              && (is_fcm d && (elim o as (λ x. Bool) [
                | none ↦ false
                | some u ↦ is_subscribed u && with_profile u.profile true (λ q. lets_device q d)
              ])))
            && (holds_of o (λ u. u.is_active && consents u.profile (field_of topic))
                && among rs d.user))
          ≡ ((d.is_active && (is_fcm d && holds_of o (λ u. takes_kind u.profile d.name)))
              && (holds_of o (λ u. u.is_active && consents u.profile (field_of topic))
                  && among rs d.user))
    owned none = ground arith
    owned (some u) = ground (arith, lets_device_lem u.profile d)

-- What is left of a request whose channels are open or not, with its category.
abbrev Governs : Request → Bool → Bool → Option Category → Request → Type 0
Governs r fcm websocket c g =
    (g.send_push ≡ (r.send_push && fcm))
    × (g.send_websocket ≡ (r.send_websocket && websocket))
    × (g.recipient_ids ≡ r.recipient_ids)
    × (fcm ≡ true → field_of g.topic ≡ c)
    × (websocket ≡ true → field_of g.topic ≡ c)

is_of-agrees : (topic : Option Topic) (c : Category) → is_of topic c ≡ agrees topic (some c)
is_of-agrees none c = refl
is_of-agrees (some Topic.unknown) c = refl
is_of-agrees (some (Topic.known d)) c = refl

with_policy-Governs :
    (r : Request) (config : Config)
    → Governs r
        (config.fcm && agrees r.topic (some config.category))
        (config.websocket && agrees r.topic (some config.category))
        (some config.category)
        (with_policy (some config) r)
unfolding with_policy
with_policy-Governs r config = elim (Bool-cases (is_of r.topic config.category)) [
  | inl same ↦ ground (arith, is_of-agrees r.topic config.category)
  | inr other ↦ ground (arith, is_of-agrees r.topic config.category)
]

validated-Governs :
    (r : Request) (e : Entry)
    → Governs r
        (opens (λ e. e.fcm) r.topic (some e))
        (opens (λ e. e.websocket) r.topic (some e))
        e.module_key
        (with_policy (validated e) r)
unfolding validated with_policy
validated-Governs r e = by_fields e.module_key e.fcm e.websocket
  where
    by_fields :
        (m : Option Category) (f w : Option Bool)
        → Governs r
            (is_some f && (is_some w && (is_on f && agrees r.topic m)))
            (is_some f && (is_some w && (is_on w && agrees r.topic m)))
            m
            (with_policy (validated (record { module_key = m; fcm = f; websocket = w })) r)
    by_fields none f w = ground arith
    by_fields (some c) none w = ground arith
    by_fields (some c) (some f) none = ground arith
    by_fields (some c) (some f) (some w) =
        with_policy-Governs r (record { category = c; fcm = f; websocket = w })

governed-Governs :
    (policy : PushEvent → Option Entry) (r : Request)
    → Governs r
        (is_open policy (λ e. e.fcm) r.topic r.push_event)
        (is_open policy (λ e. e.websocket) r.topic r.push_event)
        (category_of policy r.topic r.push_event)
        (governed policy r)
unfolding governed get_push_event_config with_policy
governed-Governs policy r = by_event r.push_event
  where
    by_entry :
        (o : Option Entry)
        → Governs r
            (opens (λ e. e.fcm) r.topic o)
            (opens (λ e. e.websocket) r.topic o)
            (module_of o)
            (with_policy (elim o as (λ x. Option Config) [ none ↦ none | some e ↦ validated e ]) r)
    by_entry none = ground arith
    by_entry (some e) = validated-Governs r e

    by_event :
        (key : Option PushEvent)
        → Governs r
            (is_open policy (λ e. e.fcm) r.topic key)
            (is_open policy (λ e. e.websocket) r.topic key)
            (category_of policy r.topic key)
            (elim key as (λ x. Request) [
              | none ↦ r
              | some k ↦ with_policy (get_push_event_config policy k) r
            ])
    by_event none = ground arith
    by_event (some k) = by_entry (policy k)

told_by :
    (w : World) (n : Notification) (r g : Request) (fcm websocket : Bool) (c : Option Category)
    (sent : Sent)
    → Governs r fcm websocket c g
    → Reaches w n g sent
    → (sent.devices ≡ (
        if (r.send_push && fcm) && (w.database && (w.ready && n.linkable))
        then filter_by
            (λ d. open_device w.users d && told_user w.users c r.recipient_ids d.user)
            (migrated_devices w)
        else []))
      × ((k : ℕ)
          → exists_by (λ j. j == k) sent.groups ≡ (
              (r.send_websocket && websocket)
              && (w.database
                  && (w.layer && (w.reachable k && told_user w.users c r.recipient_ids k)))))
told_by w n r g fcm websocket c sent h reaches = (
  reaches.0 ∙ elim (Bool-cases fcm) [
    | inl on ↦ ground (arith, h.0, devices_told on)
    | inr off ↦ ground (arith, h.0)
  ],
  λ k. reaches.1 k ∙ elim (Bool-cases websocket) [
    | inl on ↦ ground (arith, h.1, user_told k (h.4 on))
    | inr off ↦ ground (arith, h.1)
  ],
)
  where
    user_told :
        (k : ℕ)
        → field_of g.topic ≡ c
        → takes w.users g.topic g.recipient_ids k ≡ told_user w.users c r.recipient_ids k
    user_told k same =
        takes_lem w.users g.topic g.recipient_ids k
        ∙ ap (λ x. told_user w.users x g.recipient_ids k) same
        ∙ ap (λ x. told_user w.users c x k) h.2

    devices_told :
        fcm ≡ true
        → audience w g.topic g.recipient_ids
          ≡ filter_by
              (λ d. open_device w.users d && told_user w.users c r.recipient_ids d.user)
              (migrated_devices w)
    devices_told on = filter_by-cong _ _ (migrated_devices w) (λ d.
        audience_lem w.users g.topic g.recipient_ids d
        ∙ ap (λ b. open_device w.users d && b)
            (sym (takes_lem w.users g.topic g.recipient_ids d.user) ∙ user_told d.user (h.3 on)))

-- A dispatched notification reaches exactly the users who consented: with primary keys that are
-- unique, Firebase gets the active devices whose owner is active and among the recipients, did not
-- leave all notifications, has the category turned on and that kind of device not turned off, and a
-- user's group gets the event under the same conditions on the user, provided that the channel works
-- and that the entry of the event in the policy, if the request names an event, is valid, agrees with
-- the type of the message and has the channel on; otherwise the channel sends nothing. A user without
-- a profile gets only what has no category.
pub dispatch-TellsAudience :
    (policy : PushEvent → Option Entry) (w : World) (n : Notification) (r : Request)
    → IsKeyed w.users
    → TellsAudience policy w n r (dispatch policy w n r)
unfolding dispatch
dispatch-TellsAudience policy w n r u =
    told_by w n r (governed policy r) _ _ _ _ (governed-Governs policy r)
      (dispatch_governed-Reaches w n (governed policy r) u)
