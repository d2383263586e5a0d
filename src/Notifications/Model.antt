-- ===== src/Notifications/Model.antt =====
-- What core/notifications.py reads: citizens with their preferences (obywatele/models.py), their
-- devices, and whether the database, Firebase and the websocket layer answer.
use wikikracja.Common.{
  ℕ, Bool, true, false, ◌&&◌, not, Option, none, some, List, [], ◌∷◌, ◌==◌, if◌then◌else◌,
  exists_by, filter_by, map, update_by, Result, ok, err, operational,
}
use wikikracja.Notifications.Policy.{Category}

pub record Profile : Type 0 where
  pub unsubscribed : Bool
  pub enabled : Category → Bool
  pub muted : List ℕ
  pub phone : Bool
  pub computer : Bool

pub record User : Type 0 where
  pub id : ℕ
  pub is_active : Bool
  pub profile : Option Profile

pub data Cloud : Type 0 where
  fcm gcm : Cloud

pub data DeviceName : Type 0 where
  mobile tablet desktop other : DeviceName

pub record Device : Type 0 where
  pub id : ℕ
  pub user : ℕ
  pub is_active : Bool
  pub cloud : Cloud
  pub name : DeviceName

-- `database`, `ready` and `layer` tell whether the database, Firebase and the channel layer answer,
-- `reachable` whether the group of a user does; `migrated` is the global `_gcm_migrated`.
pub record World : Type 0 where
  pub users : List User
  pub devices : List Device
  pub database : Bool
  pub ready : Bool
  pub layer : Bool
  pub reachable : ℕ → Bool
  pub migrated : Bool

-- A notification; Firebase takes only those with an absolute link.
pub record Notification : Type 0 where
  pub id : ℕ
  pub linkable : Bool

-- A notification type: a category, or a text that is none.
pub data Topic : Type 0 where
  known : Category → Topic
  unknown : Topic

-- `_PUSH_FIELDS.get(notification_type)`, for a type that may be absent.
abbrev pub field_of : Option Topic → Option Category
field_of none = none
field_of (some Topic.unknown) = none
field_of (some (Topic.known c)) = some c

abbrev pub given : Option Topic → Bool
given none = false
given (some t) = true

-- `user.uzytkownik`, read with a default.
abbrev pub with_profile : Option Profile → Bool → (Profile → Bool) → Bool
with_profile none default p = default
with_profile (some q) default p = p q

-- `notifications_unsubscribed` (core/services/notifications.py)
abbrev pub notifications_unsubscribed : User → Bool
notifications_unsubscribed u = with_profile u.profile false (λ q. q.unsubscribed)

-- `is_active=True, uzytkownik__notifications_unsubscribed_at__isnull=True`: the join is an outer one,
-- so a user without a profile passes.
abbrev pub is_subscribed : User → Bool
is_subscribed u = u.is_active && with_profile u.profile true (λ q. not q.unsubscribed)

abbrev pub has_enabled : Category → User → Bool
has_enabled c u = with_profile u.profile false (λ q. q.enabled c)

abbrev pub ids_of : List User → List ℕ
ids_of us = map (λ u. u.id) us

-- `_push_user_ids`
unfoldable pub push_user_ids : World → Option Topic → Option (List ℕ)
push_user_ids w topic = elim (field_of topic) [
  | none ↦ none
  | some c ↦ some (
      if w.database
      then ids_of (filter_by (λ u. is_subscribed u && has_enabled c u) w.users)
      else [])
]

unfoldable pub user_of : List User → ℕ → Option User
user_of [] k = none
user_of (u ∷ us) k = if u.id == k then some u else user_of us k

abbrev pub is_fcm : Device → Bool
is_fcm d = elim d.cloud [ Cloud.fcm ↦ true | Cloud.gcm ↦ false ]

-- `_migrate_legacy_gcm_devices`
unfoldable pub migrate : World → Result World
migrate w =
    if w.migrated
    then ok w
    else if w.database
    then ok (record w {
      migrated = true;
      devices = update_by (λ d. not (is_fcm d)) (λ d. record d { cloud = Cloud.fcm }) w.devices;
    })
    else err operational

-- The kinds of devices that the profile lets through.
unfoldable pub lets_device : Profile → Device → Bool
lets_device q d = elim d.name [
  | DeviceName.mobile ↦ q.phone
  | DeviceName.tablet ↦ q.phone
  | DeviceName.desktop ↦ q.computer
  | DeviceName.other ↦ true
]

-- `user_id__in=user_ids`, when the set is given.
abbrev pub among : Option (List ℕ) → ℕ → Bool
among none k = true
among (some ids) k = exists_by (λ i. i == k) ids

abbrev pub is_nil {ℓ} : {A : Type ℓ} → List A → Bool
is_nil [] = true
is_nil (x ∷ xs) = false

-- `user_ids is not None and not user_ids`
abbrev pub is_nobody : Option (List ℕ) → Bool
is_nobody none = false
is_nobody (some ids) = is_nil ids
