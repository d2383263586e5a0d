-- ===== src/Notifications/Broadcast/Reach.antt =====
-- What `send_notification_to_all_sync` (core/notifications.py) sends, by its conditions.
use wikikracja.Common.{
  ℕ, ◌≡◌, refl, sym, ap, subst, ◌∙◌, Bool, true, false, ◌&&◌, not, Option, none, some, List, [],
  ◌∷◌, ◌==◌, if◌then◌else◌, exists_by, filter_by, update_by, Bool-cases, inl, inr, arith, eq_of,
  Result, ok, err,
}
use wikikracja.Notifications.Model.{
  User, Device, Cloud, World, Notification, is_subscribed, ids_of, push_user_ids, user_of, is_fcm,
  migrate, among, is_nobody,
}
use wikikracja.Notifications.Broadcast.{
  Sent, is_target, fcm_targets, default_ids, fcm_to, send_fcm_to_all, groups_to,
  send_websocket_to_all, send_groups, send_channels,
}
use wikikracja.Notifications.Broadcast.Audience.{IsKeyed, holds_of}

pub filter_by-cong {ℓ} :
    {A : Type ℓ} (p q : A → Bool) (xs : List A)
    → ((x : A) → p x ≡ q x)
    → filter_by p xs ≡ filter_by q xs
filter_by-cong p q [] h = refl
filter_by-cong p q (x ∷ xs) h = ground (arith, h x, filter_by-cong p q xs h)

filter_by-never {ℓ} :
    {A : Type ℓ} (p : A → Bool) (xs : List A) → ((x : A) → p x ≡ false) → filter_by p xs ≡ []
filter_by-never p [] h = refl
filter_by-never p (x ∷ xs) h = ground (arith, h x, filter_by-never p xs h)

-- The group of a user among those that a query of users gives.
exists_by-groups :
    (reachable : ℕ → Bool) (p : User → Bool) (us : List User) (k : ℕ)
    → exists_by (λ j. j == k) (filter_by reachable (ids_of (filter_by p us)))
      ≡ (reachable k && exists_by (λ u. u.id == k && p u) us)
exists_by-groups reachable p [] k = ground arith
exists_by-groups reachable p (u ∷ us) k = ground (arith, exists_by-groups reachable p us k)

exists_by-absent :
    (p : User → Bool) (us : List User) (k : ℕ)
    → exists_by (λ v. v.id == k) us ≡ false
    → exists_by (λ u. u.id == k && p u) us ≡ false
exists_by-absent p [] k h = refl
exists_by-absent p (u ∷ us) k h = ground (arith, exists_by-absent p us k)

exists_by-user_of :
    (p : User → Bool) (us : List User) (k : ℕ)
    → IsKeyed us
    → exists_by (λ u. u.id == k && p u) us ≡ holds_of (user_of us k) p
unfolding user_of
exists_by-user_of p [] k h = refl
exists_by-user_of p (u ∷ us) k h = elim (Bool-cases (u.id == k)) [
  | inl same ↦ ground (arith, exists_by-absent p us k)
  | inr other ↦ ground (arith, exists_by-user_of p us k h.1)
]

among_nobody : (ids : Option (List ℕ)) (k : ℕ) → is_nobody ids ≡ true → among ids k ≡ false
among_nobody none k h = ground arith
among_nobody (some []) k h = refl
among_nobody (some (i ∷ ids)) k h = ground arith

user_of-id :
    (us : List User) (k : ℕ) (ids : Option (List ℕ))
    → holds_of (user_of us k) (λ u. is_subscribed u && among ids u.id)
      ≡ (holds_of (user_of us k) is_subscribed && among ids k)
unfolding user_of
user_of-id [] k ids = refl
user_of-id (u ∷ us) k ids = elim (Bool-cases (u.id == k)) [
  | inl same ↦ ground (arith, ap (among ids) (eq_of u.id k same))
  | inr other ↦ ground (arith, user_of-id us k ids)
]

default_ids-none : (w : World) (ids : Option (List ℕ)) → default_ids w ids none ≡ ids
unfolding push_user_ids
default_ids-none w none = refl
default_ids-none w (some ids) = refl

-- Whether the group of a user gets the event, by the set of recipients.
abbrev reaches : World → Option (List ℕ) → ℕ → Bool
reaches w ids k = w.reachable k && (holds_of (user_of w.users k) is_subscribed && among ids k)

abbrev groups_of : Result (List ℕ) → List ℕ
groups_of (ok groups) = groups
groups_of (err e) = []

pub exists_by-groups_to :
    (w : World) (ids : Option (List ℕ)) (k : ℕ)
    → IsKeyed w.users
    → exists_by (λ j. j == k) (groups_of (groups_to w ids)) ≡ (w.database && reaches w ids k)
unfolding groups_to
exists_by-groups_to w ids k d = elim (Bool-cases (is_nobody ids)) [
  | inl nobody ↦ ground (arith, among_nobody ids k nobody)
  | inr somebody ↦ ground (
    arith,
    exists_by-groups w.reachable (λ u. is_subscribed u && among ids u.id) w.users k,
    exists_by-user_of (λ u. is_subscribed u && among ids u.id) w.users k d,
    user_of-id w.users k ids,
  )
]

send_groups_lem :
    (w : World) (ws : Bool) (ids : Option (List ℕ)) (ds : List Device)
    → send_groups w ws ids ds
      ≡ record { devices = ds; groups = if ws && w.layer then groups_of (groups_to w ids) else [] }
unfolding send_groups send_websocket_to_all
send_groups_lem w ws ids ds = ground (arith, default_ids-none w ids)

-- The devices after the migration of those that were registered with the former service.
abbrev pub migrated_devices : World → List Device
migrated_devices w =
    if w.migrated
    then w.devices
    else update_by (λ e. not (is_fcm e)) (λ e. record e { cloud = Cloud.fcm }) w.devices

abbrev fcm_list : World → Notification → Option (List ℕ) → List Device
fcm_list w n ids =
    if w.ready && n.linkable
    then filter_by (λ e. is_target w.users e && among ids e.user) (migrated_devices w)
    else []

-- Another state of the devices, with the rest as before.
abbrev Beside : World → World → Type 0
Beside w v =
    (v.users ≡ w.users)
    × (v.database ≡ w.database)
    × (v.layer ≡ w.layer)
    × (v.reachable ≡ w.reachable)

abbrev SendsFcm : World → List Device → Result (List Device × World) → Type 0
SendsFcm w ds result = (v : World) × (result ≡ ok (ds, v)) × Beside w v

migrate_lem :
    (w : World)
    → w.database ≡ true
    → (v : World) × (migrate w ≡ ok v) × Beside w v × (v.devices ≡ migrated_devices w)
unfolding migrate
migrate_lem w h = elim (Bool-cases w.migrated) [
  | inl yet ↦ (w, ground arith, (refl, refl, refl, refl), ground arith)
  | inr first ↦ (
    record w { migrated = true; devices = migrated_devices w },
    ground arith,
    (refl, refl, refl, refl),
    refl,
  )
]

fcm_targets_lem :
    (w v : World) (n : Notification) (ids : Option (List ℕ))
    → Beside w v
    → w.database ≡ true
    → v.devices ≡ migrated_devices w
    → w.ready ≡ true
    → fcm_targets v n ids ≡ fcm_list w n ids
unfolding fcm_targets
fcm_targets_lem w v n ids b h e r = ground (
  arith,
  b.1,
  ap (λ us. filter_by (λ i. is_target us i && among ids i.user) v.devices) b.0
      ∙ ap (λ l. filter_by (λ i. is_target w.users i && among ids i.user) l) e,
)

fcm_list-nobody :
    (w : World) (n : Notification) (ids : Option (List ℕ))
    → is_nobody ids ≡ true
    → fcm_list w n ids ≡ []
fcm_list-nobody w n ids h = ground (
  arith,
  filter_by-never (λ e. is_target w.users e && among ids e.user) (migrated_devices w)
      (λ e. ground (arith, among_nobody ids e.user h)),
)

send_fcm_to_all_lem :
    (w : World) (n : Notification) (ids : Option (List ℕ))
    → w.database ≡ true
    → SendsFcm w (fcm_list w n ids) (send_fcm_to_all w n ids none)
unfolding send_fcm_to_all fcm_to
send_fcm_to_all_lem w n ids h =
    subst (λ i. SendsFcm w (fcm_list w n ids) (if w.ready then fcm_to w n i else ok ([], w)))
      (sym (default_ids-none w ids))
      (elim (Bool-cases w.ready) [
        | inr idle ↦ (w, ground arith, (refl, refl, refl, refl))
        | inl ready ↦ elim (Bool-cases (is_nobody ids)) [
          | inl nobody ↦
              (w, ground (arith, fcm_list-nobody w n ids nobody), (refl, refl, refl, refl))
          | inr somebody ↦
              let m = migrate_lem w h in
              (m.0, ground (arith, m.1, fcm_targets_lem w m.0 n ids m.2 h m.3 ready), m.2)
        ]
      ])

Beside-groups_to :
    (w v : World) (ids : Option (List ℕ)) → Beside w v → groups_to v ids ≡ groups_to w ids
unfolding groups_to
Beside-groups_to w v ids b = ground (
  arith,
  b.1,
  ap (λ us. filter_by v.reachable (ids_of (filter_by (λ u. is_subscribed u && among ids u.id) us)))
        b.0
      ∙ ap (λ r. filter_by r (ids_of (filter_by (λ u. is_subscribed u && among ids u.id) w.users)))
          b.3,
)

abbrev groups_list : World → Option (List ℕ) → List ℕ
groups_list w ids = if w.layer then groups_of (groups_to w ids) else []

-- Both channels, for a set of recipients and a database that answers.
pub send_channels_lem :
    (w : World) (n : Notification) (push ws : Bool) (ids : Option (List ℕ))
    → w.database ≡ true
    → send_channels w n push ws ids ≡ record {
      devices = if push then fcm_list w n ids else [];
      groups = if ws then groups_list w ids else [];
    }
unfolding send_channels
send_channels_lem w n true ws ids h =
    let s = send_fcm_to_all_lem w n ids h in
    ap after_fcm s.1
    ∙ send_groups_lem s.0 ws ids (fcm_list w n ids)
    ∙ ground (arith, s.2.2, Beside-groups_to w s.0 ids s.2)
  where
    after_fcm : Result (List Device × World) → Sent
    after_fcm (ok sent) = send_groups sent.1 ws ids sent.0
    after_fcm (err e) = record { devices = []; groups = [] }
send_channels_lem w n false ws ids h = ground (arith, send_groups_lem w ws ids [])
