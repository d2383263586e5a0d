-- ===== src/Notifications/Unsubscribe/Silence.antt =====
-- Notifications to a user who left them all (core/services/notifications.py, core/notifications.py).
use wikikracja.Common.{
  ℕ, ◌≡◌, ◌≢◌, true, refl, ap, ◌∙◌, Bool, false, ◌&&◌, Option, none, some, List, [], ◌∷◌, ◌==◌,
  update_by, exists_by, filter_by, Bool-cases, Option-cases, ◌⊎◌, inl, inr, arith, eq_of, ok,
}
use wikikracja.Notifications.Policy.{Category, PushEvent, Entry, get_push_event_config}
use wikikracja.Notifications.Model.{Profile, User, Device, World, Notification, Topic, user_of}
use wikikracja.Notifications.Broadcast.{Request, dispatch, is_of}
use wikikracja.Notifications.Broadcast.Audience.{IsKeyed}
use wikikracja.Notifications.Broadcast.Reach.{migrated_devices}
use wikikracja.Notifications.Broadcast.Consent.{
  consents, told_user, open_device, category_of, dispatch-TellsAudience,
}
use wikikracja.Notifications.Direct.{
  send_fcm_to_user, send_websocket_to_user, event_for, takes_event, policy_topic, fcm_checked,
  push_enabled_for_user,
}
use wikikracja.Notifications.Unsubscribe.{unsubscribe_user_notifications, unsubscribe}

abbrev is_at : ℕ → User → Bool
is_at k u = u.id == k

abbrev left_at : ℕ → List User → List User
left_at k us = update_by (is_at k) unsubscribe_user_notifications us

left_at-exists_by :
    (k j : ℕ) (us : List User) → exists_by (is_at j) (left_at k us) ≡ exists_by (is_at j) us
unfolding unsubscribe_user_notifications
left_at-exists_by k j [] = refl
left_at-exists_by k j (u ∷ us) = ground (arith, left_at-exists_by k j us)

left_at-IsKeyed : (k : ℕ) (us : List User) → IsKeyed us → IsKeyed (left_at k us)
unfolding unsubscribe_user_notifications
left_at-IsKeyed k [] h = tt
left_at-IsKeyed k (u ∷ us) h = elim (Bool-cases (u.id == k)) [
  | inl at ↦ ground (arith, left_at-exists_by k u.id us, left_at-IsKeyed k us h.1)
  | inr away ↦ ground (arith, left_at-exists_by k u.id us, left_at-IsKeyed k us h.1)
]

unsubscribed_id : (u : User) → (unsubscribe_user_notifications u).id ≡ u.id
unfolding unsubscribe_user_notifications
unsubscribed_id u = refl

user_of-left_at :
    (k : ℕ) (us : List User) (u : User)
    → user_of us k ≡ some u
    → user_of (left_at k us) k ≡ some (unsubscribe_user_notifications u)
unfolding user_of
user_of-left_at k [] u h = ground arith
user_of-left_at k (v ∷ us) u h = elim (Bool-cases (v.id == k)) [
  | inl at ↦ ground (arith, unsubscribed_id v)
  | inr away ↦ ground (arith, user_of-left_at k us u)
]

no_consent :
    (u : User) (q : Profile) (c : Option Category)
    → u.profile ≡ some q
    → consents (unsubscribe_user_notifications u).profile c ≡ false
unfolding unsubscribe_user_notifications
no_consent u q none p = ground (arith, p)
no_consent u q (some c) p = ground (arith, p)

not_told :
    (k : ℕ) (us : List User) (u : User) (q : Profile) (c : Option Category) (rs : Option (List ℕ))
    → user_of us k ≡ some u
    → u.profile ≡ some q
    → told_user (left_at k us) c rs k ≡ false
not_told k us u q c rs f p = ground (arith, user_of-left_at k us u f, no_consent u q c p)

no_device :
    (k : ℕ) (p : Device → Bool) (t : ℕ → Bool) (ds : List Device)
    → t k ≡ false
    → exists_by (λ d. d.user == k) (filter_by (λ d. p d && t d.user) ds) ≡ false
no_device k p t [] h = refl
no_device k p t (d ∷ ds) h = elim (Bool-cases (d.user == k)) [
  | inl its ↦ ground (arith, no_device k p t ds h, ap t (eq_of d.user k its))
  | inr other ↦ ground (arith, no_device k p t ds h)
]

not_direct :
    (policy : PushEvent → Option Entry) (w : World) (n : Notification) (u : User) (q : Profile)
    (topic : Option Topic) (source : Option ℕ) (key : Option PushEvent)
    → u.profile ≡ some q
    → send_fcm_to_user policy w (unsubscribe_user_notifications u) n topic source key ≡ ok ([], w)
unfolding send_fcm_to_user fcm_checked push_enabled_for_user unsubscribe_user_notifications
not_direct policy w n u q topic source key p =
    elim (Option-cases (policy_topic policy (λ c. c.fcm) key topic)) [
      | inl closed ↦ ground (arith, closed)
      | inr opened ↦ ground (arith, opened.1, p)
    ]

no_event :
    (w : World) (k : ℕ) (u : User) (q : Profile) (t : Topic)
    → user_of w.users k ≡ some u
    → u.profile ≡ some q
    → event_for (unsubscribe k w) k (some t) ≢ ok true
unfolding event_for takes_event push_enabled_for_user unsubscribe unsubscribe_user_notifications
no_event w k u q t f p = ground (arith, user_of-left_at k w.users u f, p)

-- The policy leaves no message, or one that has a type.
still_typed :
    (policy : PushEvent → Option Entry) (key : Option PushEvent) (t : Topic)
    → (policy_topic policy (λ c. c.websocket) key (some t) ≡ none)
      ⊎ ((x : Topic) × (policy_topic policy (λ c. c.websocket) key (some t) ≡ some (some x)))
unfolding policy_topic
still_typed policy none t = inr (t, refl)
still_typed policy (some k) t = elim (Option-cases (get_push_event_config policy k)) [
  | inl absent ↦ inl (ground (arith, absent))
  | inr (config, found) ↦ elim (Bool-cases (config.websocket && is_of (some t) config.category)) [
    | inl on ↦ inr (Topic.known config.category, ground (arith, found))
    | inr off ↦ inl (ground (arith, found))
  ]
]

not_sent :
    (policy : PushEvent → Option Entry) (w : World) (k : ℕ) (u : User) (q : Profile) (t : Topic)
    (key : Option PushEvent)
    → user_of w.users k ≡ some u
    → u.profile ≡ some q
    → send_websocket_to_user policy (unsubscribe k w) k (some t) key ≢ ok true
unfolding send_websocket_to_user
not_sent policy w k u q t key f p = elim (still_typed policy key t) [
  | inl closed ↦ ground (arith, closed)
  | inr (x, sent) ↦ ground (arith, sent, no_event w k u q x f p)
]

-- With unique primary keys, a user with a profile who left all notifications gets none of these:
-- after that, whatever the request, the policy and the state of devices, no broadcast reaches the
-- user's group or hands one of the user's devices to Firebase, no message is sent to the user's
-- devices directly, and no message that has a type is sent to the user's group directly.
pub unsubscribe_silences :
    (policy : PushEvent → Option Entry) (w : World) (n : Notification) (r : Request) (k : ℕ)
    (u : User) (q : Profile) (source : Option ℕ) (t : Topic)
    → IsKeyed w.users
    → user_of w.users k ≡ some u
    → u.profile ≡ some q
    → (exists_by (λ j. j == k) (dispatch policy (unsubscribe k w) n r).groups ≡ false)
      × (exists_by (λ d. d.user == k) (dispatch policy (unsubscribe k w) n r).devices ≡ false)
      × (send_fcm_to_user policy
            (unsubscribe k w)
            (unsubscribe_user_notifications u)
            n
            r.topic
            source
            r.push_event
          ≡ ok ([], unsubscribe k w))
      × (send_websocket_to_user policy (unsubscribe k w) k (some t) r.push_event ≢ ok true)
unfolding unsubscribe
unsubscribe_silences policy w n r k u q source t h f p =
    let told = dispatch-TellsAudience policy (unsubscribe k w) n r (left_at-IsKeyed k w.users h) in
    let none_told =
      not_told k w.users u q (category_of policy r.topic r.push_event) r.recipient_ids f p in
    (
      told.1 k ∙ ground (arith, none_told),
      ap (exists_by (λ d. d.user == k)) told.0
          ∙ ground (
            arith,
            no_device k (open_device (left_at k w.users))
                (told_user (left_at k w.users) (category_of policy r.topic r.push_event)
                  r.recipient_ids)
                (migrated_devices w) none_told,
          ),
      not_direct policy (unsubscribe k w) n u q r.topic source r.push_event p,
      not_sent policy w k u q t r.push_event f p,
    )
