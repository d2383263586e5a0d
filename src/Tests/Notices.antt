-- ===== src/Tests/Notices.antt =====
-- Runs of notifications.
use wikikracja.Common.{ℕ, ◌≡◌, ◌≢◌, refl, true, false, none, some, [], ◌∷◌, exists_by, ◌==◌, ok}
use wikikracja.Notifications.Policy.{Category, PushEvent, push_events}
use wikikracja.Notifications.Model.{
  user_of, Profile, User, Device, Cloud, DeviceName, World, Topic, Notification,
}
use wikikracja.Notifications.Broadcast.{Request, dispatch}
use wikikracja.Notifications.Broadcast.Consent.{TellsAudience, dispatch-TellsAudience}
use wikikracja.Notifications.Direct.{send_fcm_to_user, send_websocket_to_user}
use wikikracja.Notifications.Receivers.{of_event}
use wikikracja.Notifications.Unsubscribe.{unsubscribe, unsubscribe_user_notifications}
use wikikracja.Notifications.Unsubscribe.Silence.{unsubscribe_silences}

abbrev willing : Profile
willing = record {
  unsubscribed = false;
  enabled = λ c. true;
  muted = [];
  phone = true;
  computer = false;
}

abbrev ola : User
ola = record { id = 1; is_active = true; profile = some willing }

abbrev jan : User
jan = record { id = 2; is_active = false; profile = some willing }

abbrev ewa : User
ewa = record { id = 3; is_active = true; profile = none }

abbrev phone_of : ℕ → Device
phone_of k = record {
  id = k;
  user = k;
  is_active = true;
  cloud = Cloud.gcm;
  name = DeviceName.mobile;
}

abbrev world : World
world = record {
  users = ola ∷ jan ∷ ewa ∷ [];
  devices = phone_of 1 ∷ phone_of 2 ∷ phone_of 3 ∷ [];
  database = true;
  ready = true;
  layer = true;
  reachable = λ k. true;
  migrated = false;
}

abbrev notice : Notification
notice = record { id = 1; linkable = true }

abbrev created : Request
created = of_event PushEvent.event_created

dispatch-TellsAudience_example :
    TellsAudience push_events world notice created (dispatch push_events world notice created)
dispatch-TellsAudience_example =
    dispatch-TellsAudience push_events world notice created (refl, (refl, (refl, tt)))

unsubscribe_silences_example :
    (exists_by (λ j. j == 1) (dispatch push_events (unsubscribe 1 world) notice created).groups
      ≡ false)
    × (exists_by
          (λ d. d.user == 1)
          (dispatch push_events (unsubscribe 1 world) notice created).devices
        ≡ false)
    × (send_fcm_to_user push_events
          (unsubscribe 1 world)
          (unsubscribe_user_notifications ola)
          notice
          created.topic
          none
          created.push_event
        ≡ ok ([], unsubscribe 1 world))
    × (send_websocket_to_user push_events
          (unsubscribe 1 world)
          1
          (some (Topic.known Category.events))
          created.push_event
        ≢ ok true)
unfolding user_of
unsubscribe_silences_example =
    unsubscribe_silences push_events world notice created 1 ola willing none
      (Topic.known Category.events) (refl, (refl, (refl, tt))) refl refl
