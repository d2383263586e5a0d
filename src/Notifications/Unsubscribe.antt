-- ===== src/Notifications/Unsubscribe.antt =====
-- core/services/notifications.py: leaving all notifications, and coming back.
pub mod Silence
use wikikracja.Common.{
  ℕ, ◌≡◌, refl, Bool, true, false, ◌&&◌, not, Option, none, some, List, [], ◌∷◌, ◌==◌,
  if◌then◌else◌, update_by,
}
use wikikracja.Notifications.Policy.{Category}
use wikikracja.Notifications.Model.{Profile, User, World}

-- The categories that `update_fields` names: all but that of bookkeeping.
abbrev pub is_cleared : Category → Bool
is_cleared c = elim c [ Category.bookkeeping ↦ false | _ ↦ true ]

abbrev pub left : Profile → Profile
left q = record q {
  unsubscribed = true;
  phone = false;
  computer = false;
  enabled = λ c. not (is_cleared c) && q.enabled c;
}

abbrev pub with_left : Option Profile → Option Profile
with_left none = none
with_left (some q) = some (left q)

-- `unsubscribe_user_notifications`, on the row of the user.
unfoldable pub unsubscribe_user_notifications : User → User
unsubscribe_user_notifications u = record u { profile = with_left u.profile }

abbrev pub with_cleared : Option Profile → Option Profile
with_cleared none = none
with_cleared (some q) = some (record q { unsubscribed = false })

-- `clear_notifications_unsubscribe`
unfoldable pub clear_notifications_unsubscribe : User → User
clear_notifications_unsubscribe u = record u { profile = with_cleared u.profile }

-- The user's row in the tables.
unfoldable pub unsubscribe : ℕ → World → World
unfolding unsubscribe_user_notifications
unsubscribe k w = record w {
  users = update_by (λ u. u.id == k) unsubscribe_user_notifications w.users;
}
