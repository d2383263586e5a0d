-- ===== src/Citizens/Nightly.antt =====
-- The nightly command on citizens (obywatele/management/commands/count_citizens.py) and the
-- resources of blocked users (obywatele/services.py). Mails and signals are left out; whether the
-- post with the text of the welcome mail is there comes from outside.
pub mod Blocking
pub mod Activation
use wikikracja.Common.{
  ℕ, zero, suc, ◌+◌, ◌-◌, ◌*◌, Bool, true, false, not, ◌&&◌, ◌||◌, Option, none, some, List, [],
  ◌∷◌, ◌++◌, map, ◌==◌, if◌then◌else◌, ltb, leb, exists_by, count_by, reject_by, update_by,
  filter_by, is_some, refers, Result, ok, err, type_error, ◌>>=◌,
}
use wikikracja.Common.Int.{ℤ, pos, ltb_ℤ}
use wikikracja.Common.Texts.{Text, lower, text_eq}
use wikikracja.Citizens.Model.{
  User, Uzytkownik, Rate, DeletionRequest, Resources, Db, is_user, is_profile, active_user,
  profile_active,
}
use wikikracja.Citizens.Reputation.{
  population, required_reputation, count_reputation, grant_automatic_reputation, without_profile,
}

-- What the command reads from outside: the time, the parameters, and whether the welcome post has a
-- text that can be filled in.
pub record Setting : Type 0 where
  pub now : ℕ
  pub today : ℕ
  pub acceptance : ℕ
  pub delete_inactive_user_after : ℕ
  pub welcome : Bool

-- `user.uzytkownik.delete(); user.delete()`, and what goes or loses its reference with the user.
without_profiles_of : ℕ → List Uzytkownik → Db → Db
without_profiles_of k [] db = db
without_profiles_of k (p ∷ ps) db =
    without_profiles_of k ps (if refers p.uid k then without_profile p.id db else db)

pub delete_user : ℕ → Db → Db
unfolding without_profiles_of
delete_user k db = without_profiles_of k db.profiles (record db {
  users = reject_by (is_user k) db.users;
  deletions = reject_by (λ d. d.user == k) db.deletions;
})

-- The order `(not u.is_active, -u.date_joined)`.
abbrev pub precedes : User → User → Bool
precedes u v = elim u.is_active [
  | true ↦ elim v.is_active [ true ↦ ltb v.date_joined u.date_joined | false ↦ true ]
  | false ↦ elim v.is_active [ true ↦ false | false ↦ ltb v.date_joined u.date_joined ]
]

-- A stable sort by that order.
insert_user : User → List User → List User
insert_user u [] = u ∷ []
insert_user u (v ∷ vs) = if precedes v u then v ∷ insert_user u vs else u ∷ v ∷ vs

pub sort_users : List User → List User
unfolding insert_user
sort_users [] = []
sort_users (u ∷ us) = insert_user u (sort_users us)

abbrev pub same_email : User → User → Bool
same_email u v = text_eq (map lower u.email) (map lower v.email)

delete_each : List User → Db → Db
delete_each [] db = db
delete_each (u ∷ us) db = delete_each us (delete_user u.id db)

delete_rest : List User → Db → Db
unfolding delete_each
delete_rest [] db = db
delete_rest (keep ∷ rest) db = delete_each rest db

-- `email_to_users`, group by group in the order in which the addresses come up.
groups : ℕ → List User → List (List User)
groups zero us = []
groups (suc fuel) [] = []
groups (suc fuel) (u ∷ us) =
    (u ∷ filter_by (same_email u) us) ∷ groups fuel (reject_by (same_email u) us)

clean_groups : List (List User) → Db → Db
unfolding delete_rest
clean_groups [] db = db
clean_groups (g ∷ gs) db = clean_groups gs (delete_rest (sort_users g) db)

list_length : List User → ℕ
list_length [] = 0
list_length (u ∷ us) = suc (list_length us)

-- `cleanup_duplicate_users`; there are at most as many groups as users.
pub cleanup_duplicate_users : Db → Db
unfolding clean_groups groups list_length
cleanup_duplicate_users db = clean_groups (groups (list_length db.users) db.users) db

-- `User.objects.filter(id=k, is_active=False).update(is_active=True)`
abbrev pub set_active : ℕ → List User → List User
set_active k = update_by (λ u. u.id == k && not u.is_active) (λ u. record u { is_active = true })

abbrev pub is_inactive : ℕ → User → Bool
is_inactive k u = u.id == k && not u.is_active

-- The update of the user, the date, the entry in the log, and the automatic rates.
pub accept_candidate : Setting → Uzytkownik → ℕ → Db → Db
accept_candidate s p k db = grant_automatic_reputation s.acceptance p.id (record db {
  users = set_active k db.users;
  profiles =
      update_by (is_profile p.id) (λ q. record p { data_przyjecia = some s.today }) db.profiles;
  activated = db.activated ++ p.id ∷ [];
})

-- Whether a profile of the list is to be accepted now: its user, if so.
pub eligible : ℤ → Uzytkownik → Db → Option ℕ
eligible required p db = elim p.uid [
  | none ↦ none
  | some zero ↦ none
  | some (suc k) ↦ elim p.reputation [
    | none ↦ none
    | some z ↦
        if ltb_ℤ required z && exists_by (is_inactive (suc k)) db.users then some (suc k) else none
  ]
]

-- One round of the loop of `activate_eligible_users`, before the rest: without a welcome text, the
-- command returns after the candidate that it accepts.
unfoldable pub activate_next : Setting → Uzytkownik → Option ℕ → Db → (Db → Db) → Db
activate_next s p none db rest = rest db
activate_next s p (some k) db rest =
    if s.welcome then rest (accept_candidate s p k db) else accept_candidate s p k db

pub activate_each : Setting → ℤ → List Uzytkownik → Db → Db
activate_each s required [] db = db
activate_each s required (p ∷ ps) db =
    activate_next s p (eligible required p db) db (activate_each s required ps)

abbrev pub profile_inactive : List User → Uzytkownik → Bool
profile_inactive users p = elim p.uid [ none ↦ false | some k ↦ exists_by (is_inactive k) users ]

-- `activate_eligible_users`
pub activate_eligible_users : Setting → Db → Db
unfolding activate_each
activate_eligible_users s db =
    activate_each s (required_reputation (population db) s.acceptance)
      (filter_by (profile_inactive db.users) db.profiles) db

-- `release_blocked_user_resources` and `invalidate_user_sessions`
pub release_blocked_user_resources : ℕ → Resources → Resources
release_blocked_user_resources k r = record {
  assigned = update_by (λ o. refers o k) (λ _. none) r.assigned;
  helpers = reject_by (λ u. u == k) r.helpers;
  task_votes = reject_by (λ u. u == k) r.task_votes;
  authors = update_by (λ o. refers o k) (λ _. none) r.authors;
  sessions = reject_by (λ u. u == k) r.sessions;
}

-- The user is blocked, and the rates that it gave are neutral from now on.
pub block : Uzytkownik → ℕ → Db → Db
unfolding release_blocked_user_resources
block p k db = record db {
  users = update_by (is_user k) (λ u. record u { is_active = false }) db.users;
  resources = release_blocked_user_resources k db.resources;
  rates = update_by (λ r. r.obywatel == p.id) (λ r. record r { rate = some (pos 0) }) db.rates;
}

-- One round of the loop of `block_ineligible_users`, before the rest: the comparison of NULL with the
-- threshold raises, and profiles without user are not among the active.
unfoldable pub block_next : ℤ → Uzytkownik → Option ℤ → Option ℕ → Db → (Db → Result Db) → Result Db
block_next required p none _ db rest = err type_error
block_next required p (some z) none db rest = rest db
block_next required p (some z) (some k) db rest =
    rest (if ltb_ℤ z required then block p k db else db)

pub block_each : ℤ → List Uzytkownik → Db → Result Db
block_each required [] db = ok db
block_each required (p ∷ ps) db =
    block_next required p p.reputation p.uid db (block_each required ps)

-- `block_ineligible_users`
pub block_ineligible_users : Setting → Db → Result Db
unfolding block_each
block_ineligible_users s db =
    block_each (required_reputation (population db) s.acceptance)
      (filter_by (profile_active db.users) db.profiles) db

abbrev seconds_of : ℕ → ℕ
seconds_of days = days * 86400

-- `last_login`, or now, which is written back.
abbrev pub seen : Setting → User → ℕ
seen s u = elim u.last_login [ none ↦ s.now | some at ↦ at ]

abbrev touch : Setting → User → Db → Db
touch s u db = elim u.last_login [
  | none ↦ record db {
    users = update_by (is_user u.id) (λ v. record v { last_login = some s.now }) db.users;
  }
  | some _ ↦ db
]

pub delete_inactive_each : Setting → List User → Db → Db
delete_inactive_each s [] db = db
delete_inactive_each s (u ∷ us) db = delete_inactive_each s us (
    if ltb (seen s u + seconds_of s.delete_inactive_user_after) s.now
    then delete_user u.id (touch s u db)
    else touch s u db)

abbrev pub awaits_deletion : Db → User → Bool
awaits_deletion db u = not u.is_active && not (exists_by (λ d. d.user == u.id) db.deletions)

-- `delete_inactive_users`: users with a request of their own are left to it.
pub delete_inactive_users : Setting → Db → Db
unfolding delete_inactive_each
delete_inactive_users s db = delete_inactive_each s (filter_by (awaits_deletion db) db.users) db

pub process_each : List DeletionRequest → Db → Db
process_each [] db = db
process_each (d ∷ ds) db = process_each ds (record (delete_user d.user db) {
  published = if d.has_reason && d.publish_after_deletion then suc db.published else db.published;
})

-- `process_deletion_requests`
pub process_deletion_requests : Setting → Db → Db
unfolding process_each
process_deletion_requests s db =
    process_each (filter_by (λ d. leb d.scheduled_for s.now) db.deletions) db

-- `handle`
pub count_citizens : Setting → Db → Result Db
unfolding activate_eligible_users block_ineligible_users delete_inactive_users
    process_deletion_requests
count_citizens s db = do
  blocked ←
      block_ineligible_users s (
        count_reputation
          (activate_eligible_users s (count_reputation (cleanup_duplicate_users db))))
  ok (process_deletion_requests s (delete_inactive_users s blocked))
