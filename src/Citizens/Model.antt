-- ===== src/Citizens/Model.antt =====
-- The tables that obywatele/management/commands/count_citizens.py works on: users, their profiles
-- (`Uzytkownik`), the rates that citizens give, and requests to delete an account. Profiles and users
-- are named by primary keys, points in time are numbers of seconds.
use wikikracja.Common.{
  ℕ, Bool, Option, none, some, List, [], ◌∷◌, ◌==◌, if◌then◌else◌, ◌&&◌, exists_by,
}
use wikikracja.Common.Int.{ℤ}
use wikikracja.Common.Texts.{Text}

pub record User : Type 0 where
  pub id : ℕ
  pub email : Text
  pub is_active : Bool
  pub date_joined : ℕ
  pub last_login : Option ℕ

pub record Uzytkownik : Type 0 where
  pub id : ℕ
  pub uid : Option ℕ
  pub reputation : Option ℤ
  pub data_przyjecia : Option ℕ

pub record Rate : Type 0 where
  pub kandydat : ℕ
  pub obywatel : ℕ
  pub rate : Option ℤ

pub record DeletionRequest : Type 0 where
  pub user : ℕ
  pub scheduled_for : ℕ
  pub has_reason : Bool
  pub publish_after_deletion : Bool

-- What blocking takes from a user in other applications: tasks that the user coordinates, teams and
-- votes of tasks, and the authorship of transactions, each with its user.
pub record Resources : Type 0 where
  pub assigned : List (Option ℕ)
  pub helpers : List ℕ
  pub task_votes : List ℕ
  pub authors : List (Option ℕ)
  pub sessions : List ℕ

pub record Db : Type 0 where
  pub users : List User
  pub profiles : List Uzytkownik
  pub rates : List Rate
  pub deletions : List DeletionRequest
  pub resources : Resources
  pub activated : List ℕ
  pub published : ℕ

abbrev pub is_user : ℕ → User → Bool
is_user k u = u.id == k

abbrev pub is_profile : ℕ → Uzytkownik → Bool
is_profile k p = p.id == k

-- `uid__is_active=value` of a profile.
abbrev pub active_user : ℕ → User → Bool
active_user k u = u.id == k && u.is_active

abbrev pub profile_active : List User → Uzytkownik → Bool
profile_active users p = elim p.uid [ none ↦ Bool.false | some k ↦ exists_by (active_user k) users ]

abbrev pub find_profile : ℕ → List Uzytkownik → Option Uzytkownik
find_profile k [] = none
find_profile k (p ∷ ps) = if p.id == k then some p else find_profile k ps
