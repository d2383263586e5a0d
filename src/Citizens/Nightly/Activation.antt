-- ===== src/Citizens/Nightly/Activation.antt =====
-- How many candidates one run accepts (obywatele/management/commands/count_citizens.py,
-- `activate_eligible_users`).
use wikikracja.Common.{
  ℕ, suc, ◌≤◌, ◌≡◌, refl, ap, false, List, [], ◌∷◌, ◌++◌, none, some, length, length-append, arith,
  Option-cases, inl, inr, filter_by,
}
use wikikracja.Common.Int.{ℤ}
use wikikracja.Citizens.Model.{Uzytkownik, Db}
use wikikracja.Citizens.Reputation.{required_reputation, population, grant_automatic_reputation}
use wikikracja.Citizens.Nightly.{
  Setting, profile_inactive, eligible, accept_candidate, activate_each, activate_next,
  activate_eligible_users,
}

activated-grant :
    (acceptance new : ℕ) (db : Db)
    → (grant_automatic_reputation acceptance new db).activated ≡ db.activated
unfolding grant_automatic_reputation
activated-grant acceptance new db = ground arith

activated-accept_candidate :
    (s : Setting) (p : Uzytkownik) (k : ℕ) (db : Db)
    → (accept_candidate s p k db).activated ≡ db.activated ++ p.id ∷ []
unfolding accept_candidate
activated-accept_candidate s p k db = activated-grant s.acceptance p.id _

accepted-length :
    (s : Setting) (p : Uzytkownik) (k : ℕ) (db : Db)
    → length (accept_candidate s p k db).activated ≡ suc (length db.activated)
accepted-length s p k db =
    rw (activated-accept_candidate s p k db) (omega (arith, length-append db.activated (p.id ∷ [])))

activate-skip :
    (s : Setting) (required : ℤ) (p : Uzytkownik) (ps : List Uzytkownik) (db : Db)
    → eligible required p db ≡ none
    → activate_each s required (p ∷ ps) db ≡ activate_each s required ps db
unfolding activate_each activate_next
activate-skip s required p ps db e = rw e refl

activate-stop :
    (s : Setting) (required : ℤ) (p : Uzytkownik) (ps : List Uzytkownik) (db : Db) (k : ℕ)
    → eligible required p db ≡ some k
    → s.welcome ≡ false
    → activate_each s required (p ∷ ps) db ≡ accept_candidate s p k db
unfolding activate_each activate_next
activate-stop s required p ps db k e h = rw e (rw h refl)

activated-one :
    (s : Setting) (required : ℤ) (ps : List Uzytkownik) (db : Db)
    → s.welcome ≡ false
    → length (activate_each s required ps db).activated ≤ suc (length db.activated)
unfolding activate_each
activated-one s required [] db h = omega arith
activated-one s required (p ∷ ps) db h = elim (Option-cases (eligible required p db)) [
  | inl e ↦ omega (
    arith,
    activated-one s required ps db h,
    ap (λ d. length d.activated) (activate-skip s required p ps db e),
  )
  | inr (k, e) ↦ omega (
    arith,
    accepted-length s p k db,
    ap (λ d. length d.activated) (activate-stop s required p ps db k e h),
  )
]

-- While the text of the welcome mail is missing, one run accepts one candidate at most, however many
-- have the reputation.
pub activate_eligible_users_stops :
    (s : Setting) (db : Db)
    → s.welcome ≡ false
    → length (activate_eligible_users s db).activated ≤ suc (length db.activated)
unfolding activate_eligible_users
activate_eligible_users_stops s db h =
    activated-one s (required_reputation (population db) s.acceptance)
      (filter_by (profile_inactive db.users) db.profiles) db h
