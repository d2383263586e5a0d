-- ===== src/Core/Presence.antt =====
-- When a user was last seen (core/presence.py). Times are numbers of seconds; a time that comes as a
-- text is left out, and so are the logs. Errors of the database come from outside, one entry for
-- each attempt that is made: no error, or the one that is raised.
use wikikracja.Common.{
  ℕ, ◌+◌, ◌*◌, ◌≤◌, ◌≡◌, refl, arith, Bool, true, false, not, ◌||◌, Option, none, some, List, [],
  ◌∷◌, Result, ok, err, Error, ltb, leb, if◌then◌else◌, inl, inr, Bool-cases,
}
use wikikracja.Core.Retry.{run_with_lock_retry, is_locked, attempt, after_attempt}

pub data Source : Type 0 where
  app push other : Source

pub record Profile : Type 0 where
  pub last_presence_at : Option ℕ
  pub last_presence_source : Option Source

-- The row of the database and the errors to come.
abbrev pub Row : Type 0
Row = Profile × List (Option Error)

abbrev pub is_earlier : Option ℕ → ℕ → Bool
is_earlier none t = true
is_earlier (some s) t = ltb s t

abbrev pub is_source : Source → Bool
is_source Source.other = false
is_source _ = true

abbrev set_presence : ℕ → Source → Profile → Bool × Profile
set_presence t source p =
    if is_earlier p.last_presence_at t
    then (true, record { last_presence_at = some t; last_presence_source = some source })
    else (false, p)

-- `update_presence`, one attempt.
unfoldable pub update_presence : ℕ → Source → Row → Result Bool × Row
update_presence t source (p, []) =
    (ok (set_presence t source p).0, ((set_presence t source p).1, []))
update_presence t source (p, none ∷ es) =
    (ok (set_presence t source p).0, ((set_presence t source p).1, es))
update_presence t source (p, some e ∷ es) = (err e, (p, es))

-- A lock that stays is no error of the caller.
abbrev settle : Result Bool × Row → Result Bool × Row
settle (ok b, r) = (ok b, r)
settle (err e, r) = if is_locked e then (ok false, r) else (err e, r)

-- `record_presence`: two attempts, with one delay.
pub record_presence : Bool → Source → ℕ → Row → Result Bool × Row
unfolding run_with_lock_retry update_presence
record_presence is_authenticated source t row =
    if not is_authenticated || not (is_source source)
    then (ok false, row)
    else settle (run_with_lock_retry 2 1 (update_presence t source) row)

pub data Color : Type 0 where
  green yellow red : Color

-- `get_presence_status`, with the settings in minutes and days.
pub get_presence_status : ℕ → ℕ → Option ℕ → ℕ → Color
get_presence_status green_minutes yellow_days none now = Color.red
get_presence_status green_minutes yellow_days (some t) now =
    if leb now (t + green_minutes * 60)
    then Color.green
    else if leb now (t + yellow_days * 86400)
    then Color.yellow
    else Color.red

-- What one attempt answers about a profile and leaves.
abbrev pub Stored : ℕ → Source → Profile → Result Bool → Profile → Type 0
Stored t source p (ok true) p' =
    (is_earlier p.last_presence_at t ≡ true)
    × (p' ≡ record { last_presence_at = some t; last_presence_source = some source })
Stored t source p (ok false) p' = p' ≡ p
Stored t source p (err e) p' = p' ≡ p

set_presence-Stored :
    (t : ℕ) (source : Source) (p : Profile)
    → Stored t source p (ok (set_presence t source p).0) (set_presence t source p).1
set_presence-Stored t source p = elim (Bool-cases (is_earlier p.last_presence_at t)) [
  | inl e ↦ rw e (e, refl)
  | inr e ↦ rw e refl
]

update-Stored :
    (t : ℕ) (source : Source) (r : Row)
    → Stored t source r.0 (update_presence t source r).0 (update_presence t source r).1.0
unfolding update_presence
update-Stored t source (p, []) = set_presence-Stored t source p
update-Stored t source (p, none ∷ es) = set_presence-Stored t source p
update-Stored t source (p, some e ∷ es) = refl

settle-Stored :
    (t : ℕ) (source : Source) (p : Profile) (r : Result Bool × Row)
    → Stored t source p r.0 r.1.0
    → Stored t source p (settle r).0 (settle r).1.0
settle-Stored t source p (ok b, r) h = h
settle-Stored t source p (err e, r) h = elim (Bool-cases (is_locked e)) [
  | inl l ↦ rw l h
  | inr l ↦ rw l h
]

-- Whatever the attempts meet.
attempts-Stored :
    (t : ℕ) (source : Source) (r : Row)
    → Stored t source r.0
        (run_with_lock_retry 2 1 (update_presence t source) r).0
        (run_with_lock_retry 2 1 (update_presence t source) r).1.0
unfolding run_with_lock_retry attempt after_attempt update_presence
attempts-Stored t source (p, []) = set_presence-Stored t source p
attempts-Stored t source (p, none ∷ es) = set_presence-Stored t source p
attempts-Stored t source (p, some e ∷ es) = elim (Bool-cases (is_locked e)) [
  | inl l ↦ rw l (update-Stored t source (p, es))
  | inr l ↦ rw l refl
]

-- A signal is stored, with its time and source, exactly when `true` is answered, and then the time
-- stored before, if any, is earlier; in all other cases, errors included, the profile is as it was.
pub record_presence-Stored :
    (is_authenticated : Bool) (source : Source) (t : ℕ) (r : Row)
    → Stored t source r.0
        (record_presence is_authenticated source t r).0
        (record_presence is_authenticated source t r).1.0
unfolding record_presence
record_presence-Stored is_authenticated source t r =
    elim (Bool-cases (not is_authenticated || not (is_source source))) [
      | inl e ↦ rw e refl
      | inr e ↦ rw e (settle-Stored t source r.0 _ (attempts-Stored t source r))
    ]

abbrev pub rank : Color → ℕ
rank Color.green = 0
rank Color.yellow = 1
rank Color.red = 2

-- Without a new signal a status only fades, whatever the two limits are.
pub get_presence_status_fades :
    (green_minutes yellow_days : ℕ) (last : Option ℕ) (now passed : ℕ)
    → rank (get_presence_status green_minutes yellow_days last now)
      ≤ rank (get_presence_status green_minutes yellow_days last (now + passed))
unfolding get_presence_status
get_presence_status_fades green_minutes yellow_days none now passed = omega arith
get_presence_status_fades green_minutes yellow_days (some t) now passed = ground arith
