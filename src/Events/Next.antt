-- ===== src/Events/Next.antt =====
-- The next occurrence of an event in a series (events/models.py, `get_next_occurrence`).
use wikikracja.Common.{
  ℕ, zero, suc, ◌+◌, ◌≤◌, ◌<◌, ◌≡◌, refl, ◌∙◌, Bool, true, false, Option, none, some, if◌then◌else◌,
  ltb, leb, Bool-cases, inl, inr, ◌⊎◌, arith,
}
use wikikracja.Events.Model.{
  DateTime, Clock, Frequency, Event, advance, step_of, get_next_occurrence, next_ordinal,
  first_after,
}

-- The date of a series after some steps.
unfoldable pub nth_date : (DateTime → DateTime) → ℕ → DateTime → DateTime
nth_date step zero d = d
nth_date step (suc k) d = nth_date step k (step d)

-- The date is that of step `k`, it is after now, and no date before it is.
abbrev pub IsFirst :
    (DateTime → ℕ) → (DateTime → DateTime) → ℕ → DateTime → ℕ → Option DateTime → Type 0
IsFirst instant step now d k result =
    (result ≡ some (nth_date step k d))
    × ((now < instant (nth_date step k d))
        × ((j : ℕ) → (k ≤ j) ⊎ (instant (nth_date step j d) ≤ now)))

module _ (instant : DateTime → ℕ) (step : DateTime → DateTime) (now : ℕ)
    (later : (d : DateTime) → instant d < instant (step d)) where
  earlier_dates :
      (d : DateTime) (k : ℕ)
      → instant d ≤ now
      → ((j : ℕ) → (k ≤ j) ⊎ (instant (nth_date step j (step d)) ≤ now))
      → (j : ℕ) → (suc k ≤ j) ⊎ (instant (nth_date step j d) ≤ now)
  unfolding nth_date
  earlier_dates d k h before zero = inr h
  earlier_dates d k h before (suc j) = ground (arith, before j)

  advance-IsFirst :
      (rounds : ℕ) (d : DateTime)
      → now < rounds + instant d
      → (k : ℕ) × IsFirst instant step now d k (advance instant step now (suc rounds) d)
  unfolding advance nth_date
  advance-IsFirst zero d h = (0, (ground arith, (omega (arith, h), λ j. inl (omega arith))))
  advance-IsFirst (suc rounds) d h = elim (Bool-cases (leb (instant d) now)) [
    | inr after ↦ (0, (rw after refl, (ground arith, λ j. inl (omega arith))))
    | inl before ↦
        let rest = advance-IsFirst rounds (step d) (omega (arith, h, later d)) in
        (
          suc rest.0,
          (rw before rest.1.0, (rest.1.1.0, earlier_dates d rest.0 (ground arith) rest.1.1.1)),
        )
  ]

-- The frequencies whose dates follow from one another.
abbrev pub is_series : Frequency → Bool
is_series f = elim f [ Frequency.once ↦ false | Frequency.monthly_ordinal ↦ false | _ ↦ true ]

series_run :
    (clock : Clock) (local_now : DateTime) (now : ℕ) (e : Event)
    → is_series e.frequency ≡ true
    → get_next_occurrence clock local_now now e ≡ first_after clock e now
unfolding get_next_occurrence
series_run clock local_now now e s = by_frequency e.frequency s
  where
    by_frequency :
        (f : Frequency)
        → is_series f ≡ true
        → (elim f as (λ x. Option DateTime) [
          | Frequency.once ↦
              if ltb now (clock.instant e.start_date) then some e.start_date else none
          | Frequency.monthly_ordinal ↦
              next_ordinal clock local_now e.start_date now e.ordinal e.weekday
          | _ ↦ first_after clock e now
        ])
          ≡ first_after clock e now
    by_frequency Frequency.once h = ground arith
    by_frequency Frequency.monthly_ordinal h = ground arith
    by_frequency Frequency.daily h = refl
    by_frequency Frequency.weekly h = refl
    by_frequency Frequency.monthly h = refl
    by_frequency Frequency.yearly h = refl

-- For an event that takes place daily, weekly, monthly or yearly, and a clock on which each step of
-- that series leads to a later instant, the search ends: it gives a date of the series that is after
-- now, and every earlier date of the series is not after now.
pub get_next_occurrence-IsFirst :
    (clock : Clock) (local_now : DateTime) (now : ℕ) (e : Event)
    → is_series e.frequency ≡ true
    → ((d : DateTime)
        → clock.instant d < clock.instant (step_of clock e.frequency e.start_date.day d))
    → (k : ℕ) × IsFirst clock.instant
        (step_of clock e.frequency e.start_date.day)
        now
        e.start_date
        k
        (get_next_occurrence clock local_now now e)
get_next_occurrence-IsFirst clock local_now now e s later =
    let found =
      advance-IsFirst clock.instant (step_of clock e.frequency e.start_date.day) now later (suc now)
        e.start_date (omega arith) in
    (found.0, (series_run clock local_now now e s ∙ found.1.0, found.1.1))
