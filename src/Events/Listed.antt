-- ===== src/Events/Listed.antt =====
-- The dates that `get_occurrences` lists (events/models.py), beside all dates of the series.
use wikikracja.Common.{
  ℕ, zero, suc, ◌≤◌, ◌<◌, ◌≡◌, refl, ◌∙◌, Bool, true, List, [], ◌∷◌, ◌&&◌, if◌then◌else◌, ltb, leb,
  Bool-cases, inl, inr, filter_by, sym, arith,
}
use wikikracja.Events.Model.{DateTime, Clock, Frequency, Event, step_of}
use wikikracja.Events.Occurrences.{
  collect, safety, first_listed, series_occurrences, once_in, ordinal_occurrences, if_begun,
  get_occurrences,
}
use wikikracja.Events.Next.{is_series}

-- A number of dates of a series.
unfoldable pub dates : (DateTime → DateTime) → ℕ → DateTime → List DateTime
dates step zero d = []
dates step (suc n) d = d ∷ dates step n (step d)

abbrev pub within : (DateTime → ℕ) → ℕ → ℕ → DateTime → Bool
within instant from until d = leb from (instant d) && leb (instant d) until

within_empty :
    (instant : DateTime → ℕ) (from until : ℕ) (ds : List DateTime)
    → until < from
    → filter_by (within instant from until) ds ≡ []
within_empty instant from until [] h = refl
within_empty instant from until (d ∷ ds) h = ground (arith, within_empty instant from until ds h)

module _ (instant : DateTime → ℕ) (step : DateTime → DateTime) (from until : ℕ)
    (later : (d : DateTime) → instant d < instant (step d)) where
  past_end :
      (n : ℕ) (d : DateTime)
      → until < instant d
      → filter_by (within instant from until) (dates step n d) ≡ []
  unfolding dates
  past_end zero d h = refl
  past_end (suc n) d h =
      let rest = past_end n (step d) (omega (arith, h, later d)) in ground (arith, rest)

  collect-dates :
      (n : ℕ) (d : DateTime)
      → collect instant step from until n d ≡ filter_by (within instant from until) (dates step n d)
  unfolding collect dates
  collect-dates zero d = refl
  collect-dates (suc n) d =
      let rest = collect-dates n (step d) in
      let past = λ (h : until < instant d). past_end n (step d) (omega (arith, h, later d)) in
      ground (arith, rest, past)

first_listed_begun :
    (clock : Clock) (f : Frequency) (range_start d : DateTime)
    → clock.instant range_start ≤ clock.instant d
    → first_listed clock f range_start d ≡ d
unfolding first_listed
first_listed_begun clock Frequency.daily range_start d h = ground (arith, h)
first_listed_begun clock Frequency.weekly range_start d h = ground (arith, h)
first_listed_begun clock Frequency.once range_start d h = refl
first_listed_begun clock Frequency.monthly range_start d h = refl
first_listed_begun clock Frequency.monthly_ordinal range_start d h = refl
first_listed_begun clock Frequency.yearly range_start d h = refl

-- The dates of a series that are in the range, among those that are looked at.
abbrev pub series_within : Clock → DateTime → DateTime → Event → List DateTime
series_within clock range_start range_end e =
    filter_by (within clock.instant (clock.instant range_start) (clock.instant range_end)) (
      dates (step_of clock e.frequency e.start_date.day) (safety e.frequency)
        (first_listed clock e.frequency range_start e.start_date))

series_listed :
    (clock : Clock) (range_start range_end : DateTime) (e : Event)
    → is_series e.frequency ≡ true
    → get_occurrences clock range_start range_end e ≡ (
        if ltb (clock.instant range_end) (clock.instant range_start)
        then []
        else if_begun clock range_end e.start_date
            (series_occurrences clock range_start range_end e))
unfolding get_occurrences
series_listed clock range_start range_end e s = of_frequency e.frequency s
  where
    of_frequency :
        (f : Frequency)
        → is_series f ≡ true
        → (if ltb (clock.instant range_end) (clock.instant range_start)
            then []
            else elim f as (λ x. List DateTime) [
              | Frequency.once ↦ once_in clock range_start range_end e.start_date
              | Frequency.monthly_ordinal ↦
                  if_begun clock range_end e.start_date (
                    ordinal_occurrences clock e.start_date range_start range_end e.ordinal
                      e.weekday)
              | _ ↦
                  if_begun clock range_end e.start_date
                    (series_occurrences clock range_start range_end e)
            ])
          ≡ (if ltb (clock.instant range_end) (clock.instant range_start)
              then []
              else if_begun clock range_end e.start_date
                  (series_occurrences clock range_start range_end e))
    of_frequency Frequency.once h = ground arith
    of_frequency Frequency.monthly_ordinal h = ground arith
    of_frequency Frequency.daily h = refl
    of_frequency Frequency.weekly h = refl
    of_frequency Frequency.monthly h = refl
    of_frequency Frequency.yearly h = refl

listed_exact :
    (clock : Clock) (range_start range_end : DateTime) (e : Event)
    → ((d : DateTime)
        → clock.instant d < clock.instant (step_of clock e.frequency e.start_date.day d))
    → (if ltb (clock.instant range_end) (clock.instant range_start)
        then []
        else if_begun clock range_end e.start_date
            (series_occurrences clock range_start range_end e))
      ≡ series_within clock range_start range_end e
listed_exact clock range_start range_end e later =
    elim (Bool-cases (ltb (clock.instant range_end) (clock.instant range_start))) [
      | inl empty ↦ rw empty (sym (within_empty clock.instant _ _ _ (ground arith)))
      | inr full ↦ elim (Bool-cases (ltb (clock.instant range_end) (clock.instant e.start_date))) [
        | inl over ↦
            rw
              (
                full,
                over,
                first_listed_begun clock e.frequency range_start e.start_date (ground arith),
              )
              (sym (past_end clock.instant _ _ _ later _ _ (ground arith)))
        | inr begun ↦ rw (full, begun) (collect-dates clock.instant _ _ _ later _ _)
      ]
    ]

-- For an event that takes place daily, weekly, monthly or yearly, and a clock on which each step of
-- that series leads to a later instant, `get_occurrences` gives the dates that are in the range, both
-- ends included and in their order, out of as many dates of the series as the limit of its frequency
-- says, counted from the one where the listing begins.
pub get_occurrences_exact :
    (clock : Clock) (range_start range_end : DateTime) (e : Event)
    → is_series e.frequency ≡ true
    → ((d : DateTime)
        → clock.instant d < clock.instant (step_of clock e.frequency e.start_date.day d))
    → get_occurrences clock range_start range_end e ≡ series_within clock range_start range_end e
get_occurrences_exact clock range_start range_end e s later =
    series_listed clock range_start range_end e s ∙ listed_exact clock range_start range_end e later
