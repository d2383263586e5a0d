-- ===== src/Events/Model.antt =====
-- An event and `get_next_occurrence` (events/models.py). Dates with times are those of the default time
-- zone. The calendar and the time zone are Python's: a `Clock` gives the instant of a date, the date
-- some days later, the whole days up to a later date, the days of a month and its weeks.
use wikikracja.Common.{
  ℕ, zero, suc, ◌+◌, Bool, false, Option, none, some, List, [], ◌∷◌, ◌==◌, if◌then◌else◌, ltb, leb,
}

pub record DateTime : Type 0 where
  pub year : ℕ
  pub month : ℕ
  pub day : ℕ
  pub time : ℕ

-- `weeks` is `calendar.monthcalendar`: a day outside the month is 0.
pub record Clock : Type 0 where
  pub instant : DateTime → ℕ
  pub plus_days : ℕ → DateTime → DateTime
  pub days_between : DateTime → DateTime → ℕ
  pub month_days : ℕ → ℕ → ℕ
  pub weeks : ℕ → ℕ → List (List ℕ)

pub data Frequency : Type 0 where
  once daily weekly monthly monthly_ordinal yearly : Frequency

-- `monthly_ordinal` is -1 for the last one.
pub data Ordinal : Type 0 where
  last : Ordinal
  nth : ℕ → Ordinal

pub record Event : Type 0 where
  pub frequency : Frequency
  pub start_date : DateTime
  pub ordinal : Option Ordinal
  pub weekday : Option ℕ

abbrev pub least : ℕ → ℕ → ℕ
least a b = if leb a b then a else b

-- `_replace_calendar_date`
unfoldable pub replace_calendar_date : Clock → DateTime → ℕ → ℕ → ℕ → DateTime
replace_calendar_date clock d year month day = record d {
  year = year;
  month = month;
  day = least day (clock.month_days year month);
}

-- The next month, by the anchor day.
unfoldable pub next_month : Clock → ℕ → DateTime → DateTime
unfolding replace_calendar_date
next_month clock anchor d =
    if d.month == 12
    then replace_calendar_date clock d (suc d.year) 1 anchor
    else replace_calendar_date clock d d.year (suc d.month) anchor

unfoldable pub next_year : Clock → ℕ → DateTime → DateTime
unfolding replace_calendar_date
next_year clock anchor d = replace_calendar_date clock d (suc d.year) d.month anchor

-- `while next_date <= now`, on a number of rounds; none when they do not suffice.
unfoldable pub advance : (DateTime → ℕ) → (DateTime → DateTime) → ℕ → ℕ → DateTime → Option DateTime
advance instant step now zero d = none
advance instant step now (suc rounds) d =
    let rest = advance instant step now rounds (step d) in
    if leb (instant d) now then rest else some d

unfoldable pub day_at : ℕ → List ℕ → ℕ
day_at k [] = 0
day_at zero (d ∷ ds) = d
day_at (suc k) (d ∷ ds) = day_at k ds

-- The last day of the weekday in the weeks.
unfoldable pub last_day : ℕ → List (List ℕ) → Option ℕ
unfolding day_at
last_day weekday [] = none
last_day weekday (w ∷ ws) = elim (last_day weekday ws) [
  | some d ↦ some d
  | none ↦ if day_at weekday w == 0 then none else some (day_at weekday w)
]

-- `count` is `occurrence_count` so far.
unfoldable pub nth_day : ℕ → ℕ → ℕ → List (List ℕ) → Option ℕ
unfolding day_at
nth_day weekday n count [] = none
nth_day weekday n count (w ∷ ws) =
    let skip = nth_day weekday n count ws in
    let rest = nth_day weekday n (suc count) ws in
    if day_at weekday w == 0 then skip else if suc count == n then some (day_at weekday w) else rest

abbrev pub on_day : DateTime → ℕ → ℕ → Option ℕ → Option DateTime
on_day start year month none = none
on_day start year month (some day) = some (record start { year = year; month = month; day = day })

-- `_get_nth_weekday_of_month`
unfoldable pub get_nth_weekday_of_month : Clock → DateTime → ℕ → ℕ → ℕ → Ordinal → Option DateTime
unfolding last_day nth_day
get_nth_weekday_of_month clock start year month weekday last =
    on_day start year month (last_day weekday (clock.weeks year month))
get_nth_weekday_of_month clock start year month weekday (nth n) =
    on_day start year month (nth_day weekday n 0 (clock.weeks year month))

abbrev pub is_after : Clock → ℕ → Option DateTime → Bool
is_after clock now none = false
is_after clock now (some d) = ltb now (clock.instant d)

-- The search by month, up to ten years after the year of now.
unfoldable pub search_months : Clock → DateTime → ℕ → Ordinal → ℕ → ℕ → ℕ → ℕ → ℕ → Option DateTime
unfolding get_nth_weekday_of_month
search_months clock start weekday ordinal now first_year zero year month = none
search_months clock start weekday ordinal now first_year (suc rounds) year month =
    let found = get_nth_weekday_of_month clock start year month weekday ordinal in
    let year' = if month == 12 then suc year else year in
    let month' = if month == 12 then 1 else suc month in
    let rest = search_months clock start weekday ordinal now first_year rounds year' month' in
    if is_after clock now found then found else if ltb (first_year + 10) year' then none else rest

abbrev pub search_rounds : ℕ
search_rounds = 133

unfoldable pub next_ordinal :
    Clock → DateTime → DateTime → ℕ → Option Ordinal → Option ℕ → Option DateTime
unfolding search_months
next_ordinal clock local_now start now none w = none
next_ordinal clock local_now start now (some o) none = none
next_ordinal clock local_now start now (some o) (some w) =
    search_months clock start w o now local_now.year search_rounds local_now.year local_now.month

-- The step of a series, by the frequency.
unfoldable pub step_of : Clock → Frequency → ℕ → DateTime → DateTime
unfolding next_month next_year
step_of clock Frequency.daily anchor d = clock.plus_days 1 d
step_of clock Frequency.weekly anchor d = clock.plus_days 7 d
step_of clock Frequency.monthly anchor d = next_month clock anchor d
step_of clock Frequency.yearly anchor d = next_year clock anchor d
step_of clock Frequency.once anchor d = d
step_of clock Frequency.monthly_ordinal anchor d = d

abbrev pub first_after : Clock → Event → ℕ → Option DateTime
first_after clock e now =
    advance clock.instant (step_of clock e.frequency e.start_date.day) now (suc (suc now))
      e.start_date

-- `get_next_occurrence`
unfoldable pub get_next_occurrence : Clock → DateTime → ℕ → Event → Option DateTime
unfolding advance step_of next_ordinal
get_next_occurrence clock local_now now e = elim e.frequency [
  | Frequency.once ↦ if ltb now (clock.instant e.start_date) then some e.start_date else none
  | Frequency.monthly_ordinal ↦ next_ordinal clock local_now e.start_date now e.ordinal e.weekday
  | _ ↦ first_after clock e now
]
