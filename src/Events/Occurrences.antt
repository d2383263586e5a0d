-- ===== src/Events/Occurrences.antt =====
-- `get_occurrences` of an event (events/models.py): its dates in a range, both ends included.
use wikikracja.Common.{
  ℕ, zero, suc, ◌*◌, ◌/◌, Bool, false, Option, none, some, List, [], ◌∷◌, ◌==◌, ◌&&◌, if◌then◌else◌,
  ltb, leb,
}
use wikikracja.Events.Model.{
  DateTime, Clock, Frequency, Ordinal, Event, step_of, get_nth_weekday_of_month,
}

-- `safety`: the number of dates that are looked at.
abbrev pub safety : Frequency → ℕ
safety Frequency.daily = 5000
safety Frequency.weekly = 1000
safety Frequency.monthly = 1200
safety Frequency.monthly_ordinal = 1200
safety Frequency.yearly = 100
safety Frequency.once = 1

-- `while current <= range_end and safety < ...`
unfoldable pub collect :
    (DateTime → ℕ) → (DateTime → DateTime) → ℕ → ℕ → ℕ → DateTime → List DateTime
collect instant step from until zero d = []
collect instant step from until (suc rounds) d =
    let rest = collect instant step from until rounds (step d) in
    if leb (instant d) until then (if leb from (instant d) then d ∷ rest else rest) else []

-- Where the series begins: days and weeks before the range are passed over.
unfoldable pub first_listed : Clock → Frequency → DateTime → DateTime → DateTime
first_listed clock Frequency.daily range_start d =
    if ltb (clock.instant d) (clock.instant range_start)
    then clock.plus_days (clock.days_between d range_start) d
    else d
first_listed clock Frequency.weekly range_start d =
    if ltb (clock.instant d) (clock.instant range_start)
    then clock.plus_days (clock.days_between d range_start / 7 * 7) d
    else d
first_listed clock f range_start d = d

abbrev pub added : Clock → ℕ → ℕ → Option DateTime → List DateTime → List DateTime
added clock from start none rest = rest
added clock from start (some d) rest =
    if leb from (clock.instant d) && leb start (clock.instant d) then d ∷ rest else rest

abbrev pub is_past : Clock → ℕ → Option DateTime → Bool
is_past clock until none = false
is_past clock until (some d) = ltb until (clock.instant d)

-- The loop over months of the frequency by weekday, with `until` and its year as the end of the range.
unfoldable pub collect_months :
    Clock → DateTime → ℕ → Ordinal → ℕ → ℕ → ℕ → ℕ → ℕ → ℕ → List DateTime
unfolding get_nth_weekday_of_month
collect_months clock start weekday ordinal from until last_year zero year month = []
collect_months clock start weekday ordinal from until last_year (suc rounds) year month =
    let found = get_nth_weekday_of_month clock start year month weekday ordinal in
    let year' = if month == 12 then suc year else year in
    let month' = if month == 12 then 1 else suc month in
    let rest =
      collect_months clock start weekday ordinal from until last_year rounds year' month' in
    if is_past clock until found
    then []
    else added clock from (clock.instant start) found
        (if ltb (suc last_year) year' then [] else rest)

unfoldable pub ordinal_occurrences :
    Clock → DateTime → DateTime → DateTime → Option Ordinal → Option ℕ → List DateTime
unfolding collect_months
ordinal_occurrences clock start range_start range_end none w = []
ordinal_occurrences clock start range_start range_end (some o) none = []
ordinal_occurrences clock start range_start range_end (some o) (some w) =
    let from =
      if ltb (clock.instant range_start) (clock.instant start) then start else range_start in
    collect_months clock start w o (clock.instant range_start) (clock.instant range_end)
      range_end.year 1200 from.year from.month

abbrev pub series_occurrences : Clock → DateTime → DateTime → Event → List DateTime
series_occurrences clock range_start range_end e =
    collect clock.instant (step_of clock e.frequency e.start_date.day) (clock.instant range_start)
      (clock.instant range_end) (safety e.frequency)
      (first_listed clock e.frequency range_start e.start_date)

-- An event that is not repeated.
abbrev pub once_in : Clock → DateTime → DateTime → DateTime → List DateTime
once_in clock range_start range_end d =
    if leb (clock.instant range_start) (clock.instant d)
      && leb (clock.instant d) (clock.instant range_end)
    then d ∷ []
    else []

-- Nothing when the event begins after the range.
abbrev pub if_begun : Clock → DateTime → DateTime → List DateTime → List DateTime
if_begun clock range_end d ds = if ltb (clock.instant range_end) (clock.instant d) then [] else ds

-- `get_occurrences`, the range in local time.
unfoldable pub get_occurrences : Clock → DateTime → DateTime → Event → List DateTime
unfolding collect first_listed ordinal_occurrences
get_occurrences clock range_start range_end e =
    if ltb (clock.instant range_end) (clock.instant range_start) then [] else elim e.frequency [
      | Frequency.once ↦ once_in clock range_start range_end e.start_date
      | Frequency.monthly_ordinal ↦
          if_begun clock range_end e.start_date
            (ordinal_occurrences clock e.start_date range_start range_end e.ordinal e.weekday)
      | _ ↦ if_begun clock range_end e.start_date (series_occurrences clock range_start range_end e)
    ]
