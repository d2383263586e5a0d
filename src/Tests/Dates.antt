-- ===== src/Tests/Dates.antt =====
-- Runs of events.
use wikikracja.Common.{ℕ, ◌+◌, ◌-◌, ◌*◌, ◌<◌, ◌≡◌, refl, none, [], arith}
use wikikracja.Events.Model.{
  DateTime, Clock, Frequency, Event, step_of, next_month, replace_calendar_date,
  get_next_occurrence,
}
use wikikracja.Events.Next.{IsFirst, get_next_occurrence-IsFirst}
use wikikracja.Events.Occurrences.{get_occurrences}
use wikikracja.Events.Listed.{series_within, get_occurrences_exact}

-- Months are counted, and all have thirty days.
abbrev clock : Clock
clock = record {
  instant = λ d. d.year * 12 + d.month;
  plus_days = λ n d. record d { day = d.day + n };
  days_between = λ d e. e.day - d.day;
  month_days = λ y m. 30;
  weeks = λ y m. [];
}

abbrev date : ℕ → DateTime
date month = record { year = 3; month = month; day = 31; time = 0 }

abbrev meeting : Event
meeting = record {
  frequency = Frequency.monthly;
  start_date = date 11;
  ordinal = none;
  weekday = none;
}

each_later : (d : DateTime) → clock.instant d < clock.instant (step_of clock Frequency.monthly 31 d)
unfolding step_of next_month replace_calendar_date
each_later d = ground arith

get_next_occurrence-IsFirst_example :
    (k : ℕ) × IsFirst clock.instant
      (step_of clock Frequency.monthly 31)
      48
      (date 11)
      k
      (get_next_occurrence clock (date 12) 48 meeting)
get_next_occurrence-IsFirst_example =
    get_next_occurrence-IsFirst clock (date 12) 48 meeting refl each_later

abbrev end_date : DateTime
end_date = record { year = 4; month = 2; day = 1; time = 0 }

get_occurrences_exact_example :
    get_occurrences clock (date 12) end_date meeting
    ≡ series_within clock (date 12) end_date meeting
get_occurrences_exact_example =
    get_occurrences_exact clock (date 12) end_date meeting refl each_later
