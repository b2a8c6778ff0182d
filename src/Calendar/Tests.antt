-- ===== src/Calendar/Tests.antt =====
-- Dates of uk_calendar.py around Easter and Christmas, and the theorems at them.
use clonway_cockpit.Prelude.{ℕ, ◌+◌, ◌≡◌, refl, none, some, arith}
use clonway_cockpit.Prelude.Int.{pos, negsuc}
use clonway_cockpit.Calendar.{
  date, data_horizon, next_business_day, previous_business_day, business_days_between,
}
use clonway_cockpit.Calendar.Search
use clonway_cockpit.Calendar.Search.{NextOf, PreviousOf}
use clonway_cockpit.Calendar.Count

good_friday : date 2024 3 29 ≡ 738974
unfolding date
good_friday = refl

horizon : data_horizon ≡ 740712
unfolding data_horizon
horizon = refl

-- from Good Friday to the Tuesday after Easter
after_easter : next_business_day (date 2028 4 14) ≡ some (date 2028 4 18)
unfolding next_business_day
after_easter = refl

before_easter : previous_business_day (date 2024 4 1) ≡ some (date 2024 3 28)
unfolding previous_business_day
before_easter = refl

-- the last days of 2028 are a weekend
past_the_table : next_business_day (date 2028 12 30) ≡ none
unfolding next_business_day
past_the_table = refl

christmas : business_days_between (date 2026 12 24) (date 2026 12 30) ≡ some (pos 2)
unfolding business_days_between
christmas = refl

backwards : business_days_between (date 2026 12 30) (date 2026 12 24) ≡ some (negsuc 1)
unfolding business_days_between
backwards = refl

next_business_day-NextOf_example : NextOf 738974 (data_horizon + 1) (next_business_day 738974)
next_business_day-NextOf_example = Search.next_business_day-NextOf 738974 (rw horizon (omega arith))

previous_business_day-PreviousOf_example :
    (e : ℕ) × (previous_business_day 738974 ≡ some e) × PreviousOf 738974 (some e)
previous_business_day-PreviousOf_example =
    Search.previous_business_day-PreviousOf 738974 (omega arith) (rw horizon (omega arith))

business_days_between-sum_example :
    (m : ℕ) × (n : ℕ) × (business_days_between 738974 738980 ≡ some (pos m))
    × (business_days_between 738980 738990 ≡ some (pos n))
    × (business_days_between 738974 738990 ≡ some (pos (m + n)))
business_days_between-sum_example =
    Count.business_days_between-sum 738974 738980 738990 (omega arith) (omega arith)
      (rw horizon (omega arith))
