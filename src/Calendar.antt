-- ===== src/Calendar.antt =====
-- Bank holidays and business days: src/clonway_cockpit/uk_calendar.py. A date is its ordinal (the
-- number of date.toordinal, where 1 is the Monday 1 January of the year 1); `none` is the
-- BankHolidayHorizonError.
pub mod Search
pub mod Count
mod Tests
use clonway_cockpit.Prelude.{
  ℕ, zero, suc, ◌+◌, ◌-◌, ◌*◌, ◌/◌, ◌%◌, ◌≤◌, ◌<◌, min, max, String, ◌≡◌, refl, sym, ap, ◌∙◌, ◌≢◌,
  ◌↔◌, ◌⊎◌, inl, inr, Bool, true, false, not, ◌&&◌, ◌||◌, Option, none, some, List, [], ◌∷◌, ◌++◌,
  map, arith, ◌==◌, eq_iff, eq_refl, ltb, leb, nat_eq, if◌then◌else◌, ltb→lt, leb→le, Bool-cases,
  Option-cases, is_some, length, take, drop, any, all, keep, All, length-append, elem, Distinct,
  elem-append, All-append,
}
use clonway_cockpit.Prelude.Int.{ℤ, pos, sub_ℕ}

-- the days of the months before `m`, in a year that is or is not a leap year
unfoldable pub days_before_month : Bool → ℕ → ℕ
days_before_month leap m =
    let feb = if leap then 29 else 28 in
    let past = λ (k : ℕ) (d : ℕ). if ltb k m then d else 0 in
    past 1 31
    + past 2 feb
    + past 3 31
    + past 4 30
    + past 5 31
    + past 6 30
    + past 7 31
    + past 8 31
    + past 9 30
    + past 10 31
    + past 11 30

unfoldable pub is_leap : ℕ → Bool
is_leap y = nat_eq (y % 4) 0 && (not (nat_eq (y % 100) 0) || nat_eq (y % 400) 0)

-- date(y, m, d)
unfoldable pub date : ℕ → ℕ → ℕ → ℕ
unfolding days_before_month is_leap
date y m d =
    (y - 1) * 365
    + (y - 1) / 4
    - (y - 1) / 100
    + (y - 1) / 400
    + days_before_month (is_leap y) m
    + d

unfoldable pub bank_holidays : List ℕ
unfolding date
bank_holidays =
    date 2024 1 1
    ∷ date 2024 3 29
    ∷ date 2024 4 1
    ∷ date 2024 5 6
    ∷ date 2024 5 27
    ∷ date 2024 8 26
    ∷ date 2024 12 25
    ∷ date 2024 12 26
    ∷ date 2025 1 1
    ∷ date 2025 4 18
    ∷ date 2025 4 21
    ∷ date 2025 5 5
    ∷ date 2025 5 26
    ∷ date 2025 8 25
    ∷ date 2025 12 25
    ∷ date 2025 12 26
    ∷ date 2026 1 1
    ∷ date 2026 4 3
    ∷ date 2026 4 6
    ∷ date 2026 5 4
    ∷ date 2026 5 25
    ∷ date 2026 8 31
    ∷ date 2026 12 25
    ∷ date 2026 12 28
    ∷ date 2027 1 1
    ∷ date 2027 3 26
    ∷ date 2027 3 29
    ∷ date 2027 5 3
    ∷ date 2027 5 31
    ∷ date 2027 8 30
    ∷ date 2027 12 27
    ∷ date 2027 12 28
    ∷ date 2028 1 3
    ∷ date 2028 4 14
    ∷ date 2028 4 17
    ∷ date 2028 5 1
    ∷ date 2028 5 29
    ∷ date 2028 8 28
    ∷ date 2028 12 25
    ∷ date 2028 12 26
    ∷ []

unfoldable pub data_horizon : ℕ
unfolding date
data_horizon = date 2028 12 31

-- _check_horizon
unfoldable pub within_horizon : ℕ → Bool
unfolding data_horizon
within_horizon d = leb d data_horizon

-- d in _BANK_HOLIDAYS
unfoldable pub listed : ℕ → Bool
unfolding bank_holidays
listed d = any (λ h. nat_eq h d) bank_holidays

-- d.weekday() < 5
unfoldable pub is_weekday : ℕ → Bool
is_weekday d = ltb ((d + 6) % 7) 5

unfoldable pub is_open : ℕ → Bool
unfolding listed is_weekday
is_open d = is_weekday d && not (listed d)

-- is_bank_holiday
unfoldable pub is_bank_holiday : ℕ → Option Bool
unfolding within_horizon listed
is_bank_holiday d = if within_horizon d then some (listed d) else none

-- is_business_day
unfoldable pub is_business_day : ℕ → Option Bool
unfolding within_horizon is_open
is_business_day d = if within_horizon d then some (is_open d) else none

-- the loop of `next_business_day`, for so many days more; a candidate after the horizon raises
unfoldable pub next_from : ℕ → ℕ → Option ℕ
unfolding is_open
next_from zero d = none
next_from (suc days) d = let later = next_from days (d + 1) in if is_open d then some d else later

-- next_business_day
unfoldable pub next_business_day : ℕ → Option ℕ
unfolding next_from data_horizon
next_business_day d = next_from (data_horizon + 1 - d) d

-- the loop of `previous_business_day`; `none` is also the OverflowError before the first day
unfoldable pub previous_from : ℕ → Option ℕ
unfolding is_open
previous_from zero = none
previous_from (suc d) =
    let earlier = previous_from d in if is_open (suc d) then some (suc d) else earlier

-- previous_business_day
unfoldable pub previous_business_day : ℕ → Option ℕ
unfolding previous_from within_horizon
previous_business_day d = if within_horizon d then previous_from d else none

-- the loop of `business_days_between`, over so many days
unfoldable pub count_from : ℕ → ℕ → ℕ
unfolding is_open
count_from zero d = 0
count_from (suc days) d = (if is_open d then 1 else 0) + count_from days (d + 1)

-- business_days_between, with a not after b
unfoldable pub count_between : ℕ → ℕ → Option ℕ
unfolding count_from within_horizon
count_between a b = if within_horizon b then some (count_from (b - a) a) else none

unfoldable pub negated : Option ℕ → Option ℤ
negated none = none
negated (some n) = some (sub_ℕ 0 n)

unfoldable pub as_int : Option ℕ → Option ℤ
as_int none = none
as_int (some n) = some (pos n)

-- business_days_between
unfoldable pub business_days_between : ℕ → ℕ → Option ℤ
unfolding count_between negated as_int
business_days_between a b =
    if ltb b a then negated (count_between b a) else as_int (count_between a b)
