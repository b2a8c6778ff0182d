-- ===== src/Calendar/Search.antt =====
-- uk_calendar.py
-- The business days next to a date are the nearest ones.
use clonway_cockpit.Prelude.{
  ℕ, zero, suc, ◌+◌, ◌-◌, ◌≤◌, ◌<◌, ◌≡◌, refl, sym, ◌∙◌, inl, inr, true, false, Option, none, some,
  arith, leb, leb→le, Bool-cases, Option-cases,
}
use mathlib.Core.Path.{subst}
use clonway_cockpit.Calendar.{
  data_horizon, within_horizon, is_open, next_from, next_business_day, previous_from,
  previous_business_day,
}

-- no business day from `a` up to before `b`
abbrev pub Closed : ℕ → ℕ → Type 0
Closed a b = (x : ℕ) → a ≤ x → x < b → is_open x ≡ false

-- what a search forward from `d`, of days before `end`, found
abbrev pub NextOf : ℕ → ℕ → Option ℕ → Type 0
NextOf d end none = Closed d end
NextOf d end (some e) = (d ≤ e) × (e < end) × (is_open e ≡ true) × Closed d e

abbrev pub PreviousOf : ℕ → Option ℕ → Type 0
PreviousOf d none = Closed 1 (suc d)
PreviousOf d (some e) = (1 ≤ e) × (e ≤ d) × (is_open e ≡ true) × Closed (suc e) (suc d)

Closed-first : (d e : ℕ) → is_open d ≡ false → Closed (d + 1) e → Closed d e
Closed-first d e shut h x low high = elim (Bool-cases (leb (d + 1) x)) [
  | inl later ↦ h x (leb→le (d + 1) x later) high
  | inr same ↦ let p : d ≡ x = ground (arith, same, low) in rw (← p) shut
]

Closed-last : (d e : ℕ) → is_open e ≡ false → Closed d e → Closed d (suc e)
Closed-last d e shut h x low high = elim (Bool-cases (leb (suc x) e)) [
  | inl before ↦ h x low (leb→le (suc x) e before)
  | inr same ↦ let p : e ≡ x = ground (arith, same, high) in rw (← p) shut
]

NextOf-step : (d end : ℕ) (r : Option ℕ) → is_open d ≡ false → NextOf (d + 1) end r → NextOf d end r
NextOf-step d end none shut h = Closed-first d end shut h
NextOf-step d end (some e) shut (low, high, open_e, closed) =
    (omega (arith, low), high, open_e, Closed-first d e shut closed)

PreviousOf-step :
    (d : ℕ) (r : Option ℕ) → is_open (suc d) ≡ false → PreviousOf d r → PreviousOf (suc d) r
PreviousOf-step d none shut h = Closed-last 1 (suc d) shut h
PreviousOf-step d (some e) shut (low, high, open_e, closed) =
    (low, omega (arith, high), open_e, Closed-last (suc e) (suc d) shut closed)

next_from-NextOf : (days d end : ℕ) → end ≡ d + days → NextOf d end (next_from days d)
unfolding next_from
next_from-NextOf zero d end e = λ x low high. absurd (omega (arith, low, high, e))
next_from-NextOf (suc days) d end e = elim (Bool-cases (is_open d)) [
  | inl is_one ↦
      rw is_one
        (omega arith, omega (arith, e), is_one, λ x low high. absurd (omega (arith, low, high)))
  | inr shut ↦
      rw shut (NextOf-step d end _ shut (next_from-NextOf days (d + 1) end (omega (arith, e))))
]

previous_from-PreviousOf : (d : ℕ) → PreviousOf d (previous_from d)
unfolding previous_from
previous_from-PreviousOf zero = λ x low high. absurd (omega (arith, low, high))
previous_from-PreviousOf (suc d) = elim (Bool-cases (is_open (suc d))) [
  | inl is_one ↦
      rw is_one (omega arith, omega arith, is_one, λ x low high. absurd (omega (arith, low, high)))
  | inr shut ↦ rw shut (PreviousOf-step d _ shut (previous_from-PreviousOf d))
]

-- For a date within the horizon, `next_business_day` gives the first business day on or after it
-- that is within the horizon, and raises only if there is none.
pub next_business_day-NextOf :
    (d : ℕ) → d ≤ data_horizon → NextOf d (data_horizon + 1) (next_business_day d)
unfolding next_business_day
next_business_day-NextOf d h =
    next_from-NextOf (data_horizon + 1 - d) d (data_horizon + 1) (omega (arith, h))

-- the first day of the calendar is a Monday, and no bank holiday
first_open : is_open 1 ≡ true
unfolding is_open
first_open = refl

true-false : true ≡ false → ⊥
true-false h = ground (arith, h)

found_within :
    (d e : ℕ) → d ≤ data_horizon → previous_from d ≡ some e → previous_business_day d ≡ some e
unfolding previous_business_day within_horizon
found_within d e h found = rw found (ground (arith, h))

-- For a date within the horizon, from the first of the calendar, `previous_business_day` raises
-- nothing: it gives the last business day on or before the date.
pub previous_business_day-PreviousOf :
    (d : ℕ)
    → 1 ≤ d
    → d ≤ data_horizon
    → (e : ℕ) × (previous_business_day d ≡ some e) × PreviousOf d (some e)
unfolding previous_business_day within_horizon
previous_business_day-PreviousOf d first h = elim (Option-cases (previous_from d)) [
  | inl bad ↦
      let closed = subst (PreviousOf d) bad (previous_from-PreviousOf d) in
      absurd (true-false (sym first_open ∙ closed 1 (omega arith) (omega (arith, first))))
  | inr (e, found) ↦
      (e, found_within d e h found, subst (PreviousOf d) found (previous_from-PreviousOf d))
]
