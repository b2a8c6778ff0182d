-- ===== src/Calendar/Count.antt =====
-- uk_calendar.py
-- How business days are counted.
use clonway_cockpit.Prelude.{ℕ, zero, suc, ◌+◌, ◌-◌, ◌≤◌, ◌≡◌, ap, ◌∙◌, some, arith}
use clonway_cockpit.Prelude.Int.{pos}
use clonway_cockpit.Calendar.{
  data_horizon, within_horizon, count_from, count_between, as_int, business_days_between,
}

count_from-sum : (m n a : ℕ) → count_from (m + n) a ≡ count_from m a + count_from n (a + m)
unfolding count_from
count_from-sum zero n a =
    let e1 : 0 + n ≡ n = omega arith in
    let e2 : a + 0 ≡ a = omega arith in rw (e1, e2) (omega arith)
count_from-sum (suc m) n a =
    let e1 : suc m + n ≡ suc (m + n) = omega arith in
    let e2 : a + suc m ≡ a + 1 + m = omega arith in
    rw (e1, e2) (omega (arith, count_from-sum m n (a + 1)))

between_some :
    (a b : ℕ)
    → a ≤ b
    → b ≤ data_horizon
    → business_days_between a b ≡ some (pos (count_from (b - a) a))
unfolding business_days_between count_between as_int within_horizon
between_some a b h low = ground (arith, h, low)

-- Between three dates in order, within the horizon, nothing is raised, and the business days from
-- the first to the last are those to the middle one and those from it.
pub business_days_between-sum :
    (a b c : ℕ)
    → a ≤ b
    → b ≤ c
    → c ≤ data_horizon
    → (m : ℕ) × (n : ℕ) × (business_days_between a b ≡ some (pos m))
      × (business_days_between b c ≡ some (pos n))
      × (business_days_between a c ≡ some (pos (m + n)))
business_days_between-sum a b c ab bc low =
    let m = count_from (b - a) a in
    let n = count_from (c - b) b in
    let days : c - a ≡ b - a + (c - b) = omega (arith, ab, bc) in
    let middle : a + (b - a) ≡ b = omega (arith, ab) in
    let sum = count_from-sum (b - a) (c - b) a in
    (
      m,
      n,
      between_some a b ab (omega (arith, bc, low)),
      between_some b c bc low,
      between_some a c (omega (arith, ab, bc)) low
          ∙ ap (λ k. some (pos k))
              (ap (λ k. count_from k a) days ∙ sum ∙ ap (λ d. m + count_from (c - b) d) middle),
    )
