-- ===== src/Viewport/Pins.antt =====
-- viewport.py
-- The pins of a page that is too tall.
use clonway_cockpit.Prelude.{
  ℕ, zero, suc, ◌+◌, ◌-◌, ◌≤◌, max, ◌≡◌, refl, ◌⊎◌, inl, inr, Bool, true, false, not, ◌&&◌, ◌||◌,
  arith, ltb, leb, Bool-cases,
}
use clonway_cockpit.Viewport.{min_body, shrink, pins}

-- whether the loop of _pins is done
abbrev pub pins_fit : ℕ → ℕ → ℕ → Bool
pins_fit height top bottom =
    not (ltb height (top + bottom + 1 + min_body) && (ltb 0 top || ltb 1 bottom))

abbrev takes_top : ℕ → ℕ → Bool
takes_top top bottom = ltb 0 top && (leb bottom top || leb bottom 1)

-- pins within the wanted ones that are done
record IsShrunk (height top bottom : ℕ) (r : ℕ × ℕ) : Type 0 where
  top_le : r.0 ≤ top
  one_le : 1 ≤ r.1
  bottom_le : r.1 ≤ bottom
  fits : pins_fit height r.0 r.1 ≡ true

wider :
    (height a b top bottom : ℕ) (r : ℕ × ℕ)
    → a ≤ top
    → b ≤ bottom
    → IsShrunk height a b r
    → IsShrunk height top bottom r
wider height a b top bottom r h k s = record {
  top_le = let x = s.top_le in omega (arith, x, h);
  one_le = s.one_le;
  bottom_le = let x = s.bottom_le in omega (arith, x, k);
  fits = s.fits;
}

negated_on : (b : Bool) → not b ≡ true → b ≡ false
negated_on true h = absurd (ground (arith, h))
negated_on false h = refl

negated_off : (b : Bool) → not b ≡ false → b ≡ true
negated_off true h = refl
negated_off false h = absurd (ground (arith, h))

shrink-IsShrunk :
    (fuel height top bottom : ℕ)
    → top + bottom ≤ fuel + 1
    → 1 ≤ bottom
    → IsShrunk height top bottom (shrink fuel height top bottom)
unfolding shrink
shrink-IsShrunk zero height top bottom h low = record {
  top_le = omega arith;
  one_le = low;
  bottom_le = omega arith;
  fits = ground (arith, h, low);
}
shrink-IsShrunk (suc fuel) height top bottom h low =
    elim (Bool-cases (pins_fit height top bottom)) [
      | inl done ↦
          rw (negated_on _ done)
            (record { top_le = omega arith; one_le = low; bottom_le = omega arith; fits = done })
      | inr more ↦ elim (Bool-cases (takes_top top bottom)) [
        | inl f ↦
            rw (negated_off _ more, f)
              (wider height (top - 1) bottom top bottom _ (omega arith) (omega arith)
                (shrink-IsShrunk fuel height (top - 1) bottom (ground (arith, f, h, more)) low))
        | inr f ↦
            rw (negated_off _ more, f)
              (wider height top (bottom - 1) top bottom _ (omega arith) (omega arith) (
                shrink-IsShrunk fuel height top (bottom - 1) (ground (arith, f, h, more))
                  (ground (arith, f, more))))
      ]
    ]

max_low : (b : ℕ) → 1 ≤ max 1 b
max_low b = omega arith

pins_end :
    (height a b : ℕ)
    → 1 ≤ b
    → pins_fit height a b ≡ true
    → ((a + b + 1 + min_body) ≤ height) ⊎ ((a ≡ 0) × (b ≡ 1))
pins_end height a b low fit = elim (Bool-cases (ltb height (a + b + 1 + min_body))) [
  | inl e ↦ inr (ground (arith, e, fit, low), ground (arith, e, fit, low))
  | inr e ↦ inl (ground (arith, e))
]

pins_room :
    (height a b : ℕ)
    → 1 ≤ height
    → ((a + b + 1 + min_body) ≤ height) ⊎ ((a ≡ 0) × (b ≡ 1))
    → a + b ≤ height
pins_room height a b h (inl e) = omega (arith, e)
pins_room height a b h (inr e) = let e0 = e.0 in let e1 = e.1 in omega (arith, h, e0, e1)

-- The pins of a terminal with at least one row are at most the wanted ones, with at least one line
-- of the footer. They fit the terminal, and either leave three rows of the body and the row of the
-- note, or nothing is left to take from them.
pub pins_bound :
    (top bottom height : ℕ)
    → 1 ≤ height
    → let (a, b) = pins top bottom height in
      (a ≤ top)
      × (1 ≤ b)
      × (b ≤ max 1 bottom)
      × (a + b ≤ height)
      × (((a + b + 1 + min_body) ≤ height) ⊎ ((a ≡ 0) × (b ≡ 1)))
unfolding pins
pins_bound top bottom height h =
    let low = max_low bottom in
    let s = shrink-IsShrunk (top + max 1 bottom) height top (max 1 bottom) (omega arith) low in
    let p = shrink (top + max 1 bottom) height top (max 1 bottom) in
    let end = pins_end height p.0 p.1 s.one_le s.fits in
    (s.top_le, s.one_le, s.bottom_le, pins_room height p.0 p.1 h end, end)
