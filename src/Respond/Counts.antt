-- ===== src/Respond/Counts.antt =====
-- negotiation.py
-- The asks that reflexes cover and those that remain, counted.
use clonway_cockpit.Prelude.{
  suc, ◌+◌, ◌≤◌, String, ◌≡◌, refl, sym, ap, ◌∙◌, inl, inr, Bool, true, false, not, ◌&&◌, List, [],
  ◌∷◌, ◌++◌, arith, ◌==◌, eq_iff, Bool-cases, length, keep, All, elem, Distinct, elem-append,
}

abbrev pub outside : List String → String → Bool
outside fs a = not (elem a fs)

elem-keep :
    (a : String) (fs asks : List String)
    → elem a (keep (outside fs) asks) ≡ (elem a asks && outside fs a)
elem-keep a fs [] = refl
elem-keep a fs (x ∷ asks) =
    let rest = elem-keep a fs asks in
    elim (Bool-cases (x == a)) [
      | inl same ↦
          let at : elem a fs ≡ elem x fs = ap (λ z. elem z fs) (sym ((eq_iff x a).0 same)) in
          elim (Bool-cases (elem x fs)) [
            | inl e ↦ rw e (ground (arith, rest, same, at, e))
            | inr e ↦ rw e (ground (arith, rest, same, at, e))
          ]
      | inr other ↦ elim (Bool-cases (elem x fs)) [
        | inl e ↦ rw e (ground (arith, rest, other, e))
        | inr e ↦ rw e (ground (arith, rest, other, e))
      ]
    ]

-- every ask of the firings is one of the asks
abbrev pub Within : List String → List String → Type 0
Within fs asks = All (λ f. elem f asks ≡ true) fs

Within-elem :
    (a : String) (fs asks : List String) → Within fs asks → elem a fs ≡ true → elem a asks ≡ true
Within-elem a [] asks h e = absurd (ground (arith, e))
Within-elem a (f ∷ fs) asks h e = elim (Bool-cases (f == a)) [
  | inl same ↦ ap (λ z. elem z asks) (sym ((eq_iff f a).0 same)) ∙ h.0
  | inr other ↦ Within-elem a fs asks h.1 (ground (arith, other, e))
]

pub elem-covered :
    (a : String) (fs asks : List String)
    → Within fs asks
    → elem a (fs ++ keep (outside fs) asks) ≡ elem a asks
elem-covered a fs asks h = elim (Bool-cases (elem a fs)) [
  | inl e ↦
      let there = Within-elem a fs asks h e in
      ground (arith, elem-append a fs (keep (outside fs) asks), e, there)
  | inr e ↦ ground (arith, elem-append a fs (keep (outside fs) asks), elem-keep a fs asks, e)
]

-- covering one more ask keeps no more of the asks
keep_le :
    (f : String) (fs asks : List String)
    → length (keep (outside (f ∷ fs)) asks) ≤ length (keep (outside fs) asks)
keep_le f fs [] = omega arith
keep_le f fs (x ∷ asks) =
    let rest = keep_le f fs asks in
    elim (Bool-cases (elem x fs)) [
      | inl e ↦ elim (Bool-cases (f == x)) [
        | inl same ↦ rw (e, same) rest
        | inr other ↦ rw (e, other) rest
      ]
      | inr e ↦ elim (Bool-cases (f == x)) [
        | inl same ↦ rw (e, same) (omega (arith, rest))
        | inr other ↦ rw (e, other) (omega (arith, rest))
      ]
    ]

-- one more covered ask leaves at least one fewer
keep_fewer :
    (f : String) (fs asks : List String)
    → elem f asks ≡ true
    → elem f fs ≡ false
    → length (keep (outside (f ∷ fs)) asks) + 1 ≤ length (keep (outside fs) asks)
keep_fewer f fs [] h k = absurd (ground (arith, h))
keep_fewer f fs (x ∷ asks) h k =
    let rest = keep_le f fs asks in
    elim (Bool-cases (f == x)) [
      | inl same ↦
          let at : elem x fs ≡ false = ap (λ z. elem z fs) (sym ((eq_iff f x).0 same)) ∙ k in
          rw (same, at) (omega (arith, rest))
      | inr other ↦
          let there : elem f asks ≡ true = ground (arith, h, other, eq_iff x f, eq_iff f x) in
          let fewer = keep_fewer f fs asks there k in
          elim (Bool-cases (elem x fs)) [
            | inl e ↦ rw (other, e) (omega (arith, fewer))
            | inr e ↦ rw (other, e) (omega (arith, fewer))
          ]
    ]

keep_all : (asks : List String) → length (keep (outside []) asks) ≡ length asks
keep_all [] = refl
keep_all (x ∷ asks) = ap suc (keep_all asks)

pub length-covered :
    (fs asks : List String)
    → Distinct fs
    → Within fs asks
    → length fs + length (keep (outside fs) asks) ≤ length asks
length-covered [] asks d h = omega (arith, keep_all asks)
length-covered (f ∷ fs) asks d h =
    let rest = length-covered fs asks d.1 h.1 in
    let one = keep_fewer f fs asks h.0 d.0 in omega (arith, rest, one)
