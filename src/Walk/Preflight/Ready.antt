-- ===== src/Walk/Preflight/Ready.antt =====
-- walk.py
-- What the pre-flight guarantees of the world that a walk goes on from.
use clonway_cockpit.Prelude.{
  String, ◌≡◌, refl, sym, ◌∙◌, ◌⊎◌, inl, inr, Bool, true, ◌&&◌, some, List, [], ◌∷◌, ◌++◌, ap,
  arith, ◌==◌, Bool-cases, eq_iff, All, and_split, Option-cases,
}
use mathlib.Core.Path.{subst}
use clonway_cockpit.Walk.{Answer, answered, WizardContext}
use clonway_cockpit.Walk.Preflight.{
  Remedy, Precondition, Offer, go, fix, back, is_confirm_key, first_blocked_remedy, ready, offer,
  pass, leave, short_of_keys, rechecked, remedied, preflight,
}

-- the presses of a yes
abbrev pub IsYes : String → Type 0
IsYes k = (k ≡ "enter") ⊎ ((k ≡ "y") ⊎ (k ≡ "Y"))

is_confirm_key-IsYes : (k : String) → is_confirm_key k ≡ true → IsYes k
unfolding is_confirm_key
is_confirm_key-IsYes k h = elim (Bool-cases (k == "enter")) [
  | inl e ↦ inl ((eq_iff k "enter").0 e)
  | inr e ↦ elim (Bool-cases (k == "y")) [
    | inl f ↦ inr (inl ((eq_iff k "y").0 f))
    | inr f ↦ inr (inr ((eq_iff k "Y").0 (ground (arith, h, e, f))))
  ]
]

-- a pre-flight is ready when each of its preconditions holds
pub ready-All :
    {W : Type 0} (ps : List (Precondition W))
    → ready ps ≡ true
    → All (λ (p : Precondition W). p.ok ≡ true) ps
unfolding ready
ready-All [] h = tt
ready-All (p ∷ ps) h = let (one, rest) = and_split p.ok (ready ps) h in (one, ready-All ps rest)

-- of these presses those were left, and the last one read was a yes
abbrev pub IsConfirmed : List String → List String → Type 0
IsConfirmed presses left =
    (before : List String) × (k : String) × (presses ≡ before ++ k ∷ left) × IsYes k

module _ {W : Type 0} (ctx : WizardContext W) (recheck : W → List (Precondition W)) (writes : Bool)
    (key_bound : ctx.interactive ≡ true) where
  -- the world that a screen leaves, where it answers yes
  abbrev ReadyAfter : Answer × List String × W → Type 0
  ReadyAfter r = r.0 ≡ answered true → ready (recheck r.2) ≡ true

  offer_go : (pre : List (Precondition W)) → offer ctx pre ≡ go → ready pre ≡ true
  unfolding offer
  offer_go pre h = elim (Bool-cases (ready pre)) [
    | inl all_ok ↦ all_ok
    | inr blocked ↦ elim (Option-cases (first_blocked_remedy pre)) [
      | inl bare ↦ absurd (ground (arith, rw (offer, blocked, bare) at h))
      | inr (r, has) ↦ absurd (ground (arith, key_bound, rw (offer, blocked, has) at h))
    ]
  ]

  pass-true : (ks : List String) (w : W) → writes ≡ true → (pass ctx writes ks w).2 ≡ w
  unfolding pass
  pass-true [] w on = rw (on, key_bound) refl
  pass-true (k ∷ ks) w on = rw (on, key_bound) refl

  pass_world : (ks : List String) (w : W) → (pass ctx writes ks w).2 ≡ w
  unfolding pass
  pass_world ks w = elim (Bool-cases writes) [ inl on ↦ pass-true ks w on | inr off ↦ rw off refl ]

  pass-ReadyAfter :
      (ks : List String) (w : W) → offer ctx (recheck w) ≡ go → ReadyAfter (pass ctx writes ks w)
  pass-ReadyAfter ks w h yes_said = rw (pass_world ks w) (offer_go (recheck w) h)

  leave_answer : (ks : List String) (w : W) → ¬ ((leave ctx ks w).0 ≡ answered true)
  unfolding leave
  leave_answer [] w h = ground (arith, key_bound, h)
  leave_answer (k ∷ ks) w h = ground (arith, h)

  short-ReadyAfter :
      (o : Offer W) (ks : List String) (w : W)
      → offer ctx (recheck w) ≡ o
      → ReadyAfter (short_of_keys ctx writes o ks w)
  unfolding short_of_keys
  short-ReadyAfter go ks w e h = pass-ReadyAfter ks w e h
  short-ReadyAfter back ks w e h = absurd (leave_answer ks w h)
  short-ReadyAfter (fix r) [] w e h = absurd (ground (arith, h))
  short-ReadyAfter (fix r) (k ∷ ks) w e h = absurd (ground (arith, h))

  remedied_taken :
      (r : Remedy W) (k k2 : String) (ks : List String) (w : W) (again : Answer × List String × W)
      → (k == r.key && is_confirm_key k2) ≡ true
      → remedied r k k2 ks w again ≡ again
  unfolding remedied
  remedied_taken r k k2 ks w again h = ground (arith, h)

  remedied-ReadyAfter :
      (r : Remedy W) (k k2 : String) (ks : List String) (w : W) (again : Answer × List String × W)
      → ReadyAfter again
      → ReadyAfter (remedied r k k2 ks w again)
  unfolding remedied
  remedied-ReadyAfter r k k2 ks w again h yes_said =
      elim (Bool-cases (k == r.key && is_confirm_key k2)) [
        | inl taken ↦ subst ReadyAfter (sym (remedied_taken r k k2 ks w again taken)) h yes_said
        | inr other ↦ absurd (ground (arith, other, yes_said))
      ]

  -- Where the keyboard is bound and the preconditions are evaluated again after a remedy, a
  -- pre-flight that starts from the evaluated preconditions and lets the walk go on leaves a world
  -- in which every precondition holds, whatever the operator pressed and whatever the remedies did.
  pub preflight-ready :
      (presses : List String) (w : W)
      → (preflight ctx (some recheck) writes (recheck w) presses w).0 ≡ answered true
      → ready (recheck (preflight ctx (some recheck) writes (recheck w) presses w).2) ≡ true
  unfolding preflight rechecked
  preflight-ready [] w h = short-ReadyAfter (offer ctx (recheck w)) [] w refl h
  preflight-ready (k ∷ []) w h = short-ReadyAfter (offer ctx (recheck w)) (k ∷ []) w refl h
  preflight-ready (k ∷ k2 ∷ ks) w h =
      elim (offer ctx (recheck w))
          as (λ o.
            offer ctx (recheck w) ≡ o
            → ReadyAfter (elim o [
              | go ↦ pass ctx writes (k ∷ k2 ∷ ks) w
              | back ↦ leave ctx (k ∷ k2 ∷ ks) w
              | fix r ↦
                  remedied r k k2 ks w
                    (preflight ctx (some recheck) writes (recheck (r.action w)) ks (r.action w))
            ])) [
              | go ↦ λ e. pass-ReadyAfter (k ∷ k2 ∷ ks) w e
              | back ↦ λ e y. absurd (leave_answer (k ∷ k2 ∷ ks) w y)
              | fix r ↦ λ e. remedied-ReadyAfter r k k2 ks w _ (preflight-ready ks (r.action w))
            ]
        refl h

  -- the presses read by a screen that answers yes end with a confirmation
  abbrev ConfirmedAfter : List String → Answer × List String × W → Type 0
  ConfirmedAfter presses r = r.0 ≡ answered true → IsConfirmed presses r.1

  IsConfirmed-later :
      (k k2 : String) (ks left : List String) → IsConfirmed ks left → IsConfirmed (k ∷ k2 ∷ ks) left
  IsConfirmed-later k k2 ks left (before, key, e, h) =
      (k ∷ k2 ∷ before, key, ap (λ l. k ∷ k2 ∷ l) e, h)

  pass-ConfirmedAfter : (ks : List String) (w : W) → ConfirmedAfter ks (pass ctx true ks w)
  unfolding pass
  pass-ConfirmedAfter [] w h = absurd (ground (arith, key_bound, h))
  pass-ConfirmedAfter (k ∷ ks) w h =
      let e : pass ctx true (k ∷ ks) w ≡ (answered (is_confirm_key k), ks, w) = rw key_bound refl in
      let yes_key : is_confirm_key k ≡ true = ground (arith, key_bound, h) in
      ([], k, ap (λ r. k ∷ r.1) (sym e), is_confirm_key-IsYes k yes_key)

  short-ConfirmedAfter :
      (o : Offer W) (ks : List String) (w : W) → ConfirmedAfter ks (short_of_keys ctx true o ks w)
  unfolding short_of_keys
  short-ConfirmedAfter go ks w h = pass-ConfirmedAfter ks w h
  short-ConfirmedAfter back ks w h = absurd (leave_answer ks w h)
  short-ConfirmedAfter (fix r) [] w h = absurd (ground (arith, h))
  short-ConfirmedAfter (fix r) (k ∷ ks) w h = absurd (ground (arith, h))

  remedied-ConfirmedAfter :
      (r : Remedy W) (k k2 : String) (ks : List String) (w : W) (again : Answer × List String × W)
      → ConfirmedAfter ks again
      → ConfirmedAfter (k ∷ k2 ∷ ks) (remedied r k k2 ks w again)
  unfolding remedied
  remedied-ConfirmedAfter r k k2 ks w again h yes_said =
      elim (Bool-cases (k == r.key && is_confirm_key k2)) [
        | inl taken ↦
            let same = remedied_taken r k k2 ks w again taken in
            subst (λ a. IsConfirmed (k ∷ k2 ∷ ks) a.1) (sym same)
              (IsConfirmed-later k k2 ks again.1 (h (sym (ap (λ a. a.0) same) ∙ yes_said)))
        | inr other ↦ absurd (ground (arith, other, yes_said))
      ]

  preflight-ConfirmedAfter :
      (presses : List String) (w : W)
      → ConfirmedAfter presses (preflight ctx (some recheck) true (recheck w) presses w)
  unfolding preflight rechecked
  preflight-ConfirmedAfter [] w h = short-ConfirmedAfter (offer ctx (recheck w)) [] w h
  preflight-ConfirmedAfter (k ∷ []) w h = short-ConfirmedAfter (offer ctx (recheck w)) (k ∷ []) w h
  preflight-ConfirmedAfter (k ∷ k2 ∷ ks) w h =
      elim (offer ctx (recheck w))
          as (λ o. ConfirmedAfter (k ∷ k2 ∷ ks) (elim o [
            | go ↦ pass ctx true (k ∷ k2 ∷ ks) w
            | back ↦ leave ctx (k ∷ k2 ∷ ks) w
            | fix r ↦
                remedied r k k2 ks w
                  (preflight ctx (some recheck) true (recheck (r.action w)) ks (r.action w))
          ])) [
            | go ↦ pass-ConfirmedAfter (k ∷ k2 ∷ ks) w
            | back ↦ λ y. absurd (leave_answer (k ∷ k2 ∷ ks) w y)
            | fix r ↦
                remedied-ConfirmedAfter r k k2 ks w _ (preflight-ConfirmedAfter ks (r.action w))
          ]
        h

  -- A walk that writes goes on only from a pre-flight whose last press read was a yes.
  pub preflight-IsConfirmed :
      writes ≡ true
      → (presses : List String) (w : W)
      → (preflight ctx (some recheck) writes (recheck w) presses w).0 ≡ answered true
      → IsConfirmed presses (preflight ctx (some recheck) writes (recheck w) presses w).1
  preflight-IsConfirmed on presses w =
      subst (λ b. ConfirmedAfter presses (preflight ctx (some recheck) b (recheck w) presses w))
        (sym on) (preflight-ConfirmedAfter presses w)
