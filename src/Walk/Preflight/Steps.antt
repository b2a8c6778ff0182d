-- ===== src/Walk/Preflight/Steps.antt =====
-- walk.py
-- How the steps of a walk run, and how it ends.
use clonway_cockpit.Prelude.{
  ℕ, ◌+◌, String, ◌≡◌, refl, ap, inl, inr, Bool, true, false, Option, some, List, [], ◌∷◌, ◌++◌,
  Bool-cases, All,
}
use clonway_cockpit.Prelude.Dict.{Dict, put}
use clonway_cockpit.Value.{Value, str}
use clonway_cockpit.Walk.{
  Answer, answered, waiting, WizardContext, Scene, emit_gate, failed_frame, finished_frame,
}
use clonway_cockpit.Walk.Preflight.{
  Precondition, preflight, Step, WalkEnd, cancelled, held, failed, finished, update, progress_text,
  await_key, run_steps, walk_total, preflight_frames, emit_each, after_preflight, run_walk,
  make_walk_handler,
}
use clonway_cockpit.Walk.Preflight.Ready.{
  IsConfirmed, ready-All, preflight-ready, preflight-IsConfirmed,
}

-- the bag that a step is run with, and the one after it
abbrev pub bag_in : ℕ → ℕ → Dict Value → Dict Value
bag_in i total bag = put "progress" (str (progress_text i total)) bag

-- `Ran total i steps bag s j bag' s'`: the steps, the first of number `i`, ran one after the
-- other from the bag and the scene, each of them ok.
pub data Ran {W : Type 0} (total : ℕ)
    : ℕ → List (Step W) → Dict Value → Scene W → ℕ → Dict Value → Scene W → Type 0 where
  none_left : {i : ℕ} {bag : Dict Value} {s : Scene W} → Ran total i [] bag s i bag s
  ran :
      {i j : ℕ} {step : Step W} {steps : List (Step W)} {bag bag' : Dict Value} {s s' : Scene W}
      → (step.run (bag_in i total bag) s).0.ok ≡ true
      → Ran total
          (i + 1)
          steps
          (update (step.run (bag_in i total bag) s).0.data_items (bag_in i total bag))
          (step.run (bag_in i total bag) s).1
          j
          bag'
          s'
      → Ran total i (step ∷ steps) bag s j bag' s'

-- the step of number `j` was the first that was not ok
pub record Broke {W : Type 0} (total i : ℕ) (steps : List (Step W)) (bag : Dict Value) (s : Scene W)
    (message : String) (last : Scene W) : Type 0 where
  pub before : List (Step W)
  pub after : List (Step W)
  pub bad : Step W
  pub split : steps ≡ before ++ bad ∷ after
  pub j : ℕ
  pub bag' : Dict Value
  pub s' : Scene W
  pub good : Ran total i before bag s j bag' s'
  pub not_ok : (bad.run (bag_in j total bag') s').0.ok ≡ false
  pub said : (bad.run (bag_in j total bag') s').0.message ≡ message
  pub left : (bad.run (bag_in j total bag') s').1 ≡ last

-- What the end of a walk says of its steps.
abbrev pub EndOf :
    {W : Type 0}
    → WizardContext W
    → ℕ
    → ℕ
    → List (Step W)
    → Dict Value
    → Scene W
    → WalkEnd × Scene W
    → Type 0
EndOf ctx total i steps bag s (cancelled, t) = ⊥
EndOf ctx total i steps bag s (held, t) = ⊥
EndOf {W} ctx total i steps bag s (failed message, t) =
    (last : Scene W) × Broke total i steps bag s message last
    × (t ≡ await_key ctx (emit_gate ctx (failed_frame message) last))
EndOf {W} ctx total i steps bag s (finished out, t) =
    (last : Scene W) × (j : ℕ) × Ran total i steps bag s j out last
    × (t ≡ await_key ctx (emit_gate ctx (finished_frame out) last))

module _ {W : Type 0} (ctx : WizardContext W) (total : ℕ) where
  EndOf-step :
      (i : ℕ) (step : Step W) (steps : List (Step W)) (bag : Dict Value) (s : Scene W)
      (r : WalkEnd × Scene W)
      → (step.run (bag_in i total bag) s).0.ok ≡ true
      → EndOf ctx total
          (i + 1)
          steps
          (update (step.run (bag_in i total bag) s).0.data_items (bag_in i total bag))
          (step.run (bag_in i total bag) s).1
          r
      → EndOf ctx total i (step ∷ steps) bag s r
  EndOf-step i step steps bag s (cancelled, t) ok h = h
  EndOf-step i step steps bag s (held, t) ok h = h
  EndOf-step i step steps bag s (failed message, t) ok (last, b, e) = (
    last,
    record {
      before = step ∷ b.before;
      after = b.after;
      bad = b.bad;
      split = ap (λ l. step ∷ l) b.split;
      j = b.j;
      bag' = b.bag';
      s' = b.s';
      good = Ran.ran ok b.good;
      not_ok = b.not_ok;
      said = b.said;
      left = b.left;
    },
    e,
  )
  EndOf-step i step steps bag s (finished out, t) ok (last, j, r, e) = (last, j, Ran.ran ok r, e)

  -- The steps end in one of two ways: all of them ran in order, each ok, and the walk finished
  -- with the bag that they filled; or the first that was not ok gave the message, and no step
  -- after it ran.
  pub run_steps-EndOf :
      (i : ℕ) (steps : List (Step W)) (bag : Dict Value) (s : Scene W)
      → EndOf ctx total i steps bag s (run_steps ctx i total steps bag s)
  unfolding run_steps
  run_steps-EndOf i [] bag s = (s, i, Ran.none_left, refl)
  run_steps-EndOf i (step ∷ steps) bag s =
      elim (Bool-cases (step.run (bag_in i total bag) s).0.ok) [
        | inl good ↦
            rw good (EndOf-step i step steps bag s _ good (run_steps-EndOf (i + 1) steps _ _))
        | inr bad ↦ rw bad (
          _,
          record {
            before = [];
            after = steps;
            bad = step;
            split = refl;
            j = i;
            bag' = bag;
            s' = s;
            good = Ran.none_left;
            not_ok = bad;
            said = refl;
            left = refl;
          },
          refl,
        )
      ]

-- What the pre-flight of a handler leaves: its answer, and the scene that it left, with its presses
-- read, its remedies run and its frames emitted, and nothing else changed.
module _ {W : Type 0} (ctx : WizardContext W) (pre : W → List (Precondition W)) (writes : Bool)
    (s : Scene W) where
  abbrev pub flown : Answer × List String × W
  flown = preflight ctx (some pre) writes (pre s.world) s.presses s.world

  abbrev pub landed : Scene W
  landed =
      record (emit_each ctx (preflight_frames ctx (some pre) (pre s.world) s.presses s.world) s) {
        presses = flown.1;
        world = flown.2;
      }

-- the pre-flight let the walk go on
pub record IsCleared {W : Type 0} (ctx : WizardContext W) (pre : W → List (Precondition W))
    (writes : Bool) (s : Scene W) : Type 0 where
  pub said_yes : (flown ctx pre writes s).0 ≡ answered true
  pub holds : All (λ (p : Precondition W). p.ok ≡ true) (pre (landed ctx pre writes s).world)
  pub confirmed : writes ≡ true → IsConfirmed s.presses (landed ctx pre writes s).presses

-- What a walk of `make_walk_handler` has done. Without an answer, or with a no, it ends in the scene
-- that the pre-flight left, whatever its steps; with a yes every precondition holds in that scene,
-- for a walk that writes the last press read was a confirmation, and the steps started in it and
-- ended as `EndOf` says.
abbrev pub WalkDone :
    {W : Type 0}
    → WizardContext W
    → (W → List (Precondition W))
    → Bool
    → ℕ
    → List (Step W)
    → Scene W
    → WalkEnd × Scene W
    → Type 0
WalkDone ctx pre writes total steps s (cancelled, t) =
    ((flown ctx pre writes s).0 ≡ answered false) × (t ≡ landed ctx pre writes s)
WalkDone ctx pre writes total steps s (held, t) =
    ((flown ctx pre writes s).0 ≡ waiting) × (t ≡ landed ctx pre writes s)
WalkDone ctx pre writes total steps s (failed message, t) =
    IsCleared ctx pre writes s
    × EndOf ctx total 2 steps [] (landed ctx pre writes s) (failed message, t)
WalkDone ctx pre writes total steps s (finished out, t) =
    IsCleared ctx pre writes s
    × EndOf ctx total 2 steps [] (landed ctx pre writes s) (finished out, t)

module _ {W : Type 0} (ctx : WizardContext W) (pre : W → List (Precondition W)) (writes : Bool)
    (steps : List (Step W)) (total : Option ℕ) (s : Scene W) where
  EndOf-WalkDone :
      (r : WalkEnd × Scene W)
      → IsCleared ctx pre writes s
      → EndOf ctx (walk_total total steps) 2 steps [] (landed ctx pre writes s) r
      → WalkDone ctx pre writes (walk_total total steps) steps s r
  EndOf-WalkDone (cancelled, t) ok h = absurd h
  EndOf-WalkDone (held, t) ok h = absurd h
  EndOf-WalkDone (failed message, t) ok h = (ok, h)
  EndOf-WalkDone (finished out, t) ok h = (ok, h)

  after_preflight-WalkDone :
      (a : Answer)
      → (flown ctx pre writes s).0 ≡ a
      → (a ≡ answered true → IsCleared ctx pre writes s)
      → WalkDone ctx pre writes (walk_total total steps) steps s (
          after_preflight ctx total steps
            (a, (flown ctx pre writes s).1, (flown ctx pre writes s).2)
            (emit_each ctx (preflight_frames ctx (some pre) (pre s.world) s.presses s.world) s))
  unfolding after_preflight
  after_preflight-WalkDone waiting e h = (e, refl)
  after_preflight-WalkDone (answered false) e h = (e, refl)
  after_preflight-WalkDone (answered true) e h =
      EndOf-WalkDone _ (h refl)
        (run_steps-EndOf ctx (walk_total total steps) 2 steps [] (landed ctx pre writes s))

-- A walk of the handler, with the keyboard bound. If its pre-flight was not answered yes, the walk
-- ends in the scene that the pre-flight left: no step ran, the audit got nothing, and an observer got
-- the frames of the pre-flight. Else all preconditions hold in that scene, a walk that writes was
-- confirmed by the last press that the pre-flight read, and the steps started in that scene, ran in
-- order, and stopped at the first that was not ok, or all were ok; an observer then got the result.
pub make_walk_handler-WalkDone :
    {W : Type 0} (ctx : WizardContext W) (pre : W → List (Precondition W)) (steps : List (Step W))
    (total : Option ℕ) (writes : Bool) (s : Scene W)
    → ctx.interactive ≡ true
    → WalkDone ctx pre writes
        (walk_total total steps)
        steps
        s
        (make_walk_handler steps writes pre total ctx s)
unfolding make_walk_handler run_walk
make_walk_handler-WalkDone ctx pre steps total writes s bound =
    after_preflight-WalkDone ctx pre writes steps total s (flown ctx pre writes s).0 refl
      (λ yes_said. record {
        holds = ready-All _ (preflight-ready ctx pre writes bound s.presses s.world yes_said);
        said_yes = yes_said;
        confirmed = λ on. preflight-IsConfirmed ctx pre writes bound on s.presses s.world yes_said;
      })
