-- ===== src/Walk/Preflight.antt =====
-- The pre-flight and the steps of a walk: `preflight`, `run_walk` and what they use of
-- src/clonway_cockpit/walk.py. What they draw on the terminal is left out; what they read, and the
-- frames that they emit to the observer, are not.
pub mod Ready
pub mod Steps
use clonway_cockpit.Prelude.{
  ℕ, zero, suc, ◌+◌, ◌-◌, ◌*◌, ◌/◌, ◌%◌, ◌≤◌, ◌<◌, min, max, String, ◌≡◌, refl, sym, ap, ◌∙◌, ◌≢◌,
  ◌↔◌, ◌⊎◌, inl, inr, Bool, true, false, not, ◌&&◌, ◌||◌, Option, none, some, List, [], ◌∷◌, ◌++◌,
  map, arith, ◌==◌, eq_iff, eq_refl, ltb, leb, nat_eq, if◌then◌else◌, ltb→lt, leb→le, Bool-cases,
  Option-cases, is_some, length, take, drop, any, all, keep, All, length-append, elem, Distinct,
  elem-append, All-append,
}
use clonway_cockpit.Prelude.Texts.{text_append}
use clonway_cockpit.Prelude.Dict.{Dict, get, put}
use clonway_cockpit.Value.{Value, str, null}
use clonway_cockpit.Walk.{
  Answer, answered, waiting, WizardContext, Scene, WalkFrame, preflight_frame, remedy_frame,
  failed_frame, finished_frame, emit_gate, decimal_of,
}

pub record Remedy (W : Type 0) : Type 0 where
  pub key : String
  pub label : String
  -- what it does to the world; its message is not used
  pub action : W → W

pub record Precondition (W : Type 0) : Type 0 where
  pub label : String
  pub ok : Bool
  pub detail : String
  pub remedy : Option (Remedy W)

-- what the screen leads to: on, to an offered remedy, or back
pub data Offer (W : Type 0) : Type 0 where
  go : Offer W
  fix : Remedy W → Offer W
  back : Offer W

-- k in (keys.ENTER, "y", "Y")
unfoldable pub is_confirm_key : String → Bool
is_confirm_key k = k == "enter" || k == "y" || k == "Y"

module _ {W : Type 0} where
  -- _first_blocked_remedy
  unfoldable pub first_blocked_remedy : List (Precondition W) → Option (Remedy W)
  first_blocked_remedy [] = none
  first_blocked_remedy (p ∷ ps) =
      let rest = first_blocked_remedy ps in if not p.ok && is_some p.remedy then p.remedy else rest

  unfoldable pub ready : List (Precondition W) → Bool
  ready = all (λ (p : Precondition W). p.ok)

  unfoldable pub offer : WizardContext W → List (Precondition W) → Offer W
  unfolding ready first_blocked_remedy
  offer ctx pre = if ready pre then go else (elim (first_blocked_remedy pre) [
    | none ↦ back
    | some r ↦ if ctx.interactive then fix r else back
  ])

  -- a ready pre-flight: a walk that writes is confirmed
  unfoldable pub pass : WizardContext W → Bool → List String → W → Answer × List String × W
  unfolding is_confirm_key
  pass ctx false presses w = (answered true, presses, w)
  pass ctx true [] w =
      if ctx.interactive
      then (waiting, [], w)
      else let (yes_no, w') = ctx.confirm_fn "Continue? [Y]es / [n]o" w in (answered yes_no, [], w')
  pass ctx true (k ∷ ks) w =
      if ctx.interactive
      then (answered (is_confirm_key k), ks, w)
      else let (yes_no, w') = ctx.confirm_fn "Continue? [Y]es / [n]o" w in
        (answered yes_no, k ∷ ks, w')

  -- a blocked pre-flight without a remedy: _await, then back
  unfoldable pub leave : WizardContext W → List String → W → Answer × List String × W
  leave ctx [] w = if ctx.interactive then (waiting, [], w) else (answered false, [], w)
  leave ctx (k ∷ ks) w = (answered false, (if ctx.interactive then ks else k ∷ ks), w)

  -- the screen with too few presses to confirm a remedy
  unfoldable pub short_of_keys :
      WizardContext W → Bool → Offer W → List String → W → Answer × List String × W
  unfolding pass leave
  short_of_keys ctx writes go presses w = pass ctx writes presses w
  short_of_keys ctx writes back presses w = leave ctx presses w
  short_of_keys ctx writes (fix r) [] w = (waiting, [], w)
  short_of_keys ctx writes (fix r) (k ∷ ks) w =
      if k == r.key then (waiting, [], w) else (answered false, ks, w)

  unfoldable pub rechecked :
      Option (W → List (Precondition W)) → List (Precondition W) → W → List (Precondition W)
  rechecked none pre w = pre
  rechecked (some recheck) pre w = recheck w

  -- the press `k` on the offer of a remedy, the press `k2` on its confirmation, and the walk from
  -- the remedied world
  unfoldable pub remedied :
      Remedy W
      → String
      → String
      → List String
      → W
      → Answer × List String × W
      → Answer × List String × W
  unfolding is_confirm_key
  remedied r k k2 ks w again =
      if k == r.key
      then if is_confirm_key k2 then again else (answered false, ks, w)
      else (answered false, k2 ∷ ks, w)

  -- preflight
  unfoldable pub preflight :
      WizardContext W
      → Option (W → List (Precondition W))
      → Bool
      → List (Precondition W)
      → List String
      → W
      → Answer × List String × W
  unfolding offer pass leave short_of_keys rechecked remedied
  preflight ctx recheck writes pre [] w = short_of_keys ctx writes (offer ctx pre) [] w
  preflight ctx recheck writes pre (k ∷ []) w = short_of_keys ctx writes (offer ctx pre) (k ∷ []) w
  preflight ctx recheck writes pre (k ∷ k2 ∷ ks) w = elim (offer ctx pre) [
    | go ↦ pass ctx writes (k ∷ k2 ∷ ks) w
    | back ↦ leave ctx (k ∷ k2 ∷ ks) w
    | fix r ↦
        remedied r k k2 ks w
          (preflight ctx recheck writes (rechecked recheck pre (r.action w)) ks (r.action w))
  ]

module _ {W : Type 0} where
  -- the frame of a pre-flight
  unfoldable pub shown_preflight : List (Precondition W) → WalkFrame
  unfolding ready first_blocked_remedy
  shown_preflight pre = preflight_frame (ready pre) (
      if ready pre
      then none
      else (elim (first_blocked_remedy pre) [ none ↦ none | some r ↦ some r.key ]))

  -- what follows the offer of a remedy: `again` is what the next pre-flight emits
  unfoldable pub shown_offer : Offer W → List String → List WalkFrame → List WalkFrame
  unfolding is_confirm_key
  shown_offer go presses again = []
  shown_offer back presses again = []
  shown_offer (fix r) [] again = []
  shown_offer (fix r) (k ∷ []) again = if k == r.key then remedy_frame r.key ∷ [] else []
  shown_offer (fix r) (k ∷ k2 ∷ ks) again =
      if k == r.key then remedy_frame r.key ∷ (if is_confirm_key k2 then again else []) else []

  -- the frames that preflight emits, on the presses that it reads
  unfoldable pub preflight_frames :
      WizardContext W
      → Option (W → List (Precondition W))
      → List (Precondition W)
      → List String
      → W
      → List WalkFrame
  unfolding offer shown_preflight shown_offer rechecked
  preflight_frames ctx recheck pre [] w = shown_preflight pre ∷ []
  preflight_frames ctx recheck pre (k ∷ []) w =
      shown_preflight pre ∷ shown_offer (offer ctx pre) (k ∷ []) []
  preflight_frames ctx recheck pre (k ∷ k2 ∷ ks) w = shown_preflight pre ∷ (elim (offer ctx pre) [
    | go ↦ []
    | back ↦ []
    | fix r ↦
        shown_offer (fix r) (k ∷ k2 ∷ ks)
          (preflight_frames ctx recheck (rechecked recheck pre (r.action w)) ks (r.action w))
  ])

  -- each of the frames is emitted
  unfoldable pub emit_each : WizardContext W → List WalkFrame → Scene W → Scene W
  unfolding emit_gate
  emit_each ctx [] s = s
  emit_each ctx (f ∷ fs) s = emit_each ctx fs (emit_gate ctx f s)

pub record StepResult : Type 0 where
  pub ok : Bool
  pub message : String
  pub data_items : List (String × Value)

pub record Step (W : Type 0) : Type 0 where
  pub label : String
  pub run : Dict Value → Scene W → StepResult × Scene W

-- how a walk ends; `held` is one that still waits for a press on its pre-flight
pub data WalkEnd : Type 0 where
  cancelled : WalkEnd
  held : WalkEnd
  failed : String → WalkEnd
  finished : Dict Value → WalkEnd

-- bag.update(items)
unfoldable pub update : List (String × Value) → Dict Value → Dict Value
unfolding put
update [] bag = bag
update ((k, v) ∷ items) bag = update items (put k v bag)

-- f"step {i} of {total}"
unfoldable pub progress_text : ℕ → ℕ → String
unfolding decimal_of text_append
progress_text i total =
    text_append "step "
      (text_append (decimal_of (suc i) i "") (text_append " of " (decimal_of (suc total) total "")))

module _ {W : Type 0} where
  -- _await, on the screen of a walk that has ended
  unfoldable pub await_key : WizardContext W → Scene W → Scene W
  await_key ctx s = if ctx.interactive then record s { presses = drop 1 s.presses } else s

  -- the loop over the steps, from the number of the first
  unfoldable pub run_steps :
      WizardContext W → ℕ → ℕ → List (Step W) → Dict Value → Scene W → WalkEnd × Scene W
  unfolding update progress_text await_key put emit_gate
  run_steps ctx i total [] bag s =
      (finished bag, await_key ctx (emit_gate ctx (finished_frame bag) s))
  run_steps ctx i total (step ∷ steps) bag s =
      let (result, s') = step.run (put "progress" (str (progress_text i total)) bag) s in
      let bag' = update result.data_items (put "progress" (str (progress_text i total)) bag) in
      let rest = run_steps ctx (i + 1) total steps bag' s' in
      if result.ok
      then rest
      else (failed result.message, await_key ctx (emit_gate ctx (failed_frame result.message) s'))

  -- total or (len(steps) + 1)
  unfoldable pub walk_total : Option ℕ → List (Step W) → ℕ
  walk_total none steps = length steps + 1
  walk_total (some zero) steps = length steps + 1
  walk_total (some (suc n)) steps = suc n

  unfoldable pub after_preflight :
      WizardContext W
      → Option ℕ
      → List (Step W)
      → Answer × List String × W
      → Scene W
      → WalkEnd × Scene W
  unfolding run_steps walk_total
  after_preflight ctx total steps (waiting, ks, w) s = (held, record s { presses = ks; world = w })
  after_preflight ctx total steps (answered false, ks, w) s =
      (cancelled, record s { presses = ks; world = w })
  after_preflight ctx total steps (answered true, ks, w) s =
      run_steps ctx 2 (walk_total total steps) steps [] (record s { presses = ks; world = w })

  -- run_walk
  unfoldable pub run_walk :
      WizardContext W
      → List (Step W)
      → Bool
      → List (Precondition W)
      → Option ℕ
      → Option (W → List (Precondition W))
      → Scene W
      → WalkEnd × Scene W
  unfolding preflight preflight_frames emit_each after_preflight
  run_walk ctx steps writes pre total recheck s =
      after_preflight ctx total steps (preflight ctx recheck writes pre s.presses s.world)
        (emit_each ctx (preflight_frames ctx recheck pre s.presses s.world) s)

  -- make_walk_handler
  unfoldable pub make_walk_handler :
      List (Step W)
      → Bool
      → (W → List (Precondition W))
      → Option ℕ
      → WizardContext W
      → Scene W
      → WalkEnd × Scene W
  unfolding run_walk
  make_walk_handler steps writes preconditions_fn total ctx s =
      run_walk ctx steps writes (preconditions_fn s.world) total (some preconditions_fn) s
