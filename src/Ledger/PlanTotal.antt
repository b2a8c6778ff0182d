-- ===== src/Ledger/PlanTotal.antt =====
-- `compose_plan` on a plan-worthy task: it never raises, and what its plan says of the asks.
use clonway_cockpit.Prelude.{
  String, ◌≡◌, refl, ap, ◌⊎◌, inl, inr, Bool, true, false, Option, none, some, List, [], ◌∷◌, map,
  arith, ◌==◌, eq_refl, Option-cases, is_some, length, All, elem,
}
use clonway_cockpit.Prelude.Dict
use clonway_cockpit.Prelude.Dict.{Dict, keys, get-put}
use clonway_cockpit.Handoff.{
  Checked, passed, raised, HandoffError, PlanStep, check_envelope, check_line, check_handle,
  check_step, check_each, check_shape, is_empty, max_line, is_version_1,
}
use clonway_cockpit.Handoff.Shape.{check_envelope-IsValid}
use clonway_cockpit.Ledger.{
  AskStatus, pending, done, AskState, Task, TaskLedger, some_for_owner, step_of, plan_steps,
}
use clonway_cockpit.Ledger.Plan.{plan, plan_envelope, finish_plan, compose_plan}
use clonway_cockpit.Ledger.WellFormed.{has_decider, decider_ok, AsksOk, IsWellFormed}

abbrev pub status_is_done : AskStatus → Bool
status_is_done done = true
status_is_done _ = false

abbrev pub is_done : Option AskState → Bool
is_done none = false
is_done (some st) = status_is_done st.state

-- A step says "done" exactly if its ask is done.
abbrev pub IsTruthful : Dict AskState → PlanStep → Type 0
IsTruthful asks s = (s.status == "done") ≡ is_done (Dict.get s.action asks)

-- The steps of a plan, for a list of asks.
pub record StepsFor (d : Dict AskState) (asks : List String) (steps : List PlanStep) : Type 0 where
  pub made : plan_steps d asks ≡ some steps
  pub actions : map (λ (s : PlanStep). s.action) steps ≡ asks
  pub truthful : All (IsTruthful d) steps
  pub checked : check_each check_step steps ≡ passed tt

step_of-action :
    (state : AskStatus) (decider ask : String) → (step_of state decider ask).action ≡ ask
unfolding step_of
step_of-action done decider ask = refl
step_of-action _ decider ask = refl

step_of-status :
    (state : AskStatus) (decider ask : String)
    → ((step_of state decider ask).status == "done") ≡ status_is_done state
unfolding step_of
step_of-status done decider ask = refl
step_of-status _ decider ask = refl

step_of-checked :
    (state : AskStatus) (decider ask : String)
    → check_line ask max_line true ≡ passed tt
    → decider_ok state decider ≡ true
    → check_step (step_of state decider ask) ≡ passed tt
unfolding step_of check_step check_handle decider_ok
step_of-checked pending decider ask line h = rw line
step_of-checked _ decider ask line h = ground (arith, line)

Checked-cases : (r : Checked (Unit {0})) → (r ≡ passed tt) ⊎ ((e : HandoffError) × (r ≡ raised e))
Checked-cases (passed tt) = inl refl
Checked-cases (raised e) = inr (e, refl)

pub check_each-cons {ℓ} :
    {A : Type ℓ} (f : A → Checked (Unit {0})) (x : A) (xs : List A)
    → check_each f (x ∷ xs) ≡ passed tt
    → (f x ≡ passed tt) × (check_each f xs ≡ passed tt)
unfolding check_each
check_each-cons f x xs h = elim (Checked-cases (f x)) [
  | inl fine ↦ (fine, rw fine at h)
  | inr (e, bad) ↦ cc (rw bad at h)
]

module _ (d : Dict AskState)
    (deciders : (a : String) (st : AskState) → Dict.get a d ≡ some st → has_decider st ≡ true) where
  plan_steps-StepsFor :
      (asks : List String)
      → All (λ a. is_some (Dict.get a d) ≡ true) asks
      → check_each (λ ask. check_line ask max_line true) asks ≡ passed tt
      → (steps : List PlanStep) × StepsFor d asks steps
  unfolding plan_steps check_each has_decider
  plan_steps-StepsFor [] there lines =
      ([], record { made = refl; actions = refl; truthful = tt; checked = refl })
  plan_steps-StepsFor (ask ∷ asks) there lines = elim (Option-cases (Dict.get ask d)) [
    | inl gone ↦ absurd (ground (arith, gone))
    | inr (st, found) ↦
        let (line, lines') = check_each-cons (λ ask. check_line ask max_line true) ask asks lines in
        let (steps, rest) = plan_steps-StepsFor asks there.1 lines' in
        (
          step_of st.state st.decider ask ∷ steps,
          record {
            made = rw (found, rest.made);
            actions = rw (step_of-action, rest.actions);
            truthful = (
              rw step_of-action (rw found (step_of-status st.state st.decider ask)),
              rest.truthful,
            );
            checked =
                rw (step_of-checked st.state st.decider ask line (deciders ask st found))
                  rest.checked;
          },
        )
  ]

asks_there :
    (d : Dict AskState) (asked : List String)
    → ((a : String) → elem a asked ≡ true → is_some (Dict.get a d) ≡ true)
    → All (λ a. is_some (Dict.get a d) ≡ true) asked
asks_there d [] h = tt
asks_there d (a ∷ asks) h =
    (h a (ground (arith, eq_refl a)), asks_there d asks (λ b i. h b (ground (arith, i))))

length-map-actions :
    (steps : List PlanStep) → length (map (λ (s : PlanStep). s.action) steps) ≡ length steps
length-map-actions [] = refl
length-map-actions (s ∷ steps) = omega (arith, length-map-actions steps)

is_empty_of_length {ℓ κ} :
    {A : Type ℓ} {B : Type κ} (xs : List A) (ys : List B)
    → length xs ≡ length ys
    → is_empty ys ≡ false
    → is_empty xs ≡ false
is_empty_of_length [] [] h e = e
is_empty_of_length [] (y ∷ ys) h e = absurd (omega arith)
is_empty_of_length (x ∷ xs) ys h e = refl

owner_asked :
    (asked : List String) (asks : Dict AskState)
    → AsksOk asked asks
    → some_for_owner asks ≡ true
    → is_empty asked ≡ false
unfolding some_for_owner Dict.get
owner_asked asked [] h s = cc
owner_asked [] ((a, st) ∷ asks) h s = ground (arith, h.no_others a refl, eq_refl a)
owner_asked (b ∷ asked) ((a, st) ∷ asks) h s = refl

module _ (l : TaskLedger) (h : IsWellFormed l) (t : String) (task : Task)
    (found : Dict.get t l.tasks ≡ some task) where
  plan_checked :
      (steps : List PlanStep)
      → length steps ≡ length task.notice.asks
      → is_empty steps ≡ false
      → check_envelope (plan_envelope t task.notice steps) ≡ passed tt
  unfolding check_envelope plan_envelope check_shape check_each check_handle is_version_1
  plan_checked steps size some_steps =
      let k = h.at_task t task found in
      let v = check_envelope-IsValid task.notice k.checked in
      let named = k.named in
      ground (arith, v.task_slug, v.task_short, v.origin_slug, v.summary_line, v.few_asks)

  -- For a task of a well-formed ledger with something for the owner (an ask that is accepted or
  -- the owner's) `compose_plan` raises nothing and gives a plan: its envelope passes its own checks, its actions are the asks of the notice in order, and a
  -- step says "done" exactly if its ask is done.
  pub compose_plan-plan :
      some_for_owner task.asks ≡ true
      → (steps : List PlanStep) × (compose_plan l t ≡ plan (plan_envelope t task.notice steps))
        × (check_envelope (plan_envelope t task.notice steps) ≡ passed tt)
        × (map (λ (s : PlanStep). s.action) steps ≡ task.notice.asks)
        × All (IsTruthful task.asks) steps
  unfolding compose_plan finish_plan
  compose_plan-plan worthy =
      let k = h.at_task t task found in
      let v = check_envelope-IsValid task.notice k.checked in
      let there = asks_there task.asks task.notice.asks k.asks.all_there in
      let (steps, s) =
        plan_steps-StepsFor task.asks k.asks.deciders task.notice.asks there v.ask_lines in
      let size : length steps ≡ length task.notice.asks =
        omega (arith, length-map-actions steps, ap length s.actions) in
      let some_steps =
        is_empty_of_length steps task.notice.asks size
          (owner_asked task.notice.asks task.asks k.asks worthy) in
      let good = plan_checked steps size some_steps in
      (
        steps,
        rw (found, compose_plan) (rw s.made (rw some_steps (rw (s.checked, good)))),
        good,
        s.actions,
        s.truthful,
      )
