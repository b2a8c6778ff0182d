-- ===== src/Ledger.antt =====
-- `TaskLedger` of src/clonway_cockpit/negotiation.py: the negotiation state of one space.
-- `parse` stands for `parse_envelope` on the text of a message. The texts of failure summaries
-- keep what they are formatted from.
pub mod Asks
pub mod Settled
pub mod Plan
pub mod WellFormed
pub mod PlanTotal
pub mod Example
mod Tests
use clonway_cockpit.Prelude.{
  ℕ, zero, suc, ◌+◌, ◌-◌, ◌*◌, ◌/◌, ◌%◌, ◌≤◌, ◌<◌, min, max, String, ◌≡◌, refl, sym, ap, ◌∙◌, ◌≢◌,
  ◌↔◌, ◌⊎◌, inl, inr, Bool, true, false, not, ◌&&◌, ◌||◌, Option, none, some, List, [], ◌∷◌, ◌++◌,
  map, arith, ◌==◌, eq_iff, eq_refl, ltb, leb, nat_eq, if◌then◌else◌, ltb→lt, leb→le, Bool-cases,
  Option-cases, is_some, length, take, drop, any, all, keep, All, length-append, elem, Distinct,
  elem-append, All-append,
}
use clonway_cockpit.Prelude.Dict
use clonway_cockpit.Prelude.Dict.{Dict, keys}
use clonway_cockpit.Prelude.Texts.{text_take}
use clonway_cockpit.Prelude.Int.{pos}
use clonway_cockpit.GroupChat.{ChatMessage}
use clonway_cockpit.Handoff.{HandoffEnvelope, AskDecision, PlanStep, is_empty}

pub data AskStatus : Type 0 where
  pending redirected done accepted owner_attention : AskStatus

pub record AskState : Type 0 where
  pub state : AskStatus
  pub decider : String

pub data Summary : Type 0 where
  origin_mismatch ask_text : String → Summary

pub data Reason : Type 0 where
  declined stalled parse_failed reflex_refused : Reason

-- _FailureRecord
pub record FailureRecord : Type 0 where
  pub task_id : String
  pub initiator : String
  pub counterparty : String
  pub reason : Reason
  pub summary : Summary

pub record Task : Type 0 where
  pub notice : HandoffEnvelope
  pub asks : Dict AskState

pub record OpenTask : Type 0 where
  pub task_id : String
  pub origin : String
  pub missing : List String

pub record TaskLedger : Type 0 where
  pub tasks : Dict Task
  pub planned : List String
  pub stalled : List String
  pub duplicates : List String
  pub pending_failures : List FailureRecord

abbrev pub empty : TaskLedger
empty = record { tasks = []; planned = []; stalled = []; duplicates = []; pending_failures = [] }

-- s.add(x) on a set
unfoldable pub add : String → List String → List String
add x s = if elem x s then s else s ++ x ∷ []

-- st.state in (_PENDING, _REDIRECTED)
unfoldable pub is_open : AskStatus → Bool
is_open pending = true
is_open redirected = true
is_open _ = false

unfoldable pub is_redirected : AskStatus → Bool
is_redirected redirected = true
is_redirected _ = false

-- {a: _AskState(_PENDING) for a in env.asks}
unfoldable pub pending_asks : List String → Dict AskState → Dict AskState
pending_asks [] d = d
pending_asks (a ∷ asks) d =
    pending_asks asks (Dict.put a (record { state = pending; decider = "" }) d)

unfoldable pub failure_of : HandoffEnvelope → HandoffEnvelope → Reason → String → FailureRecord
failure_of notice env reason ask = record {
  task_id = env.task_id;
  initiator = notice.origin;
  counterparty = env.origin;
  reason = reason;
  summary = ask_text (text_take 80 ask);
}

-- the state that a decision moves an open ask to
unfoldable pub next_state : String → AskDecision → AskState
next_state origin d =
    if d.decision == "reflexed" && d.applied
    then record { state = done; decider = origin }
    else if d.decision == "accept"
    then record { state = accepted; decider = origin }
    else if d.decision == "decline" && not (d.redirect == "")
    then record { state = redirected; decider = d.redirect }
    else record { state = owner_attention; decider = origin }

-- the failures that the last branch of the decision loop records
unfoldable pub failures_of : HandoffEnvelope → HandoffEnvelope → AskDecision → List FailureRecord
failures_of notice env d =
    if (d.decision == "reflexed" && d.applied) || d.decision == "accept"
    then []
    else if d.decision == "decline"
    then (if d.redirect == "" then failure_of notice env declined d.ask ∷ [] else [])
    else if d.decision == "reflexed"
    then failure_of notice env reflex_refused d.ask ∷ []
    else []

-- whether a decision of `origin` may move an ask in this state
unfoldable pub may_decide : String → AskState → Bool
unfolding is_redirected is_open
may_decide origin st =
    not (is_redirected st.state && not (origin == st.decider)) && is_open st.state

-- one round of `for d in env.decisions`
unfoldable pub decide_found :
    HandoffEnvelope
    → HandoffEnvelope
    → AskDecision
    → Option AskState
    → Dict AskState × List FailureRecord
    → Dict AskState × List FailureRecord
unfolding may_decide
decide_found notice env d none (asks, fs) = (asks, fs)
decide_found notice env d (some st) (asks, fs) =
    if may_decide env.origin st
    then (Dict.put d.ask (next_state env.origin d) asks, fs ++ failures_of notice env d)
    else (asks, fs)

unfoldable pub decide_all :
    HandoffEnvelope
    → HandoffEnvelope
    → List AskDecision
    → Dict AskState × List FailureRecord
    → Dict AskState × List FailureRecord
decide_all notice env [] s = s
decide_all notice env (d ∷ ds) s =
    decide_all notice env ds (decide_found notice env d (Dict.get d.ask s.0) s)

-- a frame whose origin is not its author
unfoldable pub feed_forged : HandoffEnvelope → String → Option Task → TaskLedger → TaskLedger
feed_forged env author none l = l
feed_forged env author (some task) l =
    if env.kind == "response"
    then record l {
      pending_failures =
          l.pending_failures
          ++ record {
            task_id = env.task_id;
            initiator = task.notice.origin;
            counterparty = author;
            reason = parse_failed;
            summary = origin_mismatch task.notice.summary;
          }
            ∷ [];
    }
    else l

unfoldable pub feed_notice : HandoffEnvelope → Option Task → TaskLedger → TaskLedger
feed_notice env (some task) l = record l { duplicates = l.duplicates ++ env.task_id ∷ [] }
feed_notice env none l = record l {
  tasks = Dict.put env.task_id (record { notice = env; asks = pending_asks env.asks [] }) l.tasks;
}

-- the task keeps its place in the dict, its asks are written in place
unfoldable pub feed_response : HandoffEnvelope → Option Task → TaskLedger → TaskLedger
feed_response env none l = l
feed_response env (some task) l =
    let (asks, fs) = decide_all task.notice env env.decisions (task.asks, l.pending_failures) in
    record l {
      tasks = Dict.put env.task_id (record task { asks = asks }) l.tasks;
      pending_failures = fs;
    }

unfoldable pub feed_envelope : HandoffEnvelope → String → TaskLedger → TaskLedger
unfolding feed_forged feed_notice feed_response
feed_envelope env author l =
    let found = Dict.get env.task_id l.tasks in
    if not (env.origin == author)
    then feed_forged env author found l
    else if env.kind == "notice"
    then feed_notice env found l
    else if env.kind == "plan"
    then record l { planned = add env.task_id l.planned }
    else feed_response env found l

module _ (parse : String → Option HandoffEnvelope) where
  -- TaskLedger.feed
  unfoldable pub feed : ChatMessage → TaskLedger → TaskLedger
  feed message l =
      if message.is_owner
      then l
      else elim (parse message.text) [ none ↦ l | some env ↦ feed_envelope env message.author l ]

  unfoldable pub feed_each : List ChatMessage → TaskLedger → TaskLedger
  feed_each [] l = l
  feed_each (m ∷ ms) l = feed_each ms (feed m l)

-- [a for a, st in asks.items() if st.state in (_PENDING, _REDIRECTED)]
unfoldable pub open_asks : Dict AskState → List String
unfolding is_open
open_asks [] = []
open_asks ((a, st) ∷ asks) =
    let rest = open_asks asks in if is_open st.state then a ∷ rest else rest

unfoldable pub unresolved_tasks : Dict Task → List OpenTask
unfolding open_asks
unresolved_tasks [] = []
unresolved_tasks ((t, task) ∷ tasks) =
    let rest = unresolved_tasks tasks in
    let missing = open_asks task.asks in
    if is_empty missing
    then rest
    else record { task_id = t; origin = task.notice.origin; missing = missing } ∷ rest

-- TaskLedger.unresolved
unfoldable pub unresolved : TaskLedger → List OpenTask
unfolding unresolved_tasks
unresolved l = unresolved_tasks l.tasks

unfoldable pub is_for_owner : AskStatus → Bool
is_for_owner accepted = true
is_for_owner owner_attention = true
is_for_owner _ = false

unfoldable pub some_for_owner : Dict AskState → Bool
unfolding is_for_owner
some_for_owner [] = false
some_for_owner ((a, st) ∷ asks) = is_for_owner st.state || some_for_owner asks

-- the tests of one round of `plan_worthy`
unfoldable pub is_plan_worthy : List String → String → Task → Bool
unfolding open_asks some_for_owner
is_plan_worthy planned t task =
    not (elem t planned) && is_empty (open_asks task.asks) && some_for_owner task.asks

unfoldable pub worthy_tasks : List String → Dict Task → List String
unfolding is_plan_worthy
worthy_tasks planned [] = []
worthy_tasks planned ((t, task) ∷ tasks) =
    let rest = worthy_tasks planned tasks in
    if is_plan_worthy planned t task then t ∷ rest else rest

-- TaskLedger.plan_worthy
unfoldable pub plan_worthy : TaskLedger → List String
unfolding worthy_tasks
plan_worthy l = worthy_tasks l.planned l.tasks

-- the step of one ask in `compose_plan`
unfoldable pub step_of : AskStatus → String → String → PlanStep
step_of done decider ask = record { owner = decider; action = ask; status = "done" }
step_of accepted decider ask = record { owner = decider; action = ask; status = "needs-approval" }
step_of redirected decider ask = record { owner = decider; action = ask; status = "needs-approval" }
step_of _ decider ask = record { owner = ""; action = ask; status = "unassigned" }

unfoldable pub add_step : String → Option AskState → Option (List PlanStep) → Option (List PlanStep)
unfolding step_of
add_step ask (some st) (some steps) = some (step_of st.state st.decider ask ∷ steps)
add_step ask _ _ = none

-- the loop of `compose_plan`; `none` is the KeyError of `asks[ask]`
unfoldable pub plan_steps : Dict AskState → List String → Option (List PlanStep)
unfolding add_step
plan_steps d [] = some []
plan_steps d (ask ∷ asks) = add_step ask (Dict.get ask d) (plan_steps d asks)

unfoldable pub mark_planned : String → TaskLedger → TaskLedger
mark_planned t l = record l { planned = add t l.planned }

unfoldable pub mark_stalled : String → TaskLedger → TaskLedger
mark_stalled t l = record l { stalled = add t l.stalled }

unfoldable pub is_stalled : String → TaskLedger → Bool
is_stalled t l = elem t l.stalled

-- TaskLedger.consume_failures
unfoldable pub consume_failures : TaskLedger → List FailureRecord × TaskLedger
consume_failures l = (l.pending_failures, record l { pending_failures = [] })
