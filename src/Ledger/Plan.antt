-- ===== src/Ledger/Plan.antt =====
-- `TaskLedger.compose_plan`: the owner-facing consolidation of one task, with the checks that the
-- constructors of its steps and of its envelope run.
use clonway_cockpit.Prelude.{String, Option, none, some, List, [], if◌then◌else◌}
use clonway_cockpit.Prelude.Dict
use clonway_cockpit.Prelude.Dict.{Dict}
use clonway_cockpit.Prelude.Int.{pos}
use clonway_cockpit.Handoff.{
  Checked, passed, raised, HandoffError, HandoffEnvelope, PlanStep, check_step, check_envelope,
  check_each, is_empty, ◌>>◌,
}
use clonway_cockpit.Ledger.{TaskLedger, plan_steps}

pub data Composed : Type 0 where
  no_plan key_error : Composed
  invalid : HandoffError → Composed
  plan : HandoffEnvelope → Composed

unfoldable pub plan_envelope : String → HandoffEnvelope → List PlanStep → HandoffEnvelope
plan_envelope t notice steps = record {
  kind = "plan";
  task_id = t;
  origin = notice.origin;
  summary = notice.summary;
  recipient = "";
  facts = [];
  asks = [];
  decisions = [];
  steps = steps;
  schema_version = pos 1;
}

unfoldable pub checked_plan : HandoffEnvelope → Checked (Unit {0}) → Composed
checked_plan env (passed x) = plan env
checked_plan env (raised e) = invalid e

-- what follows once the steps are made: `if not steps`, then the envelope
unfoldable pub finish_plan : String → HandoffEnvelope → Option (List PlanStep) → Composed
unfolding plan_envelope checked_plan
finish_plan t notice none = key_error
finish_plan t notice (some steps) =
    if is_empty steps
    then no_plan
    else let env = plan_envelope t notice steps in
      checked_plan env (check_each check_step steps >> check_envelope env)

unfoldable pub compose_plan : TaskLedger → String → Composed
unfolding finish_plan
compose_plan l t = elim (Dict.get t l.tasks) [
  | none ↦ no_plan
  | some task ↦ finish_plan t task.notice (plan_steps task.asks task.notice.asks)
]
