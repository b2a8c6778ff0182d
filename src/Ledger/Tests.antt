-- ===== src/Ledger/Tests.antt =====
-- A conversation of two messages through the ledger of negotiation.py, and the theorems on it.
use clonway_cockpit.Prelude.{◌≡◌, refl, true, some, List, [], ◌∷◌, map, All}
use clonway_cockpit.Prelude.Dict
use clonway_cockpit.Prelude.Dict.{Dict}
use clonway_cockpit.Handoff.{passed, PlanStep, check_envelope}
use clonway_cockpit.Ledger.{
  redirected, accepted, TaskLedger, Task, empty, is_open, is_redirected, add, next_state,
  failures_of, decide_found, decide_all, pending_asks, feed_envelope, feed, feed_each, open_asks,
  some_for_owner,
}
use clonway_cockpit.Ledger.Plan.{plan, plan_envelope, compose_plan}
use clonway_cockpit.Ledger.Settled
use clonway_cockpit.Ledger.Settled.{ask_state}
use clonway_cockpit.Ledger.WellFormed
use clonway_cockpit.Ledger.WellFormed.{ParsesComposed, IsWellFormed}
use clonway_cockpit.Ledger.Example.{leaver, parse, parse-ParsesComposed, talk}
use clonway_cockpit.Ledger.PlanTotal
use clonway_cockpit.Ledger.PlanTotal.{IsTruthful}

runs : Unit {0}
unfolding feed_each feed feed_envelope decide_all decide_found failures_of next_state pending_asks
    add Dict.get Dict.put ask_state open_asks some_for_owner
runs = tt

abbrev after : TaskLedger
after = feed_each parse talk empty

held :
    ask_state after "leaver-7" "hold payroll" ≡ some (record { state = accepted; decider = "milo" })
unfolding runs
held = refl

passed_on :
    ask_state after "leaver-7" "close the ledger"
    ≡ some (record { state = redirected; decider = "cleo" })
unfolding runs
passed_on = refl

settled_stays_example :
    ask_state (feed_each parse talk after) "leaver-7" "hold payroll"
    ≡ some (record { state = accepted; decider = "milo" })
unfolding is_open
settled_stays_example =
    Settled.settled_stays parse after "leaver-7" "hold payroll"
      (record { state = accepted; decider = "milo" }) held talk refl

redirected_stays_example :
    ask_state (feed_each parse talk after) "leaver-7" "close the ledger"
    ≡ some (record { state = redirected; decider = "cleo" })
unfolding is_redirected
redirected_stays_example =
    Settled.redirected_stays parse after "leaver-7" "close the ledger"
      (record { state = redirected; decider = "cleo" }) passed_on talk refl
      (refl, (refl, (refl, tt)))

feed_each-IsWellFormed_example : IsWellFormed (feed_each parse talk empty)
feed_each-IsWellFormed_example =
    WellFormed.feed_each-IsWellFormed parse parse-ParsesComposed talk empty
      WellFormed.empty-IsWellFormed

abbrev task_after : Task
task_after = record {
  notice = leaver;
  asks =
      ("hold payroll", record { state = accepted; decider = "milo" })
      ∷ ("close the ledger", record { state = redirected; decider = "cleo" })
      ∷ [];
}

found_after : Dict.get "leaver-7" after.tasks ≡ some task_after
unfolding runs
found_after = refl

owners_after : some_for_owner task_after.asks ≡ true
unfolding runs
owners_after = refl

compose_plan-plan_example :
    (steps : List PlanStep) × (compose_plan after "leaver-7"
      ≡ plan (plan_envelope "leaver-7" leaver steps))
    × (check_envelope (plan_envelope "leaver-7" leaver steps) ≡ passed tt)
    × (map (λ (s : PlanStep). s.action) steps ≡ leaver.asks)
    × All (IsTruthful task_after.asks) steps
compose_plan-plan_example =
    PlanTotal.compose_plan-plan after feed_each-IsWellFormed_example "leaver-7" task_after
      found_after owners_after
