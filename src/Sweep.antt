-- ===== src/Sweep.antt =====
-- `NegotiatedSpace._sweep` of src/clonway_cockpit/negotiation.py: what follows each round. A post
-- is what the text is rendered from; `failed` is what `on_handoff_failed` was called with, which
-- happens only if it is set, and whose exceptions `_safe_callback` swallows.
pub mod Posted
pub mod Quiet
mod Tests
use clonway_cockpit.Prelude.{
  ℕ, zero, suc, ◌+◌, ◌-◌, ◌*◌, ◌/◌, ◌%◌, ◌≤◌, ◌<◌, min, max, String, ◌≡◌, refl, sym, ap, ◌∙◌, ◌≢◌,
  ◌↔◌, ◌⊎◌, inl, inr, Bool, true, false, not, ◌&&◌, ◌||◌, Option, none, some, List, [], ◌∷◌, ◌++◌,
  map, arith, ◌==◌, eq_iff, eq_refl, ltb, leb, nat_eq, if◌then◌else◌, ltb→lt, leb→le, Bool-cases,
  Option-cases, is_some, length, take, drop, any, all, keep, All, length-append, elem, Distinct,
  elem-append, All-append,
}
use clonway_cockpit.Prelude.Dict
use clonway_cockpit.GroupChat.{ChatMessage}
use clonway_cockpit.Handoff.{HandoffEnvelope}
use clonway_cockpit.Ledger.{
  TaskLedger, OpenTask, FailureRecord, Reason, stalled, feed_each, plan_worthy, unresolved,
  mark_planned, mark_stalled, is_stalled, consume_failures,
}
use clonway_cockpit.Ledger.Plan.{Composed, no_plan, key_error, invalid, plan, compose_plan}

pub data Post : Type 0 where
  plan_post : HandoffEnvelope → Post
  stall_post : OpenTask → String → Post

-- `HandoffFailure`, less its time: a stall, or a record of the ledger
pub data HandoffFailure : Type 0 where
  stall_failure : OpenTask → HandoffFailure
  ledger_failure : FailureRecord → HandoffFailure

pub record NegotiatedSpace : Type 0 where
  pub owner_line : String
  pub has_callback : Bool
  pub ledger : TaskLedger
  pub posts : List Post
  pub failed : List HandoffFailure

-- `none` is an exception out of `compose_plan`
unfoldable pub post_plan : String → NegotiatedSpace → Composed → Option NegotiatedSpace
post_plan t s no_plan = some s
post_plan t s key_error = none
post_plan t s (invalid e) = none
post_plan t s (plan env) =
    some (record s { posts = s.posts ++ plan_post env ∷ []; ledger = mark_planned t s.ledger })

-- for task_id in self.ledger.plan_worthy()
unfoldable pub plan_each : List String → NegotiatedSpace → Option NegotiatedSpace
unfolding post_plan
plan_each [] s = some s
plan_each (t ∷ ts) s = elim (post_plan t s (compose_plan s.ledger t)) [
  | none ↦ none
  | some s' ↦ plan_each ts s'
]

unfoldable pub stall_one : OpenTask → NegotiatedSpace → NegotiatedSpace
stall_one task s = if is_stalled task.task_id s.ledger then s else record s {
  posts = s.posts ++ stall_post task s.owner_line ∷ [];
  ledger = mark_stalled task.task_id s.ledger;
  failed = if s.has_callback then s.failed ++ stall_failure task ∷ [] else s.failed;
}

-- for task in self.ledger.unresolved()
unfoldable pub stall_each : List OpenTask → NegotiatedSpace → NegotiatedSpace
unfolding stall_one
stall_each [] s = s
stall_each (task ∷ tasks) s = stall_each tasks (stall_one task s)

-- the last part: the buffer is drained, and dispatched if there is a callback
unfoldable pub drain : NegotiatedSpace → NegotiatedSpace
drain s =
    let (pending, ledger) = consume_failures s.ledger in
    record s {
      ledger = ledger;
      failed = if s.has_callback then s.failed ++ map ledger_failure pending else s.failed;
    }

unfoldable pub stall_and_drain : NegotiatedSpace → NegotiatedSpace
unfolding stall_each drain
stall_and_drain s = drain (stall_each (unresolved s.ledger) s)

-- _sweep, once the messages are fed
unfoldable pub sweep_ledger : NegotiatedSpace → Option NegotiatedSpace
unfolding plan_each stall_and_drain
sweep_ledger s = elim (plan_each (plan_worthy s.ledger) s) [
  | none ↦ none
  | some s' ↦ some (stall_and_drain s')
]

module _ (parse : String → Option HandoffEnvelope) where
  -- the inbound message and then the replies of the round
  unfoldable pub sweep : List ChatMessage → NegotiatedSpace → Option NegotiatedSpace
  unfolding sweep_ledger
  sweep messages s = sweep_ledger (record s { ledger = feed_each parse messages s.ledger })
