-- ===== src/Sweep/Quiet.antt =====
-- A sweep raises nothing, plans and escalates each task once, and leaves nothing to do.
use clonway_cockpit.Prelude.{
  String, ◌≡◌, refl, ◌∙◌, inl, inr, true, false, Option, some, List, [], ◌∷◌, ◌++◌, arith, ◌==◌,
  eq_iff, eq_refl, Bool-cases, All, elem, Distinct, elem-append,
}
use clonway_cockpit.Prelude.Dict
use mathlib.Core.List.{append-nil}
use clonway_cockpit.Prelude.Dict.{Dict, keys}
use clonway_cockpit.GroupChat.{ChatMessage}
use clonway_cockpit.Handoff.{HandoffEnvelope}
use clonway_cockpit.Ledger.{
  Task, OpenTask, add, some_for_owner, is_plan_worthy, worthy_tasks, feed_each, plan_worthy,
  unresolved, mark_planned, mark_stalled, is_stalled, consume_failures,
}
use clonway_cockpit.Ledger.Plan.{plan_envelope}
use clonway_cockpit.Ledger.WellFormed.{IsWellFormed, ParsesComposed, feed_each-IsWellFormed}
use clonway_cockpit.Ledger.PlanTotal.{compose_plan-plan}
use clonway_cockpit.Sweep.Posted.{Posted, Plans, Plans-none, Plans-next, stall_and_drain-Posted}
use clonway_cockpit.Sweep.{
  NegotiatedSpace, plan_post, plan_each, stall_one, stall_each, drain, stall_and_drain,
  sweep_ledger, sweep,
}

-- A task id of the ledger with something for the owner.
record ForOwner (tasks : Dict Task) (t : String) : Type 0 where
  pub task : Task
  pub found : Dict.get t tasks ≡ some task
  pub owners : some_for_owner task.asks ≡ true

ForOwner-cons :
    (s : String) (x : Task) (tasks : Dict Task) (ts : List String)
    → All (λ t. elem t (keys tasks) ≡ true) ts
    → elem s (keys tasks) ≡ false
    → All (ForOwner tasks) ts
    → All (ForOwner ((s, x) ∷ tasks)) ts
unfolding Dict.get
ForOwner-cons s x tasks [] k new h = tt
ForOwner-cons s x tasks (t ∷ ts) k new h =
    let k0 = k.0 in
    let other : (s == t) ≡ false = ground (arith, eq_iff s t) in
    (
      record { task = h.0.task; found = rw other h.0.found; owners = h.0.owners },
      ForOwner-cons s x tasks ts k.1 new h.1,
    )

elem-cons-All :
    (s : String) (ks ts : List String)
    → All (λ t. elem t ks ≡ true) ts
    → All (λ t. elem t (s ∷ ks) ≡ true) ts
elem-cons-All s ks [] h = tt
elem-cons-All s ks (t ∷ ts) h = let h0 = h.0 in (ground (arith, h0), elem-cons-All s ks ts h.1)

worthy-keys :
    (planned : List String) (tasks : Dict Task)
    → All (λ t. elem t (keys tasks) ≡ true) (worthy_tasks planned tasks)
unfolding worthy_tasks keys
worthy-keys planned [] = tt
worthy-keys planned ((t, task) ∷ tasks) = elim (Bool-cases (is_plan_worthy planned t task)) [
  | inl w ↦ rw w (rw eq_refl refl, elem-cons-All t (keys tasks) _ (worthy-keys planned tasks))
  | inr w ↦ rw w (elem-cons-All t (keys tasks) _ (worthy-keys planned tasks))
]

worthy-ForOwner :
    (planned : List String) (tasks : Dict Task)
    → Distinct (keys tasks)
    → All (ForOwner tasks) (worthy_tasks planned tasks)
unfolding worthy_tasks keys Dict.get is_plan_worthy
worthy-ForOwner planned [] h = tt
worthy-ForOwner planned ((t, task) ∷ tasks) h =
    let rest =
      ForOwner-cons t task tasks (worthy_tasks planned tasks) (worthy-keys planned tasks) h.0
        (worthy-ForOwner planned tasks h.1) in
    elim (Bool-cases (is_plan_worthy planned t task)) [
      | inl w ↦ rw w (record { task = task; found = rw eq_refl; owners = ground arith }, rest)
      | inr w ↦ rw w rest
    ]

elem-add_self : (t : String) (s : List String) → elem t (add t s) ≡ true
unfolding add
elem-add_self t s = ground (arith, elem-append t s (t ∷ []), eq_refl t)

elem-add : (t x : String) (s : List String) → elem t s ≡ true → elem t (add x s) ≡ true
unfolding add
elem-add t x s h = ground (arith, elem-append t s (x ∷ []))

-- What the plan loop does over `ts`.
record Planned (ts : List String) (s s' : NegotiatedSpace) : Type 0 where
  pub well_formed : IsWellFormed s'.ledger
  pub same_tasks : s'.ledger.tasks ≡ s.ledger.tasks
  pub marked : All (λ t. elem t s'.ledger.planned ≡ true) ts
  pub grows : (t : String) → elem t s.ledger.planned ≡ true → elem t s'.ledger.planned ≡ true

plan_each-Planned :
    (ts : List String) (s : NegotiatedSpace)
    → IsWellFormed s.ledger
    → All (ForOwner s.ledger.tasks) ts
    → (s' : NegotiatedSpace) × (plan_each ts s ≡ some s') × Planned ts s s' × Plans ts s s'
unfolding plan_each mark_planned
plan_each-Planned [] s h o = (
  s,
  refl,
  record { well_formed = h; same_tasks = refl; marked = tt; grows = λ t e. e },
  Plans-none s,
)
plan_each-Planned (t ∷ ts) s h o =
    let (steps, made, _, _, _) = compose_plan-plan s.ledger h t o.0.task o.0.found o.0.owners in
    let env = plan_envelope t o.0.task.notice steps in
    let s1 = record s { posts = s.posts ++ plan_post env ∷ []; ledger = mark_planned t s.ledger } in
    let (s', done, p, q) =
      plan_each-Planned ts s1 (record { at_task = h.at_task; distinct = h.distinct }) o.1 in
    (
      s',
      rw (made, plan_each) done,
      record {
        well_formed = p.well_formed;
        same_tasks = p.same_tasks;
        marked = (p.grows t (elem-add_self t s.ledger.planned), p.marked);
        grows = λ x e. p.grows x (elem-add x t s.ledger.planned e);
      },
      Plans-next t ts env s s' made q,
    )

-- once the worthy tasks are marked, none is left
worthy_tasks-nil :
    (planned planned' : List String) (tasks : Dict Task)
    → ((t : String) → elem t planned ≡ true → elem t planned' ≡ true)
    → All (λ t. elem t planned' ≡ true) (worthy_tasks planned tasks)
    → worthy_tasks planned' tasks ≡ []
unfolding worthy_tasks is_plan_worthy
worthy_tasks-nil planned planned' [] grows h = refl
worthy_tasks-nil planned planned' ((t, task) ∷ tasks) grows h =
    elim (Bool-cases (is_plan_worthy planned t task)) [
      | inl w ↦
          let h' = rw w at h in
          let h0 = h'.0 in rw h0 (worthy_tasks-nil planned planned' tasks grows h'.1)
      | inr w ↦
          let h' = rw w at h in
          let g = grows t in
          let w' : is_plan_worthy planned' t task ≡ false = ground arith in
          rw w' (worthy_tasks-nil planned planned' tasks grows h')
    ]

-- What the stall loop leaves alone, and what it marks.
record Stalled (tasks : List OpenTask) (s s' : NegotiatedSpace) : Type 0 where
  pub same_tasks : s'.ledger.tasks ≡ s.ledger.tasks
  pub same_planned : s'.ledger.planned ≡ s.ledger.planned
  pub marked : All (λ (t : OpenTask). is_stalled t.task_id s'.ledger ≡ true) tasks
  pub grows : (t : String) → is_stalled t s.ledger ≡ true → is_stalled t s'.ledger ≡ true

stall_one-Stalled :
    (task : OpenTask) (s : NegotiatedSpace) → Stalled (task ∷ []) s (stall_one task s)
unfolding stall_one is_stalled mark_stalled
stall_one-Stalled task s = elim (Bool-cases (elem task.task_id s.ledger.stalled)) [
  | inl old ↦
      rw old
        (record { same_tasks = refl; same_planned = refl; marked = (old, tt); grows = λ t e. e })
  | inr new ↦ rw new (record {
    same_tasks = refl;
    same_planned = refl;
    marked = (elem-add_self task.task_id s.ledger.stalled, tt);
    grows = λ t e. elem-add t task.task_id s.ledger.stalled e;
  })
]

stall_each-Stalled :
    (tasks : List OpenTask) (s : NegotiatedSpace) → Stalled tasks s (stall_each tasks s)
unfolding stall_each
stall_each-Stalled [] s = record {
  same_tasks = refl;
  same_planned = refl;
  marked = tt;
  grows = λ t e. e;
}
stall_each-Stalled (task ∷ tasks) s =
    let one = stall_one-Stalled task s in
    let rest = stall_each-Stalled tasks (stall_one task s) in
    record {
      same_tasks = rest.same_tasks ∙ one.same_tasks;
      same_planned = rest.same_planned ∙ one.same_planned;
      marked = (rest.grows task.task_id one.marked.0, rest.marked);
      grows = λ t e. rest.grows t (one.grows t e);
    }

-- Nothing is left to do: no task to plan, every open task marked as stalled, the failure buffer empty.
pub record IsQuiet (s : NegotiatedSpace) : Type 0 where
  pub planned : plan_worthy s.ledger ≡ []
  pub all_marked :
      All (λ (t : OpenTask). is_stalled t.task_id s.ledger ≡ true) (unresolved s.ledger)
  pub drained : s.ledger.pending_failures ≡ []

drained-IsQuiet :
    (ts : List String) (s s1 : NegotiatedSpace)
    → ts ≡ plan_worthy s.ledger
    → Planned ts s s1
    → IsQuiet (stall_and_drain s1) × IsWellFormed (stall_and_drain s1).ledger
unfolding stall_and_drain drain consume_failures plan_worthy unresolved is_stalled
drained-IsQuiet ts s s1 e p =
    let st = stall_each-Stalled (unresolved s1.ledger) s1 in
    let marked = rw e at p.marked in
    let worthy =
      worthy_tasks-nil s.ledger.planned s1.ledger.planned s.ledger.tasks p.grows marked in
    (
      record {
        planned = rw (st.same_tasks, st.same_planned, p.same_tasks) worthy;
        all_marked = rw (st.same_tasks) (st.marked);
        drained = refl;
      },
      record {
        at_task = rw st.same_tasks p.well_formed.at_task;
        distinct = rw st.same_tasks p.well_formed.distinct;
      },
    )

sweep_ledger-IsQuiet :
    (s : NegotiatedSpace)
    → IsWellFormed s.ledger
    → (s' : NegotiatedSpace) × (sweep_ledger s ≡ some s')
      × Posted s s'
      × IsQuiet s'
      × IsWellFormed s'.ledger
unfolding sweep_ledger plan_worthy
sweep_ledger-IsQuiet s h =
    let owners = worthy-ForOwner s.ledger.planned s.ledger.tasks h.distinct in
    let (s1, ran, p, q) =
      plan_each-Planned (worthy_tasks s.ledger.planned s.ledger.tasks) s h owners in
    let (quiet, well) =
      drained-IsQuiet (worthy_tasks s.ledger.planned s.ledger.tasks) s s1 refl p in
    (
      stall_and_drain s1,
      rw (ran, sweep_ledger),
      stall_and_drain-Posted s s1 h.distinct q,
      quiet,
      well,
    )

-- the space once the messages are fed to its ledger
abbrev pub fed :
    (String → Option HandoffEnvelope) → List ChatMessage → NegotiatedSpace → NegotiatedSpace
fed parse messages s = record s { ledger = feed_each parse messages s.ledger }

-- A sweep over any messages, from a well-formed ledger and where parsing gives constructed envelopes,
-- raises nothing. Once the messages are fed, it posts the plan composed of each task that is worth
-- one, then an escalation of each open task that no sweep escalated before, each once and in order,
-- and tells the callback, if there is one, of the escalated tasks and then of the failures in the
-- buffer. It ends with no task left to plan, every open task marked as stalled, an empty failure
-- buffer and a well-formed ledger.
pub sweep-IsQuiet :
    (parse : String → Option HandoffEnvelope)
    → ParsesComposed parse
    → (messages : List ChatMessage) (s : NegotiatedSpace) → IsWellFormed s.ledger
    → (s' : NegotiatedSpace) × (sweep parse messages s ≡ some s')
      × Posted (fed parse messages s) s'
      × IsQuiet s'
      × IsWellFormed s'.ledger
unfolding sweep
sweep-IsQuiet parse p messages s h =
    sweep_ledger-IsQuiet (record s { ledger = feed_each parse messages s.ledger })
      (feed_each-IsWellFormed parse p messages s.ledger h)

stall_each_quiet :
    (tasks : List OpenTask) (s : NegotiatedSpace)
    → All (λ (t : OpenTask). is_stalled t.task_id s.ledger ≡ true) tasks
    → stall_each tasks s ≡ s
unfolding stall_each
stall_each_quiet [] s h = refl
stall_each_quiet (task ∷ tasks) s h = rw (h.0) (stall_each_quiet tasks s h.1)

drain_quiet : (s : NegotiatedSpace) → s.ledger.pending_failures ≡ [] → drain s ≡ s
unfolding drain consume_failures
drain_quiet s h = elim (Bool-cases s.has_callback) [
  | inl on ↦ ground (arith, h, on, append-nil s.failed)
  | inr off ↦ ground (arith, h, off)
]

-- From a quiet space a sweep without messages changes nothing: nothing is posted a second time.
pub sweep-again :
    (parse : String → Option HandoffEnvelope) (s : NegotiatedSpace)
    → IsQuiet s
    → sweep parse [] s ≡ some s
unfolding sweep sweep_ledger feed_each plan_each stall_and_drain
sweep-again parse s q =
    let e : plan_each (plan_worthy s.ledger) s ≡ some s = rw q.planned in
    rw (e, sweep_ledger)
      (rw (stall_each_quiet (unresolved s.ledger) s q.all_marked) (rw (drain_quiet s q.drained)))
