-- ===== src/Sweep/Posted.antt =====
-- negotiation.py
-- What a sweep posts, and what it tells the callback of failed handoffs.
use clonway_cockpit.Prelude.{
  String, ◌≡◌, refl, sym, ap, ◌∙◌, inl, inr, Bool, true, false, not, List, [], ◌∷◌, ◌++◌, map,
  arith, ◌==◌, eq_iff, if◌then◌else◌, Bool-cases, keep, All, elem, Distinct, elem-append,
}
use mathlib.Core.Path.{subst}
use clonway_cockpit.Prelude.Dict.{Dict, keys}
use clonway_cockpit.Handoff.{HandoffEnvelope, is_empty}
use clonway_cockpit.Ledger.{
  FailureRecord, Task, TaskLedger, OpenTask, add, open_asks, unresolved_tasks, plan_worthy,
  unresolved, mark_planned, mark_stalled, is_stalled, consume_failures,
}
use clonway_cockpit.Ledger.Plan.{plan, compose_plan}
use clonway_cockpit.Sweep.{
  NegotiatedSpace, Post, plan_post, stall_post, HandoffFailure, stall_failure, ledger_failure,
  stall_one, stall_each, drain, stall_and_drain,
}

-- each task with the plan that is composed of it
abbrev pub Composes : TaskLedger → List String → List HandoffEnvelope → Type 0
Composes l [] [] = Unit
Composes l [] (e ∷ es) = ⊥
Composes l (t ∷ ts) [] = ⊥
Composes l (t ∷ ts) (e ∷ es) = (compose_plan l t ≡ plan e) × Composes l ts es

-- the open tasks that no earlier sweep escalated
abbrev pub fresh : TaskLedger → List OpenTask → List OpenTask
fresh l = keep (λ (t : OpenTask). not (is_stalled t.task_id l))

abbrev pub escalations : String → List OpenTask → List Post
escalations line = map (λ t. stall_post t line)

-- What a sweep from `s` to `s'` sent: the plan of each task that is worth one, in order, and then an
-- escalation of each open task that was not escalated before; and to the callback, if there is one,
-- these tasks as stalled and then the failures of the ledger's buffer.
pub record Posted (s s' : NegotiatedSpace) : Type 0 where
  pub plans : List HandoffEnvelope
  pub composed : Composes s.ledger (plan_worthy s.ledger) plans
  pub posts :
      s'.posts
      ≡ s.posts
        ++ map plan_post plans
        ++ escalations s.owner_line (fresh s.ledger (unresolved s.ledger))
  pub told : s'.failed ≡ (
      if s.has_callback
      then s.failed
        ++ map stall_failure (fresh s.ledger (unresolved s.ledger))
        ++ map ledger_failure s.ledger.pending_failures
      else s.failed)

snoc-append : {A : Type 0} (xs : List A) (x : A) (ys : List A) → (xs ++ x ∷ []) ++ ys ≡ xs ++ x ∷ ys
snoc-append [] x ys = refl
snoc-append (y ∷ xs) x ys = ap (λ l. y ∷ l) (snoc-append xs x ys)

nil-append : {A : Type 0} (xs : List A) → xs ++ [] ≡ xs
nil-append [] = refl
nil-append (x ∷ xs) = ap (λ l. x ∷ l) (nil-append xs)

-- what the plan loop leaves alone, and what it posts
pub record Plans (ts : List String) (s s' : NegotiatedSpace) : Type 0 where
  pub plans : List HandoffEnvelope
  pub composed : Composes s.ledger ts plans
  pub posts : s'.posts ≡ s.posts ++ map plan_post plans
  pub same_tasks : s'.ledger.tasks ≡ s.ledger.tasks
  pub same_stalled : s'.ledger.stalled ≡ s.ledger.stalled
  pub same_pending : s'.ledger.pending_failures ≡ s.ledger.pending_failures
  pub same_line : s'.owner_line ≡ s.owner_line
  pub same_callback : s'.has_callback ≡ s.has_callback
  pub same_failed : s'.failed ≡ s.failed

Composes-marked :
    (x : String) (l : TaskLedger) (ts : List String) (es : List HandoffEnvelope)
    → Composes (mark_planned x l) ts es
    → Composes l ts es
unfolding compose_plan mark_planned
Composes-marked x l [] [] h = tt
Composes-marked x l [] (e ∷ es) h = h
Composes-marked x l (t ∷ ts) [] h = h
Composes-marked x l (t ∷ ts) (e ∷ es) h = (h.0, Composes-marked x l ts es h.1)

pub Plans-none : (s : NegotiatedSpace) → Plans [] s s
Plans-none s = record {
  plans = [];
  composed = tt;
  posts = sym (nil-append s.posts);
  same_tasks = refl;
  same_stalled = refl;
  same_pending = refl;
  same_line = refl;
  same_callback = refl;
  same_failed = refl;
}

pub Plans-next :
    (t : String) (ts : List String) (e : HandoffEnvelope) (s s' : NegotiatedSpace)
    → compose_plan s.ledger t ≡ plan e
    → Plans ts
        (record s { posts = s.posts ++ plan_post e ∷ []; ledger = mark_planned t s.ledger })
        s'
    → Plans (t ∷ ts) s s'
unfolding mark_planned
Plans-next t ts e s s' made p = record {
  plans = e ∷ p.plans;
  composed = (made, Composes-marked t s.ledger ts p.plans p.composed);
  posts = p.posts ∙ snoc-append s.posts (plan_post e) (map plan_post p.plans);
  same_tasks = p.same_tasks;
  same_stalled = p.same_stalled;
  same_pending = p.same_pending;
  same_line = p.same_line;
  same_callback = p.same_callback;
  same_failed = p.same_failed;
}

-- no id is that of a later task
abbrev DistinctIds : List OpenTask → Type 0
DistinctIds [] = Unit
DistinctIds (t ∷ ts) = All (λ (u : OpenTask). (t.task_id == u.task_id) ≡ false) ts × DistinctIds ts

apart_sym : (a b : String) → (a == b) ≡ false → (b == a) ≡ false
apart_sym a b h = elim (Bool-cases (b == a)) [
  | inl e ↦ absurd (cc (h, (eq_iff a b).1 (sym ((eq_iff b a).0 e))))
  | inr e ↦ e
]

-- an open task is one of the ledger's
unresolved-apart :
    (k : String) (tasks : Dict Task)
    → elem k (keys tasks) ≡ false
    → All (λ (u : OpenTask). (k == u.task_id) ≡ false) (unresolved_tasks tasks)
unfolding unresolved_tasks keys
unresolved-apart k [] h = tt
unresolved-apart k ((t, task) ∷ tasks) h =
    let here : (t == k) ≡ false = ground (arith, h) in
    let there : elem k (keys tasks) ≡ false = ground (arith, h) in
    elim (Bool-cases (is_empty (open_asks task.asks))) [
      | inl e ↦ rw e (unresolved-apart k tasks there)
      | inr e ↦ rw e (apart_sym t k here, unresolved-apart k tasks there)
    ]

unresolved-DistinctIds :
    (tasks : Dict Task) → Distinct (keys tasks) → DistinctIds (unresolved_tasks tasks)
unfolding unresolved_tasks keys
unresolved-DistinctIds [] h = tt
unresolved-DistinctIds ((t, task) ∷ tasks) h = elim (Bool-cases (is_empty (open_asks task.asks))) [
  | inl e ↦ rw e (unresolved-DistinctIds tasks h.1)
  | inr e ↦ rw e (unresolved-apart t tasks h.0, unresolved-DistinctIds tasks h.1)
]

-- a mark of another task does not make a task escalated
is_stalled-other :
    (t x : String) (l : TaskLedger)
    → (x == t) ≡ false
    → is_stalled t (mark_stalled x l) ≡ is_stalled t l
unfolding is_stalled mark_stalled add
is_stalled-other t x l h = ground (arith, elem-append t l.stalled (x ∷ []), h)

fresh-other :
    (x : String) (l : TaskLedger) (ts : List OpenTask)
    → All (λ (u : OpenTask). (x == u.task_id) ≡ false) ts
    → fresh (mark_stalled x l) ts ≡ fresh l ts
fresh-other x l [] h = refl
fresh-other x l (t ∷ ts) h =
    let same = is_stalled-other t.task_id x l h.0 in
    elim (Bool-cases (is_stalled t.task_id l)) [
      | inl old ↦ rw (same, old) (fresh-other x l ts h.1)
      | inr new ↦ rw (same, new) (ap (λ us. t ∷ us) (fresh-other x l ts h.1))
    ]

fresh_same :
    (l m : TaskLedger) (ts : List OpenTask) → m.stalled ≡ l.stalled → fresh m ts ≡ fresh l ts
unfolding is_stalled
fresh_same l m ts h = ap (λ ids. keep (λ (t : OpenTask). not (elem t.task_id ids)) ts) h

-- what the escalation loop does
record Escalates (ts : List OpenTask) (s s' : NegotiatedSpace) : Type 0 where
  pub posts : s'.posts ≡ s.posts ++ escalations s.owner_line (fresh s.ledger ts)
  pub told :
      s'.failed
      ≡ (if s.has_callback then s.failed ++ map stall_failure (fresh s.ledger ts) else s.failed)
  pub same_pending : s'.ledger.pending_failures ≡ s.ledger.pending_failures
  pub same_callback : s'.has_callback ≡ s.has_callback

abbrev escalated : OpenTask → NegotiatedSpace → NegotiatedSpace
escalated t s = record s {
  posts = s.posts ++ stall_post t s.owner_line ∷ [];
  ledger = mark_stalled t.task_id s.ledger;
  failed = if s.has_callback then s.failed ++ stall_failure t ∷ [] else s.failed;
}

Escalates-old :
    (t : OpenTask) (ts : List OpenTask) (s s' : NegotiatedSpace)
    → is_stalled t.task_id s.ledger ≡ true
    → Escalates ts s s'
    → Escalates (t ∷ ts) s s'
Escalates-old t ts s s' old r = record {
  posts = rw old r.posts;
  told = rw old r.told;
  same_pending = r.same_pending;
  same_callback = r.same_callback;
}

Escalates-new :
    (t : OpenTask) (ts : List OpenTask) (s s' : NegotiatedSpace)
    → is_stalled t.task_id s.ledger ≡ false
    → fresh (mark_stalled t.task_id s.ledger) ts ≡ fresh s.ledger ts
    → Escalates ts (escalated t s) s'
    → Escalates (t ∷ ts) s s'
unfolding mark_stalled
Escalates-new t ts s s' new same r =
    let us = fresh s.ledger ts in
    let first : fresh s.ledger (t ∷ ts) ≡ t ∷ us = rw new refl in
    let line = s.owner_line in
    record {
      posts =
          r.posts
          ∙ snoc-append s.posts (stall_post t line)
              (escalations line (fresh (mark_stalled t.task_id s.ledger) ts))
          ∙ ap (λ vs. s.posts ++ stall_post t line ∷ escalations line vs) same
          ∙ ap (λ vs. s.posts ++ escalations line vs) (sym first);
      told = elim (Bool-cases s.has_callback) [
        | inl on ↦
            let after : s'.failed
                ≡ (s.failed ++ stall_failure t ∷ [])
                  ++ map stall_failure (fresh (mark_stalled t.task_id s.ledger) ts) =
              rw on at r.told in
            rw on (
              after
              ∙ snoc-append s.failed (stall_failure t) _
              ∙ ap (λ vs. s.failed ++ stall_failure t ∷ map stall_failure vs) same
              ∙ ap (λ vs. s.failed ++ map stall_failure vs) (sym first))
        | inr off ↦ let after : s'.failed ≡ s.failed = rw off at r.told in rw off after
      ];
      same_pending = r.same_pending;
      same_callback = r.same_callback;
    }

stall_each-Escalates :
    (ts : List OpenTask) (s : NegotiatedSpace) → DistinctIds ts → Escalates ts s (stall_each ts s)
unfolding stall_each stall_one
stall_each-Escalates [] s d = record {
  posts = sym (nil-append s.posts);
  told = elim (Bool-cases s.has_callback) [
    | inl on ↦ rw on (sym (nil-append s.failed))
    | inr off ↦ rw off refl
  ];
  same_pending = refl;
  same_callback = refl;
}
stall_each-Escalates (t ∷ ts) s d = elim (Bool-cases (is_stalled t.task_id s.ledger)) [
  | inl old ↦
      let e : stall_one t s ≡ s = rw old refl in
      Escalates-old t ts s (stall_each ts (stall_one t s)) old
        (subst (λ r. Escalates ts s (stall_each ts r)) (sym e) (stall_each-Escalates ts s d.1))
  | inr new ↦
      let e : stall_one t s ≡ escalated t s = rw new refl in
      Escalates-new t ts s (stall_each ts (stall_one t s)) new
        (fresh-other t.task_id s.ledger ts d.0)
        (subst (λ r. Escalates ts (escalated t s) (stall_each ts r)) (sym e)
          (stall_each-Escalates ts (escalated t s) d.1))
]

-- what the callback was told, through the two loops
told_both :
    (cb cb1 cb2 : Bool) (f f1 f2 : List HandoffFailure) (ts us : List OpenTask)
    (rs qs : List FailureRecord)
    → cb1 ≡ cb
    → cb2 ≡ cb1
    → f1 ≡ f
    → us ≡ ts
    → qs ≡ rs
    → f2 ≡ (if cb1 then f1 ++ map stall_failure us else f1)
    → (if cb2 then f2 ++ map ledger_failure qs else f2)
      ≡ (if cb then f ++ map stall_failure ts ++ map ledger_failure rs else f)
told_both cb cb1 cb2 f f1 f2 ts us rs qs c1 c2 e1 eu eq h = elim (Bool-cases cb) [
  | inl on ↦
      let on1 : cb1 ≡ true = c1 ∙ on in
      let on2 : cb2 ≡ true = c2 ∙ on1 in
      let h' : f2 ≡ f1 ++ map stall_failure us = rw on1 at h in
      rw (on, on2)
        (ap (λ l. l ++ map ledger_failure qs) h'
          ∙ ap (λ l. l ++ map stall_failure us ++ map ledger_failure qs) e1
          ∙ ap (λ l. f ++ map stall_failure l ++ map ledger_failure qs) eu
          ∙ ap (λ l. f ++ map stall_failure ts ++ map ledger_failure l) eq)
  | inr off ↦
      let off1 : cb1 ≡ false = c1 ∙ off in
      let off2 : cb2 ≡ false = c2 ∙ off1 in
      let h' : f2 ≡ f1 = rw off1 at h in rw (off, off2) (h' ∙ e1)
]

-- the plan loop, then the escalations and the buffer
pub stall_and_drain-Posted :
    (s s1 : NegotiatedSpace)
    → Distinct (keys s.ledger.tasks)
    → Plans (plan_worthy s.ledger) s s1
    → Posted s (stall_and_drain s1)
unfolding stall_and_drain drain consume_failures unresolved
stall_and_drain-Posted s s1 d p =
    let open_tasks = unresolved_tasks s.ledger.tasks in
    let e : Escalates (unresolved_tasks s1.ledger.tasks) s1
        (stall_each (unresolved_tasks s1.ledger.tasks) s1) =
      stall_each-Escalates (unresolved_tasks s1.ledger.tasks) s1 (
        unresolved-DistinctIds s1.ledger.tasks
          (subst (λ ts. Distinct (keys ts)) (sym p.same_tasks) d)) in
    let open_same : fresh s1.ledger (unresolved_tasks s1.ledger.tasks) ≡ fresh s.ledger open_tasks =
      ap (λ ts. fresh s1.ledger (unresolved_tasks ts)) p.same_tasks
      ∙ fresh_same s.ledger s1.ledger open_tasks p.same_stalled in
    record {
      plans = p.plans;
      composed = p.composed;
      posts =
          e.posts
          ∙ ap
              (λ ps.
                ps
                ++ escalations s1.owner_line (fresh s1.ledger (unresolved_tasks s1.ledger.tasks)))
              p.posts
          ∙ ap
              (λ line.
                s.posts
                ++ map plan_post p.plans
                ++ escalations line (fresh s1.ledger (unresolved_tasks s1.ledger.tasks)))
              p.same_line
          ∙ ap (λ ts. s.posts ++ map plan_post p.plans ++ escalations s.owner_line ts) open_same;
      told =
          told_both s.has_callback s1.has_callback _ s.failed s1.failed _
            (fresh s.ledger open_tasks) _ s.ledger.pending_failures _ p.same_callback
            e.same_callback p.same_failed open_same (e.same_pending ∙ p.same_pending) e.told;
    }
