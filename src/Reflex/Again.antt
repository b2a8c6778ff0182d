-- ===== src/Reflex/Again.antt =====
-- reflex.py
-- What a run of `fire_reflexes` does to the world.
use clonway_cockpit.Prelude.{
  String, ◌≡◌, refl, sym, ◌∙◌, inl, inr, true, false, not, ◌||◌, some, List, [], ◌∷◌, arith,
  Bool-cases, Option-cases, All, elem,
}
use clonway_cockpit.Prelude.{some_eq}
use mathlib.Core.Path.{subst}
use clonway_cockpit.Value.{Fields}
use clonway_cockpit.Handoff.{HandoffEnvelope}
use clonway_cockpit.Reflex.{
  RunOutcome, returned, exception, ReflexRule, ReflexKit, ReflexPolicy, ReflexLog, Round, refused,
  seen, is_safe_proposal, approves, audit_reflex, AuditOutcome, report, mark, note_applied,
  after_run, fire_matched, fire_one, fire_reflexes,
}
use clonway_cockpit.Reflex.Fire.{Fired, fire_one-Sound, fire_each-keeps, running}

audited_keys :
    {W : Type 0} (o : AuditOutcome) (task_id key : String) (kit : ReflexKit W)
    → (audit_reflex o task_id key kit).policy.keys ≡ kit.policy.keys
unfolding audit_reflex
audited_keys o task_id key kit = ground arith

approves-safe :
    (p : ReflexPolicy) (log : ReflexLog) (m : Fields)
    → approves p log m ≡ true
    → is_safe_proposal p.keys m ≡ true
unfolding approves
approves-safe p log m h = ground arith

-- the counter, the log and the reports leave the keys and the world alone
after_run_same :
    {W : Type 0} (env : HandoffEnvelope) (key ask : String) (o : RunOutcome) (r r' : Round W)
    → after_run env key ask o r ≡ some r'
    → (r'.kit.policy.keys ≡ r.kit.policy.keys) × (r'.world ≡ r.world)
unfolding after_run note_applied report
after_run_same env key ask (returned true) r r' e =
    elim (Option-cases (mark env.task_id key r.kit.log)) [
      | inl bad ↦ absurd (ground (arith, bad, e))
      | inr (log, m) ↦
          let e' = some_eq (rw (after_run, note_applied, m) at e) in rw (← e') (refl, refl)
    ]
after_run_same env key ask (returned false) r r' e = let e' = some_eq e in rw (← e') (refl, refl)
after_run_same env key ask (exception name) r r' e = let e' = some_eq e in rw (← e') (refl, refl)

-- a world in `P`, and the keys of the policy at the start
abbrev Kept : {W : Type 0} → (W → Type 0) → List String → Round W → Type 0
Kept P keys r = (r.kit.policy.keys ≡ keys) × P r.world

abbrev pub RunsSafely : {W : Type 0} → (W → Type 0) → List String → ReflexRule W → Type 0
RunsSafely P keys rule =
    (m : Fields) (w : _) → is_safe_proposal keys m ≡ true → P w → P (rule.run m w).1

module _ {W : Type 0} (P : W → Type 0) (keys : List String) (env : HandoffEnvelope) where
  Fired-Kept :
      (rule : ReflexRule W) (ask : String) (r r' : Round W)
      → RunsSafely P keys rule
      → Fired env rule ask r r'
      → Kept P keys r
      → Kept P keys r'
  unfolding report
  Fired-Kept rule ask r r' safe (Fired.prior old e) h = subst (Kept P keys) e h
  Fired-Kept rule ask r r' safe (Fired.declined e) h =
      subst (Kept P keys) e (audited_keys refused env.task_id rule.capability_key r.kit ∙ h.0, h.1)
  Fired-Kept rule ask r r' safe (Fired.ran go e) h =
      let same = after_run_same env rule.capability_key ask _ (running env rule ask r) r' e in
      let ok = approves-safe r.kit.policy r.kit.log _ go in
      (
        same.0 ∙ audited_keys _ env.task_id rule.capability_key r.kit ∙ h.0,
        subst P (sym same.1) (safe _ _ (rw h.0 at ok) h.1),
      )

  fire_one-Kept :
      (rules : List (ReflexRule W))
      → All (RunsSafely P keys) rules
      → All
          (λ rule.
            (s s' : Round W) → fire_one env rule s ≡ some s' → Kept P keys s → Kept P keys s')
          rules
  fire_one-Kept [] safe = tt
  fire_one-Kept (rule ∷ rules) safe = (
    λ s s' e h. elim (fire_one-Sound env rule s s' e) [
      | inl same ↦ subst (Kept P keys) same h
      | inr (ask, fired, there, new) ↦ Fired-Kept rule ask s s' safe.0 fired h
    ],
    fire_one-Kept rules safe.1,
  )

-- Whatever property of the world every executor of the bank keeps on blocking proposals that move
-- no money, for a key of the policy and a named provenance, a run of the reflexes keeps.
pub fire_reflexes-keeps :
    {W : Type 0} (P : W → Type 0) (env : HandoffEnvelope) (kit : ReflexKit W) (w : W) (r : Round W)
    → All (RunsSafely P kit.policy.keys) kit.bank
    → fire_reflexes env kit w ≡ some r
    → P w
    → P r.world
unfolding fire_reflexes
fire_reflexes-keeps P env kit w r safe e h =
    (fire_each-keeps env (Kept P kit.policy.keys) kit.bank _ r
      (fire_one-Kept P kit.policy.keys env kit.bank safe) e (refl, h)).1

-- Once every rule of the bank has applied for the task, a run touches neither the world nor the
-- kit: it reports the earlier applications.
abbrev Idle : {W : Type 0} → ReflexKit W → W → Round W → Type 0
Idle kit w r = (r.kit ≡ kit) × (r.world ≡ w)

prior_Idle :
    {W : Type 0} (env : HandoffEnvelope) (rule : ReflexRule W) (kit : ReflexKit W) (w : W)
    (s s' : Round W)
    → seen env.task_id rule.capability_key kit.log ≡ true
    → fire_one env rule s ≡ some s'
    → Idle kit w s
    → Idle kit w s'
unfolding fire_one fire_matched report
prior_Idle env rule kit w s s' old e h =
    let old' : seen env.task_id rule.capability_key s.kit.log ≡ true = rw h.0 old in
    elim (Option-cases (rule.matcher env)) [
      | inl quiet ↦ subst (Idle kit w) (some_eq (rw (fire_one, quiet) at e)) h
      | inr (ask, matched) ↦ elim (Bool-cases (not (elem ask env.asks) || elem ask s.covered)) [
        | inl skip ↦ subst (Idle kit w) (some_eq (rw (fire_one, matched, skip) at e)) h
        | inr fresh ↦
            subst (Idle kit w) (some_eq (rw (fire_one, matched, fresh, fire_matched, old') at e)) h
      ]
    ]

prior_Idle_each :
    {W : Type 0} (env : HandoffEnvelope) (kit : ReflexKit W) (w : W) (rules : List (ReflexRule W))
    → All (λ (rule : ReflexRule W). seen env.task_id rule.capability_key kit.log ≡ true) rules
    → All
        (λ rule. (s s' : Round W) → fire_one env rule s ≡ some s' → Idle kit w s → Idle kit w s')
        rules
prior_Idle_each env kit w [] old = tt
prior_Idle_each env kit w (rule ∷ rules) old =
    (λ s s' e h. prior_Idle env rule kit w s s' old.0 e h, prior_Idle_each env kit w rules old.1)

-- Where the log has every rule of the bank for the task, a run of the reflexes leaves the kit (its
-- log, its counter, its audit) and the world as they were.
pub fire_reflexes-idle :
    {W : Type 0} (env : HandoffEnvelope) (kit : ReflexKit W) (w : W) (r : Round W)
    → All (λ (rule : ReflexRule W). seen env.task_id rule.capability_key kit.log ≡ true) kit.bank
    → fire_reflexes env kit w ≡ some r
    → (r.kit ≡ kit) × (r.world ≡ w)
unfolding fire_reflexes
fire_reflexes-idle env kit w r old e =
    fire_each-keeps env (Idle kit w) kit.bank _ r (prior_Idle_each env kit w kit.bank old) e
      (refl, refl)
