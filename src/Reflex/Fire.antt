-- ===== src/Reflex/Fire.antt =====
-- reflex.py
-- What a run of `fire_reflexes` reports, and what it asked the executors to do.
use clonway_cockpit.Prelude.{
  String, ◌≡◌, refl, ◌∙◌, ◌⊎◌, inl, inr, true, false, not, ◌||◌, some, List, [], ◌∷◌, arith,
  Bool-cases, Option-cases, All, elem,
}
use clonway_cockpit.Prelude.{some_eq}
use mathlib.Core.Path.{subst}
use clonway_cockpit.Handoff.{HandoffEnvelope}
use clonway_cockpit.Reflex.{
  ReflexRule, ReflexFiring, ReflexKit, Round, approved, refused, seen, approves, build_proposal,
  audit_reflex, report, after_run, fire_matched, fire_one, fire_each, fire_reflexes,
}
use clonway_cockpit.Reflex.Sound.{
  HasRoom, IsSound, report-IsSound, after_run-IsSound, audit-IsSound, audited_under_max,
  approves-under_max,
}

abbrev pub prior_firing : String → String → ReflexFiring
prior_firing ask key = record {
  ask = ask;
  capability_key = key;
  applied = true;
  note = "previously applied";
}

-- the round that a run of the executor starts from
abbrev pub running : {W : Type 0} → HandoffEnvelope → ReflexRule W → String → Round W → Round W
running env rule ask r = record r {
  kit = audit_reflex approved env.task_id rule.capability_key r.kit;
  world = (rule.run (build_proposal env rule.capability_key ask) r.world).1;
}

-- The three ways in which a matched rule ends.
pub data Fired {W : Type 0} (env : HandoffEnvelope) (rule : ReflexRule W) (ask : String)
    (r r' : Round W) : Type 0 where
  prior :
      seen env.task_id rule.capability_key r.kit.log ≡ true
      → report (prior_firing ask rule.capability_key) r ≡ r'
      → Fired env rule ask r r'
  declined :
      record r { kit = audit_reflex refused env.task_id rule.capability_key r.kit } ≡ r'
      → Fired env rule ask r r'
  ran :
      approves r.kit.policy r.kit.log (build_proposal env rule.capability_key ask) ≡ true
      → after_run env rule.capability_key ask
          (rule.run (build_proposal env rule.capability_key ask) r.world).0
          (running env rule ask r)
        ≡ some r'
      → Fired env rule ask r r'

module _ {W : Type 0} (env : HandoffEnvelope) where
  pub fire_matched-Fired :
      (rule : ReflexRule W) (ask : String) (r r' : Round W)
      → fire_matched env rule ask r ≡ some r'
      → Fired env rule ask r r'
  unfolding fire_matched
  fire_matched-Fired rule ask r r' e =
      elim (Bool-cases (seen env.task_id rule.capability_key r.kit.log)) [
        | inl old ↦ Fired.prior old (some_eq (rw old at e))
        | inr new ↦
            elim (Bool-cases
              (approves r.kit.policy r.kit.log (build_proposal env rule.capability_key ask))) [
                | inl go ↦ Fired.ran go (rw (new, go) at e)
                | inr stop ↦ Fired.declined (some_eq (rw (new, stop) at e))
              ]
      ]

  Fired-IsSound :
      (rule : ReflexRule W) (ask : String) (r r' : Round W)
      → Fired env rule ask r r'
      → elem ask env.asks ≡ true
      → elem ask r.covered ≡ false
      → IsSound env r
      → IsSound env r'
  Fired-IsSound rule ask r r' (Fired.prior old e) there new h =
      rw (← e) (report-IsSound env (prior_firing ask rule.capability_key) r there new old h)
  Fired-IsSound rule ask r r' (Fired.declined e) there new h =
      rw (← e) (audit-IsSound env refused rule.capability_key r.world r h)
  Fired-IsSound rule ask r r' (Fired.ran go e) there new h =
      let key = rule.capability_key in
      after_run-IsSound env key ask _ (running env rule ask r) r' e
        (audited_under_max env approved key r.kit ∙ approves-under_max r.kit.policy r.kit.log _ go)
        there new (audit-IsSound env approved key _ r h)

  pub fire_one-Sound :
      (rule : ReflexRule W) (r r' : Round W)
      → fire_one env rule r ≡ some r'
      → (r ≡ r')
        ⊎ ((ask : String) × Fired env rule ask r r'
            × (elem ask env.asks ≡ true)
            × (elem ask r.covered ≡ false))
  unfolding fire_one
  fire_one-Sound rule r r' e = elim (Option-cases (rule.matcher env)) [
    | inl quiet ↦ inl (ground (arith, quiet, e))
    | inr (ask, matched) ↦ elim (Bool-cases (not (elem ask env.asks) || elem ask r.covered)) [
      | inl skip ↦ inl (ground (arith, matched, skip, e))
      | inr fresh ↦ inr (
        ask,
        fire_matched-Fired rule ask r r' (ground (arith, matched, fresh, e)),
        ground arith,
        ground arith,
      )
    ]
  ]

  -- What each rule keeps, the loop keeps.
  pub fire_each-keeps {κ} :
      (Q : Round W → Type κ) (rules : List (ReflexRule W)) (r r' : Round W)
      → All (λ rule. (s s' : Round W) → fire_one env rule s ≡ some s' → Q s → Q s') rules
      → fire_each env rules r ≡ some r'
      → Q r
      → Q r'
  unfolding fire_each
  fire_each-keeps Q [] r r' k e h = subst Q (some_eq e) h
  fire_each-keeps Q (rule ∷ rules) r r' k e h = elim (Option-cases (fire_one env rule r)) [
    | inl bad ↦ absurd (ground (arith, bad, e))
    | inr (s, one) ↦ fire_each-keeps Q rules s r' k.1 (ground (arith, one, e)) (k.0 r s one h)
  ]

fire_one-keeps :
    {W : Type 0} (env : HandoffEnvelope) (rules : List (ReflexRule W))
    → All
        (λ rule. (s s' : Round W) → fire_one env rule s ≡ some s' → IsSound env s → IsSound env s')
        rules
fire_one-keeps env [] = tt
fire_one-keeps env (rule ∷ rules) = (
  λ s s' e h. elim (fire_one-Sound env rule s s' e) [
    | inl same ↦ rw (← same) h
    | inr (ask, fired, there, new) ↦ Fired-IsSound env rule ask s s' fired there new h
  ],
  fire_one-keeps env rules,
)

-- A run of the reflexes on an envelope, from a counter within its cap, reports at most one firing
-- for an ask, each for an ask of the envelope; an applied firing is in the log, and the counter
-- stays within its cap.
pub fire_reflexes-IsSound :
    {W : Type 0} (env : HandoffEnvelope) (kit : ReflexKit W) (w : W) (r : Round W)
    → HasRoom kit.policy.max_applies kit.policy.applied
    → fire_reflexes env kit w ≡ some r
    → IsSound env r
unfolding fire_reflexes
fire_reflexes-IsSound env kit w r room e =
    fire_each-keeps env (IsSound env) kit.bank _ r (fire_one-keeps env kit.bank) e
      (record { asked = tt; once = tt; logged = tt; within = room; covers = λ a. refl })
