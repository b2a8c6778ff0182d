-- ===== src/Respond/Fires.antt =====
-- negotiation.py, reflex.py
-- The reflexes of a responder: when they raise nothing, and when they run nothing.
use clonway_cockpit.Prelude.{
  String, ◌≡◌, refl, sym, ap, ◌∙◌, inl, inr, true, false, not, ◌||◌, some, List, [], ◌∷◌, arith,
  Bool-cases, Option-cases, is_some, All, elem,
}
use clonway_cockpit.Value.{lookup, lookup_or}
use clonway_cockpit.Reflex.Fire.{Fired, fire_one-Sound, fire_each-keeps}
use clonway_cockpit.Prelude.Texts.{strip}
use clonway_cockpit.Handoff.{HandoffEnvelope, ClaimedFact}
use clonway_cockpit.Reflex.{
  ReflexRule, ReflexLog, ReflexPolicy, is_safe_proposal, blank_text, first_provenance, RunOutcome,
  returned, exception, ReflexKit, Round, note_ok, mark, note_applied, after_run, report,
  fire_matched, fire_one, fire_each, fire_reflexes, seen, approves, build_proposal,
}

mark-some :
    (task_id key : String) (log : ReflexLog)
    → note_ok task_id key ≡ true
    → is_some (mark task_id key log) ≡ true
unfolding mark
mark-some task_id key log ok = ground (arith, ok)

first_blank : (origin : String) (fs : List ClaimedFact) → fs ≡ [] → first_provenance origin fs ≡ ""
unfolding first_provenance
first_blank origin fs h = rw h refl

-- without facts no proposal has a provenance
approves_blank :
    (env : HandoffEnvelope) (p : ReflexPolicy) (log : ReflexLog) (key ask : String)
    → env.facts ≡ []
    → approves p log (build_proposal env key ask) ≡ false
unfolding approves is_safe_proposal build_proposal blank_text lookup_or lookup strip
approves_blank env p log key ask bare = rw (first_blank env.origin env.facts bare) (ground arith)

module _ {W : Type 0} (env : HandoffEnvelope) where
  note_applied-some :
      (key : String) (r : Round W)
      → note_ok env.task_id key ≡ true
      → is_some (note_applied env.task_id key r) ≡ true
  unfolding note_applied
  note_applied-some key r ok = ground (arith, mark-some env.task_id key r.kit.log ok)

  after_run-some :
      (key ask : String) (o : RunOutcome) (r : Round W)
      → note_ok env.task_id key ≡ true
      → is_some (after_run env key ask o r) ≡ true
  unfolding after_run
  after_run-some key ask (returned true) r ok = ground (arith, note_applied-some key r ok)
  after_run-some key ask (returned false) r ok = refl
  after_run-some key ask (exception name) r ok = refl

  fire_matched-some :
      (rule : ReflexRule W) (ask : String) (r : Round W)
      → note_ok env.task_id rule.capability_key ≡ true
      → is_some (fire_matched env rule ask r) ≡ true
  unfolding fire_matched
  fire_matched-some rule ask r ok =
      let proposal = build_proposal env rule.capability_key ask in
      elim (Bool-cases (seen env.task_id rule.capability_key r.kit.log)) [
        | inl old ↦ rw old refl
        | inr new ↦ elim (Bool-cases (approves r.kit.policy r.kit.log proposal)) [
          | inl go ↦ rw (new, go) (after_run-some rule.capability_key ask _ _ ok)
          | inr stop ↦ rw (new, stop) refl
        ]
      ]

  fire_one-some :
      (rule : ReflexRule W) (r : Round W)
      → note_ok env.task_id rule.capability_key ≡ true
      → is_some (fire_one env rule r) ≡ true
  unfolding fire_one
  fire_one-some rule r ok = elim (Option-cases (rule.matcher env)) [
    | inl quiet ↦ rw (fire_one, quiet) refl
    | inr (ask, matched) ↦ elim (Bool-cases (not (elem ask env.asks) || elem ask r.covered)) [
      | inl skip ↦ rw (fire_one, matched, skip) refl
      | inr fresh ↦ rw (fire_one, matched, fresh) (fire_matched-some rule ask r ok)
    ]
  ]

  fire_each-some :
      (rules : List (ReflexRule W)) (r : Round W)
      → All (λ (rule : ReflexRule W). note_ok env.task_id rule.capability_key ≡ true) rules
      → (s : Round W) × (fire_each env rules r ≡ some s)
  unfolding fire_each
  fire_each-some [] r ok = (r, refl)
  fire_each-some (rule ∷ rules) r ok = elim (Option-cases (fire_one env rule r)) [
    | inl bad ↦ let one = fire_one-some rule r ok.0 in absurd (ground (arith, one, bad))
    | inr (s, one) ↦ let (u, rest) = fire_each-some rules s ok.1 in (u, rw (fire_each, one) rest)
  ]

  -- a run of the reflexes gives a result, where `remember` takes the note of each rule of the bank
  pub fire_reflexes-some :
      (kit : ReflexKit W) (w : W)
      → All (λ (rule : ReflexRule W). note_ok env.task_id rule.capability_key ≡ true) kit.bank
      → (r : Round W) × (fire_reflexes env kit w ≡ some r)
  unfolding fire_reflexes
  fire_reflexes-some kit w ok = fire_each-some kit.bank _ ok

  -- without facts no executor runs
  one_keeps_world :
      (w : W) (rule : ReflexRule W) (s s' : Round W)
      → env.facts ≡ []
      → fire_one env rule s ≡ some s'
      → s.world ≡ w
      → s'.world ≡ w
  unfolding report
  one_keeps_world w rule s s' bare e h = elim (fire_one-Sound env rule s s' e) [
    | inl same ↦ ap (λ (r : Round W). r.world) (sym same) ∙ h
    | inr (ask, fired, x, y) ↦ elim fired [
      | Fired.prior old said ↦ ap (λ (r : Round W). r.world) (sym said) ∙ h
      | Fired.declined said ↦ ap (λ (r : Round W). r.world) (sym said) ∙ h
      | Fired.ran go after ↦
          let off = approves_blank env s.kit.policy s.kit.log rule.capability_key ask bare in
          absurd (ground (arith, go, off))
    ]
  ]

  each_keeps_world :
      (w : W) (rules : List (ReflexRule W))
      → env.facts ≡ []
      → All
          (λ rule. (s s' : Round W) → fire_one env rule s ≡ some s' → s.world ≡ w → s'.world ≡ w)
          rules
  each_keeps_world w [] bare = tt
  each_keeps_world w (rule ∷ rules) bare =
      (λ s s' e h. one_keeps_world w rule s s' bare e h, each_keeps_world w rules bare)

  pub fire_reflexes-world :
      (kit : ReflexKit W) (w : W) (r : Round W)
      → env.facts ≡ []
      → fire_reflexes env kit w ≡ some r
      → r.world ≡ w
  unfolding fire_reflexes
  fire_reflexes-world kit w r bare e =
      fire_each-keeps env (λ s. s.world ≡ w) kit.bank _ r (each_keeps_world w kit.bank bare) e refl
