-- ===== src/Walk/Gate.antt =====
-- walk.py
-- The answer of the write gate in agent mode.
use clonway_cockpit.Prelude.{
  ℕ, ◌+◌, String, ◌≡◌, refl, ap, ◌∙◌, ◌↔◌, inl, inr, Bool, true, false, Option, none, some, List,
  arith, Option-cases,
}
use clonway_cockpit.Value.{Fields}
use clonway_cockpit.Walk.{
  answered, Actor, agent, human, GateEvent, gate_offered, WalkFrame, awaiting_apply, WizardContext,
  Scene, proposal_of, audit_gate, emit_gate, next_gate_token, close_guarded, guarded_apply,
  decline_dry, pure_dry_run, human_apply, confirm_apply,
}

-- Whether the gate lets the agent write: the authorizer is there and says yes to the proposal
-- with the next token.
abbrev pub allowed_by : {W : Type 0} → Option (Fields → W → Bool × W) → Fields → W → Bool
allowed_by none m w = false
allowed_by (some authorize) m w = (authorize m w).0

abbrev pub agent_may : {W : Type 0} → WizardContext W → String → Scene W → Bool
agent_may ctx cli s = allowed_by ctx.authorize_apply (proposal_of ctx (s.gate_seq + 1) cli) s.world

module _ {W : Type 0} (ctx : WizardContext W) (cli : String) where
  audit_gate_world :
      (e : GateEvent) (a : Actor) (r : Option ℕ) (s : Scene W)
      → (audit_gate ctx e a cli r s).world ≡ s.world
  unfolding audit_gate
  audit_gate_world e a r s = ground arith

  pub pure_dry_run_answer :
      (ks : List String) (s : Scene W) → ¬ ((pure_dry_run ctx cli ks s).0 ≡ answered true)
  unfolding pure_dry_run decline_dry
  pure_dry_run_answer ks s h = ground (arith, h)

  emit_gate_world : (f : WalkFrame) (s : Scene W) → (emit_gate ctx f s).world ≡ s.world
  unfolding emit_gate
  emit_gate_world f s = ground arith

  pub close_guarded_answer :
      (token : ℕ) (yes_no : Bool) (s : Scene W)
      → (close_guarded ctx cli token yes_no s).0 ≡ answered yes_no
  unfolding close_guarded
  close_guarded_answer token true s = refl
  close_guarded_answer token false s = refl

  guarded_answer :
      (authorize : Fields → W → Bool × W) (s : Scene W)
      → (guarded_apply ctx authorize cli s).0
        ≡ answered (authorize (proposal_of ctx (s.gate_seq + 1) cli) s.world).0
  unfolding guarded_apply next_gate_token
  guarded_answer authorize s =
      let t = record s { gate_seq = s.gate_seq + 1 } in
      let offered = audit_gate ctx gate_offered agent cli (some (s.gate_seq + 1)) t in
      close_guarded_answer (s.gate_seq + 1) _ _
      ∙ ap (λ w. answered (authorize (proposal_of ctx (s.gate_seq + 1) cli) w).0)
          (emit_gate_world (awaiting_apply (s.gate_seq + 1) cli) offered
            ∙ audit_gate_world gate_offered agent (some (s.gate_seq + 1)) t)

  pub confirm_off :
      (discard_pending : List String → List String) (prompt : String) (s : Scene W)
      → ctx.dry_run ≡ true
      → ctx.authorize_apply ≡ none
      → confirm_apply ctx discard_pending prompt cli s
        ≡ pure_dry_run ctx cli s.presses (audit_gate ctx gate_offered agent cli none s)
  unfolding confirm_apply
  confirm_off discard_pending prompt s dry off = simp (dry, off)

  pub confirm_on :
      (discard_pending : List String → List String) (prompt : String) (s : Scene W)
      (authorize : Fields → W → Bool × W)
      → ctx.dry_run ≡ true
      → ctx.authorize_apply ≡ some authorize
      → confirm_apply ctx discard_pending prompt cli s ≡ guarded_apply ctx authorize cli s
  unfolding confirm_apply
  confirm_on discard_pending prompt s authorize dry is_on = simp (dry, is_on)

  pub confirm_live :
      (discard_pending : List String → List String) (prompt : String) (s : Scene W)
      → ctx.dry_run ≡ false
      → confirm_apply ctx discard_pending prompt cli s
        ≡ human_apply ctx discard_pending prompt cli (audit_gate ctx gate_offered human cli none s)
  unfolding confirm_apply
  confirm_live discard_pending prompt s live = simp live

  -- In agent mode the gate answers yes exactly if an authorizer is there and says yes to the
  -- proposal of this gate.
  pub dry_run_iff :
      (discard_pending : List String → List String) (prompt : String) (s : Scene W)
      → ctx.dry_run ≡ true
      → ((confirm_apply ctx discard_pending prompt cli s).0 ≡ answered true)
        ↔ (agent_may ctx cli s ≡ true)
  unfolding confirm_apply
  dry_run_iff discard_pending prompt s dry = elim (Option-cases ctx.authorize_apply) [
    | inl off ↦
        rw (dry, off)
          (
            λ h.
                absurd
                  (pure_dry_run_answer s.presses (audit_gate ctx gate_offered agent cli none s) h),
            λ h. absurd (ground (arith, h)),
          )
    | inr (authorize, on) ↦
        rw (dry, on, guarded_answer authorize s) (λ h. ground (arith, h), λ h. ground (arith, h))
  ]
