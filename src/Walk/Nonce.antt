-- ===== src/Walk/Nonce.antt =====
-- walk.py
-- The token that a gate mints, and the nonce that it leaves.
use clonway_cockpit.Prelude.{
  ℕ, ◌+◌, String, ◌≡◌, refl, ◌∙◌, inl, inr, Bool, true, false, Option, none, some, List, [], ◌∷◌,
  arith, Bool-cases,
}
use clonway_cockpit.Value.{Fields}
use clonway_cockpit.Walk.{
  Actor, agent, human, GateEvent, gate_offered, gate_applied, gate_declined, WalkFrame,
  awaiting_apply, WizardContext, Scene, is_apply_key, outcome_event, audit_gate, emit_gate,
  next_gate_token, close_guarded, guarded_apply, decline_dry, pure_dry_run, close_human, human_key,
  human_apply,
}

-- the token that a gate mints: in agent mode with an authorizer, the one after the nonce
abbrev pub token_at : {W : Type 0} → Bool → Option (Fields → W → Bool × W) → ℕ → Option ℕ
token_at true (some authorize) n = some (n + 1)
token_at true none n = none
token_at false authorize n = none

abbrev pub token_for : {W : Type 0} → WizardContext W → Scene W → Option ℕ
token_for ctx s = token_at ctx.dry_run ctx.authorize_apply s.gate_seq

-- the nonce after a gate that minted a token or none
abbrev pub nonce_after : Option ℕ → ℕ → ℕ
nonce_after none n = n
nonce_after (some token) n = token

module _ {W : Type 0} (ctx : WizardContext W) (cli : String) where
  -- which steps of a gate leave the nonce
  pub audit_gate_nonce :
      (e : GateEvent) (a : Actor) (r : Option ℕ) (s : Scene W)
      → (audit_gate ctx e a cli r s).gate_seq ≡ s.gate_seq
  unfolding audit_gate
  audit_gate_nonce e a r s = ground arith

  emit_gate_nonce : (f : WalkFrame) (s : Scene W) → (emit_gate ctx f s).gate_seq ≡ s.gate_seq
  unfolding emit_gate
  emit_gate_nonce f s = ground arith

  close_guarded_nonce :
      (token : ℕ) (yes_no : Bool) (s : Scene W)
      → (close_guarded ctx cli token yes_no s).1.gate_seq ≡ s.gate_seq
  unfolding close_guarded
  close_guarded_nonce token true s =
      emit_gate_nonce _ _ ∙ audit_gate_nonce gate_applied agent (some token) s
  close_guarded_nonce token false s =
      emit_gate_nonce _ _ ∙ audit_gate_nonce gate_declined agent (some token) s

  pub guarded_nonce :
      (authorize : Fields → W → Bool × W) (s : Scene W)
      → (guarded_apply ctx authorize cli s).1.gate_seq ≡ s.gate_seq + 1
  unfolding guarded_apply next_gate_token
  guarded_nonce authorize s =
      let token = s.gate_seq + 1 in
      let t = record s { gate_seq = token } in
      close_guarded_nonce token _ _
      ∙ emit_gate_nonce (awaiting_apply token cli) _
      ∙ audit_gate_nonce gate_offered agent (some token) t

  decline_nonce : (s : Scene W) → (decline_dry ctx cli s).1.gate_seq ≡ s.gate_seq
  unfolding decline_dry
  decline_nonce s = emit_gate_nonce _ _ ∙ audit_gate_nonce gate_declined agent none s

  pub pure_dry_run_nonce :
      (ks : List String) (s : Scene W) → (pure_dry_run ctx cli ks s).1.gate_seq ≡ s.gate_seq
  unfolding pure_dry_run
  pure_dry_run_nonce [] s = elim (Bool-cases ctx.interactive) [
    | inl on ↦ rw on refl
    | inr off ↦ rw off (decline_nonce s)
  ]
  pure_dry_run_nonce (k ∷ ks) s = elim (Bool-cases ctx.interactive) [
    | inl on ↦ rw on (decline_nonce (record s { presses = ks }))
    | inr off ↦ rw off (decline_nonce s)
  ]

  human_key_nonce :
      (ks : List String) (s : Scene W) → (human_key ctx cli ks s).1.gate_seq ≡ s.gate_seq
  unfolding human_key close_human
  human_key_nonce [] s = refl
  human_key_nonce (k ∷ ks) s =
      audit_gate_nonce (outcome_event (is_apply_key k)) human none (record s { presses = ks })

  pub human_nonce :
      (discard_pending : List String → List String) (prompt : String) (s : Scene W)
      → (human_apply ctx discard_pending prompt cli s).1.gate_seq ≡ s.gate_seq
  unfolding human_apply close_human
  human_nonce discard_pending prompt s = elim (Bool-cases ctx.interactive) [
    | inl on ↦ rw on (human_key_nonce (discard_pending s.presses) s)
    | inr off ↦ rw off (audit_gate_nonce _ human none _)
  ]
