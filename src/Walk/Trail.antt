-- ===== src/Walk/Trail.antt =====
-- walk.py
-- The audit trail that the write gate leaves.
use clonway_cockpit.Prelude.{
  ℕ, ◌+◌, String, ◌≡◌, refl, sym, ap, ◌∙◌, inl, inr, Bool, true, false, Option, none, some, List,
  [], ◌∷◌, ◌++◌, arith, if◌then◌else◌, Bool-cases, Option-cases,
}
use clonway_cockpit.Value.{Fields}
use clonway_cockpit.Walk.{
  answered, Actor, agent, human, GateEvent, gate_offered, gate_applied, gate_declined, AuditEvent,
  WalkFrame, awaiting_apply, WizardContext, Scene, is_apply_key, outcome_event, proposal_of,
  audit_gate, emit_gate, next_gate_token, close_guarded, guarded_apply, decline_dry, pure_dry_run,
  close_human, human_key, human_apply, confirm_apply,
}
use clonway_cockpit.Walk.Nonce.{
  token_at, token_for, nonce_after, audit_gate_nonce, guarded_nonce, pure_dry_run_nonce,
  human_nonce,
}
use clonway_cockpit.Walk.Gate.{
  pure_dry_run_answer, close_guarded_answer, confirm_off, confirm_on, confirm_live,
}

abbrev pub entry :
    {W : Type 0} → WizardContext W → GateEvent → Actor → String → Option ℕ → AuditEvent
entry ctx event actor cli ref = record {
  event = event;
  actor = actor;
  dry_run = ctx.dry_run;
  equivalent_cli = cli;
  ref = ref;
}

abbrev pub actor_of : Bool → Actor
actor_of dry = if dry then agent else human

-- the two events of a gate that was answered
abbrev pub trail :
    {W : Type 0} → WizardContext W → Actor → String → Option ℕ → Bool → List AuditEvent
trail ctx actor cli ref yes_no =
    entry ctx gate_offered actor cli ref ∷ entry ctx (outcome_event yes_no) actor cli ref ∷ []

answered_eq : {a b : Bool} → answered a ≡ answered b → a ≡ b
answered_eq h = ground (arith, h)

snoc_snoc : {A : Type 0} (xs : List A) (a b : A) → (xs ++ a ∷ []) ++ b ∷ [] ≡ xs ++ a ∷ b ∷ []
snoc_snoc [] a b = refl
snoc_snoc (x ∷ xs) a b = ap (λ l. x ∷ l) (snoc_snoc xs a b)

module _ {W : Type 0} (ctx : WizardContext W) (cli : String) (on : ctx.has_audit ≡ true) where
  audit_gate_adds :
      (e : GateEvent) (a : Actor) (r : Option ℕ) (s : Scene W)
      → (audit_gate ctx e a cli r s).audited ≡ s.audited ++ entry ctx e a cli r ∷ []
  unfolding audit_gate
  audit_gate_adds e a r s = rw on refl

  emit_gate_audited : (f : WalkFrame) (s : Scene W) → (emit_gate ctx f s).audited ≡ s.audited
  unfolding emit_gate
  emit_gate_audited f s = ground arith

  close_guarded_adds :
      (token : ℕ) (yes_no : Bool) (s : Scene W)
      → (close_guarded ctx cli token yes_no s).1.audited
        ≡ s.audited ++ entry ctx (outcome_event yes_no) agent cli (some token) ∷ []
  unfolding close_guarded outcome_event
  close_guarded_adds token true s =
      emit_gate_audited _ _ ∙ audit_gate_adds gate_applied agent (some token) s
  close_guarded_adds token false s =
      emit_gate_audited _ _ ∙ audit_gate_adds gate_declined agent (some token) s

  guarded_adds :
      (authorize : Fields → W → Bool × W) (s : Scene W) (b : Bool)
      → (guarded_apply ctx authorize cli s).0 ≡ answered b
      → (guarded_apply ctx authorize cli s).1.audited
        ≡ s.audited ++ trail ctx agent cli (some (s.gate_seq + 1)) b
  unfolding guarded_apply next_gate_token
  guarded_adds authorize s b h =
      let token = s.gate_seq + 1 in
      let t = record s { gate_seq = token } in
      let offered = audit_gate ctx gate_offered agent cli (some token) t in
      let s2 = emit_gate ctx (awaiting_apply token cli) offered in
      let told = authorize (proposal_of ctx token cli) s2.world in
      let same : told.0 ≡ b = answered_eq (sym (close_guarded_answer ctx cli token told.0 _) ∙ h) in
      let before : s2.audited ≡ s.audited ++ entry ctx gate_offered agent cli (some token) ∷ [] =
        emit_gate_audited _ offered ∙ audit_gate_adds gate_offered agent (some token) t in
      close_guarded_adds token told.0 (record s2 { world = told.1 })
      ∙ ap (λ l. l ++ entry ctx (outcome_event told.0) agent cli (some token) ∷ []) before
      ∙ snoc_snoc s.audited _ _
      ∙ ap (λ c. s.audited ++ trail ctx agent cli (some token) c) same

  decline_adds :
      (s : Scene W)
      → (decline_dry ctx cli s).1.audited ≡ s.audited ++ entry ctx gate_declined agent cli none ∷ []
  unfolding decline_dry
  decline_adds s = emit_gate_audited _ _ ∙ audit_gate_adds gate_declined agent none s

  pure_dry_run_adds :
      (ks : List String) (s : Scene W) (b : Bool)
      → (pure_dry_run ctx cli ks s).0 ≡ answered b
      → (pure_dry_run ctx cli ks s).1.audited
        ≡ s.audited ++ entry ctx (outcome_event b) agent cli none ∷ []
  unfolding pure_dry_run outcome_event
  pure_dry_run_adds ks s true h = absurd (pure_dry_run_answer ctx cli ks s h)
  pure_dry_run_adds [] s false h = elim (Bool-cases ctx.interactive) [
    | inl yes_key ↦ absurd (ground (arith, yes_key, h))
    | inr no_key ↦ rw no_key (decline_adds s)
  ]
  pure_dry_run_adds (k ∷ ks) s false h = elim (Bool-cases ctx.interactive) [
    | inl yes_key ↦ rw yes_key (decline_adds (record s { presses = ks }))
    | inr no_key ↦ rw no_key (decline_adds s)
  ]

  close_human_adds :
      (yes_no b : Bool) (s : Scene W)
      → (close_human ctx cli yes_no s).0 ≡ answered b
      → (close_human ctx cli yes_no s).1.audited
        ≡ s.audited ++ entry ctx (outcome_event b) human cli none ∷ []
  unfolding close_human
  close_human_adds yes_no b s h =
      let e : yes_no ≡ b = ground (arith, h) in
      rw (← e) (audit_gate_adds (outcome_event yes_no) human none s)

  human_key_adds :
      (ks : List String) (s : Scene W) (b : Bool)
      → (human_key ctx cli ks s).0 ≡ answered b
      → (human_key ctx cli ks s).1.audited
        ≡ s.audited ++ entry ctx (outcome_event b) human cli none ∷ []
  unfolding human_key
  human_key_adds [] s b h = absurd (ground (arith, h))
  human_key_adds (k ∷ ks) s b h = close_human_adds (is_apply_key k) b (record s { presses = ks }) h

  human_adds :
      (discard_pending : List String → List String) (prompt : String) (s : Scene W) (b : Bool)
      → (human_apply ctx discard_pending prompt cli s).0 ≡ answered b
      → (human_apply ctx discard_pending prompt cli s).1.audited
        ≡ s.audited ++ entry ctx (outcome_event b) human cli none ∷ []
  unfolding human_apply
  human_adds discard_pending prompt s b h = elim (Bool-cases ctx.interactive) [
    | inl yes_key ↦
        rw yes_key (human_key_adds (discard_pending s.presses) s b (rw (human_apply, yes_key) at h))
    | inr no_key ↦ rw no_key (close_human_adds _ b _ (rw (human_apply, no_key) at h))
  ]

  -- the two events in one
  both :
      (actor : Actor) (ref : Option ℕ) (b : Bool) (s : Scene W) (after : List AuditEvent)
      → after
        ≡ (audit_gate ctx gate_offered actor cli ref s).audited
          ++ entry ctx (outcome_event b) actor cli ref ∷ []
      → actor_of ctx.dry_run ≡ actor
      → after ≡ s.audited ++ trail ctx (actor_of ctx.dry_run) cli ref b
  both actor ref b s after h who =
      h
      ∙ ap (λ l. l ++ entry ctx (outcome_event b) actor cli ref ∷ [])
          (audit_gate_adds gate_offered actor ref s)
      ∙ snoc_snoc s.audited _ _
      ∙ ap (λ a. s.audited ++ trail ctx a cli ref b) (sym who)

  -- With an audit sink, a gate that was answered has added two events: that it was offered, and
  -- that it was applied or declined as it answered, by the same actor (the agent exactly in agent
  -- mode), both with the token that the gate minted and left as the nonce, or with none where the
  -- gate minted none: it mints one exactly in agent mode with an authorizer.
  pub confirm_apply-trail :
      (discard_pending : List String → List String) (prompt : String) (s : Scene W) (b : Bool)
      → (confirm_apply ctx discard_pending prompt cli s).0 ≡ answered b
      → ((confirm_apply ctx discard_pending prompt cli s).1.audited
          ≡ s.audited ++ trail ctx (actor_of ctx.dry_run) cli (token_for ctx s) b)
        × ((confirm_apply ctx discard_pending prompt cli s).1.gate_seq
            ≡ nonce_after (token_for ctx s) s.gate_seq)
  confirm_apply-trail discard_pending prompt s b h = elim (Bool-cases ctx.dry_run) [
    | inl dry ↦ elim (Option-cases ctx.authorize_apply) [
      | inl off ↦
          let e = confirm_off ctx cli discard_pending prompt s dry off in
          let ref : token_for ctx s ≡ none =
            ap (λ d. token_at d ctx.authorize_apply s.gate_seq) dry
            ∙ ap (λ o. token_at true o s.gate_seq) off in
          (
            both agent none b s _
                  (ap (λ r. r.1.audited) e
                    ∙ pure_dry_run_adds s.presses _ b (sym (ap (λ r. r.0) e) ∙ h))
                  (ap actor_of dry)
                ∙ ap (λ k. s.audited ++ trail ctx (actor_of ctx.dry_run) cli k b) (sym ref),
            ap (λ r. r.1.gate_seq) e
                ∙ pure_dry_run_nonce ctx cli s.presses _
                ∙ audit_gate_nonce ctx cli gate_offered agent none s
                ∙ ap (λ k. nonce_after k s.gate_seq) (sym ref),
          )
      | inr (authorize, is_on) ↦
          let e = confirm_on ctx cli discard_pending prompt s authorize dry is_on in
          let ref : token_for ctx s ≡ some (s.gate_seq + 1) =
            ap (λ d. token_at d ctx.authorize_apply s.gate_seq) dry
            ∙ ap (λ o. token_at true o s.gate_seq) is_on in
          (
            ap (λ r. r.1.audited) e
                ∙ guarded_adds authorize s b (sym (ap (λ r. r.0) e) ∙ h)
                ∙ ap (λ a. s.audited ++ trail ctx a cli (some (s.gate_seq + 1)) b)
                    (sym (ap actor_of dry))
                ∙ ap (λ k. s.audited ++ trail ctx (actor_of ctx.dry_run) cli k b) (sym ref),
            ap (λ r. r.1.gate_seq) e
                ∙ guarded_nonce ctx cli authorize s
                ∙ ap (λ k. nonce_after k s.gate_seq) (sym ref),
          )
    ]
    | inr live ↦
        let e = confirm_live ctx cli discard_pending prompt s live in
        let ref : token_for ctx s ≡ none =
          ap (λ d. token_at d ctx.authorize_apply s.gate_seq) live in
        (
          both human none b s _
                (ap (λ r. r.1.audited) e
                  ∙ human_adds discard_pending prompt _ b (sym (ap (λ r. r.0) e) ∙ h))
                (ap actor_of live)
              ∙ ap (λ k. s.audited ++ trail ctx (actor_of ctx.dry_run) cli k b) (sym ref),
          ap (λ r. r.1.gate_seq) e
              ∙ human_nonce ctx cli discard_pending prompt _
              ∙ audit_gate_nonce ctx cli gate_offered human none s
              ∙ ap (λ k. nonce_after k s.gate_seq) (sym ref),
        )
  ]
