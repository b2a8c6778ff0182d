-- ===== src/Walk/Tokens.antt =====
-- walk.py
-- The tokens that the gates of one process offer.
use clonway_cockpit.Prelude.{
  ℕ, ◌+◌, ◌≤◌, ◌<◌, String, ◌≡◌, refl, sym, ap, inl, inr, Bool, true, false, Option, none, some,
  List, [], ◌∷◌, ◌++◌, arith, Bool-cases, Option-cases, All, All-append,
}
use mathlib.Core.Path.{subst}
use clonway_cockpit.Walk.Gate.{confirm_off, confirm_on, confirm_live}
use clonway_cockpit.Value.{Fields}
use clonway_cockpit.Walk.{
  Actor, agent, human, GateEvent, gate_offered, gate_applied, gate_declined, WalkFrame,
  awaiting_apply, applied_frame, not_authorized, dry_run_frame, preflight_frame, remedy_frame,
  failed_frame, finished_frame, WizardContext, Scene, outcome_event, proposal_of, audit_gate,
  emit_gate, next_gate_token, close_guarded, guarded_apply, is_apply_key, decline_dry, pure_dry_run,
  close_human, human_key, human_apply, confirm_apply,
}

abbrev pub offered : List WalkFrame → List ℕ
offered [] = []
offered (awaiting_apply token cli ∷ fs) = token ∷ offered fs
offered (applied_frame token ∷ fs) = offered fs
offered (not_authorized token ∷ fs) = offered fs
offered (dry_run_frame ∷ fs) = offered fs
offered (preflight_frame ok key ∷ fs) = offered fs
offered (remedy_frame key ∷ fs) = offered fs
offered (failed_frame message ∷ fs) = offered fs
offered (finished_frame bag ∷ fs) = offered fs

abbrev pub Rising : List ℕ → Type 0
Rising [] = Unit
Rising (n ∷ ns) = All (λ m. n < m) ns × Rising ns

-- the tokens rise, up to the nonce
pub record IsMinted {W : Type 0} (s : Scene W) : Type 0 where
  pub rising : Rising (offered s.frames)
  pub bounded : All (λ n. n ≤ s.gate_seq) (offered s.frames)

offered-append : (fs gs : List WalkFrame) → offered (fs ++ gs) ≡ offered fs ++ offered gs
offered-append [] gs = refl
offered-append (awaiting_apply token cli ∷ fs) gs = ap (λ l. token ∷ l) (offered-append fs gs)
offered-append (applied_frame token ∷ fs) gs = offered-append fs gs
offered-append (not_authorized token ∷ fs) gs = offered-append fs gs
offered-append (dry_run_frame ∷ fs) gs = offered-append fs gs
offered-append (preflight_frame ok key ∷ fs) gs = offered-append fs gs
offered-append (remedy_frame key ∷ fs) gs = offered-append fs gs
offered-append (failed_frame message ∷ fs) gs = offered-append fs gs
offered-append (finished_frame bag ∷ fs) gs = offered-append fs gs

All-below : (ns : List ℕ) (n : ℕ) → All (λ m. m ≤ n) ns → All (λ m. m ≤ n + 1) ns
All-below [] n h = tt
All-below (m ∷ ns) n h = let h0 = h.0 in (omega (arith, h0), All-below ns n h.1)

Rising-snoc : (ns : List ℕ) (n : ℕ) → Rising ns → All (λ m. m ≤ n) ns → Rising (ns ++ (n + 1) ∷ [])
Rising-snoc [] n r h = (tt, tt)
Rising-snoc (m ∷ ns) n r h =
    let h0 = h.0 in
    (
      All-append (λ k. m < k) ns ((n + 1) ∷ []) r.0 (omega (arith, h0), tt),
      Rising-snoc ns n r.1 h.1,
    )

append_nil : (ns : List ℕ) → ns ++ [] ≡ ns
append_nil [] = refl
append_nil (n ∷ ns) = ap (λ l. n ∷ l) (append_nil ns)

-- two scenes with the same frames and nonce
abbrev Same : {W : Type 0} → Scene W → Scene W → Type 0
Same s t = (t.gate_seq ≡ s.gate_seq) × (offered t.frames ≡ offered s.frames)

Same-IsMinted : {W : Type 0} (s t : Scene W) → Same s t → IsMinted s → IsMinted t
Same-IsMinted s t same h = record {
  rising = rw (same.1) h.rising;
  bounded = rw (same.0, same.1) h.bounded;
}

moved-IsMinted :
    {W : Type 0} (w : W) (ks : List String) (s : Scene W)
    → IsMinted s
    → IsMinted (record s { world = w; presses = ks })
moved-IsMinted w ks s h = record { rising = h.rising; bounded = h.bounded }

module _ {W : Type 0} (ctx : WizardContext W) (cli : String) where
  audit_gate-Same :
      (e : GateEvent) (a : Actor) (r : Option ℕ) (s : Scene W) → Same s (audit_gate ctx e a cli r s)
  unfolding audit_gate
  audit_gate-Same e a r s = (ground arith, ground arith)

  emit-Same : (f : WalkFrame) (s : Scene W) → offered (f ∷ []) ≡ [] → Same s (emit_gate ctx f s)
  unfolding emit_gate
  emit-Same f s quiet = elim (Bool-cases ctx.observed) [
    | inl on ↦ rw (on, offered-append, quiet) (refl, append_nil (offered s.frames))
    | inr off ↦ rw off (refl, refl)
  ]

  audit_gate-IsMinted :
      (e : GateEvent) (a : Actor) (r : Option ℕ) (s : Scene W)
      → IsMinted s
      → IsMinted (audit_gate ctx e a cli r s)
  audit_gate-IsMinted e a r s h =
      Same-IsMinted s (audit_gate ctx e a cli r s) (audit_gate-Same e a r s) h

  emit-IsMinted :
      (f : WalkFrame) (s : Scene W)
      → offered (f ∷ []) ≡ []
      → IsMinted s
      → IsMinted (emit_gate ctx f s)
  emit-IsMinted f s quiet h = Same-IsMinted s (emit_gate ctx f s) (emit-Same f s quiet) h

  -- the gate that offers the token after the nonce `n`
  emit_offer-IsMinted :
      (n : ℕ) (t : Scene W)
      → t.gate_seq ≡ n + 1
      → Rising (offered t.frames)
      → All (λ m. m ≤ n) (offered t.frames)
      → IsMinted (emit_gate ctx (awaiting_apply (n + 1) cli) t)
  unfolding emit_gate
  emit_offer-IsMinted n t e r h = elim (Bool-cases ctx.observed) [
    | inl on ↦
        rw (on, e)
          (record {
            rising = rw offered-append (Rising-snoc (offered t.frames) n r h);
            bounded = rw offered-append (
                All-append (λ m. m ≤ n + 1) (offered t.frames) ((n + 1) ∷ []) (All-below _ n h)
                  (omega arith, tt));
          })
    | inr off ↦ rw (off, e) (record { rising = r; bounded = All-below _ n h })
  ]

  close_guarded-IsMinted :
      (token : ℕ) (yes_no : Bool) (s : Scene W)
      → IsMinted s
      → IsMinted (close_guarded ctx cli token yes_no s).1
  unfolding close_guarded
  close_guarded-IsMinted token true s h =
      emit-IsMinted (applied_frame token) _ refl
        (audit_gate-IsMinted gate_applied agent (some token) s h)
  close_guarded-IsMinted token false s h =
      emit-IsMinted (not_authorized token) _ refl
        (audit_gate-IsMinted gate_declined agent (some token) s h)

  guarded-IsMinted :
      (authorize : Fields → W → Bool × W) (s : Scene W)
      → IsMinted s
      → IsMinted (guarded_apply ctx authorize cli s).1
  unfolding guarded_apply next_gate_token
  guarded-IsMinted authorize s h =
      let n = s.gate_seq in
      let t = record s { gate_seq = n + 1 } in
      let same = audit_gate-Same gate_offered agent (some (n + 1)) t in
      let u = audit_gate ctx gate_offered agent cli (some (n + 1)) t in
      let told : IsMinted (emit_gate ctx (awaiting_apply (n + 1) cli) u) =
        emit_offer-IsMinted n u same.0 (rw (same.1) h.rising) (rw (same.1) h.bounded) in
      let v = emit_gate ctx (awaiting_apply (n + 1) cli) u in
      let ans = authorize (proposal_of ctx (n + 1) cli) v.world in
      close_guarded-IsMinted (n + 1) ans.0 (record v { world = ans.1 })
        (moved-IsMinted ans.1 v.presses v told)

  decline-IsMinted : (s : Scene W) → IsMinted s → IsMinted (decline_dry ctx cli s).1
  unfolding decline_dry
  decline-IsMinted s h =
      emit-IsMinted dry_run_frame _ refl (audit_gate-IsMinted gate_declined agent none s h)

  pure_dry_run-IsMinted :
      (ks : List String) (s : Scene W) → IsMinted s → IsMinted (pure_dry_run ctx cli ks s).1
  unfolding pure_dry_run
  pure_dry_run-IsMinted [] s h = elim (Bool-cases ctx.interactive) [
    | inl on ↦ rw on h
    | inr off ↦ rw off (decline-IsMinted s h)
  ]
  pure_dry_run-IsMinted (k ∷ ks) s h = elim (Bool-cases ctx.interactive) [
    | inl on ↦ rw on (decline-IsMinted (record s { presses = ks }) (moved-IsMinted s.world ks s h))
    | inr off ↦ rw off (decline-IsMinted s h)
  ]

  close_human-IsMinted :
      (yes_no : Bool) (s : Scene W) → IsMinted s → IsMinted (close_human ctx cli yes_no s).1
  unfolding close_human
  close_human-IsMinted yes_no s h = audit_gate-IsMinted (outcome_event yes_no) human none s h

  human_key-IsMinted :
      (ks : List String) (s : Scene W) → IsMinted s → IsMinted (human_key ctx cli ks s).1
  unfolding human_key
  human_key-IsMinted [] s h = moved-IsMinted s.world [] s h
  human_key-IsMinted (k ∷ ks) s h =
      close_human-IsMinted (is_apply_key k) (record s { presses = ks })
        (moved-IsMinted s.world ks s h)

  human-IsMinted :
      (discard_pending : List String → List String) (prompt : String) (s : Scene W)
      → IsMinted s
      → IsMinted (human_apply ctx discard_pending prompt cli s).1
  unfolding human_apply
  human-IsMinted discard_pending prompt s h = elim (Bool-cases ctx.interactive) [
    | inl on ↦ rw on (human_key-IsMinted (discard_pending s.presses) s h)
    | inr off ↦ rw off (
        close_human-IsMinted (ctx.confirm_fn prompt s.world).0
          (record s { world = (ctx.confirm_fn prompt s.world).1 }) (moved-IsMinted _ s.presses s h))
  ]

  confirm_apply-IsMinted :
      (discard_pending : List String → List String) (prompt : String) (s : Scene W)
      → IsMinted s
      → IsMinted (confirm_apply ctx discard_pending prompt cli s).1
  unfolding confirm_apply
  confirm_apply-IsMinted discard_pending prompt s h = elim (Bool-cases ctx.dry_run) [
    | inl dry ↦ elim (Option-cases ctx.authorize_apply) [
      | inl off ↦
          subst (λ r. IsMinted r.1) (sym (confirm_off ctx cli discard_pending prompt s dry off))
            (pure_dry_run-IsMinted s.presses _ (audit_gate-IsMinted gate_offered agent none s h))
      | inr (authorize, is_on) ↦
          subst (λ r. IsMinted r.1)
            (sym (confirm_on ctx cli discard_pending prompt s authorize dry is_on))
            (guarded-IsMinted authorize s h)
    ]
    | inr live ↦
        subst (λ r. IsMinted r.1) (sym (confirm_live ctx cli discard_pending prompt s live))
          (human-IsMinted discard_pending prompt _
            (audit_gate-IsMinted gate_offered human none s h))
  ]

-- one gate of a session: its context, what is discarded of the presses, its prompt and CLI line
pub record GateCall (W : Type 0) : Type 0 where
  pub ctx : WizardContext W
  pub discard_pending : List String → List String
  pub prompt : String
  pub cli : String

-- the gates that a process passes, one after the other
abbrev pub gates : {W : Type 0} → List (GateCall W) → Scene W → Scene W
gates [] s = s
gates (c ∷ cs) s = gates cs (confirm_apply c.ctx c.discard_pending c.prompt c.cli s).1

-- From a scene whose offered tokens rise up to the nonce, the tokens that any gates offer rise
-- strictly, up to the nonce: no token is offered twice, in whatever mode and with whatever answers.
pub gates-IsMinted :
    {W : Type 0} (cs : List (GateCall W)) (s : Scene W) → IsMinted s → IsMinted (gates cs s)
gates-IsMinted [] s h = h
gates-IsMinted (c ∷ cs) s h =
    gates-IsMinted cs _ (confirm_apply-IsMinted c.ctx c.cli c.discard_pending c.prompt s h)
