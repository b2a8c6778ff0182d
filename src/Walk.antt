-- ===== src/Walk.antt =====
-- The write gate of the guided walks: `confirm_apply` and what it uses of src/clonway_cockpit/walk.py
-- and of the context in src/clonway_cockpit/registry.py. The presses of the operator are a list: a
-- read from an empty one is a walk that still waits. `W` is the world that the callbacks act on;
-- they return, as an exception of theirs would leave the walk.
pub mod Gate
pub mod Nonce
pub mod Trail
pub mod Policy
pub mod Tokens
pub mod Preflight
mod Tests
use clonway_cockpit.Prelude.{
  ℕ, zero, suc, ◌+◌, ◌-◌, ◌*◌, ◌/◌, ◌%◌, ◌≤◌, ◌<◌, min, max, String, ◌≡◌, refl, sym, ap, ◌∙◌, ◌≢◌,
  ◌↔◌, ◌⊎◌, inl, inr, Bool, true, false, not, ◌&&◌, ◌||◌, Option, none, some, List, [], ◌∷◌, ◌++◌,
  map, arith, ◌==◌, eq_iff, eq_refl, ltb, leb, nat_eq, if◌then◌else◌, ltb→lt, leb→le, Bool-cases,
  Option-cases, is_some, length, take, drop, any, all, keep, All, length-append, elem, Distinct,
  elem-append, All-append,
}
use clonway_cockpit.Prelude.Texts.{text_append, text_take}
use clonway_cockpit.Value.{Fields, bool, str, null, no_members, member, Value}

unfoldable pub text_drop : ℕ → String → String
text_drop zero s = s
text_drop (suc n) String.[] = ""
text_drop (suc n) (String.◌∷◌ c s) = text_drop n s

-- the decimal digits of a number, before those that stand already
unfoldable pub decimal_of : ℕ → ℕ → String → String
unfolding text_drop
decimal_of zero n s = s
decimal_of (suc fuel) n s =
    let rest =
      decimal_of fuel (n / 10) (text_append (text_take 1 (text_drop (n % 10) "0123456789")) s) in
    if ltb n 10 then text_append (text_take 1 (text_drop n "0123456789")) s else rest

-- The token of a gate is its number; `token_text` is the text that the code mints.
unfoldable pub token_text : ℕ → String
unfolding decimal_of
token_text n = text_append "gate-" (decimal_of (suc n) n "")

pub data Answer : Type 0 where
  answered : Bool → Answer
  waiting : Answer

pub data Actor : Type 0 where
  agent human : Actor

pub data GateEvent : Type 0 where
  gate_offered gate_applied gate_declined : GateEvent

-- what an event of the gate says, besides the identity of the capability and the time
pub record AuditEvent : Type 0 where
  pub event : GateEvent
  pub actor : Actor
  pub dry_run : Bool
  pub equivalent_cli : String
  pub ref : Option ℕ

-- What the observer is called with: the four frames of kind walk.gate; the pre-flight, of whether it
-- is ready and of the key of the remedy that it offers; the confirmation of a remedy, of its key; and
-- the result of a walk, of the message of the failed step or of the bag that it filled.
pub data WalkFrame : Type 0 where
  awaiting_apply : ℕ → String → WalkFrame
  applied_frame : ℕ → WalkFrame
  not_authorized : ℕ → WalkFrame
  dry_run_frame : WalkFrame
  preflight_frame : Bool → Option String → WalkFrame
  remedy_frame : String → WalkFrame
  failed_frame : String → WalkFrame
  finished_frame : List (String × Value) → WalkFrame

pub record WizardContext (W : Type 0) : Type 0 where
  pub dry_run : Bool
  pub authorize_apply : Option (Fields → W → Bool × W)
  -- read_key is not None
  pub interactive : Bool
  pub confirm_fn : String → W → Bool × W
  pub observed : Bool
  pub has_audit : Bool
  pub capability_key : Option String
  pub money_movement : Bool

-- What a walk changes: the world, the presses to come, the gate nonce of the process, and what
-- the audit sink and the observer of screens were called with.
pub record Scene (W : Type 0) : Type 0 where
  pub world : W
  pub presses : List String
  pub gate_seq : ℕ
  pub audited : List AuditEvent
  pub frames : List WalkFrame

unfoldable pub key_value : Option String → Value
key_value none = null
key_value (some key) = str key

-- k in (keys.ENTER, "a", "A")
unfoldable pub is_apply_key : String → Bool
is_apply_key k = k == "enter" || k == "a" || k == "A"

unfoldable pub outcome_event : Bool → GateEvent
outcome_event true = gate_applied
outcome_event false = gate_declined

module _ {W : Type 0} where
  unfoldable pub proposal_of : WizardContext W → ℕ → String → Fields
  unfolding key_value
  proposal_of ctx token cli = member "token" (str (token_text token)) (
      member "equivalent_cli" (str cli) (
        member "capability_key" (key_value ctx.capability_key)
          (member "money_movement" (bool ctx.money_movement) no_members)))

  -- _audit_gate
  unfoldable pub audit_gate :
      WizardContext W → GateEvent → Actor → String → Option ℕ → Scene W → Scene W
  audit_gate ctx event actor cli ref s =
      if ctx.has_audit
      then record s {
        audited =
            s.audited
            ++ record {
              event = event;
              actor = actor;
              dry_run = ctx.dry_run;
              equivalent_cli = cli;
              ref = ref;
            }
              ∷ [];
      }
      else s

  -- _emit
  unfoldable pub emit_gate : WizardContext W → WalkFrame → Scene W → Scene W
  emit_gate ctx frame s = if ctx.observed then record s { frames = s.frames ++ frame ∷ [] } else s

  -- _next_gate_token: the new count is the token
  unfoldable pub next_gate_token : Scene W → Scene W
  next_gate_token s = record s { gate_seq = s.gate_seq + 1 }

  -- the audit and the frame after the authorizer's answer
  unfoldable pub close_guarded : WizardContext W → String → ℕ → Bool → Scene W → Answer × Scene W
  unfolding audit_gate emit_gate
  close_guarded ctx cli token true s = (
    answered true,
    emit_gate ctx (applied_frame token) (audit_gate ctx gate_applied agent cli (some token) s),
  )
  close_guarded ctx cli token false s = (
    answered false,
    emit_gate ctx (not_authorized token) (audit_gate ctx gate_declined agent cli (some token) s),
  )

  -- the guarded apply of agent mode
  unfoldable pub guarded_apply :
      WizardContext W → (Fields → W → Bool × W) → String → Scene W → Answer × Scene W
  unfolding next_gate_token audit_gate emit_gate close_guarded proposal_of
  guarded_apply ctx authorize cli s0 =
      let s1 = next_gate_token s0 in
      let token = s1.gate_seq in
      let s2 =
        emit_gate ctx (awaiting_apply token cli)
          (audit_gate ctx gate_offered agent cli (some token) s1) in
      let (yes_no, world) = authorize (proposal_of ctx token cli) s2.world in
      close_guarded ctx cli token yes_no (record s2 { world = world })

  unfoldable pub decline_dry : WizardContext W → String → Scene W → Answer × Scene W
  unfolding audit_gate emit_gate
  decline_dry ctx cli s =
      (answered false, emit_gate ctx dry_run_frame (audit_gate ctx gate_declined agent cli none s))

  -- the dry run of agent mode: one press is read for cadence
  unfoldable pub pure_dry_run : WizardContext W → String → List String → Scene W → Answer × Scene W
  unfolding decline_dry
  pure_dry_run ctx cli [] s = if ctx.interactive then (waiting, s) else decline_dry ctx cli s
  pure_dry_run ctx cli (k ∷ ks) s =
      decline_dry ctx cli (if ctx.interactive then record s { presses = ks } else s)

  unfoldable pub close_human : WizardContext W → String → Bool → Scene W → Answer × Scene W
  unfolding outcome_event audit_gate
  close_human ctx cli yes_no s =
      (answered yes_no, audit_gate ctx (outcome_event yes_no) human cli none s)

  -- the operator's press, after the presses made before the review was drawn are discarded
  unfoldable pub human_key : WizardContext W → String → List String → Scene W → Answer × Scene W
  unfolding is_apply_key close_human
  human_key ctx cli [] s = (waiting, record s { presses = [] })
  human_key ctx cli (k ∷ ks) s = close_human ctx cli (is_apply_key k) (record s { presses = ks })

  unfoldable pub human_apply :
      WizardContext W → (List String → List String) → String → String → Scene W → Answer × Scene W
  unfolding human_key close_human
  human_apply ctx discard_pending prompt cli s =
      if ctx.interactive
      then human_key ctx cli (discard_pending s.presses) s
      else let (yes_no, world) = ctx.confirm_fn prompt s.world in
        close_human ctx cli yes_no (record s { world = world })

  -- confirm_apply: `discard_pending` is what keys.discard_pending leaves of the presses
  unfoldable pub confirm_apply :
      WizardContext W → (List String → List String) → String → String → Scene W → Answer × Scene W
  unfolding guarded_apply pure_dry_run human_apply audit_gate
  confirm_apply ctx discard_pending prompt cli s =
      if ctx.dry_run
      then (elim ctx.authorize_apply [
        | some authorize ↦ guarded_apply ctx authorize cli s
        | none ↦ pure_dry_run ctx cli s.presses (audit_gate ctx gate_offered agent cli none s)
      ])
      else human_apply ctx discard_pending prompt cli (audit_gate ctx gate_offered human cli none s)
