-- ===== src/Walk/Tests.antt =====
-- Runs of the write gate and of a walk of walk.py, in agent mode and at the keyboard.
use clonway_cockpit.Prelude.{
  ℕ, ◌+◌, String, ◌≡◌, refl, ◌↔◌, true, false, none, some, List, [], ◌∷◌, ◌++◌, nat_eq, elem,
}
use clonway_cockpit.Prelude.Texts.{text_append, text_take}
use clonway_cockpit.Value.{Value, Fields, str}
use clonway_cockpit.Approval.{AllowlistPolicy, cap_reached}
use clonway_cockpit.Walk.{
  preflight_frame, remedy_frame, finished_frame, answered, agent, WizardContext, Scene,
  confirm_apply, token_text,
}
use clonway_cockpit.Walk.Trail
use clonway_cockpit.Walk.Trail.{trail}
use clonway_cockpit.Walk.Gate
use clonway_cockpit.Walk.Gate.{agent_may}
use clonway_cockpit.Walk.Policy
use clonway_cockpit.Walk.Policy.{ask_policy}
use clonway_cockpit.Walk.Tokens
use clonway_cockpit.Walk.Tokens.{IsMinted, GateCall, gates}
use clonway_cockpit.Walk.Preflight.{Precondition, Step, make_walk_handler, walk_total}
use clonway_cockpit.Walk.Preflight.Steps
use clonway_cockpit.Walk.Preflight.Steps.{WalkDone}

abbrev policy : AllowlistPolicy
policy = record {
  allowlist = "bills.draft" ∷ [];
  label = "books";
  max_applies = some 1;
  applied = 0;
}

abbrev agent_ctx : WizardContext AllowlistPolicy
agent_ctx = record {
  dry_run = true;
  authorize_apply = some ask_policy;
  interactive = true;
  confirm_fn = λ prompt p. (true, p);
  observed = true;
  has_audit = true;
  capability_key = some "bills.draft";
  money_movement = false;
}

abbrev bound_ctx : WizardContext AllowlistPolicy
bound_ctx = record agent_ctx { dry_run = false; authorize_apply = none }

abbrev scene : Scene AllowlistPolicy
scene = record { world = policy; presses = "enter" ∷ []; gate_seq = 0; audited = []; frames = [] }

abbrev same_presses : List String → List String
same_presses ks = ks

gate_one : token_text 1 ≡ "gate-1"
unfolding token_text text_append text_take
gate_one = refl

gate_many : token_text 210 ≡ "gate-210"
unfolding token_text text_append text_take
gate_many = refl

agent_yes : (confirm_apply agent_ctx same_presses "" "books draft" scene).0 ≡ answered true
unfolding confirm_apply clonway_cockpit.Approval.decide clonway_cockpit.Value.is_false
    clonway_cockpit.Value.lookup_or clonway_cockpit.Approval.key_listed
agent_yes = refl

human_yes : (confirm_apply bound_ctx same_presses "" "books draft" scene).0 ≡ answered true
unfolding confirm_apply
human_yes = refl

dry_run_iff_example :
    ((confirm_apply agent_ctx same_presses "" "books draft" scene).0 ≡ answered true)
    ↔ (agent_may agent_ctx "books draft" scene ≡ true)
dry_run_iff_example = Gate.dry_run_iff agent_ctx "books draft" same_presses "" scene refl

confirm_apply-trail_example :
    ((confirm_apply agent_ctx same_presses "" "books draft" scene).1.audited
      ≡ [] ++ trail agent_ctx agent "books draft" (some 1) true)
    × ((confirm_apply agent_ctx same_presses "" "books draft" scene).1.gate_seq ≡ 1)
confirm_apply-trail_example =
    Trail.confirm_apply-trail agent_ctx "books draft" refl same_presses "" scene true agent_yes

confirm_apply_allowlisted_example :
    (false ≡ false)
    × ((key : String) × (some "bills.draft" ≡ some key) × (elem key policy.allowlist ≡ true))
    × (cap_reached policy ≡ false)
confirm_apply_allowlisted_example =
    Policy.confirm_apply_allowlisted agent_ctx same_presses "" "books draft" scene refl refl
      agent_yes

abbrev call : GateCall AllowlistPolicy
call = record { ctx = agent_ctx; discard_pending = same_presses; prompt = ""; cli = "books draft" }

scene-IsMinted : IsMinted scene
scene-IsMinted = record { rising = tt; bounded = tt }

gates-IsMinted_example : IsMinted (gates (call ∷ call ∷ []) scene)
gates-IsMinted_example = Tokens.gates-IsMinted (call ∷ call ∷ []) scene scene-IsMinted

-- a stale lock that a remedy clears: the world is the number of locks
abbrev lock_ctx : WizardContext ℕ
lock_ctx = record {
  dry_run = false;
  authorize_apply = none;
  interactive = true;
  confirm_fn = λ prompt n. (true, n);
  observed = true;
  has_audit = true;
  capability_key = some "bills.apply";
  money_movement = true;
}

abbrev unlocked : ℕ → List (Precondition ℕ)
unlocked n =
    record {
      label = "no lock";
      ok = nat_eq n 0;
      detail = "";
      remedy = some (record { key = "u"; label = "clear the lock"; action = λ m. 0 });
    }
    ∷ []

abbrev plan_step : Step ℕ
plan_step = record {
  label = "plan";
  run = λ bag s.
      (record { ok = true; message = ""; data_items = [] }, record s { world = s.world + 10 });
}

abbrev locked : Scene ℕ
locked = record {
  world = 1;
  presses = "u" ∷ "y" ∷ "enter" ∷ [];
  gate_seq = 0;
  audited = [];
  frames = [];
}

walked : (make_walk_handler (plan_step ∷ []) true unlocked none lock_ctx locked).1.world ≡ 10
unfolding make_walk_handler
walked = refl

-- the observer saw the blocked pre-flight, the confirmation of its remedy, the ready one, and the end
seen_frames :
    (make_walk_handler (plan_step ∷ []) true unlocked none lock_ctx locked).1.frames
    ≡ preflight_frame false (some "u")
      ∷ remedy_frame "u"
      ∷ preflight_frame true none
      ∷ finished_frame (("progress", str "step 2 of 2") ∷ [])
      ∷ []
unfolding make_walk_handler text_append text_take
seen_frames = refl

make_walk_handler-WalkDone_example :
    WalkDone lock_ctx unlocked true
      (walk_total none (plan_step ∷ []))
      (plan_step ∷ [])
      locked
      (make_walk_handler (plan_step ∷ []) true unlocked none lock_ctx locked)
make_walk_handler-WalkDone_example =
    Steps.make_walk_handler-WalkDone lock_ctx unlocked (plan_step ∷ []) none true locked refl
