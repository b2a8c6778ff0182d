-- ===== src/Walk/Policy.antt =====
-- walk.py, approval.py
-- The write gate in agent mode with the allowlist policy as its authorizer.
use clonway_cockpit.Prelude.{
  ℕ, ◌+◌, String, ◌≡◌, refl, sym, ap, ◌∙◌, Bool, true, false, Option, none, some, List, arith, elem,
}
use clonway_cockpit.Value.{Fields, str, bool, lookup, lookup_or, is_false}
use clonway_cockpit.Approval.{Verdict, verdict, type_error, AllowlistPolicy, cap_reached, decide}
use clonway_cockpit.Approval.Session.{decide_iff}
use clonway_cockpit.Walk.{answered, WizardContext, Scene, key_value, proposal_of, confirm_apply}
use clonway_cockpit.Walk.Gate.{allowed_by, dry_run_iff}

abbrev pub says_yes : Verdict → Bool
says_yes (verdict b) = b
says_yes type_error = false

-- the policy object as the authorizer of a context: the world is the policy
abbrev pub ask_policy : Fields → AllowlistPolicy → Bool × AllowlistPolicy
ask_policy m p = let (v, q) = decide p m in (says_yes v, q)

says_yes_eq : (v : Verdict) → says_yes v ≡ true → v ≡ verdict true
says_yes_eq (verdict true) h = refl
says_yes_eq (verdict false) h = absurd (ground (arith, h))
says_yes_eq type_error h = absurd (ground (arith, h))

proposal_money :
    (ctx : WizardContext AllowlistPolicy) (token : ℕ) (cli : String)
    → is_false (lookup_or (bool false) "money_movement" (proposal_of ctx token cli)) ≡ true
    → ctx.money_movement ≡ false
unfolding proposal_of lookup lookup_or is_false
proposal_money ctx token cli h = ground (arith, h)

key_value_eq :
    (o : Option String) (key : String) → some (key_value o) ≡ some (str key) → o ≡ some key
unfolding key_value
key_value_eq none key h = absurd (ground (arith, h))
key_value_eq (some k) key h = ground (arith, h)

proposal_key :
    (ctx : WizardContext AllowlistPolicy) (token : ℕ) (cli key : String)
    → lookup "capability_key" (proposal_of ctx token cli) ≡ some (str key)
    → ctx.capability_key ≡ some key
unfolding proposal_of lookup
proposal_key ctx token cli key h = key_value_eq ctx.capability_key key h

-- Where the allowlist policy authorizes the gate of an agent, a yes means that the capability of
-- the walk moves no money, that its key is on the allowlist, and that the cap was not reached.
pub confirm_apply_allowlisted :
    (ctx : WizardContext AllowlistPolicy) (discard_pending : List String → List String)
    (prompt cli : String) (s : Scene AllowlistPolicy)
    → ctx.dry_run ≡ true
    → ctx.authorize_apply ≡ some ask_policy
    → (confirm_apply ctx discard_pending prompt cli s).0 ≡ answered true
    → (ctx.money_movement ≡ false)
      × ((key : String) × (ctx.capability_key ≡ some key) × (elem key s.world.allowlist ≡ true))
      × (cap_reached s.world ≡ false)
confirm_apply_allowlisted ctx discard_pending prompt cli s dry asks h =
    let m = proposal_of ctx (s.gate_seq + 1) cli in
    let may = (dry_run_iff ctx cli discard_pending prompt s dry).0 h in
    let yes_said = sym (ap (λ o. allowed_by o m s.world) asks) ∙ may in
    let (e, room) = (decide_iff s.world m).0 (says_yes_eq _ yes_said) in
    (
      proposal_money ctx _ cli e.no_money,
      (e.key, proposal_key ctx _ cli e.key e.keyed, e.listed),
      room,
    )
