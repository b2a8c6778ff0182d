-- ===== src/Channel/Gates.antt =====
-- agent.py, walk.py
-- The gate of a walk that an agent drives over the channel.
use clonway_cockpit.Prelude.{
  ◌+◌, String, ◌≡◌, refl, sym, ap, ◌∙◌, ◌↔◌, inl, inr, Bool, true, false, Option, none, some, List,
  [], ◌∷◌, arith, ◌==◌, if◌then◌else◌, Bool-cases, and_split,
}
use mathlib.Core.Path.{subst}
use clonway_cockpit.Prelude.Texts.{strip}
use clonway_cockpit.Value.{Value, Fields, str, obj, bool, lookup, is_true}
use clonway_cockpit.Walk.{answered, WizardContext, Scene, proposal_of, confirm_apply}
use clonway_cockpit.Walk.Gate.{allowed_by, dry_run_iff}
use clonway_cockpit.Channel.{
  Pump, readline, token_matches, is_apply, weigh, authorize_apply, autonomous_authorize,
  gate_authorizer,
}

-- The message read for a gate applies it: a JSON object with `apply` true and the gate's token.
pub record IsApply (loads : String → Option Value) (proposal : Fields) (raw : String) : Type 0 where
  pub message : Fields
  pub not_end : (raw == "") ≡ false
  pub not_blank : (strip raw == "") ≡ false
  pub parsed : loads (strip raw) ≡ some (obj message)
  pub flagged : lookup "apply" message ≡ some (bool true)
  pub gated : token_matches proposal (lookup "token" message) ≡ true

-- the next read of stdin applies the gate
abbrev pub NextApplies : {M : Type 0} → (String → Option Value) → Fields → Pump M → Type 0
NextApplies loads proposal s =
    (raw : String) × (rest : List String) × (s.incoming ≡ raw ∷ rest) × IsApply loads proposal raw

abbrev first : String → List String → String
first d [] = d
first d (x ∷ xs) = x

is_true_eq : (v : Value) → is_true v ≡ true → v ≡ bool true
unfolding is_true
is_true_eq (bool true) h = refl
is_true_eq (bool false) h = absurd (ground (arith, h))
is_true_eq (str s) h = absurd (ground (arith, h))
is_true_eq (Value.int i) h = absurd (ground (arith, h))
is_true_eq (Value.float f) h = absurd (ground (arith, h))
is_true_eq (obj m) h = absurd (ground (arith, h))
is_true_eq (Value.arr vs) h = absurd (ground (arith, h))
is_true_eq Value.null h = absurd (ground (arith, h))

flag_eq :
    (o : Option Value)
    → (elim o [ some v ↦ is_true v | none ↦ false ]) ≡ true
    → o ≡ some (bool true)
flag_eq none h = absurd (ground (arith, h))
flag_eq (some v) h = ap some (is_true_eq v h)

is_apply-flag :
    (proposal m : Fields)
    → is_apply proposal m ≡ true
    → (lookup "apply" m ≡ some (bool true)) × (token_matches proposal (lookup "token" m) ≡ true)
unfolding is_apply
is_apply-flag proposal m h =
    let l = and_split _ (token_matches proposal (lookup "token" m)) h in (flag_eq _ l.0, l.1)

is_apply-of :
    (proposal m : Fields)
    → lookup "apply" m ≡ some (bool true)
    → token_matches proposal (lookup "token" m) ≡ true
    → is_apply proposal m ≡ true
unfolding is_apply is_true
is_apply-of proposal m h k = rw (h, k) refl

module _ {M : Type 0} (loads : String → Option Value) (has_hook : Bool) (proposal : Fields) where
  weigh_yes :
      (o : Option Value) (s : Pump M)
      → (weigh has_hook proposal o s).0 ≡ true
      → (m : Fields) × (o ≡ some (obj m)) × (is_apply proposal m ≡ true)
  unfolding weigh
  weigh_yes none s h = absurd (ground (arith, h))
  weigh_yes (some (obj m)) s h = (m, refl, h)
  weigh_yes (some (str v)) s h = absurd (ground (arith, h))
  weigh_yes (some (bool v)) s h = absurd (ground (arith, h))
  weigh_yes (some (Value.int v)) s h = absurd (ground (arith, h))
  weigh_yes (some (Value.float v)) s h = absurd (ground (arith, h))
  weigh_yes (some (Value.arr v)) s h = absurd (ground (arith, h))
  weigh_yes (some Value.null) s h = absurd (ground (arith, h))

  -- authorize_apply of a read text
  abbrev judged : String → Pump M → Bool × Pump M
  judged raw t =
      if raw == ""
      then (false, t)
      else if strip raw == ""
      then (false, t)
      else weigh has_hook proposal (loads (strip raw)) t

  judged_yes : (raw : String) (t : Pump M) → (judged raw t).0 ≡ true → IsApply loads proposal raw
  judged_yes raw t h = elim (Bool-cases (raw == "")) [
    | inl e ↦ absurd (ground (arith, h, e))
    | inr e ↦ elim (Bool-cases (strip raw == "")) [
      | inl f ↦ absurd (ground (arith, h, e, f))
      | inr f ↦
          let found = weigh_yes (loads (strip raw)) t (rw (e, f) at h) in
          let (flag, gate) = is_apply-flag proposal found.0 found.2 in
          record {
            message = found.0;
            not_end = e;
            not_blank = f;
            parsed = found.1;
            flagged = flag;
            gated = gate;
          }
    ]
  ]

  judged_of : (raw : String) (t : Pump M) → IsApply loads proposal raw → (judged raw t).0 ≡ true
  unfolding weigh
  judged_of raw t a =
      rw (a.not_end, a.not_blank, a.parsed) (is_apply-of proposal a.message a.flagged a.gated)

  yes_at :
      (l : List String) (s : Pump M)
      → (authorize_apply loads has_hook proposal (record s { incoming = l })).0 ≡ true
      → NextApplies loads proposal (record s { incoming = l })
  unfolding authorize_apply readline
  yes_at [] s h = absurd (ground (arith, h))
  yes_at (raw ∷ rest) s h = (raw, rest, refl, judged_yes raw (record s { incoming = rest }) h)

  of_at :
      (l : List String) (s : Pump M)
      → NextApplies loads proposal (record s { incoming = l })
      → (authorize_apply loads has_hook proposal (record s { incoming = l })).0 ≡ true
  unfolding authorize_apply readline
  of_at [] s h = absurd (ground (arith, h.2))
  of_at (raw ∷ rest) s h =
      judged_of raw (record s { incoming = rest })
        (subst (IsApply loads proposal) (sym (ap (first raw) h.2)) h.3)

  -- The handshake says yes exactly if the next read of stdin is a JSON object with `apply` true
  -- and the token of the proposal; stdin's end, a blank line and malformed JSON decline.
  pub authorize_apply_iff :
      (s : Pump M)
      → ((authorize_apply loads has_hook proposal s).0 ≡ true) ↔ NextApplies loads proposal s
  authorize_apply_iff s = (yes_at s.incoming s, of_at s.incoming s)

-- what lets an agent write at a gate, by the arguments of serve_stdio
abbrev pub Grants :
    {M : Type 0}
    → (String → Option Value)
    → Option (Fields → Bool)
    → Bool
    → Fields
    → Pump M
    → Type 0
Grants loads (some policy) allow_apply proposal s = policy proposal ≡ true
Grants loads none true proposal s = NextApplies loads proposal s
Grants loads none false proposal s = true ≡ false

module _ {M : Type 0} (loads : String → Option Value) (has_hook : Bool) where
  allowed_iff :
      (policy : Option (Fields → Bool)) (allow_apply : Bool) (proposal : Fields) (s : Pump M)
      → (allowed_by (gate_authorizer loads policy allow_apply has_hook) proposal s ≡ true)
        ↔ Grants loads policy allow_apply proposal s
  unfolding gate_authorizer autonomous_authorize
  allowed_iff (some policy) allow_apply proposal s = (λ h. h, λ h. h)
  allowed_iff none true proposal s = authorize_apply_iff loads has_hook proposal s
  allowed_iff none false proposal s = (sym, sym)

  -- At a gate that an agent reaches over the channel the answer is yes exactly if: with a policy,
  -- the policy says yes to the gate's proposal; without one but with allow_apply, the next message
  -- applies the token that this gate mints; with neither, never.
  pub channel_gate_iff :
      (policy : Option (Fields → Bool)) (allow_apply : Bool) (ctx : WizardContext (Pump M))
      (discard_pending : List String → List String) (prompt cli : String) (s : Scene (Pump M))
      → ctx.dry_run ≡ true
      → ctx.authorize_apply ≡ gate_authorizer loads policy allow_apply has_hook
      → ((confirm_apply ctx discard_pending prompt cli s).0 ≡ answered true)
        ↔ Grants loads policy allow_apply (proposal_of ctx (s.gate_seq + 1) cli) s.world
  channel_gate_iff policy allow_apply ctx discard_pending prompt cli s dry wired =
      let m = proposal_of ctx (s.gate_seq + 1) cli in
      let gate = dry_run_iff ctx cli discard_pending prompt s dry in
      let granted = allowed_iff policy allow_apply m s.world in
      let wire = ap (λ o. allowed_by o m s.world) wired in
      (λ h. granted.0 (sym wire ∙ gate.0 h), λ h. gate.1 (wire ∙ granted.1 h))
