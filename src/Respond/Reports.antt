-- ===== src/Respond/Reports.antt =====
-- negotiation.py, reflex.py
-- What the reflexes of a responder report: asks and keys that its decisions can carry.
use clonway_cockpit.Prelude.{
  ◌+◌, String, ◌≡◌, refl, sym, ap, ◌∙◌, inl, inr, true, false, Option, none, some, List, [], ◌∷◌,
  arith, ◌==◌, eq_iff, Bool-cases, some_eq, Option-cases, All, elem, Distinct, All-append,
}
use mathlib.Core.Path.{subst}
use clonway_cockpit.Handoff.{HandoffEnvelope, check_line, passed, max_line, max_summary}
use clonway_cockpit.Reflex.{
  ReflexRule, RunOutcome, returned, exception, ReflexKit, Round, ReflexFiring, note_ok, mark,
  note_applied, after_run, report, fire_one, fire_reflexes,
}
use clonway_cockpit.Reflex.Fire.{
  Fired, fire_one-Sound, fire_each-keeps, prior_firing, running, fire_reflexes-IsSound,
}
use clonway_cockpit.Reflex.Sound.{HasRoom}
use clonway_cockpit.Respond.{Ran, ran, Desk, fire, fire_with, asks_of_firings}
use clonway_cockpit.Respond.Fires.{fire_reflexes-some}
use clonway_cockpit.Respond.Lines.{IsReportable}
use clonway_cockpit.Respond.Counts.{Within}

-- a capability key that a decision can carry
abbrev pub KeyLine : String → Type 0
KeyLine key = check_line key max_summary true ≡ passed tt

abbrev AllKeys : {W : Type 0} → Round W → Type 0
AllKeys r = All (λ (f : ReflexFiring). KeyLine f.capability_key) r.firings

module _ {W : Type 0} (env : HandoffEnvelope) where
  report_keys :
      (f : ReflexFiring) (r : Round W) → KeyLine f.capability_key → AllKeys r → AllKeys (report f r)
  unfolding report
  report_keys f r k h =
      All-append (λ (g : ReflexFiring). KeyLine g.capability_key) r.firings (f ∷ []) h (k, tt)

  note_applied_firings :
      (key : String) (r s : Round W)
      → note_applied env.task_id key r ≡ some s
      → s.firings ≡ r.firings
  unfolding note_applied
  note_applied_firings key r s e = elim (Option-cases (mark env.task_id key r.kit.log)) [
    | inl bad ↦ absurd (ground (arith, bad, e))
    | inr (log, m) ↦
        let after : Round W = record r {
          kit = record r.kit {
            log = log;
            policy = record r.kit.policy { applied = r.kit.policy.applied + 1 };
          };
        } in
        let p : after ≡ s = ground (arith, m, e) in ap (λ (u : Round W). u.firings) (sym p)
  ]

  after_run_keys :
      (key ask : String) (o : RunOutcome) (r r' : Round W)
      → after_run env key ask o r ≡ some r'
      → KeyLine key
      → AllKeys r
      → AllKeys r'
  unfolding after_run
  after_run_keys key ask (returned true) r r' e k h =
      elim (Option-cases (note_applied env.task_id key r)) [
        | inl bad ↦ absurd (ground (arith, bad, e))
        | inr (s, m) ↦
            let f : ReflexFiring = record {
              ask = ask;
              capability_key = key;
              applied = true;
              note = "";
            } in
            let p : report f s ≡ r' = ground (arith, m, e) in
            subst AllKeys p (
              report_keys f s k (
                subst (All (λ (g : ReflexFiring). KeyLine g.capability_key))
                  (sym (note_applied_firings key r s m)) h))
      ]
  after_run_keys key ask (returned false) r r' e k h =
      subst AllKeys (some_eq e) (report_keys _ r k h)
  after_run_keys key ask (exception name) r r' e k h =
      subst AllKeys (some_eq e) (report_keys _ r k h)

  one_keys :
      (rule : ReflexRule W) (s s' : Round W)
      → KeyLine rule.capability_key
      → fire_one env rule s ≡ some s'
      → AllKeys s
      → AllKeys s'
  unfolding report
  one_keys rule s s' k e h = elim (fire_one-Sound env rule s s' e) [
    | inl same ↦ subst AllKeys same h
    | inr (ask, fired, x, y) ↦ elim fired [
      | Fired.prior old said ↦
          subst AllKeys said (report_keys (prior_firing ask rule.capability_key) s k h)
      | Fired.declined said ↦ subst AllKeys said h
      | Fired.ran go after ↦
          after_run_keys rule.capability_key ask _ (running env rule ask s) s' after k h
    ]
  ]

  each_keys :
      (rules : List (ReflexRule W))
      → All (λ (rule : ReflexRule W). KeyLine rule.capability_key) rules
      → All
          (λ rule. (s s' : Round W) → fire_one env rule s ≡ some s' → AllKeys s → AllKeys s')
          rules
  each_keys [] h = tt
  each_keys (rule ∷ rules) h = (λ s s' e k. one_keys rule s s' h.0 e k, each_keys rules h.1)

  fire_reflexes_keys :
      (kit : ReflexKit W) (w : W) (r : Round W)
      → All (λ (rule : ReflexRule W). KeyLine rule.capability_key) kit.bank
      → fire_reflexes env kit w ≡ some r
      → AllKeys r
  unfolding fire_reflexes
  fire_reflexes_keys kit w r keys e =
      fire_each-keeps env AllKeys kit.bank _ r (each_keys kit.bank keys) e tt

-- A kit whose keys can be written: as a note of the task, and as the capability of a decision; and
-- a counter within its cap.
abbrev pub KitFits : {W : Type 0} → HandoffEnvelope → Option (ReflexKit W) → Type 0
KitFits env none = Unit
KitFits env (some kit) =
    All (λ (rule : ReflexRule _). note_ok env.task_id rule.capability_key ≡ true) kit.bank
    × All (λ (rule : ReflexRule _). KeyLine rule.capability_key) kit.bank
    × HasRoom kit.policy.max_applies kit.policy.applied

elem_line :
    (asks : List String) (a : String)
    → All (λ ask. check_line ask max_line true ≡ passed tt) asks
    → elem a asks ≡ true
    → check_line a max_line true ≡ passed tt
elem_line [] a h e = absurd (ground (arith, e))
elem_line (x ∷ asks) a h e = elim (Bool-cases (x == a)) [
  | inl same ↦ ap (λ z. check_line z max_line true) (sym ((eq_iff x a).0 same)) ∙ h.0
  | inr other ↦ elem_line asks a h.1 (ground (arith, other, e))
]

reportable :
    (asks : List String) (fs : List ReflexFiring)
    → All (λ ask. check_line ask max_line true ≡ passed tt) asks
    → All (λ (f : ReflexFiring). elem f.ask asks ≡ true) fs
    → All (λ (f : ReflexFiring). KeyLine f.capability_key) fs
    → All IsReportable fs × Within (asks_of_firings fs) asks
reportable asks [] lines there keys = (tt, tt)
reportable asks (f ∷ fs) lines there keys =
    let (rest, within) = reportable asks fs lines there.1 keys.1 in
    (((elem_line asks f.ask lines there.0, keys.0), rest), (there.0, within))

-- what a run of the reflexes leaves for the decisions
pub record IsFired {W : Type 0} (env : HandoffEnvelope) (r : Ran (List ReflexFiring × Desk W))
    : Type 0 where
  pub firings : List ReflexFiring
  pub desk : Desk W
  pub fired : r ≡ ran (firings, desk)
  pub can_report : All IsReportable firings
  pub within : Within (asks_of_firings firings) env.asks
  pub once : Distinct (asks_of_firings firings)

fire_with-IsFired :
    {W : Type 0} (env : HandoffEnvelope) (o : Option (ReflexKit W)) (d : Desk W)
    → KitFits env o
    → All (λ ask. check_line ask max_line true ≡ passed tt) env.asks
    → IsFired env (fire_with env o d)
unfolding fire_with
fire_with-IsFired env none d fits lines = record {
  firings = [];
  desk = d;
  fired = refl;
  can_report = tt;
  within = tt;
  once = tt;
}
fire_with-IsFired env (some kit) d fits lines =
    let (r, run) = fire_reflexes-some env kit d.world fits.0 in
    let sound = fire_reflexes-IsSound env kit d.world r fits.2 run in
    let keys = fire_reflexes_keys env kit d.world r fits.1 run in
    let (can, within) = reportable env.asks r.firings lines sound.asked keys in
    record {
      firings = r.firings;
      desk = record d { kit = some r.kit; world = r.world };
      fired = rw (fire_with, run) refl;
      can_report = can;
      within = within;
      once = sound.once;
    }

pub fire-IsFired :
    {W : Type 0} (env : HandoffEnvelope) (d : Desk W)
    → KitFits env d.kit
    → All (λ ask. check_line ask max_line true ≡ passed tt) env.asks
    → (env.kind == "notice") ≡ true
    → IsFired env (fire env d)
unfolding fire
fire-IsFired env d fits lines kind = rw kind (fire_with-IsFired env d.kit d fits lines)
