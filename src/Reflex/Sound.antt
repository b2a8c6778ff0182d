-- ===== src/Reflex/Sound.antt =====
-- reflex.py
-- What a round of `fire_reflexes` keeps: the firings, the asks covered, the log and the counter.
use clonway_cockpit.Prelude.{
  ℕ, ◌+◌, ◌≤◌, String, ◌≡◌, refl, sym, ap, ◌∙◌, inl, inr, Bool, true, false, not, ◌||◌, Option,
  none, some, List, [], ◌∷◌, ◌++◌, map, arith, eq_iff, eq_refl, Bool-cases, Option-cases, All, elem,
  Distinct, elem-append, All-append,
}
use clonway_cockpit.Prelude.Texts.{text_append}
use clonway_cockpit.Value.{Fields}
use clonway_cockpit.Handoff.{HandoffEnvelope}
use clonway_cockpit.Reflex.{
  RunOutcome, returned, exception, ReflexLog, ReflexPolicy, ReflexFiring, ReflexKit, Round,
  AuditOutcome, pair_seen, seen, mark, under_max, approves, audit_reflex, report, note_applied,
  after_run,
}

abbrev pub asks_of : List ReflexFiring → List String
asks_of = map (λ (f : ReflexFiring). f.ask)

-- an applied firing is in the log
abbrev pub is_logged : String → ReflexLog → ReflexFiring → Bool
is_logged task_id log f = not f.applied || seen task_id f.capability_key log

abbrev pub HasRoom : Option ℕ → ℕ → Type 0
HasRoom none n = Unit
HasRoom (some cap) n = n ≤ cap

pub record IsSound {W : Type 0} (env : HandoffEnvelope) (r : Round W) : Type 0 where
  pub asked : All (λ (f : ReflexFiring). elem f.ask env.asks ≡ true) r.firings
  pub once : Distinct (asks_of r.firings)
  pub logged : All (λ (f : ReflexFiring). is_logged env.task_id r.kit.log f ≡ true) r.firings
  pub within : HasRoom r.kit.policy.max_applies r.kit.policy.applied
  pub covers : (a : String) → elem a r.covered ≡ elem a (asks_of r.firings)

Distinct-snoc :
    (xs : List String) (a : String) → Distinct xs → elem a xs ≡ false → Distinct (xs ++ a ∷ [])
Distinct-snoc [] a h new = (refl, tt)
Distinct-snoc (x ∷ xs) a h new =
    let h0 = h.0 in
    (
      ground (arith, elem-append x xs (a ∷ []), eq_iff x a, eq_iff a x),
      Distinct-snoc xs a h.1 (ground arith),
    )

asks_of-snoc :
    (fs : List ReflexFiring) (f : ReflexFiring) → asks_of (fs ++ f ∷ []) ≡ asks_of fs ++ f.ask ∷ []
asks_of-snoc [] f = refl
asks_of-snoc (g ∷ fs) f = ap (λ (l : List String). g.ask ∷ l) (asks_of-snoc fs f)

seen-mark :
    (task_id key : String) (log log' : ReflexLog)
    → mark task_id key log ≡ some log'
    → seen task_id key log' ≡ true
unfolding mark seen pair_seen
seen-mark task_id key log log' h = ground (arith, eq_refl task_id, eq_refl key)

seen-mark_keeps :
    (task_id key t k : String) (log log' : ReflexLog)
    → mark task_id key log ≡ some log'
    → seen t k log ≡ true
    → seen t k log' ≡ true
unfolding mark seen pair_seen
seen-mark_keeps task_id key t k log log' h s = ground arith

logged-mark :
    (task_id key : String) (log log' : ReflexLog) (fs : List ReflexFiring)
    → mark task_id key log ≡ some log'
    → All (λ (f : ReflexFiring). is_logged task_id log f ≡ true) fs
    → All (λ (f : ReflexFiring). is_logged task_id log' f ≡ true) fs
logged-mark task_id key log log' [] m h = tt
logged-mark task_id key log log' (f ∷ fs) m h =
    let h0 = h.0 in
    (
      ground (arith, h0, seen-mark_keeps task_id key task_id f.capability_key log log' m),
      logged-mark task_id key log log' fs m h.1,
    )

HasRoom-next :
    (p : ReflexPolicy)
    → HasRoom p.max_applies p.applied
    → under_max p ≡ true
    → HasRoom p.max_applies (p.applied + 1)
unfolding under_max
HasRoom-next p h room = ground arith

module _ {W : Type 0} (env : HandoffEnvelope) where
  pub report-IsSound :
      (f : ReflexFiring) (r : Round W)
      → elem f.ask env.asks ≡ true
      → elem f.ask r.covered ≡ false
      → is_logged env.task_id r.kit.log f ≡ true
      → IsSound env r
      → IsSound env (report f r)
  unfolding report
  report-IsSound f r there new l h = record {
    asked =
        All-append (λ (g : ReflexFiring). elem g.ask env.asks ≡ true) r.firings (f ∷ []) h.asked
          (there, tt);
    once =
        rw asks_of-snoc
          (Distinct-snoc (asks_of r.firings) f.ask h.once (sym (h.covers f.ask) ∙ new));
    logged =
        All-append (λ (g : ReflexFiring). is_logged env.task_id r.kit.log g ≡ true) r.firings
          (f ∷ []) h.logged (l, tt);
    within = h.within;
    covers = λ a. rw (asks_of-snoc, elem-append) (ground (arith, h.covers a));
  }

  note_applied-IsSound :
      (key : String) (r r' : Round W)
      → note_applied env.task_id key r ≡ some r'
      → under_max r.kit.policy ≡ true
      → IsSound env r
      → IsSound env r' × (seen env.task_id key r'.kit.log ≡ true) × (r'.covered ≡ r.covered)
  unfolding note_applied under_max
  note_applied-IsSound key r r' e room h = elim (Option-cases (mark env.task_id key r.kit.log)) [
    | inl bad ↦ absurd (ground (arith, bad, e))
    | inr (log, m) ↦
        let after : Round W = record r {
          kit = record r.kit {
            log = log;
            policy = record r.kit.policy { applied = r.kit.policy.applied + 1 };
          };
        } in
        let p : after ≡ r' = ground (arith, m, e) in
        rw (← p) (
          record {
            asked = h.asked;
            once = h.once;
            logged = logged-mark env.task_id key r.kit.log log r.firings m h.logged;
            within = HasRoom-next r.kit.policy h.within room;
            covers = h.covers;
          },
          seen-mark env.task_id key r.kit.log log m,
          refl,
        )
  ]

  pub after_run-IsSound :
      (key ask : String) (o : RunOutcome) (r r' : Round W)
      → after_run env key ask o r ≡ some r'
      → under_max r.kit.policy ≡ true
      → elem ask env.asks ≡ true
      → elem ask r.covered ≡ false
      → IsSound env r
      → IsSound env r'
  unfolding after_run
  after_run-IsSound key ask (returned true) r r' e room there new h =
      elim (Option-cases (note_applied env.task_id key r)) [
        | inl bad ↦ absurd (ground (arith, bad, e))
        | inr (s, m) ↦
            let (sound, logged, same) = note_applied-IsSound key r s m room h in
            let f : ReflexFiring = record {
              ask = ask;
              capability_key = key;
              applied = true;
              note = "";
            } in
            let p : report f s ≡ r' = ground (arith, m, e) in
            rw (← p) (report-IsSound f s there (rw same new) logged sound)
      ]
  after_run-IsSound key ask (returned false) r r' e room there new h =
      let f : ReflexFiring = record {
        ask = ask;
        capability_key = key;
        applied = false;
        note = "executor reported not applied";
      } in
      let p : report f r ≡ r' = ground (arith, e) in rw (← p) (report-IsSound f r there new refl h)
  after_run-IsSound key ask (exception name) r r' e room there new h =
      let f : ReflexFiring = record {
        ask = ask;
        capability_key = key;
        applied = false;
        note = text_append "reflex execution failed: " name;
      } in
      let p : report f r ≡ r' = ground (arith, e) in rw (← p) (report-IsSound f r there new refl h)

  pub audit-IsSound :
      (o : AuditOutcome) (key : String) (w : W) (r : Round W)
      → IsSound env r
      → IsSound env (record r { kit = audit_reflex o env.task_id key r.kit; world = w })
  unfolding audit_reflex
  audit-IsSound o key w r h = elim (Bool-cases r.kit.has_audit) [
    | inl on ↦ rw on (record {
      asked = h.asked;
      once = h.once;
      logged = h.logged;
      within = h.within;
      covers = h.covers;
    })
    | inr off ↦ rw off (record {
      asked = h.asked;
      once = h.once;
      logged = h.logged;
      within = h.within;
      covers = h.covers;
    })
  ]

  pub audited_under_max :
      (o : AuditOutcome) (key : String) (kit : ReflexKit W)
      → under_max (audit_reflex o env.task_id key kit).policy ≡ under_max kit.policy
  unfolding audit_reflex
  audited_under_max o key kit = ground arith

pub approves-under_max :
    (p : ReflexPolicy) (log : ReflexLog) (m : Fields) → approves p log m ≡ true → under_max p ≡ true
unfolding approves
approves-under_max p log m h = ground arith
