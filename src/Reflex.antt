-- ===== src/Reflex.antt =====
-- The safe-direction reflex: src/clonway_cockpit/reflex.py. The executor of a rule is the worker's,
-- so it acts on a world `W` that the model knows nothing of. The policy of a kit reads the log of
-- the same kit. `none` is the ValueError that `remember` raises in `ReflexLog.mark`.
mod Tests
pub mod Sound
pub mod Fire
pub mod Again
use clonway_cockpit.Prelude.{
  ℕ, zero, suc, ◌+◌, ◌-◌, ◌*◌, ◌/◌, ◌%◌, ◌≤◌, ◌<◌, min, max, String, ◌≡◌, refl, sym, ap, ◌∙◌, ◌≢◌,
  ◌↔◌, ◌⊎◌, inl, inr, Bool, true, false, not, ◌&&◌, ◌||◌, Option, none, some, List, [], ◌∷◌, ◌++◌,
  map, arith, ◌==◌, eq_iff, eq_refl, ltb, leb, nat_eq, if◌then◌else◌, ltb→lt, leb→le, Bool-cases,
  Option-cases, is_some, length, take, drop, any, all, keep, All, length-append, elem, Distinct,
  elem-append, All-append,
}
use clonway_cockpit.Prelude.Texts.{
  strip, any_char, text_append, text_take, lower, strip_of, map_char,
}
use clonway_cockpit.Value.{
  Value, Items, Fields, null, bool, str, no_members, member, lookup, lookup_or, is_false, is_true,
}
use clonway_cockpit.Handoff.{HandoffEnvelope, ClaimedFact, is_safe_slug, slug_char, is_newline}
use Prim.Native.Char.{Char, code}

abbrev pub max_key_slug : ℕ
max_key_slug = 48

-- _KEY_SLUG.sub("-", s)
unfoldable pub dash_out : String → String
dash_out = map_char (λ c. if slug_char (code c) then c else "-")

-- what strip("-_") takes off
unfoldable pub is_dash : ℕ → Bool
is_dash c = nat_eq c b'-' || nat_eq c b'_'

-- _slug_key
unfoldable pub slug_key : String → String
unfolding dash_out is_dash
slug_key key =
    let slug = text_take max_key_slug (strip_of is_dash (dash_out (lower key))) in
    if slug == "" then "key" else slug

pub data RunOutcome : Type 0 where
  returned : Bool → RunOutcome
  exception : String → RunOutcome

pub record ReflexRule (W : Type 0) : Type 0 where
  pub capability_key : String
  pub description : String
  pub matcher : HandoffEnvelope → Option String
  pub run : Fields → W → RunOutcome × W

-- `memory` holds the names of the notes in the persona's working memory, if there is one
pub record ReflexLog : Type 0 where
  pub seen_pairs : List (String × String)
  pub memory : Option (List String)

unfoldable pub note_name : String → String → String
unfolding slug_key
note_name task_id key = text_append "reflex-" (text_append task_id (text_append "-" (slug_key key)))

unfoldable pub pair_seen : String → String → List (String × String) → Bool
pair_seen task_id key [] = false
pair_seen task_id key ((t, k) ∷ pairs) = (t == task_id && k == key) || pair_seen task_id key pairs

-- ReflexLog.seen
unfoldable pub seen : String → String → ReflexLog → Bool
seen task_id key log =
    pair_seen task_id key log.seen_pairs
    || (elim log.memory [ none ↦ false | some notes ↦ elem (note_name task_id key) notes ])

-- the checks of `remember` on the name and the summary of the note
unfoldable pub note_ok : String → String → Bool
note_ok task_id key =
    is_safe_slug (note_name task_id key)
    && not (any_char is_newline (strip (text_append key (text_append " applied for #" task_id))))

-- ReflexLog.mark
unfoldable pub mark : String → String → ReflexLog → Option ReflexLog
mark task_id key log = elim log.memory [
  | none ↦ some (record { seen_pairs = (task_id, key) ∷ log.seen_pairs; memory = none })
  | some notes ↦
      if note_ok task_id key
      then some (record {
        seen_pairs = (task_id, key) ∷ log.seen_pairs;
        memory = some (note_name task_id key ∷ notes);
      })
      else none
]

pub record ReflexPolicy : Type 0 where
  pub keys : List String
  pub max_applies : Option ℕ
  pub applied : ℕ

unfoldable pub blank_text : Value → Bool
blank_text (str s) = strip s == ""
blank_text _ = true

unfoldable pub listed_key : List String → Value → Bool
listed_key keys (str s) = elem s keys
listed_key keys _ = false

unfoldable pub slug_text : Value → Bool
slug_text (str s) = is_safe_slug s
slug_text _ = false

unfoldable pub seen_values : Value → Value → ReflexLog → Bool
seen_values (str task_id) (str key) log = seen task_id key log
seen_values _ _ log = true

unfoldable pub under_max : ReflexPolicy → Bool
under_max p = elim p.max_applies [ none ↦ true | some n ↦ ltb p.applied n ]

-- the direction and the provenance that the policy insists on
unfoldable pub is_safe_proposal : List String → Fields → Bool
unfolding blank_text listed_key slug_text
is_safe_proposal keys m =
    is_false (lookup_or (bool false) "money_movement" m)
    && is_true (lookup_or null "blocking" m)
    && listed_key keys (lookup_or null "capability_key" m)
    && not (blank_text (lookup_or null "provenance" m))
    && slug_text (lookup_or null "task_id" m)

-- ReflexPolicy.__call__
unfoldable pub approves : ReflexPolicy → ReflexLog → Fields → Bool
unfolding is_safe_proposal seen_values under_max
approves p log m =
    is_safe_proposal p.keys m
    && not (seen_values (lookup_or null "task_id" m) (lookup_or null "capability_key" m) log)
    && under_max p

unfoldable pub first_provenance : String → List ClaimedFact → String
first_provenance origin [] = ""
first_provenance origin (f ∷ fs) =
    if f.claimant == origin && not (f.provenance == "")
    then f.provenance
    else first_provenance origin fs

-- build_proposal
unfoldable pub build_proposal : HandoffEnvelope → String → String → Fields
build_proposal env capability_key ask = member "capability_key" (str capability_key) (
    member "money_movement" (bool false) (
      member "blocking" (bool true) (
        member "task_id" (str env.task_id) (
          member "ask" (str ask) (
            member "summary" (str env.summary) (
              member "provenance" (str (first_provenance env.origin env.facts))
                (member "origin" (str env.origin) no_members)))))))

pub record ReflexFiring : Type 0 where
  pub ask : String
  pub capability_key : String
  pub applied : Bool
  pub note : String

pub data AuditOutcome : Type 0 where
  approved refused : AuditOutcome

pub record ReflexKit (W : Type 0) : Type 0 where
  pub bank : List (ReflexRule W)
  pub policy : ReflexPolicy
  pub log : ReflexLog
  pub has_audit : Bool
  -- what the sink was called with: the outcome, the capability and the reference
  pub audited : List (AuditOutcome × String × String)

-- the state of the loop in `fire_reflexes`: the kit, the firings, the asks covered, the world
pub record Round (W : Type 0) : Type 0 where
  pub kit : ReflexKit W
  pub firings : List ReflexFiring
  pub covered : List String
  pub world : W

module _ {W : Type 0} where
  -- ReflexBank.register: `none` is the ValueError of a duplicate key
  unfoldable pub register : ReflexRule W → List (ReflexRule W) → Option (List (ReflexRule W))
  register rule rules =
      if any (λ (r : ReflexRule W). r.capability_key == rule.capability_key) rules
      then none
      else some (rules ++ rule ∷ [])

  unfoldable pub audit_reflex : AuditOutcome → String → String → ReflexKit W → ReflexKit W
  audit_reflex outcome task_id key kit =
      if kit.has_audit
      then record kit { audited = kit.audited ++ (outcome, key, note_name task_id key) ∷ [] }
      else kit

  unfoldable pub report : ReflexFiring → Round W → Round W
  report f r = record r { firings = r.firings ++ f ∷ []; covered = f.ask ∷ r.covered }

  -- what follows an executor that applied
  unfoldable pub note_applied : String → String → Round W → Option (Round W)
  note_applied task_id key r = elim (mark task_id key r.kit.log) [
    | none ↦ none
    | some log ↦ some (record r {
      kit = record r.kit {
        log = log;
        policy = record r.kit.policy { applied = r.kit.policy.applied + 1 };
      };
    })
  ]

  -- what follows the executor
  unfoldable pub after_run :
      HandoffEnvelope → String → String → RunOutcome → Round W → Option (Round W)
  unfolding report note_applied
  after_run env key ask (returned true) r = elim (note_applied env.task_id key r) [
    | none ↦ none
    | some r' ↦
        some (report (record { ask = ask; capability_key = key; applied = true; note = "" }) r')
  ]
  after_run env key ask (returned false) r = some (
      report
        (record {
          ask = ask;
          capability_key = key;
          applied = false;
          note = "executor reported not applied";
        })
        r)
  after_run env key ask (exception name) r = some (
      report
        (record {
          ask = ask;
          capability_key = key;
          applied = false;
          note = text_append "reflex execution failed: " name;
        })
        r)

  -- the body of the loop, once the rule has matched a new ask of the envelope
  unfoldable pub fire_matched : HandoffEnvelope → ReflexRule W → String → Round W → Option (Round W)
  unfolding after_run audit_reflex report
  fire_matched env rule ask r =
      let key = rule.capability_key in
      if seen env.task_id key r.kit.log
      then some (
          report
            (record {
              ask = ask;
              capability_key = key;
              applied = true;
              note = "previously applied";
            })
            r)
      else let proposal = build_proposal env key ask in
        if not (approves r.kit.policy r.kit.log proposal)
        then some (record r { kit = audit_reflex refused env.task_id key r.kit })
        else let (outcome, world) = rule.run proposal r.world in
          after_run env key ask outcome
            (record r { kit = audit_reflex approved env.task_id key r.kit; world = world })

  -- one round of `for rule in kit.bank.rules()`
  unfoldable pub fire_one : HandoffEnvelope → ReflexRule W → Round W → Option (Round W)
  unfolding fire_matched
  fire_one env rule r = elim (rule.matcher env) [
    | none ↦ some r
    | some ask ↦
        if not (elem ask env.asks) || elem ask r.covered
        then some r
        else fire_matched env rule ask r
  ]

  unfoldable pub fire_each : HandoffEnvelope → List (ReflexRule W) → Round W → Option (Round W)
  unfolding fire_one
  fire_each env [] r = some r
  fire_each env (rule ∷ rules) r = elim (fire_one env rule r) [
    | none ↦ none
    | some r' ↦ fire_each env rules r'
  ]

  -- fire_reflexes
  unfoldable pub fire_reflexes : HandoffEnvelope → ReflexKit W → W → Option (Round W)
  unfolding fire_each
  fire_reflexes env kit world =
      fire_each env kit.bank (record { kit = kit; firings = []; covered = []; world = world })
