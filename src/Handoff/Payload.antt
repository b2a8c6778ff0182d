-- ===== src/Handoff/Payload.antt =====
-- `to_payload` and `from_payload` of handoff.py: an envelope as a JSON object and back.
pub mod Trip
use clonway_cockpit.Prelude.{
  ℕ, zero, suc, ◌+◌, ◌-◌, ◌*◌, ◌/◌, ◌%◌, ◌≤◌, ◌<◌, min, max, String, ◌≡◌, refl, sym, ap, ◌∙◌, ◌≢◌,
  ◌↔◌, ◌⊎◌, inl, inr, Bool, true, false, not, ◌&&◌, ◌||◌, Option, none, some, List, [], ◌∷◌, ◌++◌,
  map, arith, ◌==◌, eq_iff, eq_refl, ltb, leb, nat_eq, if◌then◌else◌, ltb→lt, leb→le, Bool-cases,
  Option-cases, is_some, length, take, drop, any, all, keep, All, length-append, elem, Distinct,
  elem-append, All-append,
}
use clonway_cockpit.Prelude.Int.{ℤ, pos, negsuc}
use clonway_cockpit.Value.{
  Value, Items, Fields, null, bool, int, float, str, arr, obj, no_items, item, no_members, member,
  lookup, lookup_or, is_true,
}
use clonway_cockpit.Handoff.{
  Checked, passed, raised, ◌>>=◌, ◌>>◌, require, HandoffError, not_a_string, bad_schema_version,
  not_an_object, not_a_list, applied_not_bool, ClaimedFact, AskDecision, PlanStep, HandoffEnvelope,
  check_fact, check_decision, check_step, compose, is_version_1,
}

unfoldable pub fact_fields : ClaimedFact → Fields
fact_fields f =
    member "text" (str f.text)
      (member "claimant" (str f.claimant) (member "provenance" (str f.provenance) no_members))

unfoldable pub decision_fields : AskDecision → Fields
decision_fields d =
    (member "ask" (str d.ask) (
      member "decision" (str d.decision) (
        member "redirect" (str d.redirect) (
          member "note" (str d.note) (
            member "capability" (str d.capability)
              (member "applied" (bool d.applied) no_members))))))

unfoldable pub step_fields : PlanStep → Fields
step_fields s =
    (member "owner" (str s.owner)
      (member "action" (str s.action) (member "status" (str s.status) no_members)))

-- [{...} for x in xs] as a JSON list
unfoldable pub to_objects {ℓ} : {A : Type ℓ} → (A → Fields) → List A → Items
to_objects f [] = no_items
to_objects f (x ∷ xs) = item (obj (f x)) (to_objects f xs)

-- list(env.asks)
unfoldable pub to_texts : List String → Items
to_texts [] = no_items
to_texts (s ∷ ss) = item (str s) (to_texts ss)

unfoldable pub to_payload : HandoffEnvelope → Value
to_payload env = obj (
    member "kind" (str env.kind) (
      member "task_id" (str env.task_id) (
        member "origin" (str env.origin) (
          member "recipient" (str env.recipient) (
            member "summary" (str env.summary) (
              member "schema_version" (int env.schema_version) (
                member "facts" (arr (to_objects fact_fields env.facts)) (
                  member "asks" (arr (to_texts env.asks)) (
                    member "decisions" (arr (to_objects decision_fields env.decisions))
                      (member "steps" (arr (to_objects step_fields env.steps)) no_members))))))))))

as_text : Value → Checked String
as_text (str s) = passed s
as_text _ = raised not_a_string

-- _str_field
unfoldable pub str_field : Fields → String → Checked String
unfolding as_text
str_field m key = as_text (lookup_or (str "") key m)

objects : Items → Checked (List Fields)
objects no_items = passed []
objects (item (obj m) vs) = do ms ← objects vs; passed (m ∷ ms)
objects (item v vs) = raised not_a_list

as_objects : Value → Checked (List Fields)
as_objects (arr vs) = objects vs
as_objects _ = raised not_a_list

-- _items
unfoldable pub item_fields : Fields → String → Checked (List Fields)
unfolding objects as_objects
item_fields m key = as_objects (lookup_or (arr no_items) key m)

texts : Items → Checked (List String)
texts no_items = passed []
texts (item (str s) vs) = do ss ← texts vs; passed (s ∷ ss)
texts (item v vs) = raised not_a_list

as_texts : Value → Checked (List String)
as_texts (arr vs) = texts vs
as_texts _ = raised not_a_list

is_bool : Value → Bool
is_bool (bool b) = true
is_bool _ = false

is_int_1 : Value → Bool
is_int_1 (int v) = is_version_1 v
is_int_1 _ = false

-- tuple(f(x) for x in xs), where f may raise
unfoldable pub map_ok {ℓ κ} :
    {A : Type ℓ} {B : Type κ} → (A → Checked B) → List A → Checked (List B)
map_ok f [] = passed []
map_ok f (x ∷ xs) = do y ← f x; ys ← map_ok f xs; passed (y ∷ ys)

unfoldable pub read_fact : Fields → Checked ClaimedFact
read_fact m = do
  text ← str_field m "text"
  claimant ← str_field m "claimant"
  provenance ← str_field m "provenance"
  let f : ClaimedFact = record { text = text; claimant = claimant; provenance = provenance }
  check_fact f
  passed f

unfoldable pub read_decision : Fields → Checked AskDecision
read_decision m = do
  ask ← str_field m "ask"
  decision ← str_field m "decision"
  redirect ← str_field m "redirect"
  note ← str_field m "note"
  capability ← str_field m "capability"
  let d : AskDecision = record {
    ask = ask;
    decision = decision;
    redirect = redirect;
    note = note;
    capability = capability;
    applied = is_true (lookup_or (bool false) "applied" m);
  }
  check_decision d
  passed d

unfoldable pub read_step : Fields → Checked PlanStep
read_step m = do
  owner ← str_field m "owner"
  action ← str_field m "action"
  status ← str_field m "status"
  let s : PlanStep = record { owner = owner; action = action; status = status }
  check_step s
  passed s

-- the body of `from_payload`, for a JSON object
unfoldable pub read_envelope : Fields → Checked HandoffEnvelope
unfolding is_bool is_int_1 texts as_texts
read_envelope m = do
  require (is_int_1 (lookup_or null "schema_version" m)) bad_schema_version
  asks ← as_texts (lookup_or (arr no_items) "asks" m)
  raw ← item_fields m "decisions"
  require (all (λ d. is_bool (lookup_or (bool false) "applied" d)) raw) applied_not_bool
  kind ← str_field m "kind"
  task_id ← str_field m "task_id"
  origin ← str_field m "origin"
  recipient ← str_field m "recipient"
  summary ← str_field m "summary"
  raw_facts ← item_fields m "facts"
  facts ← map_ok read_fact raw_facts
  decisions ← map_ok read_decision raw
  raw_steps ← item_fields m "steps"
  steps ← map_ok read_step raw_steps
  compose (record {
    kind = kind;
    task_id = task_id;
    origin = origin;
    summary = summary;
    recipient = recipient;
    facts = facts;
    asks = asks;
    decisions = decisions;
    steps = steps;
    schema_version = pos 1;
  })

unfoldable pub from_payload : Value → Checked HandoffEnvelope
unfolding read_envelope
from_payload (obj m) = read_envelope m
from_payload _ = raised not_an_object
