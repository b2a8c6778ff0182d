-- ===== src/Handoff/Payload/Trip.antt =====
-- An envelope that may be composed survives `to_payload` and `from_payload` of handoff.py.
use clonway_cockpit.Prelude.{String, ◌≡◌, refl, true, false, List, [], ◌∷◌, map, arith, all, All}
use clonway_cockpit.Prelude.Int.{ℤ, pos, negsuc}
use clonway_cockpit.Value.{Fields, bool, lookup_or, is_true}
use clonway_cockpit.Handoff.{
  Checked, passed, ClaimedFact, AskDecision, PlanStep, HandoffEnvelope, check_fact, check_decision,
  check_step, check_envelope, compose, is_version_1,
}
use clonway_cockpit.Handoff.Payload.{
  fact_fields, decision_fields, step_fields, to_objects, to_texts, to_payload, str_field, objects,
  item_fields, texts, is_bool, is_int_1, map_ok, read_fact, read_decision, read_step, from_payload,
}

objects-to_objects {ℓ} :
    {A : Type ℓ} (g : A → Fields) (xs : List A) → objects (to_objects g xs) ≡ passed (map g xs)
unfolding objects to_objects
objects-to_objects g [] = refl
objects-to_objects g (x ∷ xs) = rw (objects-to_objects g xs)

texts-to_texts : (ss : List String) → texts (to_texts ss) ≡ passed ss
unfolding texts to_texts
texts-to_texts [] = refl
texts-to_texts (s ∷ ss) = rw (texts-to_texts ss)

map_ok-map {ℓ} :
    {A : Type ℓ} (read : Fields → Checked A) (g : A → Fields) (xs : List A)
    → All (λ x. read (g x) ≡ passed x) xs
    → map_ok read (map g xs) ≡ passed xs
unfolding map_ok
map_ok-map read g [] h = refl
map_ok-map read g (x ∷ xs) h = rw (h.0, map_ok-map read g xs h.1)

read_fact-fields :
    (f : ClaimedFact) → check_fact f ≡ passed tt → read_fact (fact_fields f) ≡ passed f
unfolding read_fact fact_fields str_field lookup_or
read_fact-fields f h = rw h

read_decision-fields :
    (d : AskDecision) → check_decision d ≡ passed tt → read_decision (decision_fields d) ≡ passed d
unfolding read_decision decision_fields str_field lookup_or is_true
read_decision-fields d h = rw h

read_step-fields : (s : PlanStep) → check_step s ≡ passed tt → read_step (step_fields s) ≡ passed s
unfolding read_step step_fields str_field lookup_or
read_step-fields s h = rw h

-- What Python holds of an envelope that was constructed: no `__post_init__` raised.
pub record IsComposed (env : HandoffEnvelope) : Type 0 where
  pub envelope : check_envelope env ≡ passed tt
  pub facts : All (λ f. check_fact f ≡ passed tt) env.facts
  pub decisions : All (λ d. check_decision d ≡ passed tt) env.decisions
  pub steps : All (λ s. check_step s ≡ passed tt) env.steps

All-map {ℓ κ μ} :
    {A : Type ℓ} {P : A → Type κ} {Q : A → Type μ} (f : (x : A) → P x → Q x) (xs : List A)
    → All P xs
    → All Q xs
All-map f [] h = tt
All-map f (x ∷ xs) h = (f x h.0, All-map f xs h.1)

applied_are_bool :
    (ds : List AskDecision)
    → all (λ d. is_bool (lookup_or (bool false) "applied" d)) (map decision_fields ds) ≡ true
unfolding decision_fields lookup_or is_bool
applied_are_bool [] = refl
applied_are_bool (d ∷ ds) = applied_are_bool ds

is_version_1-eq : (v : ℤ) → is_version_1 v ≡ true → v ≡ pos 1
unfolding is_version_1
is_version_1-eq (pos n) h = ground arith
is_version_1-eq (negsuc n) h = cc

version_of_checked :
    (env : HandoffEnvelope)
    → check_envelope env ≡ passed tt
    → is_version_1 env.schema_version ≡ true
unfolding check_envelope
version_of_checked env h = ground arith

-- Every envelope that was constructed comes back from its payload unchanged.
pub from_payload-to_payload :
    (env : HandoffEnvelope) → IsComposed env → from_payload (to_payload env) ≡ passed env
unfolding from_payload to_payload str_field item_fields lookup_or compose is_int_1
from_payload-to_payload env h =
    let v = version_of_checked env h.envelope in
    let facts =
      map_ok-map read_fact fact_fields env.facts (All-map read_fact-fields env.facts h.facts) in
    let decisions =
      map_ok-map read_decision decision_fields env.decisions
        (All-map read_decision-fields env.decisions h.decisions) in
    let steps =
      map_ok-map read_step step_fields env.steps (All-map read_step-fields env.steps h.steps) in
    simp
      (
        texts-to_texts,
        objects-to_objects,
        applied_are_bool,
        v,
        facts,
        decisions,
        steps,
        ← is_version_1-eq env.schema_version v,
      )
      (rw (h.envelope))
