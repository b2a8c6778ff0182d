-- ===== src/Handoff/Shape.antt =====
-- What an envelope that passed `HandoffEnvelope.__post_init__` looks like, kind by kind.
use clonway_cockpit.Prelude.{
  ◌≤◌, String, ◌≡◌, refl, ◌≢◌, ◌⊎◌, inl, inr, true, false, List, [], ◌∷◌, arith, ◌==◌, eq_iff,
  length,
}
use clonway_cockpit.Prelude.Texts.{len}
use clonway_cockpit.Handoff.{
  passed, HandoffEnvelope, is_safe_slug, check_handle, check_line, check_each, check_shape,
  check_envelope, is_empty, max_task_id, max_items, max_steps, max_line, max_summary, is_version_1,
}

-- the two addressed kinds and the owner-facing one
pub data Shape (env : HandoffEnvelope) : Type 0 where
  notice :
      env.kind ≡ "notice"
      → is_safe_slug env.recipient ≡ true
      → env.decisions ≡ []
      → env.steps ≡ []
      → Shape env
  response :
      env.kind ≡ "response"
      → is_safe_slug env.recipient ≡ true
      → env.facts ≡ []
      → env.asks ≡ []
      → env.steps ≡ []
      → env.decisions ≢ []
      → Shape env
  plan :
      env.kind ≡ "plan"
      → env.recipient ≡ ""
      → env.facts ≡ []
      → env.asks ≡ []
      → env.decisions ≡ []
      → env.steps ≢ []
      → Shape env

pub record IsValid (env : HandoffEnvelope) : Type 0 where
  pub shape : Shape env
  pub task_slug : is_safe_slug env.task_id ≡ true
  pub task_short : len env.task_id ≤ max_task_id
  pub origin_slug : is_safe_slug env.origin ≡ true
  pub summary_line : check_line env.summary max_summary true ≡ passed tt
  pub ask_lines : check_each (λ ask. check_line ask max_line true) env.asks ≡ passed tt
  pub few_facts : length env.facts ≤ max_items
  pub few_asks : length env.asks ≤ max_items
  pub few_decisions : length env.decisions ≤ max_items
  pub few_steps : length env.steps ≤ max_steps
  pub version : is_version_1 env.schema_version ≡ true

is_empty-eq {ℓ} : {A : Type ℓ} (xs : List A) → is_empty xs ≡ true → xs ≡ []
is_empty-eq [] h = refl
is_empty-eq (x ∷ xs) h = cc

not-is_empty {ℓ} : {A : Type ℓ} (xs : List A) → is_empty xs ≡ false → xs ≢ []
not-is_empty [] h e = cc
not-is_empty (x ∷ xs) h e = cc

handle_slug : (v : String) → check_handle v false ≡ passed tt → is_safe_slug v ≡ true
unfolding check_handle
handle_slug v h = ground arith

module _ (env : HandoffEnvelope) (checked : check_envelope env ≡ passed tt) where
  shape_checked : check_shape env ≡ passed tt
  unfolding check_envelope
  shape_checked = ground arith

  kind_cases : (env.kind ≡ "notice") ⊎ ((env.kind ≡ "response") ⊎ (env.kind ≡ "plan"))
  unfolding check_envelope
  kind_cases =
      ground (arith, eq_iff "notice" env.kind, eq_iff "response" env.kind, eq_iff "plan" env.kind)

  notice_parts :
      env.kind ≡ "notice"
      → (check_handle env.recipient false ≡ passed tt)
        × (is_empty env.decisions ≡ true)
        × (is_empty env.steps ≡ true)
  unfolding check_shape
  notice_parts e = let n : (env.kind == "notice") ≡ true = rw e in ground (arith, shape_checked)

  response_parts :
      env.kind ≡ "response"
      → (check_handle env.recipient false ≡ passed tt)
        × (is_empty env.facts ≡ true)
        × (is_empty env.asks ≡ true)
        × (is_empty env.steps ≡ true)
        × (is_empty env.decisions ≡ false)
  unfolding check_shape
  response_parts e =
      let n : (env.kind == "notice") ≡ false = rw e in
      let r : (env.kind == "response") ≡ true = rw e in ground (arith, shape_checked)

  plan_parts :
      env.kind ≡ "plan"
      → ((env.recipient == "") ≡ true)
        × (is_empty env.facts ≡ true)
        × (is_empty env.asks ≡ true)
        × (is_empty env.decisions ≡ true)
        × (is_empty env.steps ≡ false)
  unfolding check_shape
  plan_parts e =
      let n : (env.kind == "notice") ≡ false = rw e in
      let r : (env.kind == "response") ≡ false = rw e in ground (arith, shape_checked)

  checked-Shape : Shape env
  checked-Shape = elim kind_cases [
    | inl e ↦
        let p = notice_parts e in
        Shape.notice e (handle_slug _ p.0) (is_empty-eq _ p.1) (is_empty-eq _ p.2)
    | inr (inl e) ↦
        let p = response_parts e in
        Shape.response e (handle_slug _ p.0) (is_empty-eq _ p.1) (is_empty-eq _ p.2)
          (is_empty-eq _ p.3) (not-is_empty _ p.4)
    | inr (inr e) ↦
        let p = plan_parts e in
        Shape.plan e ((eq_iff env.recipient "").0 p.0) (is_empty-eq _ p.1) (is_empty-eq _ p.2)
          (is_empty-eq _ p.3) (not-is_empty _ p.4)
  ]

  -- An envelope that passes the checks of its constructor is well formed: safe slugs, bounded
  -- single-line texts and counts, and the fields that its kind allows, no others.
  pub check_envelope-IsValid : IsValid env
  unfolding check_envelope
  check_envelope-IsValid = record {
    shape = checked-Shape;
    task_slug = handle_slug _ (ground arith);
    task_short = ground arith;
    origin_slug = handle_slug _ (ground arith);
    summary_line = ground arith;
    ask_lines = ground arith;
    few_facts = ground arith;
    few_asks = ground arith;
    few_decisions = ground arith;
    few_steps = ground arith;
    version = ground arith;
  }
