-- ===== src/Handoff.antt =====
-- Cross-worker handoff envelopes: src/clonway_cockpit/handoff.py, with `is_safe_slug` of
-- shared_memory.py. A text field has type `String`, so the `isinstance` guards of the validators
-- stand where a payload is decoded. Each `raise HandoffError` is an error value of its own.
pub mod Payload
pub mod Shape
pub mod Checks
mod Tests
use clonway_cockpit.Prelude.{
  ℕ, zero, suc, ◌+◌, ◌-◌, ◌*◌, ◌/◌, ◌%◌, ◌≤◌, ◌<◌, min, max, String, ◌≡◌, refl, sym, ap, ◌∙◌, ◌≢◌,
  ◌↔◌, ◌⊎◌, inl, inr, Bool, true, false, not, ◌&&◌, ◌||◌, Option, none, some, List, [], ◌∷◌, ◌++◌,
  map, arith, ◌==◌, eq_iff, eq_refl, ltb, leb, nat_eq, if◌then◌else◌, ltb→lt, leb→le, Bool-cases,
  Option-cases, is_some, length, take, drop, any, all, keep, All, length-append, elem, Distinct,
  elem-append, All-append,
}
use clonway_cockpit.Prelude.Texts.{len, strip, any_char, all_char}
use clonway_cockpit.Prelude.Int.{ℤ, pos, negsuc}
use Prim.Native.Char.{code}

pub data HandoffError : Type 0 where
  not_a_string not_stripped not_single_line empty_line line_too_long : HandoffError
  bad_slug : HandoffError
  unknown_decision redirect_without_decline capability_without_reflex : HandoffError
  applied_without_reflex unknown_step_status : HandoffError
  unknown_kind task_id_too_long bad_schema_version too_many_items too_many_decisions : HandoffError
  too_many_steps notice_shape response_shape response_empty plan_recipient plan_shape : HandoffError
  plan_empty not_an_object not_a_list applied_not_bool : HandoffError

-- a construction that may raise
pub data Checked {ℓ} (T : Type ℓ) : Type ℓ where
  raised : HandoffError → Checked T
  passed : T → Checked T

infixl 5 ◌>>=◌ ◌>>◌
abbrev pub ◌>>=◌ {ℓ κ} : {T : Type ℓ} {U : Type κ} → Checked T → (T → Checked U) → Checked U
raised why >>= next = raised why
passed t >>= next = next t

-- a statement whose value is dropped
abbrev pub ◌>>◌ {κ} : {U : Type κ} → Checked (Unit {0}) → Checked U → Checked U
first >> second = first >>= λ _. second

-- if not b: raise HandoffError(e)
abbrev pub require : Bool → HandoffError → Checked (Unit {0})
require true e = passed tt
require false e = raised e

abbrev pub schema_version_1 : ℤ
schema_version_1 = pos 1

abbrev pub max_task_id : ℕ
max_task_id = 64

abbrev pub max_line : ℕ
max_line = 500

abbrev pub max_summary : ℕ
max_summary = 200

abbrev pub max_items : ℕ
max_items = 16

abbrev pub max_steps : ℕ
max_steps = 24

abbrev pub max_slug_len : ℕ
max_slug_len = 128

-- [a-z0-9]
unfoldable pub slug_head : ℕ → Bool
slug_head c = (leb b'a' c && leb c b'z') || (leb b'0' c && leb c b'9')

-- [a-z0-9_-]
unfoldable pub slug_char : ℕ → Bool
unfolding slug_head
slug_char c = slug_head c || nat_eq c b'_' || nat_eq c b'-'

unfoldable pub slug_shape : String → Bool
unfolding slug_head slug_char all_char
slug_shape String.[] = false
slug_shape (String.◌∷◌ c s) = slug_head (code c) && all_char slug_char s

unfoldable pub is_safe_slug : String → Bool
unfolding slug_shape len
is_safe_slug value = leb (len value) max_slug_len && slug_shape value

unfoldable pub is_newline : ℕ → Bool
is_newline c = nat_eq c 10 || nat_eq c 13

-- _check_line
unfoldable pub check_line : String → ℕ → Bool → Checked (Unit {0})
check_line value max_len required = do
  require (value == strip value) not_stripped
  require (not (any_char is_newline value)) not_single_line
  require (not (required && value == "")) empty_line
  require (leb (len value) max_len) line_too_long

-- _check_handle
unfoldable pub check_handle : String → Bool → Checked (Unit {0})
check_handle value allow_empty =
    if value == "" && allow_empty then passed tt else require (is_safe_slug value) bad_slug

pub record ClaimedFact : Type 0 where
  pub text : String
  pub claimant : String
  pub provenance : String

-- ClaimedFact.__post_init__
unfoldable pub check_fact : ClaimedFact → Checked (Unit {0})
check_fact f = do
  check_line f.text max_line true
  check_handle f.claimant false
  check_line f.provenance max_summary false

pub record AskDecision : Type 0 where
  pub ask : String
  pub decision : String
  pub redirect : String
  pub note : String
  pub capability : String
  pub applied : Bool

abbrev pub decision_names : List String
decision_names = "reflexed" ∷ "accept" ∷ "decline" ∷ "defer" ∷ []

-- the last branch of AskDecision.__post_init__
unfoldable pub check_reflex_fields : AskDecision → Checked (Unit {0})
check_reflex_fields d =
    if d.decision == "reflexed"
    then check_line d.capability max_summary true
    else require (d.capability == "") capability_without_reflex
      >> require (not d.applied) applied_without_reflex

-- AskDecision.__post_init__
unfoldable pub check_decision : AskDecision → Checked (Unit {0})
check_decision d = do
  check_line d.ask max_line true
  require (elem d.decision decision_names) unknown_decision
  check_handle d.redirect true
  require (d.redirect == "" || d.decision == "decline") redirect_without_decline
  check_line d.note max_line false
  check_reflex_fields d

pub record PlanStep : Type 0 where
  pub owner : String
  pub action : String
  pub status : String

abbrev pub step_statuses : List String
step_statuses = "done" ∷ "needs-approval" ∷ "unassigned" ∷ []

-- PlanStep.__post_init__
unfoldable pub check_step : PlanStep → Checked (Unit {0})
check_step s = do
  check_handle s.owner true
  check_line s.action max_line true
  require (elem s.status step_statuses) unknown_step_status

pub record HandoffEnvelope : Type 0 where
  pub kind : String
  pub task_id : String
  pub origin : String
  pub summary : String
  pub recipient : String
  pub facts : List ClaimedFact
  pub asks : List String
  pub decisions : List AskDecision
  pub steps : List PlanStep
  pub schema_version : ℤ

abbrev pub kinds : List String
kinds = "notice" ∷ "response" ∷ "plan" ∷ []

-- not xs
abbrev pub is_empty {ℓ} : {A : Type ℓ} → List A → Bool
is_empty [] = true
is_empty (x ∷ xs) = false

-- for x in xs: check(x)
unfoldable pub check_each {ℓ} :
    {A : Type ℓ} → (A → Checked (Unit {0})) → List A → Checked (Unit {0})
check_each check [] = passed tt
check_each check (x ∷ xs) = check x >> check_each check xs

unfoldable pub is_version_1 : ℤ → Bool
is_version_1 (pos n) = nat_eq n 1
is_version_1 (negsuc n) = false

-- the per-kind rules of HandoffEnvelope.__post_init__
unfoldable pub check_shape : HandoffEnvelope → Checked (Unit {0})
check_shape env =
    if env.kind == "notice"
    then check_handle env.recipient false
      >> require (is_empty env.decisions && is_empty env.steps) notice_shape
    else if env.kind == "response"
    then check_handle env.recipient false
      >> require (is_empty env.facts && is_empty env.asks && is_empty env.steps) response_shape
      >> require (not (is_empty env.decisions)) response_empty
    else require (env.recipient == "") plan_recipient
      >> require (is_empty env.facts && is_empty env.asks && is_empty env.decisions) plan_shape
      >> require (not (is_empty env.steps)) plan_empty

-- HandoffEnvelope.__post_init__
unfoldable pub check_envelope : HandoffEnvelope → Checked (Unit {0})
check_envelope env = do
  require (elem env.kind kinds) unknown_kind
  check_handle env.task_id false
  require (leb (len env.task_id) max_task_id) task_id_too_long
  check_handle env.origin false
  check_line env.summary max_summary true
  require (is_version_1 env.schema_version) bad_schema_version
  check_each (λ ask. check_line ask max_line true) env.asks
  require (leb (length env.facts) max_items && leb (length env.asks) max_items) too_many_items
  require (leb (length env.decisions) max_items) too_many_decisions
  require (leb (length env.steps) max_steps) too_many_steps
  check_shape env

-- the constructor call `HandoffEnvelope(...)`
unfoldable pub compose : HandoffEnvelope → Checked HandoffEnvelope
compose env = check_envelope env >> passed env
