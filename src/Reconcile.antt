-- ===== src/Reconcile.antt =====
-- The reconciliation of a model's decisions with the asks of an envelope: `_reconcile`,
-- `_single_line` and `_firing_decision` of src/clonway_cockpit/negotiation.py.
pub mod Lines
pub mod Total
mod Tests
use clonway_cockpit.Prelude.{
  ℕ, zero, suc, ◌+◌, ◌-◌, ◌*◌, ◌/◌, ◌%◌, ◌≤◌, ◌<◌, min, max, String, ◌≡◌, refl, sym, ap, ◌∙◌, ◌≢◌,
  ◌↔◌, ◌⊎◌, inl, inr, Bool, true, false, not, ◌&&◌, ◌||◌, Option, none, some, List, [], ◌∷◌, ◌++◌,
  map, arith, ◌==◌, eq_iff, eq_refl, ltb, leb, nat_eq, if◌then◌else◌, ltb→lt, leb→le, Bool-cases,
  Option-cases, is_some, length, take, drop, any, all, keep, All, length-append, elem, Distinct,
  elem-append, All-append,
}
use clonway_cockpit.Prelude.Texts.{is_space, strip, text_take}
use clonway_cockpit.Value.{
  Value, str, int, bool, float, obj, arr, null, Fields, Items, lookup, lookup_or, items,
}
use clonway_cockpit.Handoff.{Checked, raised, passed, ◌>>=◌, AskDecision, check_decision, max_line}
use clonway_cockpit.Reflex.{ReflexFiring}
use Prim.Native.Char.{code}

-- where the walk over the words of a text stands
pub data Gap : Type 0 where
  at_start in_word after_word : Gap

-- " ".join(s.split())
unfoldable pub squeeze : Gap → String → String
unfolding is_space
squeeze at_start String.[] = ""
squeeze in_word String.[] = ""
squeeze after_word String.[] = ""
squeeze at_start (String.◌∷◌ c s) =
    let skipped = squeeze at_start s in
    let rest = squeeze in_word s in if is_space (code c) then skipped else String.◌∷◌ c rest
squeeze in_word (String.◌∷◌ c s) =
    let skipped = squeeze after_word s in
    let rest = squeeze in_word s in if is_space (code c) then skipped else String.◌∷◌ c rest
squeeze after_word (String.◌∷◌ c s) =
    let skipped = squeeze after_word s in
    let rest = squeeze in_word s in
    if is_space (code c) then skipped else String.◌∷◌ " " (String.◌∷◌ c rest)

-- _single_line
unfoldable pub single_line : String → ℕ → String
unfolding squeeze strip text_take
single_line text limit = strip (text_take limit (squeeze at_start text))

unfoldable pub construct : AskDecision → Checked AskDecision
construct d = check_decision d >>= λ done. passed d

-- _firing_decision
unfoldable pub firing_decision : ReflexFiring → Checked AskDecision
unfolding single_line construct
firing_decision f = construct (record {
  ask = f.ask;
  decision = "reflexed";
  redirect = "";
  note = single_line f.note max_line;
  capability = f.capability_key;
  applied = f.applied;
})

-- an item of the model's list, and whether an ask has claimed it
abbrev pub Pool : Type 0
Pool = List (Bool × Value)

unfoldable pub is_str : String → Value → Bool
is_str s (str t) = s == t
is_str s v = false

-- isinstance(item, Mapping) and item.get("ask") == ask
unfoldable pub names_ask : String → Value → Bool
unfolding is_str lookup_or
names_ask ask (obj m) = is_str ask (lookup_or null "ask" m)
names_ask ask v = false

unfoldable pub as_mapping : Value → Option Fields
as_mapping (obj m) = some m
as_mapping v = none

-- the inner loop of pass 1: the first unused item that names the ask
unfoldable pub claim : String → Pool → Option Fields × Pool
unfolding names_ask as_mapping
claim ask [] = (none, [])
claim ask ((used, item) ∷ pool) =
    let (found, rest) = claim ask pool in
    if not used && names_ask ask item
    then (as_mapping item, (true, item) ∷ pool)
    else (found, (used, item) ∷ rest)

-- pass 1
unfoldable pub claim_each : List String → Pool → List (Option Fields) × Pool
unfolding claim
claim_each [] pool = ([], pool)
claim_each (ask ∷ asks) pool =
    let (found, pool') = claim ask pool in
    let (more, pool'') = claim_each asks pool' in (found ∷ more, pool'')

-- the unused items that are objects
unfoldable pub leftover : Pool → List Fields
leftover [] = []
leftover ((false, obj m) ∷ pool) = m ∷ leftover pool
leftover ((used, item) ∷ pool) = leftover pool

-- pass 2
unfoldable pub fill : List (Option Fields) → List Fields → List (Option Fields)
fill [] left = []
fill (some m ∷ found) left = some m ∷ fill found left
fill (none ∷ found) [] = none ∷ fill found []
fill (none ∷ found) (m ∷ left) = some m ∷ fill found left

unfoldable pub text_or_empty : Value → String
text_or_empty (str s) = s
text_or_empty v = ""

abbrev pub model_decisions : List String
model_decisions = "accept" ∷ "decline" ∷ "defer" ∷ []

unfoldable pub unanswered : String → AskDecision
unanswered ask = record {
  ask = ask;
  decision = "defer";
  redirect = "";
  note = "unanswered";
  capability = "";
  applied = false;
}

unfoldable pub kept_redirect : List String → String → String → String → String
kept_redirect known me decision redirect =
    if not (decision == "decline") || redirect == me || not (elem redirect known)
    then ""
    else redirect

-- what a matched item with a known decision says of the ask
unfoldable pub answer_of : List String → String → String → String → Fields → AskDecision
unfolding text_or_empty kept_redirect single_line
answer_of known me ask decision m = record {
  ask = ask;
  decision = decision;
  redirect = kept_redirect known me decision (text_or_empty (lookup_or (str "") "redirect" m));
  note = single_line (text_or_empty (lookup_or (str "") "reason" m)) max_line;
  capability = "";
  applied = false;
}

-- the last loop of `_reconcile`, on the item of one ask
unfoldable pub decision_for : List String → String → String → Option Fields → AskDecision
unfolding unanswered answer_of text_or_empty
decision_for known me ask none = unanswered ask
decision_for known me ask (some m) =
    let decision = text_or_empty (lookup_or null "decision" m) in
    if elem decision model_decisions then answer_of known me ask decision m else unanswered ask

unfoldable pub decide_each :
    List String → String → List String → List (Option Fields) → Checked (List AskDecision)
unfolding decision_for construct
decide_each known me [] found = passed []
decide_each known me (ask ∷ asks) [] = passed []
decide_each known me (ask ∷ asks) (item ∷ found) =
    construct (decision_for known me ask item) >>= λ d.
    decide_each known me asks found >>= λ ds. passed (d ∷ ds)

abbrev pub max_say : ℕ
max_say = 400

unfoldable pub list_items : Value → List Value
unfolding items
list_items (arr vs) = items vs
list_items v = []

-- the item of each ask, after the two passes
unfoldable pub pair_items : List String → List Value → List (Option Fields)
unfolding claim_each fill leftover
pair_items asks vs =
    let (found, pool) = claim_each asks (map (λ v. (false, v)) vs) in fill found (leftover pool)

-- _reconcile
unfoldable pub reconcile :
    List String → Fields → List String → String → Checked (String × List AskDecision)
unfolding list_items pair_items decide_each single_line text_or_empty
reconcile asks raw known me =
    decide_each known me asks (pair_items asks (list_items (lookup_or null "decisions" raw)))
    >>= λ ds. passed (single_line (text_or_empty (lookup_or null "say" raw)) max_say, ds)
