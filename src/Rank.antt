-- ===== src/Rank.antt =====
-- The ranking of signals that every consumer shares: src/clonway_cockpit/signals/rank.py over the
-- Signal of src/clonway_cockpit/signals/model.py. A date is its ordinal and `emitted_at` a count of
-- seconds, which the ranking does not read. The comparison of two keys is that of Python's tuples.
pub mod Order
pub mod Sorted
mod Tests
use clonway_cockpit.Prelude.{
  ℕ, zero, suc, ◌+◌, ◌-◌, ◌*◌, ◌/◌, ◌%◌, ◌≤◌, ◌<◌, min, max, String, ◌≡◌, refl, sym, ap, ◌∙◌, ◌≢◌,
  ◌↔◌, ◌⊎◌, inl, inr, Bool, true, false, not, ◌&&◌, ◌||◌, Option, none, some, List, [], ◌∷◌, ◌++◌,
  map, arith, ◌==◌, eq_iff, eq_refl, ltb, leb, nat_eq, if◌then◌else◌, ltb→lt, leb→le, Bool-cases,
  and_split, Option-cases, is_some, length, take, drop, any, all, keep, All, length-append, elem,
  Distinct, elem-append, All-append,
}
use clonway_cockpit.Prelude.Texts.{text_leb}

pub record Signal : Type 0 where
  pub worker : String
  pub kind : String
  pub title : String
  pub detail : String
  pub level : String
  pub urgency : String
  pub capability_key : Option String
  pub focus : Option String
  pub dedup_key : String
  pub emitted_at : ℕ
  pub due_at : Option ℕ
  pub state : String
  pub source_ref : Option String
  pub source_id : Option String

-- FLEET_NEEDS_CAP
abbrev pub fleet_needs_cap : ℕ
fleet_needs_cap = 6

-- _URGENCY_RANK, and 99 of another
unfoldable pub urgency_order : String → ℕ
urgency_order u =
    if u == "overdue"
    then 0
    else if u == "due"
    then 1
    else if u == "soon"
    then 2
    else if u == "info"
    then 3
    else 99

-- _LEVEL_RANK, and 99 of another
unfoldable pub level_order : String → ℕ
level_order l = if l == "error" then 0 else if l == "warn" then 1 else if l == "ok" then 2 else 99

unfoldable pub due_order : Option ℕ → ℕ
due_order none = 1000000000
due_order (some d) = d

pub record Key : Type 0 where
  pub urgency_at : ℕ
  pub due_ord : ℕ
  pub level_at : ℕ
  pub worker_name : String
  pub title_text : String

-- _sort_key
unfoldable pub sort_key : Signal → Key
unfolding urgency_order due_order level_order
sort_key s = record {
  urgency_at = urgency_order s.urgency;
  due_ord = due_order s.due_at;
  level_at = level_order s.level;
  worker_name = s.worker;
  title_text = s.title;
}

-- a number before the rest of a tuple, and a text
unfoldable pub number_first : ℕ → ℕ → Bool → Bool
number_first m n rest = if nat_eq m n then rest else ltb m n

unfoldable pub text_first : String → String → Bool → Bool
unfolding text_leb
text_first s t rest = if s == t then rest else text_leb s t

-- not (k < j), of the tuples
unfoldable pub key_leb : Key → Key → Bool
unfolding number_first text_first
key_leb j k = number_first j.urgency_at k.urgency_at (
    number_first j.due_ord k.due_ord (
      number_first j.level_at k.level_at
        (text_first j.worker_name k.worker_name (text_leb j.title_text k.title_text))))

-- a signal before the first one that is not to come earlier
unfoldable pub place : Signal → List Signal → List Signal
unfolding key_leb sort_key
place s [] = s ∷ []
place s (t ∷ ts) =
    let rest = place s ts in if key_leb (sort_key s) (sort_key t) then s ∷ t ∷ ts else t ∷ rest

-- sorted(signals, key=...)
unfoldable pub ranked : List Signal → List Signal
unfolding place
ranked [] = []
ranked (s ∷ ss) = place s (ranked ss)

-- rank_and_cap
unfoldable pub rank_and_cap : ℕ → List Signal → List Signal
unfolding ranked
rank_and_cap cap signals = take cap (ranked signals)
