-- ===== src/Thread/Tests.antt =====
-- chat_memory.py
-- Transcripts that are run: turns of a small scope, folded when there are more than three.
use clonway_cockpit.Prelude.{
  ℕ, zero, suc, ◌+◌, ◌-◌, ◌*◌, ◌/◌, ◌%◌, ◌≤◌, ◌<◌, min, max, String, ◌≡◌, refl, sym, ap, ◌∙◌, ◌≢◌,
  ◌↔◌, ◌⊎◌, inl, inr, Bool, true, false, not, ◌&&◌, ◌||◌, Option, none, some, List, [], ◌∷◌, ◌++◌,
  map, arith, ◌==◌, eq_iff, eq_refl, ltb, leb, nat_eq, if◌then◌else◌, ltb→lt, leb→le, Bool-cases,
  and_split, Option-cases, is_some, length, take, drop, any, all, keep, All, length-append, elem,
  Distinct, elem-append, All-append,
}
use clonway_cockpit.Notes.{Fact, splitlines}
use clonway_cockpit.Thread.{
  Limits, turn_index, turn_name, preview, record_turn, recent, context, folded_through, next_index,
  sizes_ok, unfolded_turns,
}
use clonway_cockpit.Thread.Records.{record_turn-few, record_turn-rises}

abbrev small : Limits
small = record { max_turns = 3; keep_turns = 2; summary_max_chars = 30 }

abbrev turn : ℕ → String → String → Fact
turn n role text = record {
  name = turn_name n;
  kind = role;
  summary = text;
  body = text;
  source = "";
}

abbrev three : List Fact
three = turn 0 "user" "hello" ∷ turn 1 "persona" "hi" ∷ turn 2 "user" "post it" ∷ []

abbrev folded : List Fact
folded =
    record {
      name = "thread-summary";
      kind = "summary";
      summary = "user: hello";
      body = "user: hello\npersona: hi";
      source = "folded-through: 000001";
    }
    ∷ turn 2 "user" "post it"
    ∷ turn 3 "persona" "posted"
    ∷ []

-- the fourth turn folds the first two
folds : record_turn small "persona" " posted " three ≡ some (some "turn-000003", folded)
unfolding record_turn clonway_cockpit.Prelude.Texts.strip clonway_cockpit.Handoff.is_safe_slug
    clonway_cockpit.Prelude.Texts.text_append clonway_cockpit.Walk.decimal_of
    clonway_cockpit.Prelude.Texts.text_take clonway_cockpit.Prelude.Texts.any_char
    clonway_cockpit.Handoff.is_newline clonway_cockpit.Prelude.Texts.text_leb
    clonway_cockpit.Prelude.Texts.join
folds = refl

-- the context after it starts with the summary
folded-context :
    context 1 folded
    ≡ ("system", "Earlier in this conversation (compacted summary):\nuser: hello\npersona: hi")
      ∷ ("assistant", "posted")
      ∷ []
unfolding context clonway_cockpit.Prelude.Texts.text_append clonway_cockpit.Prelude.Texts.text_take
    turn_name clonway_cockpit.Walk.text_drop clonway_cockpit.Prelude.Texts.len
    clonway_cockpit.Walk.decimal_of clonway_cockpit.Prelude.Texts.all_char
    clonway_cockpit.Prelude.Texts.lstrip
folded-context = refl

all_recent : recent 0 three ≡ ("user", "hello") ∷ ("assistant", "hi") ∷ ("user", "post it") ∷ []
unfolding recent clonway_cockpit.Prelude.Texts.text_take turn_name
    clonway_cockpit.Prelude.Texts.text_append clonway_cockpit.Walk.text_drop
    clonway_cockpit.Prelude.Texts.len clonway_cockpit.Walk.decimal_of
    clonway_cockpit.Prelude.Texts.all_char
all_recent = refl

blank_unrecorded : record_turn small "user" " \n " three ≡ some (none, three)
unfolding record_turn clonway_cockpit.Prelude.Texts.strip
blank_unrecorded = refl

first_line_shown : preview "\n  one \r\ntwo" ≡ "one"
unfolding preview clonway_cockpit.Prelude.Texts.text_take clonway_cockpit.Prelude.Texts.strip
first_line_shown = refl

crlf_lines : splitlines "a\r\nb\rc\n" ≡ "a" ∷ "b" ∷ "c" ∷ []
unfolding splitlines
crlf_lines = refl

wide_index : turn_index "turn-1000000" ≡ some 1000000
unfolding turn_index clonway_cockpit.Prelude.Texts.text_take clonway_cockpit.Walk.text_drop
    clonway_cockpit.Prelude.Texts.all_char
wide_index = refl

no_index : turn_index "turn-x1" ≡ none
unfolding turn_index clonway_cockpit.Prelude.Texts.text_take clonway_cockpit.Walk.text_drop
    clonway_cockpit.Prelude.Texts.all_char
no_index = refl

record_turn-few_example : length (unfolded_turns (folded_through folded) folded) ≤ 3
unfolding sizes_ok
record_turn-few_example =
    record_turn-few small "persona" " posted " three "turn-000003" folded refl folds

record_turn-rises_example :
    (turn_index "turn-000003" ≡ some (next_index three)) × (next_index three < next_index folded)
record_turn-rises_example =
    record_turn-rises small "persona" " posted " three "turn-000003" folded folds
