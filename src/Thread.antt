-- ===== src/Thread.antt =====
-- The memory of a conversation: ThreadTranscript of src/clonway_cockpit/chat_memory.py over the notes
-- of a scope. `none` is an exception of `remember`, or of the summary of an empty body. Digits are
-- those of ASCII.
pub mod Names
pub mod Views
pub mod Counts
pub mod Written
pub mod Window
pub mod Rising
pub mod Records
mod Tests
use clonway_cockpit.Prelude.{
  ℕ, zero, suc, ◌+◌, ◌-◌, ◌*◌, ◌/◌, ◌%◌, ◌≤◌, ◌<◌, min, max, String, ◌≡◌, refl, sym, ap, ◌∙◌, ◌≢◌,
  ◌↔◌, ◌⊎◌, inl, inr, Bool, true, false, not, ◌&&◌, ◌||◌, Option, none, some, List, [], ◌∷◌, ◌++◌,
  map, arith, ◌==◌, eq_iff, eq_refl, ltb, leb, nat_eq, if◌then◌else◌, ltb→lt, leb→le, Bool-cases,
  and_split, Option-cases, is_some, length, take, drop, any, all, keep, All, length-append, elem,
  Distinct, elem-append, All-append,
}
use Prim.Native.Char.{Char, code}
use clonway_cockpit.Prelude.Texts.{len, strip, lstrip, all_char, text_append, text_take, join}
use clonway_cockpit.Walk.{decimal_of, text_drop}
use clonway_cockpit.Notes.{Fact, splitlines, remember, forget, get}

abbrev pub summary_fact : String
summary_fact = "thread-summary"

abbrev pub preview_max : ℕ
preview_max = 120

-- a turn and its index
abbrev pub Turn : Type 0
Turn = ℕ × Fact

-- the first line that is not blank, stripped
unfoldable pub first_line : String → List String → String
first_line default [] = default
first_line default (l ∷ ls) = if strip l == "" then first_line default ls else strip l

-- _preview
unfoldable pub preview : String → String
unfolding splitlines first_line
preview text = text_take preview_max (first_line (strip text) (splitlines text))

unfoldable pub is_digit : ℕ → Bool
is_digit c = leb 48 c && leb c 57

-- int(s) of digits, after those that are read
unfoldable pub number_from : ℕ → String → ℕ
number_from n String.[] = n
number_from n (String.◌∷◌ c s) = number_from (n * 10 + (code c - 48)) s

unfoldable pub zeros : ℕ → String → String
zeros zero s = s
zeros (suc n) s = String.◌∷◌ "0" (zeros n s)

-- f"{n:06d}"
unfoldable pub six_digits : ℕ → String
unfolding zeros
six_digits n = let s = decimal_of (suc n) n "" in zeros (6 - len s) s

unfoldable pub turn_name : ℕ → String
unfolding six_digits
turn_name n = text_append "turn-" (six_digits n)

-- _turn_index
unfoldable pub turn_index : String → Option ℕ
unfolding is_digit number_from
turn_index name =
    let suffix = text_drop 5 name in
    if text_take 5 name == "turn-" && not (suffix == "") && all_char is_digit suffix
    then some (number_from 0 suffix)
    else none

-- the digits that a text begins with
unfoldable pub leading_digits : String → String
unfolding is_digit
leading_digits String.[] = ""
leading_digits (String.◌∷◌ c s) =
    let rest = leading_digits s in if is_digit (code c) then String.◌∷◌ c rest else ""

-- a match of _FOLDED_RE at the start of a text
unfoldable pub folded_here : String → Option ℕ
unfolding leading_digits number_from
folded_here s =
    let digits = leading_digits (lstrip (text_drop 15 s)) in
    if text_take 15 s == "folded-through:" && not (digits == "")
    then some (number_from 0 digits)
    else none

-- _FOLDED_RE.search
unfoldable pub folded_in : String → Option ℕ
unfolding folded_here
folded_in String.[] = none
folded_in (String.◌∷◌ c s) =
    let rest = folded_in s in elim (folded_here (String.◌∷◌ c s)) [ some n ↦ some n | none ↦ rest ]

-- a note before the turns after it
unfoldable pub with_index : Option ℕ → Fact → List Turn → List Turn
with_index none f ts = ts
with_index (some i) f ts = (i, f) ∷ ts

-- the turns among the notes
unfoldable pub turns : List Fact → List Turn
unfolding turn_index with_index
turns [] = []
turns (f ∷ s) = with_index (turn_index f.name) f (turns s)

-- the mark of the summary: `none` is -1
unfoldable pub mark_of : Option Fact → Option ℕ
unfolding folded_in
mark_of none = none
mark_of (some f) = if f.source == "" then none else folded_in f.source

-- _folded_through
unfoldable pub folded_through : List Fact → Option ℕ
unfolding get mark_of
folded_through s = mark_of (get summary_fact s)

-- i > folded_through
unfoldable pub is_after : Option ℕ → ℕ → Bool
is_after none i = true
is_after (some n) i = ltb n i

unfoldable pub insert_turn : Turn → List Turn → List Turn
insert_turn t [] = t ∷ []
insert_turn t (u ∷ us) = let rest = insert_turn t us in if leb t.0 u.0 then t ∷ u ∷ us else u ∷ rest

unfoldable pub sort_turns : List Turn → List Turn
unfolding insert_turn
sort_turns [] = []
sort_turns (t ∷ ts) = insert_turn t (sort_turns ts)

-- _unfolded_turns
unfoldable pub unfolded_turns : Option ℕ → List Fact → List Turn
unfolding sort_turns is_after turns
unfolded_turns folded s = sort_turns (keep (λ (t : Turn). is_after folded t.0) (turns s))

-- max(indices) + 1, or 0 of none
unfoldable pub above : List Turn → ℕ
above [] = 0
above (t ∷ ts) = max (suc t.0) (above ts)

unfoldable pub next_after : Option ℕ → ℕ → ℕ
next_after none n = n
next_after (some m) n = max (suc m) n

-- _next_index
unfoldable pub next_index : List Fact → ℕ
unfolding above turns folded_through next_after
next_index s = next_after (folded_through s) (above (turns s))

unfoldable pub forget_each : List Turn → List Fact → List Fact
unfolding forget
forget_each [] s = s
forget_each (t ∷ ts) s = forget_each ts (forget t.1.name s)

unfoldable pub sweep_through : Option ℕ → List Fact → List Fact
unfolding is_after turns forget_each
sweep_through none s = s
sweep_through (some n) s =
    forget_each (keep (λ (t : Turn). not (is_after (some n) t.0)) (turns s)) s

-- _sweep_folded
unfoldable pub sweep_folded : List Fact → List Fact
unfolding folded_through sweep_through
sweep_folded s = sweep_through (folded_through s) s

-- summary: the body of the rolling summary
unfoldable pub summary_of : List Fact → String
unfolding get
summary_of s = elim (get summary_fact s) [ none ↦ "" | some f ↦ f.body ]

-- the lines that are left while they are too long together
unfoldable pub shorten : ℕ → List String → List String
shorten limit [] = []
shorten limit (l ∷ ls) =
    let rest = shorten limit ls in
    if leb 1 (length ls) && ltb limit (len (join "\n" (l ∷ ls))) then rest else l ∷ ls

-- _truncate_summary
unfoldable pub truncate_summary : ℕ → String → String
unfolding shorten splitlines
truncate_summary limit body =
    let candidate = join "\n" (shorten limit (splitlines body)) in
    if leb (len body) limit
    then body
    else if leb (len candidate) limit
    then candidate
    else text_take limit candidate

unfoldable pub fold_line : Turn → String
fold_line t = text_append t.1.kind (text_append ": " t.1.summary)

unfoldable pub last_index : ℕ → List Turn → ℕ
last_index n [] = n
last_index n (t ∷ ts) = last_index t.0 ts

-- body.splitlines()[0]
unfoldable pub line_zero : String → Option String
unfolding splitlines
line_zero body = elim (splitlines body) [ [] ↦ none | l ∷ ls ↦ some l ]

-- the sizes that the constructor checks
pub record Limits : Type 0 where
  pub max_turns : ℕ
  pub keep_turns : ℕ
  pub summary_max_chars : ℕ

-- ThreadTranscript.__init__: the ValueErrors of the sizes
unfoldable pub sizes_ok : Limits → Bool
sizes_ok l = leb 2 l.keep_turns && ltb l.keep_turns l.max_turns && leb 1 l.summary_max_chars

unfoldable pub folded_body : Limits → List Turn → List Fact → String
unfolding summary_of fold_line truncate_summary
folded_body l to_fold s =
    let parts = summary_of s ∷ join "\n" (map fold_line to_fold) ∷ [] in
    truncate_summary l.summary_max_chars (join "\n" (keep (λ p. not (p == "")) parts))

-- the note of the summary, when its body has a line
unfoldable pub write_summary : Option String → String → String → List Fact → Option (List Fact)
unfolding remember
write_summary none body source s = none
write_summary (some line) body source s = remember summary_fact "summary" line body source s

unfoldable pub then_forget : List Turn → Option (List Fact) → Option (List Fact)
unfolding forget_each
then_forget ts none = none
then_forget ts (some s) = some (forget_each ts s)

unfoldable pub mark_text : List Turn → String
unfolding last_index six_digits
mark_text to_fold = text_append "folded-through: " (six_digits (last_index 0 to_fold))

-- the turns to fold, into the summary
unfoldable pub fold : Limits → List Turn → List Fact → Option (List Fact)
unfolding folded_body line_zero write_summary then_forget mark_text
fold l to_fold s =
    let body = folded_body l to_fold s in
    then_forget to_fold (write_summary (line_zero body) body (mark_text to_fold) s)

-- _compact_if_needed
unfoldable pub compact_if_needed : Limits → List Fact → Option (List Fact)
unfolding unfolded_turns fold
compact_if_needed l s =
    let ts = unfolded_turns (folded_through s) s in
    if leb (length ts) l.max_turns then some s else fold l (take (length ts - l.keep_turns) ts) s

-- the note was written: sweep and compact
unfoldable pub then_compact : Limits → Option (List Fact) → Option (List Fact)
unfolding sweep_folded compact_if_needed
then_compact l none = none
then_compact l (some s) = compact_if_needed l (sweep_folded s)

unfoldable pub with_name : String → Option (List Fact) → Option (Option String × List Fact)
with_name name none = none
with_name name (some s) = some (some name, s)

-- ThreadTranscript.record
unfoldable pub record_turn :
    Limits → String → String → List Fact → Option (Option String × List Fact)
unfolding preview turn_name next_index remember then_compact with_name
record_turn l role text s =
    let body = strip text in
    let name = turn_name (next_index s) in
    if body == ""
    then some (none, s)
    else with_name name (then_compact l (remember name role (preview body) body "" s))

unfoldable pub message_of : Turn → String × String
message_of t = (
  if t.1.kind == "persona" then "assistant" else "user",
  if t.1.body == "" then t.1.summary else t.1.body,
)

-- recent: a slice [-0:] is the whole list
unfoldable pub recent : ℕ → List Fact → List (String × String)
unfolding message_of unfolded_turns folded_through
recent limit s =
    let ts = unfolded_turns (folded_through s) s in
    map message_of (if nat_eq limit 0 then ts else drop (length ts - limit) ts)

-- context
unfoldable pub context : ℕ → List Fact → List (String × String)
unfolding recent summary_of
context limit s =
    let body = summary_of s in
    let header = text_append "Earlier in this conversation (compacted summary):\n" body in
    if body == "" then recent limit s else ("system", header) ∷ recent limit s
