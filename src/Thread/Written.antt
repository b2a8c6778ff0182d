-- ===== src/Thread/Written.antt =====
-- chat_memory.py
-- What a note was, that remember or a fold wrote.
use clonway_cockpit.Prelude.{
  ℕ, String, ◌≡◌, refl, sym, ap, ◌∙◌, inl, inr, false, ◌||◌, Option, none, some, List, arith, ◌==◌,
  eq_iff, if◌then◌else◌, Bool-cases,
}
use clonway_cockpit.Prelude.{some_eq}
use clonway_cockpit.Prelude.Texts.{len, text_append, strip, any_char}
use clonway_cockpit.Handoff.{is_safe_slug, is_newline}
use clonway_cockpit.Notes.{Fact, put, note_of, put_note, remember, one_line, reread}
use clonway_cockpit.Thread.{
  Turn, Limits, summary_fact, write_summary, then_forget, mark_text, fold, folded_body, line_zero,
  folded_in, mark_of, last_index, forget_each,
}
use clonway_cockpit.Thread.Names.{strip-mark, folded_in-mark}

note_of-some :
    (name : String) (k l : Option String) (body : String) (o : Option String) (f : Fact)
    → note_of name k l body o ≡ some f
    → (f.name ≡ name) × (o ≡ some f.source)
unfolding note_of
note_of-some name none l body o f h = absurd (cc h)
note_of-some name (some k) none body o f h = absurd (cc h)
note_of-some name (some k) (some l) body none f h = absurd (cc h)
note_of-some name (some k) (some l) body (some o) f h =
    let e = some_eq h in (sym (ap (λ (g : Fact). g.name) e), ap (λ (g : Fact). some g.source) e)

put_note-some :
    (o : Option Fact) (s t : List Fact)
    → put_note o s ≡ some t
    → (f : Fact) × (o ≡ some f) × (t ≡ put f s)
unfolding put_note
put_note-some none s t h = absurd (cc h)
put_note-some (some f) s t h = (f, refl, sym (some_eq h))

-- where remember writes, it puts a note of the name, whose source is the line that was given
pub remember-some :
    (name kind summary body source : String) (s t : List Fact)
    → remember name kind summary body source s ≡ some t
    → (f : Fact) × (f.name ≡ name)
      × ((source == "") ≡ false → one_line source ≡ some f.source)
      × (t ≡ put f s)
unfolding remember
remember-some name kind summary body source s t h = elim (Bool-cases (is_safe_slug name)) [
  | inr e ↦
      let shut : remember name kind summary body source s ≡ none = rw e refl in
      absurd (cc (h, shut))
  | inl e ↦
      let origin : Option String = if source == "" then some "" else one_line source in
      let fact : Option Fact =
        note_of name (one_line kind) (one_line summary) (reread (strip body)) origin in
      let wrote : remember name kind summary body source s ≡ put_note fact s = rw e refl in
      let (f, made, kept) = put_note-some fact s t (sym wrote ∙ h) in
      let (same, from) =
        note_of-some name (one_line kind) (one_line summary) (reread (strip body)) origin f made in
      let asked : (source == "") ≡ false → one_line source ≡ origin = λ n. rw n refl in
      (f, same, λ n. asked n ∙ from, kept)
]

one_line-some : (v w : String) → one_line v ≡ some w → w ≡ strip v
unfolding one_line
one_line-some v w h = elim (Bool-cases (strip v == "" || any_char is_newline (strip v))) [
  | inl e ↦ let shut : one_line v ≡ none = rw e refl in absurd (cc (h, shut))
  | inr e ↦ let kept : one_line v ≡ some (strip v) = rw e refl in some_eq (sym h ∙ kept)
]

-- a mark as a source is read
marked : String → Option ℕ
marked source = if source == "" then none else folded_in source

read_mark : (ts : List Turn) → folded_in (mark_text ts) ≡ some (last_index 0 ts)
unfolding mark_text
read_mark ts = folded_in-mark (last_index 0 ts)

mark_some : (ts : List Turn) → (mark_text ts == "") ≡ false
unfolding mark_text text_append len
mark_some ts = elim (Bool-cases (mark_text ts == "")) [
  | inl e ↦
      let none_left : len (mark_text ts) ≡ 0 = ap len ((eq_iff (mark_text ts) "").0 e) in
      absurd (omega (arith, none_left))
  | inr e ↦ e
]

mark_marked : (ts : List Turn) → marked (mark_text ts) ≡ some (last_index 0 ts)
unfolding marked
mark_marked ts =
    let n : (mark_text ts == "") ≡ false = mark_some ts in
    let found : folded_in (mark_text ts) ≡ some (last_index 0 ts) = read_mark ts in rw n found

mark_read :
    (ts : List Turn) (f : Fact)
    → one_line (mark_text ts) ≡ some f.source
    → mark_of (some f) ≡ some (last_index 0 ts)
unfolding marked mark_text mark_of
mark_read ts f h =
    let source : f.source ≡ mark_text ts =
      one_line-some (mark_text ts) f.source h ∙ strip-mark (last_index 0 ts) in
    ap marked source ∙ mark_marked ts

write_summary-some :
    (ts : List Turn) (line : Option String) (body : String) (s t : List Fact)
    → write_summary line body (mark_text ts) s ≡ some t
    → (f : Fact) × (f.name ≡ summary_fact)
      × (mark_of (some f) ≡ some (last_index 0 ts))
      × (t ≡ put f s)
unfolding write_summary
write_summary-some ts none body s t h = absurd (cc h)
write_summary-some ts (some line) body s t h =
    let (f, same, from, kept) =
      remember-some summary_fact "summary" line body (mark_text ts) s t h in
    (f, same, mark_read ts f (from (mark_some ts)), kept)

then_forget-some :
    (ts : List Turn) (o : Option (List Fact)) (t : List Fact)
    → then_forget ts o ≡ some t
    → (u : List Fact) × (o ≡ some u) × (t ≡ forget_each ts u)
unfolding then_forget
then_forget-some ts none t h = absurd (cc h)
then_forget-some ts (some u) t h = (u, refl, sym (some_eq h))

-- where a fold writes, the summary carries the last index that it folded, and what it folded is gone
pub fold-some :
    (l : Limits) (ts : List Turn) (s t : List Fact)
    → fold l ts s ≡ some t
    → (f : Fact) × (f.name ≡ summary_fact)
      × (mark_of (some f) ≡ some (last_index 0 ts))
      × (t ≡ forget_each ts (put f s))
unfolding fold
fold-some l ts s t h =
    let body = folded_body l ts s in
    let (u, wrote, left) =
      then_forget-some ts (write_summary (line_zero body) body (mark_text ts) s) t h in
    let (f, same, mark, kept) = write_summary-some ts (line_zero body) body s u wrote in
    (f, same, mark, left ∙ ap (forget_each ts) kept)
