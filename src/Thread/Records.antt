-- ===== src/Thread/Records.antt =====
-- chat_memory.py
-- What recording a turn makes of a transcript.
use clonway_cockpit.Prelude.{
  ℕ, ◌≤◌, ◌<◌, String, ◌≡◌, refl, sym, ap, ◌∙◌, inl, inr, true, Option, none, some, List, arith,
  ◌==◌, Bool-cases, length,
}
use clonway_cockpit.Prelude.{some_eq}
use clonway_cockpit.Prelude.Texts.{strip}
use clonway_cockpit.Notes.{Fact, remember, get}
use clonway_cockpit.Thread.{
  Limits, sizes_ok, turn_name, next_index, preview, sweep_folded, then_compact, with_name,
  turn_index, compact_if_needed, record_turn, unfolded_turns, folded_through,
}
use clonway_cockpit.Thread.Window.{compact_if_needed-few}
use clonway_cockpit.Thread.Names.{turn_index-turn_name}
use clonway_cockpit.Thread.Written.{remember-some}
use clonway_cockpit.Thread.Rising.{compact_if_needed-below, get-sweep_folded}

then_compact-some :
    (l : Limits) (o : Option (List Fact)) (u : List Fact)
    → then_compact l o ≡ some u
    → (t : List Fact) × (o ≡ some t) × (compact_if_needed l (sweep_folded t) ≡ some u)
unfolding then_compact
then_compact-some l none u h = absurd (cc h)
then_compact-some l (some t) u h = (t, refl, h)

with_name-some :
    (name : String) (o : Option (List Fact)) (given : String) (u : List Fact)
    → with_name name o ≡ some (some given, u)
    → (given ≡ name) × (o ≡ some u)
unfolding with_name
with_name-some name none given u h = absurd (cc h)
with_name-some name (some t) given u h =
    let e = some_eq h in (some_eq (sym (ap (λ p. p.0) e)), ap (λ p. some p.1) e)

-- where a turn was recorded, it was written under the next index, swept and compacted
record_turn-some :
    (l : Limits) (role text : String) (s : List Fact) (name : String) (u : List Fact)
    → record_turn l role text s ≡ some (some name, u)
    → (t : List Fact) × (name ≡ turn_name (next_index s))
      × (remember (turn_name (next_index s)) role (preview (strip text)) (strip text) "" s ≡ some t)
      × (compact_if_needed l (sweep_folded t) ≡ some u)
unfolding record_turn
record_turn-some l role text s name u h =
    let next : String = turn_name (next_index s) in
    let wrote : Option (List Fact) = remember next role (preview (strip text)) (strip text) "" s in
    elim (Bool-cases (strip text == "")) [
      | inl e ↦
          let blank : record_turn l role text s ≡ some (none, s) = rw e refl in
          absurd (cc (ap (λ (p : Option String × List Fact). p.0) (some_eq (sym blank ∙ h))))
      | inr e ↦
          let runs : record_turn l role text s ≡ with_name next (then_compact l wrote) =
            rw e refl in
          let (given, left) = with_name-some next (then_compact l wrote) name u (sym runs ∙ h) in
          let (t, put_there, compacted) = then_compact-some l wrote u left in
          (t, given, put_there, compacted)
    ]

-- Where the constructor accepts the sizes and a turn is recorded, the transcript then shows at most
-- `max_turns` turns that are not folded, whatever notes the scope held before.
pub record_turn-few :
    (l : Limits) (role text : String) (s : List Fact) (name : String) (u : List Fact)
    → sizes_ok l ≡ true
    → record_turn l role text s ≡ some (some name, u)
    → length (unfolded_turns (folded_through u) u) ≤ l.max_turns
unfolding sizes_ok
record_turn-few l role text s name u h e =
    let (t, given, wrote, left) = record_turn-some l role text s name u e in
    compact_if_needed-few l (sweep_folded t) u (ground (arith, h)) left

-- Where a turn is recorded, its name is that of the next index, and the next index of the transcript
-- that is left is higher, even when the recording swept or folded turns: no name is given twice.
pub record_turn-rises :
    (l : Limits) (role text : String) (s : List Fact) (name : String) (u : List Fact)
    → record_turn l role text s ≡ some (some name, u)
    → (turn_index name ≡ some (next_index s)) × (next_index s < next_index u)
record_turn-rises l role text s name u e =
    let i : ℕ = next_index s in
    let (t, given, wrote, left) = record_turn-some l role text s name u e in
    let (f, same, from, there) =
      remember-some (turn_name i) role (preview (strip text)) (strip text) "" s t wrote in
    let index : turn_index f.name ≡ some i = ap turn_index same ∙ turn_index-turn_name i in
    let kept : get f.name (sweep_folded t) ≡ some f =
      ap (λ v. get f.name (sweep_folded v)) there ∙ get-sweep_folded f s same in
    (
      ap turn_index given ∙ turn_index-turn_name i,
      compact_if_needed-below f.name i index l (sweep_folded t) u f kept left,
    )
