-- ===== src/Thread/Rising.antt =====
-- chat_memory.py
-- The index of a turn that was recorded stays below the next one, through a sweep and a fold.
use clonway_cockpit.Prelude.{
  ℕ, zero, suc, ◌-◌, ◌≤◌, ◌<◌, String, ◌≡◌, refl, sym, ap, ◌∙◌, inl, inr, false, not, Option, none,
  some, List, [], ◌∷◌, arith, ◌==◌, eq_iff, ltb, leb, ltb→lt, Bool-cases, length, take, keep, All,
}
use clonway_cockpit.Prelude.{some_eq}
use clonway_cockpit.Notes.{Fact, put, get}
use clonway_cockpit.Thread.{
  Turn, Limits, summary_fact, turn_index, turn_name, mark_of, last_index, turns, is_after, fold,
  above, sort_turns, sweep_through, sweep_folded, unfolded_turns, folded_through, compact_if_needed,
  next_after, next_index,
}
use clonway_cockpit.Thread.Names.{turn_index-turn_name}
use clonway_cockpit.Thread.Written.{fold-some}
use clonway_cockpit.Thread.Window.{
  IsSorted, sort-IsSorted, last_index-least, unfolded-IsNamed, folded_through-put, no_turn,
}
use clonway_cockpit.Thread.Views.{
  IsNamed, turns-IsNamed, keep-All, take-All, get-put, get-put_other, name_apart,
  get-forget_each_below, above-get,
}

take-IsSorted : (k : ℕ) (ts : List Turn) → IsSorted ts → IsSorted (take k ts)
take-IsSorted zero ts h = tt
take-IsSorted (suc k) [] h = tt
take-IsSorted (suc k) (t ∷ ts) h =
    (take-All (λ (u : Turn). t.0 ≤ u.0) k ts h.0, take-IsSorted k ts h.1)

-- no index of a sorted list that is below a bound at its end reaches the bound
below_last :
    (n b : ℕ) (ts : List Turn) → IsSorted ts → last_index n ts < b → All (λ (u : Turn). u.0 < b) ts
unfolding last_index
below_last n b [] h k = tt
below_last n b (t ∷ ts) h k =
    let least = last_index-least t.0 t.0 ts (omega arith) h.0 in
    (omega (arith, least, k), below_last t.0 b ts h.1 k)

keep_below :
    (m b : ℕ) (ts : List Turn)
    → m < b
    → All (λ (u : Turn). u.0 < b) (keep (λ (t : Turn). not (is_after (some m) t.0)) ts)
unfolding is_after
keep_below m b [] h = tt
keep_below m b (t ∷ ts) h = elim (Bool-cases (ltb m t.0)) [
  | inl e ↦ rw e (keep_below m b ts h)
  | inr e ↦ rw e (ground (arith, e, h), keep_below m b ts h)
]

next_after_most : (m n : ℕ) → m < next_after (some m) n
unfolding next_after
next_after_most m n = omega arith

next_after-least : (o : Option ℕ) (n : ℕ) → n ≤ next_after o n
unfolding next_after
next_after-least none n = omega arith
next_after-least (some m) n = omega arith

shown-IsSorted : (k : ℕ) (o : Option ℕ) (s : List Fact) → IsSorted (take k (unfolded_turns o s))
unfolding unfolded_turns
shown-IsSorted k o s =
    let old : List Turn = keep (λ (t : Turn). is_after o t.0) (turns s) in
    take-IsSorted k (sort_turns old) (sort-IsSorted old)

module _ (name : String) (i : ℕ) (named_i : turn_index name ≡ some i) where
  -- a sweep below the index leaves the note
  get-sweep_through :
      (o : Option ℕ) (s : List Fact)
      → ((m : ℕ) → o ≡ some m → m < i)
      → get name (sweep_through o s) ≡ get name s
  unfolding sweep_through
  get-sweep_through none s h = refl
  get-sweep_through (some m) s h =
      let folded : List Turn = keep (λ (t : Turn). not (is_after (some m) t.0)) (turns s) in
      get-forget_each_below name i folded s named_i
        (keep-All IsNamed (λ (t : Turn). not (is_after (some m) t.0)) (turns s) (turns-IsNamed s))
        (keep_below m i (turns s) (h m refl))

  -- a turn that can be read is below the next index
  below_next : (s : List Fact) (f : Fact) → get name s ≡ some f → i < next_index s
  unfolding next_index
  below_next s f h =
      let lt = above-get name i s f named_i h in
      let le = next_after-least (folded_through s) (above (turns s)) in omega (arith, lt, le)

  summary_apart : (g : Fact) → g.name ≡ summary_fact → (g.name == name) ≡ false
  summary_apart g h = elim (Bool-cases (g.name == name)) [
    | inl e ↦
        let same : turn_index name ≡ none =
          ap turn_index (sym ((eq_iff g.name name).0 e) ∙ h) ∙ no_turn in
        absurd (cc (same, named_i))
    | inr e ↦ e
  ]

  -- so it is after a fold, which deletes it only when its mark has reached it
  fold-below :
      (l : Limits) (k : ℕ) (s t : List Fact) (f : Fact)
      → get name s ≡ some f
      → fold l (take k (unfolded_turns (folded_through s) s)) s ≡ some t
      → i < next_index t
  unfolding next_index
  fold-below l k s t f h e =
      let ts : List Turn = take k (unfolded_turns (folded_through s) s) in
      let n : ℕ = last_index 0 ts in
      let (g, same, mark, left) = fold-some l ts s t e in
      let named_all : All IsNamed ts =
        take-All IsNamed k (unfolded_turns (folded_through s) s)
          (unfolded-IsNamed (folded_through s) s) in
      let folded : folded_through t ≡ some n =
        ap folded_through left ∙ folded_through-put g ts s same named_all ∙ mark in
      elim (Bool-cases (ltb n i)) [
        | inl lt ↦
            let apart : (g.name == name) ≡ false = summary_apart g same in
            let kept : get name t ≡ some f =
              ap (get name) left
              ∙ get-forget_each_below name i ts (put g s) named_i named_all
                  (below_last 0 i ts (shown-IsSorted k (folded_through s) s) (ltb→lt n i lt))
              ∙ get-put_other name g s apart
              ∙ h in
            below_next t f kept
        | inr ge ↦
            let next : next_index t ≡ next_after (some n) (above (turns t)) =
              ap (λ o. next_after o (above (turns t))) folded in
            let most : n < next_after (some n) (above (turns t)) =
              next_after_most n (above (turns t)) in
            ground (arith, ge, next, most)
      ]

  pub compact_if_needed-below :
      (l : Limits) (s t : List Fact) (f : Fact)
      → get name s ≡ some f
      → compact_if_needed l s ≡ some t
      → i < next_index t
  unfolding compact_if_needed
  compact_if_needed-below l s t f h e =
      let ts : List Turn = unfolded_turns (folded_through s) s in
      elim (Bool-cases (leb (length ts) l.max_turns)) [
        | inl few ↦
            let kept : compact_if_needed l s ≡ some s = rw few refl in
            let same : s ≡ t = some_eq (sym kept ∙ e) in
            below_next t f (ap (get name) (sym same) ∙ h)
        | inr many ↦
            let folds : compact_if_needed l s ≡ fold l (take (length ts - l.keep_turns) ts) s =
              rw many refl in
            fold-below l (length ts - l.keep_turns) s t f h (sym folds ∙ e)
      ]

-- the mark is below the next index
mark_below : (s : List Fact) (m : ℕ) → folded_through s ≡ some m → m < next_index s
unfolding next_index
mark_below s m h =
    let next : next_index s ≡ next_after (some m) (above (turns s)) =
      ap (λ o. next_after o (above (turns s))) h in
    let most : m < next_after (some m) (above (turns s)) = next_after_most m (above (turns s)) in
    omega (arith, next, most)

-- a turn that was put under the next index is there after the sweep
pub get-sweep_folded :
    (f : Fact) (s : List Fact)
    → f.name ≡ turn_name (next_index s)
    → get f.name (sweep_folded (put f s)) ≡ some f
unfolding sweep_folded folded_through
get-sweep_folded f s h =
    let i : ℕ = next_index s in
    let index : turn_index f.name ≡ some i = ap turn_index h ∙ turn_index-turn_name i in
    let same : folded_through (put f s) ≡ folded_through s =
      ap mark_of
        (get-put_other summary_fact f s (name_apart summary_fact f.name i no_turn index)) in
    get-sweep_through f.name i index (folded_through (put f s)) (put f s)
      (λ m e. mark_below s m (sym same ∙ e))
    ∙ get-put f s
