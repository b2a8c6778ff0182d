-- ===== src/Thread/Window.antt =====
-- chat_memory.py
-- The turns that a fold leaves: those after the last one folded, and no more than are to be kept.
use clonway_cockpit.Prelude.{
  ℕ, zero, suc, ◌-◌, ◌≤◌, ◌<◌, ◌≡◌, refl, sym, ap, ◌∙◌, inl, inr, Bool, true, false, Option, none,
  some, List, [], ◌∷◌, arith, ltb, leb, leb→le, Bool-cases, length, take, keep, All,
}
use clonway_cockpit.Notes.{Fact, put, get}
use clonway_cockpit.Thread.{
  Turn, Limits, summary_fact, turn_index, mark_of, last_index, turns, is_after, fold, insert_turn,
  sort_turns, forget_each, unfolded_turns, folded_through, compact_if_needed,
}
use clonway_cockpit.Prelude.{some_eq}
use clonway_cockpit.Prelude.Texts.{text_take}
use clonway_cockpit.Thread.Counts.{
  count, count-keep, count-sort_turns, count-forget_each, count-length,
}
use clonway_cockpit.Thread.Written.{fold-some}
use clonway_cockpit.Thread.Views.{
  IsNamed, turns-IsNamed, keep-All, take-All, sort-All, insert-All, put-turns, get-put,
  get-forget_each,
}

abbrev pub IsSorted : List Turn → Type 0
IsSorted [] = Unit
IsSorted (t ∷ ts) = All (λ (u : Turn). t.0 ≤ u.0) ts × IsSorted ts

above_trans :
    (m n : ℕ) (ts : List Turn)
    → m ≤ n
    → All (λ (u : Turn). n ≤ u.0) ts
    → All (λ (u : Turn). m ≤ u.0) ts
above_trans m n [] h k = tt
above_trans m n (t ∷ ts) h k = let one = k.0 in (omega (arith, h, one), above_trans m n ts h k.1)

insert-IsSorted : (t : Turn) (us : List Turn) → IsSorted us → IsSorted (insert_turn t us)
unfolding insert_turn
insert-IsSorted t [] h = (tt, tt)
insert-IsSorted t (u ∷ us) h = elim (Bool-cases (leb t.0 u.0)) [
  | inl e ↦ let first = leb→le t.0 u.0 e in rw e ((first, above_trans t.0 u.0 us first h.0), h)
  | inr e ↦
      rw e (
        insert-All (λ (v : Turn). u.0 ≤ v.0) t us (ground (arith, e)) h.0,
        insert-IsSorted t us h.1,
      )
]

pub sort-IsSorted : (ts : List Turn) → IsSorted (sort_turns ts)
unfolding sort_turns
sort-IsSorted [] = tt
sort-IsSorted (t ∷ ts) = insert-IsSorted t (sort_turns ts) (sort-IsSorted ts)

pub last_index-least :
    (m n : ℕ) (ts : List Turn) → m ≤ n → All (λ (u : Turn). m ≤ u.0) ts → m ≤ last_index n ts
unfolding last_index
last_index-least m n [] h k = h
last_index-least m n (t ∷ ts) h k = last_index-least m t.0 ts k.0 k.1

-- in a sorted list no more turns follow the k-th index than follow the k-th place
window :
    (k n : ℕ) (ts : List Turn)
    → IsSorted ts
    → count (is_after (some (last_index n (take k ts)))) ts ≤ length ts - k
unfolding last_index is_after
window zero n ts h = let most = count-length (is_after (some n)) ts in omega (arith, most)
window (suc k) n [] h = omega arith
window (suc k) n (t ∷ ts) h =
    let least =
      last_index-least t.0 t.0 (take k ts) (omega arith)
        (take-All (λ (u : Turn). t.0 ≤ u.0) k ts h.0) in
    let e : ltb (last_index t.0 (take k ts)) t.0 ≡ false = ground (arith, least) in
    let few = window k t.0 ts h.1 in rw e (omega (arith, few))

last-IsAfter :
    (o : Option ℕ) (n : ℕ) (ts : List Turn)
    → is_after o n ≡ true
    → All (λ (u : Turn). is_after o u.0 ≡ true) ts
    → is_after o (last_index n ts) ≡ true
unfolding last_index
last-IsAfter o n [] h k = h
last-IsAfter o n (t ∷ ts) h k = last-IsAfter o t.0 ts k.0 k.1

first-IsAfter :
    (o : Option ℕ) (k : ℕ) (ts : List Turn)
    → 1 ≤ k
    → k ≤ length ts
    → All (λ (u : Turn). is_after o u.0 ≡ true) ts
    → is_after o (last_index 0 (take k ts)) ≡ true
unfolding last_index
first-IsAfter o zero ts h b a = absurd (omega (arith, h))
first-IsAfter o (suc k) [] h b a = absurd (omega (arith, b))
first-IsAfter o (suc k) (t ∷ ts) h b a =
    last-IsAfter o t.0 (take k ts) a.0 (take-All (λ (u : Turn). is_after o u.0 ≡ true) k ts a.1)

is_after_trans :
    (o : Option ℕ) (n i : ℕ)
    → is_after o n ≡ true
    → is_after (some n) i ≡ true
    → is_after o i ≡ true
unfolding is_after
is_after_trans none n i h k = refl
is_after_trans (some m) n i h k = ground (arith, h, k)

keep-true : (p : Turn → Bool) (ts : List Turn) → All (λ u. p u ≡ true) (keep p ts)
keep-true p [] = tt
keep-true p (t ∷ ts) = elim (Bool-cases (p t)) [
  | inl e ↦ rw e (e, keep-true p ts)
  | inr e ↦ rw e (keep-true p ts)
]

insert-length : (t : Turn) (us : List Turn) → length (insert_turn t us) ≡ suc (length us)
unfolding insert_turn
insert-length t [] = refl
insert-length t (u ∷ us) = elim (Bool-cases (leb t.0 u.0)) [
  | inl e ↦ rw e refl
  | inr e ↦ rw e (ap suc (insert-length t us))
]

sort-length : (ts : List Turn) → length (sort_turns ts) ≡ length ts
unfolding sort_turns
sort-length [] = refl
sort-length (t ∷ ts) = insert-length t (sort_turns ts) ∙ ap suc (sort-length ts)

shown_count :
    (o : Option ℕ) (s : List Fact) → length (unfolded_turns o s) ≡ count (is_after o) (turns s)
unfolding unfolded_turns
shown_count o s = sort-length (keep (λ (t : Turn). is_after o t.0) (turns s))

-- what a fold of the first k turns leaves after the mark is no more than the other turns
after_fold :
    (o : Option ℕ) (k : ℕ) (s : List Fact)
    → 1 ≤ k
    → k ≤ length (unfolded_turns o s)
    → count (is_after (some (last_index 0 (take k (unfolded_turns o s))))) (turns s)
      ≤ length (unfolded_turns o s) - k
unfolding unfolded_turns
after_fold o k s h b =
    let old : List Turn = keep (λ (t : Turn). is_after o t.0) (turns s) in
    let ts : List Turn = sort_turns old in
    let n : ℕ = last_index 0 (take k ts) in
    let mark : is_after o n ≡ true = first-IsAfter o k ts h b (
      sort-All (λ (u : Turn). is_after o u.0 ≡ true) old
        (keep-true (λ (t : Turn). is_after o t.0) (turns s))) in
    let same : count (is_after (some n)) ts ≡ count (is_after (some n)) (turns s) =
      count-sort_turns (is_after (some n)) old
      ∙ count-keep (is_after (some n)) (is_after o) (turns s)
          (λ i q. is_after_trans o n i mark q) in
    let few = window k 0 ts (sort-IsSorted old) in omega (arith, same, few)

-- the turns that a scope shows are named as the notes are
pub unfolded-IsNamed : (o : Option ℕ) (s : List Fact) → All IsNamed (unfolded_turns o s)
unfolding unfolded_turns
unfolded-IsNamed o s =
    sort-All IsNamed (keep (λ (t : Turn). is_after o t.0) (turns s))
      (keep-All IsNamed (λ (t : Turn). is_after o t.0) (turns s) (turns-IsNamed s))

pub no_turn : turn_index summary_fact ≡ none
unfolding turn_index text_take
no_turn = refl

-- the mark is read back from the summary, whatever else is deleted
pub folded_through-put :
    (f : Fact) (ts : List Turn) (s : List Fact)
    → f.name ≡ summary_fact
    → All IsNamed ts
    → folded_through (forget_each ts (put f s)) ≡ mark_of (some f)
unfolding folded_through
folded_through-put f ts s e h =
    let read : get summary_fact (put f s) ≡ some f =
      ap (λ n. get n (put f s)) (sym e) ∙ get-put f s in
    ap mark_of (get-forget_each summary_fact ts (put f s) no_turn h ∙ read)

-- a fold of the first k turns leaves no more than the others
fold-few :
    (l : Limits) (k : ℕ) (s t : List Fact)
    → 1 ≤ k
    → k ≤ length (unfolded_turns (folded_through s) s)
    → fold l (take k (unfolded_turns (folded_through s) s)) s ≡ some t
    → length (unfolded_turns (folded_through t) t)
      ≤ length (unfolded_turns (folded_through s) s) - k
fold-few l k s t h b e =
    let ts : List Turn = unfolded_turns (folded_through s) s in
    let n : ℕ = last_index 0 (take k ts) in
    let (f, same, mark, left) = fold-some l (take k ts) s t e in
    let named_all : All IsNamed (take k ts) =
      take-All IsNamed k ts (unfolded-IsNamed (folded_through s) s) in
    let folded : folded_through t ≡ some n =
      ap folded_through left ∙ folded_through-put f (take k ts) s same named_all ∙ mark in
    let shown : length (unfolded_turns (folded_through t) t) ≡ count (is_after (some n)) (turns t) =
      ap (λ o. length (unfolded_turns o t)) folded ∙ shown_count (some n) t in
    let kept : count (is_after (some n)) (turns t)
        ≡ count (is_after (some n)) (turns (forget_each (take k ts) (put f s))) =
      ap (λ u. count (is_after (some n)) (turns u)) left in
    let fewer = count-forget_each (is_after (some n)) (take k ts) (put f s) in
    let put_same : count (is_after (some n)) (turns (put f s))
        ≡ count (is_after (some n)) (turns s) =
      ap (count (is_after (some n))) (put-turns f s (ap turn_index same ∙ no_turn)) in
    let few = after_fold (folded_through s) k s h b in
    omega (arith, shown, kept, fewer, put_same, few)

-- a compaction that keeps fewer turns than it allows leaves no more than it allows
pub compact_if_needed-few :
    (l : Limits) (s t : List Fact)
    → l.keep_turns < l.max_turns
    → compact_if_needed l s ≡ some t
    → length (unfolded_turns (folded_through t) t) ≤ l.max_turns
unfolding compact_if_needed
compact_if_needed-few l s t h e =
    elim (Bool-cases (leb (length (unfolded_turns (folded_through s) s)) l.max_turns)) [
      | inl few ↦
          let kept : compact_if_needed l s ≡ some s = rw few refl in
          let same : t ≡ s = some_eq (sym e ∙ kept) in
          let shown = ap (λ u. length (unfolded_turns (folded_through u) u)) same in
          let bound = leb→le (length (unfolded_turns (folded_through s) s)) l.max_turns few in
          omega (arith, shown, bound)
      | inr many ↦
          let n : ℕ = length (unfolded_turns (folded_through s) s) in
          let folds : compact_if_needed l s
              ≡ fold l (take (n - l.keep_turns) (unfolded_turns (folded_through s) s)) s =
            rw many refl in
          let over : l.max_turns < n = ground (arith, many) in
          let few =
            fold-few l (n - l.keep_turns) s t (omega (arith, over, h)) (omega arith)
              (sym folds ∙ e) in
          omega (arith, few, h, over)
    ]
