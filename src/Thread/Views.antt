-- ===== src/Thread/Views.antt =====
-- chat_memory.py
-- What the writes and deletions of notes leave of the turns, and of the mark of the folded ones.
use clonway_cockpit.Prelude.{
  ℕ, zero, suc, ◌≤◌, ◌<◌, String, ◌≡◌, refl, sym, ap, ◌∙◌, inl, inr, Bool, false, Option, none,
  some, List, [], ◌∷◌, arith, ◌==◌, eq_iff, eq_refl, leb, Bool-cases, take, keep, All,
}
use clonway_cockpit.Prelude.{some_eq}
use clonway_cockpit.Prelude.Texts.{text_leb}
use clonway_cockpit.Notes.{Fact, put, forget, get}
use clonway_cockpit.Thread.{
  Turn, turn_index, with_index, turns, insert_turn, sort_turns, forget_each, above,
}

-- the index of a turn is that of its note's name
abbrev pub IsNamed : Turn → Type 0
IsNamed t = turn_index t.1.name ≡ some t.0

index_IsNamed :
    (o : Option ℕ) (f : Fact) (ts : List Turn)
    → turn_index f.name ≡ o
    → All IsNamed ts
    → All IsNamed (with_index o f ts)
unfolding with_index
index_IsNamed none f ts e h = h
index_IsNamed (some i) f ts e h = (e, h)

pub turns-IsNamed : (s : List Fact) → All IsNamed (turns s)
unfolding turns
turns-IsNamed [] = tt
turns-IsNamed (f ∷ s) = index_IsNamed (turn_index f.name) f (turns s) refl (turns-IsNamed s)

module _ {κ} (P : Turn → Type κ) where
  pub keep-All : (p : Turn → Bool) (ts : List Turn) → All P ts → All P (keep p ts)
  keep-All p [] h = tt
  keep-All p (t ∷ ts) h = elim (Bool-cases (p t)) [
    | inl e ↦ rw e (h.0, keep-All p ts h.1)
    | inr e ↦ rw e (keep-All p ts h.1)
  ]

  pub take-All : (n : ℕ) (ts : List Turn) → All P ts → All P (take n ts)
  take-All zero ts h = tt
  take-All (suc n) [] h = tt
  take-All (suc n) (t ∷ ts) h = (h.0, take-All n ts h.1)

  pub insert-All : (t : Turn) (us : List Turn) → P t → All P us → All P (insert_turn t us)
  unfolding insert_turn
  insert-All t [] ht h = (ht, tt)
  insert-All t (u ∷ us) ht h = elim (Bool-cases (leb t.0 u.0)) [
    | inl e ↦ rw e (ht, h)
    | inr e ↦ rw e (h.0, insert-All t us ht h.1)
  ]

  pub sort-All : (ts : List Turn) → All P ts → All P (sort_turns ts)
  unfolding sort_turns
  sort-All [] h = tt
  sort-All (t ∷ ts) h = insert-All t (sort_turns ts) h.0 (sort-All ts h.1)

turns-none : (f : Fact) (s : List Fact) → turn_index f.name ≡ none → turns (f ∷ s) ≡ turns s
unfolding turns with_index
turns-none f s h = ap (λ o. with_index o f (turns s)) h

turns-next : (f : Fact) (s r : List Fact) → turns s ≡ turns r → turns (f ∷ s) ≡ turns (f ∷ r)
unfolding turns
turns-next f s r h = ap (with_index (turn_index f.name) f) h

-- a note that is no turn leaves the turns as they are
pub put-turns : (f : Fact) (s : List Fact) → turn_index f.name ≡ none → turns (put f s) ≡ turns s
unfolding put
put-turns f [] h = turns-none f [] h
put-turns f (g ∷ s) h = elim (Bool-cases (g.name == f.name)) [
  | inl e ↦
      let same : turn_index g.name ≡ none = ap turn_index ((eq_iff g.name f.name).0 e) ∙ h in
      rw e (turns-none f s h ∙ sym (turns-none g s same))
  | inr e ↦ elim (Bool-cases (text_leb f.name g.name)) [
    | inl l ↦ rw (e, l) (turns-none f (g ∷ s) h)
    | inr l ↦ rw (e, l) (turns-next g (put f s) s (put-turns f s h))
  ]
]

-- what was written is read
pub get-put : (f : Fact) (s : List Fact) → get f.name (put f s) ≡ some f
unfolding put get
get-put f [] = rw (eq_refl f.name) refl
get-put f (g ∷ s) = elim (Bool-cases (g.name == f.name)) [
  | inl e ↦ rw (e, eq_refl f.name) refl
  | inr e ↦ elim (Bool-cases (text_leb f.name g.name)) [
    | inl l ↦ rw (e, l, eq_refl f.name) refl
    | inr l ↦ rw (e, l, e) (get-put f s)
  ]
]

pub get-put_other :
    (name : String) (f : Fact) (s : List Fact)
    → (f.name == name) ≡ false
    → get name (put f s) ≡ get name s
unfolding put get
get-put_other name f [] h = rw h refl
get-put_other name f (g ∷ s) h = elim (Bool-cases (g.name == f.name)) [
  | inl e ↦
      let same : (g.name == name) ≡ false = ap (λ n. n == name) ((eq_iff g.name f.name).0 e) ∙ h in
      rw (e, h, same) refl
  | inr e ↦ elim (Bool-cases (text_leb f.name g.name)) [
    | inl l ↦ rw (e, l, h) refl
    | inr l ↦ rw (e, l, get-put_other name f s h) refl
  ]
]

get-forget :
    (name other : String) (s : List Fact)
    → (other == name) ≡ false
    → get name (forget other s) ≡ get name s
unfolding forget get
get-forget name other [] h = refl
get-forget name other (f ∷ s) h = elim (Bool-cases (f.name == other)) [
  | inl e ↦
      let same : (f.name == name) ≡ false = ap (λ n. n == name) ((eq_iff f.name other).0 e) ∙ h in
      rw (e, same) (get-forget name other s h)
  | inr e ↦ rw (e, get-forget name other s h) refl
]

-- the name of a turn is no other's that has no index
pub name_apart :
    (name other : String) (i : ℕ)
    → turn_index name ≡ none
    → turn_index other ≡ some i
    → (other == name) ≡ false
name_apart name other i h k = elim (Bool-cases (other == name)) [
  | inl e ↦ absurd (cc (ap turn_index ((eq_iff other name).0 e), h, k))
  | inr e ↦ e
]

get-forget_each_apart :
    (name : String) (ts : List Turn) (s : List Fact)
    → All (λ (t : Turn). (t.1.name == name) ≡ false) ts
    → get name (forget_each ts s) ≡ get name s
unfolding forget_each
get-forget_each_apart name [] s h = refl
get-forget_each_apart name (t ∷ ts) s h =
    get-forget_each_apart name ts (forget t.1.name s) h.1 ∙ get-forget name t.1.name s h.0

names_apart :
    (name : String) (ts : List Turn)
    → turn_index name ≡ none
    → All IsNamed ts
    → All (λ (t : Turn). (t.1.name == name) ≡ false) ts
names_apart name [] h k = tt
names_apart name (t ∷ ts) h k = (name_apart name t.1.name t.0 h k.0, names_apart name ts h k.1)

pub get-forget_each :
    (name : String) (ts : List Turn) (s : List Fact)
    → turn_index name ≡ none
    → All IsNamed ts
    → get name (forget_each ts s) ≡ get name s
get-forget_each name ts s h k = get-forget_each_apart name ts s (names_apart name ts h k)

index_apart :
    (name other : String) (i j : ℕ)
    → turn_index name ≡ some i
    → turn_index other ≡ some j
    → j < i
    → (other == name) ≡ false
index_apart name other i j h k lt = elim (Bool-cases (other == name)) [
  | inl e ↦
      let same : j ≡ i = some_eq (sym k ∙ ap turn_index ((eq_iff other name).0 e) ∙ h) in
      absurd (omega (arith, same, lt))
  | inr e ↦ e
]

indices_apart :
    (name : String) (i : ℕ) (ts : List Turn)
    → turn_index name ≡ some i
    → All IsNamed ts
    → All (λ (t : Turn). t.0 < i) ts
    → All (λ (t : Turn). (t.1.name == name) ≡ false) ts
indices_apart name i [] h k b = tt
indices_apart name i (t ∷ ts) h k b =
    (index_apart name t.1.name i t.0 h k.0 b.0, indices_apart name i ts h k.1 b.1)

-- the note of a turn stays when turns of lower indices are deleted
pub get-forget_each_below :
    (name : String) (i : ℕ) (ts : List Turn) (s : List Fact)
    → turn_index name ≡ some i
    → All IsNamed ts
    → All (λ (t : Turn). t.0 < i) ts
    → get name (forget_each ts s) ≡ get name s
get-forget_each_below name i ts s h k b =
    get-forget_each_apart name ts s (indices_apart name i ts h k b)

above_index : (o : Option ℕ) (f : Fact) (ts : List Turn) → above ts ≤ above (with_index o f ts)
unfolding above with_index
above_index none f ts = omega arith
above_index (some i) f ts = omega arith

above_first : (f : Fact) (i : ℕ) (ts : List Turn) → i < above (with_index (some i) f ts)
unfolding above with_index
above_first f i ts = omega arith

-- a turn that can be read is below the next index
pub above-get :
    (name : String) (i : ℕ) (s : List Fact) (f : Fact)
    → turn_index name ≡ some i
    → get name s ≡ some f
    → i < above (turns s)
unfolding get turns
above-get name i [] f h k = absurd (cc k)
above-get name i (g ∷ s) f h k = elim (Bool-cases (g.name == name)) [
  | inl e ↦
      let index : turn_index g.name ≡ some i = ap turn_index ((eq_iff g.name name).0 e) ∙ h in
      let first = above_first g i (turns s) in
      let same : above (turns (g ∷ s)) ≡ above (with_index (some i) g (turns s)) =
        ap (λ o. above (with_index o g (turns s))) index in
      omega (arith, first, same)
  | inr e ↦
      let later : get name (g ∷ s) ≡ get name s = rw e refl in
      let rest = above-get name i s f h (sym later ∙ k) in
      let more = above_index (turn_index g.name) g (turns s) in omega (arith, rest, more)
]
