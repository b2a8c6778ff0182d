-- ===== src/Thread/Counts.antt =====
-- chat_memory.py
-- How many turns of a scope pass a test, after a sort, a selection or a deletion.
use clonway_cockpit.Prelude.{
  ℕ, suc, ◌≤◌, String, ◌≡◌, refl, ap, ◌∙◌, inl, inr, Bool, true, Option, none, some, List, [], ◌∷◌,
  arith, ◌==◌, leb, Bool-cases, length, keep,
}
use clonway_cockpit.Notes.{Fact, forget}
use clonway_cockpit.Thread.{
  Turn, turn_index, with_index, turns, insert_turn, sort_turns, forget_each,
}

-- the turns of a scope whose index passes a test
abbrev pub count : (ℕ → Bool) → List Turn → ℕ
count p ts = length (keep (λ (t : Turn). p t.0) ts)

module _ (p : ℕ → Bool) where
  pub count-keep :
      (q : ℕ → Bool) (ts : List Turn)
      → ((i : ℕ) → p i ≡ true → q i ≡ true)
      → count p (keep (λ (t : Turn). q t.0) ts) ≡ count p ts
  count-keep q [] h = refl
  count-keep q (t ∷ ts) h = elim (Bool-cases (q t.0)) [
    | inl e ↦ rw e (elim (Bool-cases (p t.0)) [
      | inl k ↦ rw k (ap suc (count-keep q ts h))
      | inr k ↦ rw k (count-keep q ts h)
    ])
    | inr e ↦ rw e (elim (Bool-cases (p t.0)) [
      | inl k ↦ absurd (cc (h t.0 k, e))
      | inr k ↦ rw k (count-keep q ts h)
    ])
  ]

  count_next :
      (t : Turn) (ts us : List Turn) → count p ts ≡ count p us → count p (t ∷ ts) ≡ count p (t ∷ us)
  count_next t ts us h = elim (Bool-cases (p t.0)) [ inl k ↦ rw k (ap suc h) | inr k ↦ rw k h ]

  count_least : (t : Turn) (ts : List Turn) → count p ts ≤ count p (t ∷ ts)
  count_least t ts = elim (Bool-cases (p t.0)) [
    | inl k ↦ rw k (omega arith)
    | inr k ↦ rw k (omega arith)
  ]

  count_mono :
      (t : Turn) (ts us : List Turn) → count p ts ≤ count p us → count p (t ∷ ts) ≤ count p (t ∷ us)
  count_mono t ts us h = elim (Bool-cases (p t.0)) [
    | inl k ↦ rw k (omega (arith, h))
    | inr k ↦ rw k h
  ]

  count_swap : (t u : Turn) (ts : List Turn) → count p (t ∷ u ∷ ts) ≡ count p (u ∷ t ∷ ts)
  count_swap t u ts = elim (Bool-cases (p t.0)) [
    | inl k ↦ rw k (elim (Bool-cases (p u.0)) [ inl m ↦ rw m refl | inr m ↦ rw m refl ])
    | inr k ↦ rw k refl
  ]

  pub count-insert_turn :
      (t : Turn) (us : List Turn) → count p (insert_turn t us) ≡ count p (t ∷ us)
  unfolding insert_turn
  count-insert_turn t [] = refl
  count-insert_turn t (u ∷ us) = elim (Bool-cases (leb t.0 u.0)) [
    | inl e ↦ rw e refl
    | inr e ↦
        rw e (count_next u (insert_turn t us) (t ∷ us) (count-insert_turn t us) ∙ count_swap u t us)
  ]

  pub count-sort_turns : (ts : List Turn) → count p (sort_turns ts) ≡ count p ts
  unfolding sort_turns
  count-sort_turns [] = refl
  count-sort_turns (t ∷ ts) =
      count-insert_turn t (sort_turns ts) ∙ count_next t (sort_turns ts) ts (count-sort_turns ts)

  count_index :
      (o : Option ℕ) (f : Fact) (ts us : List Turn)
      → count p ts ≤ count p us
      → count p (with_index o f ts) ≤ count p (with_index o f us)
  unfolding with_index
  count_index none f ts us h = h
  count_index (some i) f ts us h = count_mono (i, f) ts us h

  count_more : (o : Option ℕ) (f : Fact) (ts : List Turn) → count p ts ≤ count p (with_index o f ts)
  unfolding with_index
  count_more none f ts = omega arith
  count_more (some i) f ts = count_least (i, f) ts

  pub count-forget :
      (name : String) (s : List Fact) → count p (turns (forget name s)) ≤ count p (turns s)
  unfolding turns forget
  count-forget name [] = omega arith
  count-forget name (f ∷ s) = elim (Bool-cases (f.name == name)) [
    | inl e ↦
        let fewer = count-forget name s in
        let more = count_more (turn_index f.name) f (turns s) in rw e (omega (arith, fewer, more))
    | inr e ↦
        rw e (
          count_index (turn_index f.name) f (turns (forget name s)) (turns s) (count-forget name s))
  ]

  pub count-forget_each :
      (ts : List Turn) (s : List Fact) → count p (turns (forget_each ts s)) ≤ count p (turns s)
  unfolding forget_each
  count-forget_each [] s = omega arith
  count-forget_each (t ∷ ts) s =
      let rest = count-forget_each ts (forget t.1.name s) in
      let one = count-forget t.1.name s in omega (arith, rest, one)

  pub count-length : (ts : List Turn) → count p ts ≤ length ts
  count-length [] = omega arith
  count-length (t ∷ ts) = elim (Bool-cases (p t.0)) [
    | inl k ↦ rw k (omega (arith, count-length ts))
    | inr k ↦ rw k (omega (arith, count-length ts))
  ]
