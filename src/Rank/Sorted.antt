-- ===== src/Rank/Sorted.antt =====
-- signals/rank.py
-- What is shown of the signals, and what is left out.
use clonway_cockpit.Prelude.{
  ℕ, zero, suc, min, ◌≡◌, refl, ap, ◌∙◌, inl, inr, true, List, [], ◌∷◌, ◌++◌, arith, Bool-cases,
  length, take, drop, All,
}
use mathlib.Core.List.{Perm}
use mathlib.Core.List.Perm
use clonway_cockpit.Rank.{Signal, sort_key, key_leb, place, ranked, rank_and_cap}
use clonway_cockpit.Rank.Order.{key_leb-total, key_leb_trans}

-- the first signal may stand before the second
abbrev pub IsBefore : Signal → Signal → Type 0
IsBefore s t = key_leb (sort_key s) (sort_key t) ≡ true

-- each signal may stand before all after it
abbrev pub IsRanked : List Signal → Type 0
IsRanked [] = Unit
IsRanked (s ∷ ss) = All (IsBefore s) ss × IsRanked ss

IsBefore-all :
    (s t : Signal) (us : List Signal) → IsBefore s t → All (IsBefore t) us → All (IsBefore s) us
IsBefore-all s t [] h k = tt
IsBefore-all s t (u ∷ us) h k =
    (key_leb_trans (sort_key s) (sort_key t) (sort_key u) h k.0, IsBefore-all s t us h k.1)

place-All :
    (P : Signal → Type 0) (s : Signal) (ts : List Signal) → P s → All P ts → All P (place s ts)
unfolding place
place-All P s [] hs h = (hs, tt)
place-All P s (t ∷ ts) hs h = elim (Bool-cases (key_leb (sort_key s) (sort_key t))) [
  | inl e ↦ rw e (hs, h)
  | inr e ↦ rw e (h.0, place-All P s ts hs h.1)
]

place-IsRanked : (s : Signal) (ts : List Signal) → IsRanked ts → IsRanked (place s ts)
unfolding place
place-IsRanked s [] h = (tt, tt)
place-IsRanked s (t ∷ ts) h = elim (Bool-cases (key_leb (sort_key s) (sort_key t))) [
  | inl e ↦ rw e ((e, IsBefore-all s t ts e h.0), h)
  | inr e ↦ rw e (
    place-All (IsBefore t) s ts (key_leb-total (sort_key s) (sort_key t) e) h.0,
    place-IsRanked s ts h.1,
  )
]

ranked-IsRanked : (ss : List Signal) → IsRanked (ranked ss)
unfolding ranked
ranked-IsRanked [] = tt
ranked-IsRanked (s ∷ ss) = place-IsRanked s (ranked ss) (ranked-IsRanked ss)

place-perm : (s : Signal) (ts : List Signal) → Perm (place s ts) (s ∷ ts)
unfolding place
place-perm s [] = Perm.rfl
place-perm s (t ∷ ts) = elim (Bool-cases (key_leb (sort_key s) (sort_key t))) [
  | inl e ↦ rw e Perm.rfl
  | inr e ↦ rw e (Perm.trans (Perm.cons t (place-perm s ts)) (Perm.swap s t ts))
]

ranked-perm : (ss : List Signal) → Perm (ranked ss) ss
unfolding ranked
ranked-perm [] = Perm.rfl
ranked-perm (s ∷ ss) = Perm.trans (place-perm s (ranked ss)) (Perm.cons s (ranked-perm ss))

place-length : (s : Signal) (ts : List Signal) → length (place s ts) ≡ suc (length ts)
unfolding place
place-length s [] = refl
place-length s (t ∷ ts) = elim (Bool-cases (key_leb (sort_key s) (sort_key t))) [
  | inl e ↦ rw e refl
  | inr e ↦ rw e (ap suc (place-length s ts))
]

ranked-length : (ss : List Signal) → length (ranked ss) ≡ length ss
unfolding ranked
ranked-length [] = refl
ranked-length (s ∷ ss) = place-length s (ranked ss) ∙ ap suc (ranked-length ss)

module _ {ℓ} {A : Type ℓ} where
  take-drop : (n : ℕ) (xs : List A) → take n xs ++ drop n xs ≡ xs
  take-drop zero xs = refl
  take-drop (suc n) [] = refl
  take-drop (suc n) (x ∷ xs) = ap (λ ys. x ∷ ys) (take-drop n xs)

  length-take : (n : ℕ) (xs : List A) → length (take n xs) ≡ min n (length xs)
  length-take zero xs = omega arith
  length-take (suc n) [] = omega arith
  length-take (suc n) (x ∷ xs) = let rest = length-take n xs in omega (arith, rest)

module _ (P : Signal → Type 0) where
  take-All : (n : ℕ) (ts : List Signal) → All P ts → All P (take n ts)
  take-All zero ts h = tt
  take-All (suc n) [] h = tt
  take-All (suc n) (t ∷ ts) h = (h.0, take-All n ts h.1)

  drop-All : (n : ℕ) (ts : List Signal) → All P ts → All P (drop n ts)
  drop-All zero ts h = h
  drop-All (suc n) [] h = tt
  drop-All (suc n) (t ∷ ts) h = drop-All n ts h.1

  both-All :
      (Q : Signal → Type 0) (ts : List Signal) → All P ts → All Q ts → All (λ t. P t × Q t) ts
  both-All Q [] h k = tt
  both-All Q (t ∷ ts) h k = ((h.0, k.0), both-All Q ts h.1 k.1)

-- where none is shown
none-IsBefore : (us : List Signal) → All (λ u. All (λ t. IsBefore t u) []) us
none-IsBefore [] = tt
none-IsBefore (u ∷ us) = (tt, none-IsBefore us)

take-IsRanked : (n : ℕ) (ts : List Signal) → IsRanked ts → IsRanked (take n ts)
take-IsRanked zero ts h = tt
take-IsRanked (suc n) [] h = tt
take-IsRanked (suc n) (t ∷ ts) h = (take-All (IsBefore t) n ts h.0, take-IsRanked n ts h.1)

-- what is shown stands before what is not
take-IsBefore :
    (n : ℕ) (ts : List Signal)
    → IsRanked ts
    → All (λ u. All (λ t. IsBefore t u) (take n ts)) (drop n ts)
take-IsBefore zero ts h = none-IsBefore ts
take-IsBefore (suc n) [] h = tt
take-IsBefore (suc n) (t ∷ ts) h =
    both-All (IsBefore t) (λ u. All (λ v. IsBefore v u) (take n ts)) (drop n ts)
      (drop-All (IsBefore t) n ts h.0) (take-IsBefore n ts h.1)

-- The signals that are shown and some others are the given ones in another order, the shown ones are
-- as many as the cap or, where there are fewer, all of them, they stand in the order of their keys,
-- and each of them may stand before each of the others: a signal is left out only for those whose key
-- is no later, whichever worker they come from.
pub rank_and_cap-IsTop :
    (cap : ℕ) (signals : List Signal)
    → (others : List Signal) × Perm (rank_and_cap cap signals ++ others) signals
      × (length (rank_and_cap cap signals) ≡ min cap (length signals))
      × IsRanked (rank_and_cap cap signals)
      × All (λ u. All (λ t. IsBefore t u) (rank_and_cap cap signals)) others
unfolding rank_and_cap
rank_and_cap-IsTop cap signals =
    let all_ranked : List Signal = ranked signals in
    (
      drop cap all_ranked,
      rw (take-drop cap all_ranked) (ranked-perm signals),
      length-take cap all_ranked ∙ ap (min cap) (ranked-length signals),
      take-IsRanked cap all_ranked (ranked-IsRanked signals),
      take-IsBefore cap all_ranked (ranked-IsRanked signals),
    )
