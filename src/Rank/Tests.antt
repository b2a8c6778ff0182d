-- ===== src/Rank/Tests.antt =====
-- signals/rank.py
-- Signals of two workers, ranked and capped.
use clonway_cockpit.Prelude.{
  ℕ, String, ◌≡◌, refl, Option, none, some, List, [], ◌∷◌, ◌++◌, length, All,
}
use mathlib.Core.List.{Perm}
use clonway_cockpit.Rank.{Signal, rank_and_cap}
use clonway_cockpit.Rank.Sorted.{IsRanked, IsBefore, rank_and_cap-IsTop}

abbrev signal : String → String → String → String → Option ℕ → Signal
signal worker title urgency level due = record {
  worker = worker;
  kind = "needs";
  title = title;
  detail = "";
  level = level;
  urgency = urgency;
  capability_key = none;
  focus = none;
  dedup_key = title;
  emitted_at = 0;
  due_at = due;
  state = "open";
  source_ref = none;
  source_id = none;
}

abbrev noise : Signal
noise = signal "mail" "digest" "info" "ok" none

abbrev late : Signal
late = signal "rota" "shift" "due" "warn" (some 738000)

abbrev early : Signal
early = signal "books" "vat" "due" "warn" (some 737000)

abbrev broken : Signal
broken = signal "books" "feed" "overdue" "error" none

capped : rank_and_cap 3 (noise ∷ late ∷ early ∷ broken ∷ []) ≡ broken ∷ early ∷ late ∷ []
unfolding rank_and_cap
capped = refl

unknown_last :
    rank_and_cap 2 (signal "a" "x" "never" "ok" none ∷ noise ∷ [])
    ≡ noise ∷ signal "a" "x" "never" "ok" none ∷ []
unfolding rank_and_cap
unknown_last = refl

rank_and_cap-IsTop_example :
    (others : List Signal) × Perm
      (rank_and_cap 1 (noise ∷ broken ∷ []) ++ others)
      (noise ∷ broken ∷ [])
    × (length (rank_and_cap 1 (noise ∷ broken ∷ [])) ≡ 1)
    × IsRanked (rank_and_cap 1 (noise ∷ broken ∷ []))
    × All (λ u. All (λ t. IsBefore t u) (rank_and_cap 1 (noise ∷ broken ∷ []))) others
rank_and_cap-IsTop_example = rank_and_cap-IsTop 1 (noise ∷ broken ∷ [])
