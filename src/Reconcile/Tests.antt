-- ===== src/Reconcile/Tests.antt =====
-- The decisions of a model that answers out of order, against negotiation.py.
use clonway_cockpit.Prelude.{String, ◌≡◌, refl, true, false, List, [], ◌∷◌, All}
use clonway_cockpit.Value.{Fields, str, obj, arr, no_items, item, no_members, member}
use clonway_cockpit.Handoff.{passed, AskDecision, check_line, is_safe_slug, max_line}
use clonway_cockpit.Handoff.Checks.{checks}
use clonway_cockpit.Reconcile.{single_line, reconcile}
use clonway_cockpit.Reconcile.Total
use clonway_cockpit.Reconcile.Total.{Covers}

abbrev asks : List String
asks = "hold payroll" ∷ "update the rota" ∷ []

abbrev known : List String
known = "books" ∷ "people" ∷ "desk" ∷ []

-- the second ask is named; the other item takes the first ask
abbrev raw : Fields
raw = member "say" (str " on  it ") (
    member "decisions"
      (arr (
        item
          (obj (
            member "ask" (str "update the rota")
              (member "decision" (str "decline") (member "redirect" (str "people") no_members))))
          (item (obj (member "decision" (str "accept") (member "redirect" (str "desk") no_members)))
            no_items)))
      no_members)

abbrev decided : List AskDecision
decided =
    record {
      ask = "hold payroll";
      decision = "accept";
      redirect = "";
      note = "";
      capability = "";
      applied = false;
    }
    ∷ record {
      ask = "update the rota";
      decision = "decline";
      redirect = "people";
      note = "";
      capability = "";
      applied = false;
    }
    ∷ []

run : reconcile asks raw known "books" ≡ passed ("on it", decided)
unfolding reconcile checks
run = refl

squeezed : single_line "  a  long line " 6 ≡ "a long"
unfolding single_line
squeezed = refl

slugs : All (λ k. is_safe_slug k ≡ true) known
unfolding checks
slugs = (refl, (refl, (refl, tt)))

lines : All (λ ask. check_line ask max_line true ≡ passed tt) asks
unfolding checks
lines = (refl, (refl, tt))

reconcile-Covers_example :
    (say : String) × (ds : List AskDecision) × (reconcile asks raw known "books" ≡ passed (say, ds))
    × Covers known "books" asks ds
reconcile-Covers_example = Total.reconcile-Covers asks raw known "books" slugs lines
