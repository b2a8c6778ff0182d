-- ===== src/Approval/Tests.antt =====
-- Runs of the allowlist policy of approval.py, and its theorems at concrete proposals.
use clonway_cockpit.Prelude.{◌≡◌, refl, ◌↔◌, true, false, some, [], ◌∷◌, arith}
use clonway_cockpit.Value.{
  Fields, null, bool, str, arr, no_items, item, no_members, member, lookup, lookup_or, is_false,
}
use clonway_cockpit.Approval.{verdict, type_error, AllowlistPolicy, key_listed, cap_reached, decide}
use clonway_cockpit.Approval.Session
use clonway_cockpit.Approval.Session.{Eligible, IsSafe}

abbrev policy : AllowlistPolicy
policy = record {
  allowlist = "bills.draft" ∷ [];
  label = "books";
  max_applies = some 1;
  applied = 0;
}

abbrev draft : Fields
draft =
    member "token" (str "gate-1") (
      member "capability_key" (str "bills.draft") (member "money_movement" (bool false) no_members))

abbrev payment : Fields
payment =
    member "capability_key" (str "bills.draft") (member "money_movement" (arr no_items) no_members)

abbrev listed_key : Fields
listed_key = member "capability_key" (arr (item null no_items)) no_members

runs :
    (decide policy draft ≡ (verdict true, record policy { applied = 1 }))
    × (decide policy payment ≡ (verdict false, policy))
    × (decide policy listed_key ≡ (type_error, policy))
unfolding decide key_listed is_false lookup lookup_or
runs = (refl, refl, refl)

draft-Eligible : Eligible policy.allowlist draft
unfolding is_false lookup lookup_or
draft-Eligible = record {
  no_money = refl;
  key = "bills.draft";
  keyed = refl;
  nonempty = refl;
  listed = refl;
}

decide_iff_example :
    ((decide policy draft).0 ≡ verdict true)
    ↔ (Eligible policy.allowlist draft × (cap_reached policy ≡ false))
decide_iff_example = Session.decide_iff policy draft

session-IsSafe_example : IsSafe policy 1 (draft ∷ payment ∷ draft ∷ [])
session-IsSafe_example =
    Session.session-IsSafe 1 (draft ∷ payment ∷ draft ∷ []) policy refl (omega arith)
