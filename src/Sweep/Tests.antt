-- ===== src/Sweep/Tests.antt =====
-- A round of the negotiated space of negotiation.py, and the theorems about its sweep.
use clonway_cockpit.Prelude.{◌≡◌, refl, true, some, []}
use clonway_cockpit.Ledger
use clonway_cockpit.Ledger.WellFormed
use clonway_cockpit.Ledger.WellFormed.{IsWellFormed}
use clonway_cockpit.Ledger.Example.{parse, parse-ParsesComposed, talk}
use clonway_cockpit.Sweep.{NegotiatedSpace, sweep}
use clonway_cockpit.Sweep.Quiet
use clonway_cockpit.Sweep.Quiet.{IsQuiet, fed}
use clonway_cockpit.Sweep.Posted.{Posted}

abbrev room : NegotiatedSpace
room = record {
  owner_line = "owner";
  has_callback = true;
  ledger = Ledger.empty;
  posts = [];
  failed = [];
}

sweep-IsQuiet_example :
    (s' : NegotiatedSpace) × (sweep parse talk room ≡ some s')
    × Posted (fed parse talk room) s'
    × IsQuiet s'
    × IsWellFormed s'.ledger
sweep-IsQuiet_example =
    Quiet.sweep-IsQuiet parse parse-ParsesComposed talk room WellFormed.empty-IsWellFormed

room-IsQuiet : IsQuiet room
unfolding Ledger.plan_worthy Ledger.unresolved
room-IsQuiet = record { planned = refl; all_marked = tt; drained = refl }

sweep-again_example : sweep parse [] room ≡ some room
sweep-again_example = Quiet.sweep-again parse room room-IsQuiet
