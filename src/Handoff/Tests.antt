-- ===== src/Handoff/Tests.antt =====
-- Runs of the validators and the codec of handoff.py, and the theorems at a concrete notice.
use clonway_cockpit.Prelude.{◌≡◌, refl, [], ◌∷◌}
use clonway_cockpit.Prelude.Int.{pos}
use clonway_cockpit.Handoff.{
  passed, raised, HandoffEnvelope, bad_slug, not_stripped, check_envelope,
}
use clonway_cockpit.Handoff.Payload.{to_payload, from_payload}
use clonway_cockpit.Handoff.Checks.{checks}
use clonway_cockpit.Handoff.Payload.Trip
use clonway_cockpit.Handoff.Payload.Trip.{IsComposed}
use clonway_cockpit.Handoff.Shape
use clonway_cockpit.Handoff.Shape.{IsValid}

abbrev leaver : HandoffEnvelope
leaver = record {
  kind = "notice";
  task_id = "leaver-7";
  origin = "hana";
  summary = "one leaver";
  recipient = "milo";
  facts = record { text = "Ana left"; claimant = "hana"; provenance = "xhr:7" } ∷ [];
  asks = "hold payroll for Ana" ∷ "close the ledger" ∷ [];
  decisions = [];
  steps = [];
  schema_version = pos 1;
}

leaver-IsComposed : IsComposed leaver
unfolding checks
leaver-IsComposed = record { envelope = refl; facts = (refl, tt); decisions = tt; steps = tt }

rejected :
    (check_envelope (record leaver { recipient = "../milo" }) ≡ raised bad_slug)
    × (check_envelope (record leaver { summary = " one leaver" }) ≡ raised not_stripped)
unfolding checks
rejected = (refl, refl)

from_payload-to_payload_example : from_payload (to_payload leaver) ≡ passed leaver
from_payload-to_payload_example = Trip.from_payload-to_payload leaver leaver-IsComposed

check_envelope-IsValid_example : IsValid leaver
unfolding checks
check_envelope-IsValid_example = Shape.check_envelope-IsValid leaver refl
