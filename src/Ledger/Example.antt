-- ===== src/Ledger/Example.antt =====
-- A notice and its answer, for runs of the ledger of negotiation.py.
use clonway_cockpit.Prelude.{
  String, ◌≡◌, refl, inl, inr, false, Option, none, some, List, [], ◌∷◌, arith, ◌==◌, if◌then◌else◌,
  Bool-cases,
}
use clonway_cockpit.Prelude.Int.{pos}
use clonway_cockpit.GroupChat.{ChatMessage}
use clonway_cockpit.Handoff.{HandoffEnvelope}
use clonway_cockpit.Handoff.Payload.Trip.{IsComposed}
use clonway_cockpit.Handoff.Checks.{checks}
use clonway_cockpit.Ledger.WellFormed.{ParsesComposed}

abbrev pub leaver : HandoffEnvelope
leaver = record {
  kind = "notice";
  task_id = "leaver-7";
  origin = "hana";
  summary = "one leaver";
  recipient = "milo";
  facts = [];
  asks = "hold payroll" ∷ "close the ledger" ∷ [];
  decisions = [];
  steps = [];
  schema_version = pos 1;
}

abbrev pub answer : HandoffEnvelope
answer = record leaver {
  kind = "response";
  origin = "milo";
  recipient = "hana";
  asks = [];
  decisions =
      record {
        ask = "hold payroll";
        decision = "accept";
        redirect = "";
        note = "";
        capability = "";
        applied = false;
      }
      ∷ record {
        ask = "close the ledger";
        decision = "decline";
        redirect = "cleo";
        note = "";
        capability = "";
        applied = false;
      }
      ∷ [];
}

-- a table in place of the wire format
abbrev pub parse : String → Option HandoffEnvelope
parse text =
    if text == "notice" then some leaver else if text == "answer" then some answer else none

leaver-IsComposed : IsComposed leaver
unfolding checks
leaver-IsComposed = record { envelope = refl; facts = tt; decisions = tt; steps = tt }

answer-IsComposed : IsComposed answer
unfolding checks
answer-IsComposed = record {
  envelope = refl;
  facts = tt;
  decisions = (refl, (refl, tt));
  steps = tt;
}

pub parse-ParsesComposed : ParsesComposed parse
parse-ParsesComposed = record {
  at_text = λ s env e. elim (Bool-cases (s == "notice")) [
    | inl n ↦ let p : leaver ≡ env = ground (arith, n, e) in rw (← p) leaver-IsComposed
    | inr n ↦ elim (Bool-cases (s == "answer")) [
      | inl a ↦ let p : answer ≡ env = ground (arith, n, a, e) in rw (← p) answer-IsComposed
      | inr a ↦ cc (rw (n, a) at e)
    ]
  ];
}

abbrev pub said : String → String → ChatMessage
said author text = record {
  text = text;
  author = author;
  is_owner = false;
  space = "room";
  mentions = [];
}

abbrev pub talk : List ChatMessage
talk = said "hana" "notice" ∷ said "milo" "answer" ∷ said "otto" "hello" ∷ []
