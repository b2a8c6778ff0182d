-- ===== src/GroupChat/Tests.antt =====
-- A round of two personas of group_chat.py that would answer each other for ever.
use clonway_cockpit.Prelude.{
  ℕ, zero, suc, ◌+◌, ◌-◌, ◌*◌, ◌/◌, ◌%◌, ◌≤◌, ◌<◌, min, max, String, ◌≡◌, refl, sym, ap, ◌∙◌, ◌≢◌,
  ◌↔◌, ◌⊎◌, inl, inr, Bool, true, false, not, ◌&&◌, ◌||◌, Option, none, some, List, [], ◌∷◌, ◌++◌,
  map, arith, ◌==◌, eq_iff, eq_refl, ltb, leb, nat_eq, if◌then◌else◌, ltb→lt, leb→le, Bool-cases,
  Option-cases, is_some, length, take, drop, any, all, keep, All, length-append, elem, Distinct,
  elem-append, All-append,
}
use clonway_cockpit.Prelude.Texts.{text_append}
use clonway_cockpit.GroupChat.{
  ChatMessage, PostedReply, Persona, Orchestrator, Talk, extract_mentions, domain_match, run_round,
}
use clonway_cockpit.GroupChat.Bounds
use clonway_cockpit.GroupChat.Bounds.{round_fuel, may_draw, per_owner}
use clonway_cockpit.GroupChat.Speakers

abbrev ascii : ℕ → Bool
ascii c = false

abbrev milo : Persona
milo = record {
  handle = "milo";
  name = "Milo";
  domain = "VAT and the books";
  email = "";
  avatar_ref = "";
  voice = "";
}

abbrev ada : Persona
ada = record {
  handle = "ada";
  name = "Ada";
  domain = "payroll";
  email = "";
  avatar_ref = "";
  voice = "";
}

abbrev room : Orchestrator ℕ
room = record {
  wide = ascii;
  personas = ada ∷ milo ∷ [];
  responder = λ p m n. (some (if p.handle == "ada" then "ask @milo" else "ask @ada"), suc n);
  max_persona_turns = 2;
  matcher = domain_match ascii;
  space = "ops";
}

mentions :
    extract_mentions ascii "hey @Milo, mail billing@milo.com or @ada @milo" ≡ "milo" ∷ "ada" ∷ []
unfolding extract_mentions clonway_cockpit.Prelude.Texts.lower clonway_cockpit.Handoff.slug_head
    clonway_cockpit.Handoff.slug_char text_append
mentions = refl

no_part : domain_match ascii "are you there?" milo ≡ false
unfolding domain_match clonway_cockpit.Prelude.Texts.lower text_append
no_part = refl

vat : domain_match ascii "Is the VAT done?" milo ≡ true
unfolding domain_match clonway_cockpit.Prelude.Texts.lower text_append
vat = refl

abbrev question : ChatMessage
question = record {
  text = "the vat?";
  author = "owner";
  is_owner = true;
  space = "ops";
  mentions = [];
}

abbrev answers : List PostedReply
answers =
    record { handle = "milo"; text = "ask @ada" }
    ∷ record { handle = "ada"; text = "ask @milo" }
    ∷ []

abbrev ended : Talk ℕ
ended = record {
  queue = [];
  posted = answers;
  turns_since_owner = 2;
  sent = ("ops", "ask @ada") ∷ ("ops", "ask @milo") ∷ [];
  minds = 2;
}

run_round-bound_example :
    (t : Talk ℕ) × (run_round room 8 (question ∷ []) 0 ≡ some t)
    × (length t.posted ≤ may_draw (per_owner room) (question ∷ []) + room.max_persona_turns)
run_round-bound_example = Bounds.run_round-bound room 8 (question ∷ []) 0 (omega arith)
