-- ===== src/Space/Tests.antt =====
-- A space of two personas: one that answers every message that mentions it, and one that is quiet.
use clonway_cockpit.Prelude.{
  ℕ, suc, String, ◌≡◌, refl, true, false, none, some, List, [], ◌∷◌, arith, ◌==◌, if◌then◌else◌,
}
use clonway_cockpit.GroupChat.{PostedReply, Persona, from_text}
use clonway_cockpit.Ledger
use clonway_cockpit.Ledger.WellFormed
use clonway_cockpit.Ledger.Example.{parse, parse-ParsesComposed, leaver}
use clonway_cockpit.Space.{Space, refused, foreign_origin, owner_says, agent_says, post_notice}
use clonway_cockpit.Space.Settles
use clonway_cockpit.Space.Settles.{IsSettled}

abbrev persona : String → Persona
persona handle = record {
  handle = handle;
  name = handle;
  domain = "books";
  email = "";
  avatar_ref = "";
  voice = "";
}

abbrev space : Space ℕ
space = record {
  room = record {
    owner_line = "owner";
    has_callback = true;
    ledger = Ledger.empty;
    posts = [];
    failed = [];
  };
  orch = record {
    wide = λ c. false;
    personas = persona "hana" ∷ persona "milo" ∷ [];
    responder = λ p m n. (if p.handle == "milo" then some "answer" else none, suc n);
    max_persona_turns = 2;
    matcher = λ text p. true;
    space = "ops";
  };
  minds = 0;
}

misposted :
    post_notice parse (λ env say. "notice") 3 "milo" leaver "" space ≡ refused foreign_origin
unfolding post_notice
misposted = refl

owner_says-IsSettled_example :
    (replies : List PostedReply) × (sp : Space ℕ) × (owner_says parse 7 "who has the books?" "owner"
        space
      ≡ some (replies, sp))
    × IsSettled parse
        (from_text (λ c. false) "who has the books?" "owner" true "ops")
        6
        space
        replies
        sp
owner_says-IsSettled_example =
    Settles.owner_says-IsSettled parse parse-ParsesComposed 7 "who has the books?" "owner" space
      WellFormed.empty-IsWellFormed (omega arith)

agent_says-IsSettled_example :
    (replies : List PostedReply) × (sp : Space ℕ) × (agent_says parse 3 "hana" "notice" space
      ≡ some (replies, sp))
    × IsSettled parse (from_text (λ c. false) "notice" "hana" false "ops") 2 space replies sp
agent_says-IsSettled_example =
    Settles.agent_says-IsSettled parse parse-ParsesComposed 3 "hana" "notice" space
      WellFormed.empty-IsWellFormed (omega arith)
