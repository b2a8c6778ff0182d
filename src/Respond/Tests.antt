-- ===== src/Respond/Tests.antt =====
-- Runs of the negotiating responder of negotiation.py, with and without the model, on a notice
-- and on a redirected ask.
use clonway_cockpit.Prelude.{
  ℕ, suc, String, ◌≡◌, refl, true, false, Option, none, some, [], ◌∷◌, arith, ◌==◌, if◌then◌else◌,
  All,
}
use clonway_cockpit.Prelude.Int.{pos}
use clonway_cockpit.GroupChat.{ChatMessage, Persona}
use clonway_cockpit.Handoff.{HandoffEnvelope, check_envelope, passed}
use clonway_cockpit.Reflex.{ReflexKit, returned}
use clonway_cockpit.Respond.{Ran, ran, Desk, Fleet, Colleague, constituted, absent, respond}
use clonway_cockpit.Respond.Silent
use clonway_cockpit.Respond.Silent.{IsCalled}
use clonway_cockpit.Respond.Answers
use clonway_cockpit.Respond.Answers.{IsAnswer}
use clonway_cockpit.Respond.Reports.{KitFits}

abbrev notice : HandoffEnvelope
notice = record {
  kind = "notice";
  task_id = "s7";
  origin = "people";
  summary = "a starter";
  recipient = "books";
  facts = record { text = "no right to work"; claimant = "people"; provenance = "file 7" } ∷ [];
  asks = "hold payroll" ∷ "update rota" ∷ [];
  decisions = [];
  steps = [];
  schema_version = pos 1;
}

-- a decline that redirects an ask to books
abbrev response : HandoffEnvelope
response = record {
  kind = "response";
  task_id = "s7";
  origin = "people";
  summary = "re: a starter";
  recipient = "rota";
  facts = [];
  asks = [];
  decisions =
      record {
        ask = "hold payroll";
        decision = "decline";
        redirect = "books";
        note = "";
        capability = "";
        applied = false;
      }
      ∷ [];
  steps = [];
  schema_version = pos 1;
}

abbrev books : Persona
books = record {
  handle = "books";
  name = "Milo";
  domain = "payroll";
  email = "";
  avatar_ref = "";
  voice = "";
}

-- the executor counts the holds
abbrev kit : ReflexKit ℕ
kit = record {
  bank =
      record {
        capability_key = "payroll.hold";
        description = "hold the payroll";
        matcher = λ env. some "hold payroll";
        run = λ m n. (returned true, suc n);
      }
      ∷ [];
  policy = record { keys = "payroll.hold" ∷ []; max_applies = some 1; applied = 0 };
  log = record { seen_pairs = []; memory = some [] };
  has_audit = true;
  audited = [];
}

abbrev desk : Desk ℕ
desk = record { kit = some kit; notes = []; turns = []; world = 0 }

abbrev colleague_of : String → Colleague
colleague_of handle = if handle == "books" then constituted "You keep the books." else absent

-- the model is down
abbrev fleet : Fleet ℕ
fleet = record {
  colleague = colleague_of;
  known = "books" ∷ "people" ∷ "rota" ∷ [];
  recall = λ notes query. [];
  recent = λ turns. turns;
  complete = λ turns. none;
  quiet_on_error = true;
  inner = λ persona message n. (some "hello", n);
  parse = λ s. if s == "N" then some notice else if s == "R" then some response else none;
  render = λ env say. say;
}

abbrev message : String → ChatMessage
message s = record { text = s; author = "people"; is_owner = false; space = "room"; mentions = [] }

abbrev world_of : Ran (Option String × Desk ℕ) → ℕ
world_of (ran (reply, d)) = d.world
world_of (Ran.failed why) = 99

abbrev reply_of : Ran (Option String × Desk ℕ) → Option String
reply_of (ran (reply, d)) = reply
reply_of (Ran.failed why) = none

abbrev desk_of : Ran (Option String × Desk ℕ) → Desk ℕ
desk_of (ran (reply, d)) = d
desk_of (Ran.failed why) = desk

notice_checked : check_envelope notice ≡ passed tt
unfolding clonway_cockpit.Handoff.Checks.checks
notice_checked = refl

slugs : All (λ k. clonway_cockpit.Handoff.is_safe_slug k ≡ true) fleet.known
unfolding clonway_cockpit.Handoff.Checks.checks
slugs = (refl, (refl, (refl, tt)))

kit_fits : KitFits notice desk.kit
unfolding clonway_cockpit.Respond.Runs.runs
kit_fits = ((refl, tt), (refl, tt), omega arith)

respond-IsAnswer_example :
    IsAnswer fleet books notice
      ("hold payroll" ∷ "update rota" ∷ [])
      "people"
      (respond fleet books (message "N") desk)
respond-IsAnswer_example =
    Answers.respond-IsAnswer fleet books (message "N") notice "hold payroll" ("update rota" ∷ [])
      desk "You keep the books." refl refl refl refl refl slugs notice_checked refl refl refl
      kit_fits

respond-IsCalled_example : IsCalled books "people" notice
respond-IsCalled_example =
    Silent.respond-IsCalled fleet books (message "N") notice desk respond-IsAnswer_example.desk
      respond-IsAnswer_example.say refl refl respond-IsAnswer_example.replied

-- the reflex applied, though the model is down
held : world_of (respond fleet books (message "N") desk) ≡ 1
unfolding clonway_cockpit.Respond.Runs.runs
held = refl

taken_over :
    respond fleet books (message "R") desk
    ≡ ran (
      reply_of (respond fleet books (message "R") desk),
      desk_of (respond fleet books (message "R") desk),
    )
unfolding clonway_cockpit.Respond.Runs.runs
taken_over = refl

spoken :
    reply_of (respond fleet books (message "R") desk)
    ≡ some "Milo here — actioned what I could; the rest needs eyes."
unfolding clonway_cockpit.Respond.Runs.runs
spoken = refl

respond-world_example : (desk_of (respond fleet books (message "R") desk)).world ≡ 0
respond-world_example =
    Silent.respond-world fleet books (message "R") response desk
      (desk_of (respond fleet books (message "R") desk))
      (reply_of (respond fleet books (message "R") desk)) refl refl refl taken_over
