-- ===== src/Reflex/Tests.antt =====
-- Runs of the reflexes of reflex.py over a payroll that an executor holds.
use clonway_cockpit.Prelude.{
  ℕ, zero, suc, ◌+◌, ◌-◌, ◌*◌, ◌/◌, ◌%◌, ◌≤◌, ◌<◌, min, max, String, ◌≡◌, refl, sym, ap, ◌∙◌, ◌≢◌,
  ◌↔◌, ◌⊎◌, inl, inr, Bool, true, false, not, ◌&&◌, ◌||◌, Option, none, some, List, [], ◌∷◌, ◌++◌,
  map, arith, ◌==◌, eq_iff, eq_refl, ltb, leb, nat_eq, if◌then◌else◌, ltb→lt, leb→le, Bool-cases,
  Option-cases, is_some, length, take, drop, any, all, keep, All, length-append, elem, Distinct,
  elem-append, All-append,
}
use clonway_cockpit.Prelude.Int.{pos}
use clonway_cockpit.Prelude.Texts.{text_take, strip_of, map_char, lower}
use clonway_cockpit.Value.{Fields}
use clonway_cockpit.Handoff.{HandoffEnvelope, slug_char}
use clonway_cockpit.Reflex.{
  seen, pair_seen, RunOutcome, returned, ReflexRule, ReflexKit, Round, approved, build_proposal,
  note_name, slug_key, fire_reflexes, approves, is_safe_proposal, register,
}
use clonway_cockpit.Reflex.Fire
use clonway_cockpit.Reflex.Sound.{IsSound}
use clonway_cockpit.Reflex.Again

abbrev notice : HandoffEnvelope
notice = record {
  kind = "notice";
  task_id = "starter-7";
  origin = "people";
  summary = "a starter is not cleared";
  recipient = "books";
  facts = record { text = "no right to work"; claimant = "people"; provenance = "file 7" } ∷ [];
  asks = "hold payroll" ∷ "update the rota" ∷ [];
  decisions = [];
  steps = [];
  schema_version = pos 1;
}

abbrev hold : ReflexRule ℕ
hold = record {
  capability_key = "payroll.hold";
  description = "hold the payroll";
  matcher = λ env. some "hold payroll";
  run = λ m n. (returned true, suc n);
}

abbrev kit : ReflexKit ℕ
kit = record {
  bank = hold ∷ [];
  policy = record { keys = "payroll.hold" ∷ []; max_applies = some 1; applied = 0 };
  log = record { seen_pairs = []; memory = some [] };
  has_audit = true;
  audited = [];
}

abbrev later : ReflexKit ℕ
later = record kit {
  log = record { seen_pairs = []; memory = some (note_name "starter-7" "payroll.hold" ∷ []) };
}

-- the round that the run ends in
abbrev held : Round ℕ
held = record {
  kit = record kit {
    policy = record { keys = "payroll.hold" ∷ []; max_applies = some 1; applied = 1 };
    log = record {
      seen_pairs = ("starter-7", "payroll.hold") ∷ [];
      memory = some ("reflex-starter-7-payroll-hold" ∷ []);
    };
    audited = (approved, "payroll.hold", "reflex-starter-7-payroll-hold") ∷ [];
  };
  firings =
      record { ask = "hold payroll"; capability_key = "payroll.hold"; applied = true; note = "" }
      ∷ [];
  covered = "hold payroll" ∷ [];
  world = 1;
}

slugs : slug_key "Payroll.Hold" ≡ "payroll-hold"
unfolding slug_key text_take strip_of map_char lower slug_char
slugs = refl

run : fire_reflexes notice kit 0 ≡ some held
unfolding fire_reflexes clonway_cockpit.Reflex.seen clonway_cockpit.Reflex.pair_seen approves
    clonway_cockpit.Value.is_false clonway_cockpit.Value.lookup_or build_proposal
    clonway_cockpit.Value.is_true clonway_cockpit.Prelude.Texts.strip
    clonway_cockpit.Reflex.first_provenance clonway_cockpit.Handoff.is_safe_slug
    clonway_cockpit.Reflex.mark clonway_cockpit.Reflex.note_ok note_name
    clonway_cockpit.Prelude.Texts.text_append text_take strip_of map_char
    clonway_cockpit.Handoff.is_newline slug_char clonway_cockpit.Handoff.slug_head
    clonway_cockpit.Handoff.slug_shape clonway_cockpit.Prelude.Texts.all_char
    clonway_cockpit.Prelude.Texts.any_char clonway_cockpit.Prelude.Texts.is_space
    clonway_cockpit.Prelude.Texts.len lower clonway_cockpit.Prelude.Texts.lstrip
    clonway_cockpit.Prelude.Texts.lstrip_of clonway_cockpit.Prelude.Texts.paired
    clonway_cockpit.Prelude.Texts.rstrip clonway_cockpit.Prelude.Texts.rstrip_of
    clonway_cockpit.Reflex.after_run clonway_cockpit.Reflex.audit_reflex
    clonway_cockpit.Reflex.blank_text clonway_cockpit.Reflex.dash_out
    clonway_cockpit.Reflex.fire_each clonway_cockpit.Reflex.fire_matched
    clonway_cockpit.Reflex.fire_one clonway_cockpit.Reflex.is_dash is_safe_proposal
    clonway_cockpit.Reflex.listed_key clonway_cockpit.Reflex.note_applied
    clonway_cockpit.Reflex.report clonway_cockpit.Reflex.seen_values slug_key
    clonway_cockpit.Reflex.slug_text clonway_cockpit.Reflex.under_max clonway_cockpit.Value.lookup
run = refl

held_again :
    fire_reflexes notice held.kit 1
    ≡ some (record held {
      firings =
          record {
            ask = "hold payroll";
            capability_key = "payroll.hold";
            applied = true;
            note = "previously applied";
          }
          ∷ [];
    })
unfolding fire_reflexes clonway_cockpit.Reflex.seen clonway_cockpit.Reflex.pair_seen
held_again = refl

fire_reflexes-IsSound_example : IsSound notice held
fire_reflexes-IsSound_example = Fire.fire_reflexes-IsSound notice kit 0 held (omega arith) run

-- an executor that posts each proposal it is run with: the world is what was posted
abbrev poster : ReflexKit (List Fields)
poster = record {
  bank =
      record {
        capability_key = "payroll.hold";
        description = "hold the payroll";
        matcher = λ env. some "hold payroll";
        run = λ m posted. (returned true, posted ++ m ∷ []);
      }
      ∷ [];
  policy = record { keys = "payroll.hold" ∷ []; max_applies = some 1; applied = 0 };
  log = record { seen_pairs = []; memory = some [] };
  has_audit = true;
  audited = [];
}

abbrev posted_round : Round (List Fields)
posted_round = record {
  kit = record poster { policy = held.kit.policy; log = held.kit.log; audited = held.kit.audited };
  firings = held.firings;
  covered = held.covered;
  world = build_proposal notice "payroll.hold" "hold payroll" ∷ [];
}

posts : fire_reflexes notice poster [] ≡ some posted_round
unfolding fire_reflexes clonway_cockpit.Reflex.seen clonway_cockpit.Reflex.pair_seen approves
    clonway_cockpit.Value.is_false clonway_cockpit.Value.lookup_or build_proposal
    clonway_cockpit.Value.is_true clonway_cockpit.Prelude.Texts.strip
    clonway_cockpit.Reflex.first_provenance clonway_cockpit.Handoff.is_safe_slug
    clonway_cockpit.Reflex.mark clonway_cockpit.Reflex.note_ok note_name
    clonway_cockpit.Prelude.Texts.text_append text_take strip_of map_char
    clonway_cockpit.Handoff.is_newline slug_char clonway_cockpit.Handoff.slug_head
    clonway_cockpit.Handoff.slug_shape clonway_cockpit.Prelude.Texts.all_char
    clonway_cockpit.Prelude.Texts.any_char clonway_cockpit.Prelude.Texts.is_space
    clonway_cockpit.Prelude.Texts.len lower clonway_cockpit.Prelude.Texts.lstrip
    clonway_cockpit.Prelude.Texts.lstrip_of clonway_cockpit.Prelude.Texts.paired
    clonway_cockpit.Prelude.Texts.rstrip clonway_cockpit.Prelude.Texts.rstrip_of
    clonway_cockpit.Reflex.after_run clonway_cockpit.Reflex.audit_reflex
    clonway_cockpit.Reflex.blank_text clonway_cockpit.Reflex.dash_out
    clonway_cockpit.Reflex.fire_each clonway_cockpit.Reflex.fire_matched
    clonway_cockpit.Reflex.fire_one clonway_cockpit.Reflex.is_dash is_safe_proposal
    clonway_cockpit.Reflex.listed_key clonway_cockpit.Reflex.note_applied
    clonway_cockpit.Reflex.report clonway_cockpit.Reflex.seen_values slug_key
    clonway_cockpit.Reflex.slug_text clonway_cockpit.Reflex.under_max clonway_cockpit.Value.lookup
posts = refl

abbrev AllSafe : List Fields → Type 0
AllSafe = All (λ m. is_safe_proposal ("payroll.hold" ∷ []) m ≡ true)

fire_reflexes-keeps_example : AllSafe (build_proposal notice "payroll.hold" "hold payroll" ∷ [])
fire_reflexes-keeps_example =
    Again.fire_reflexes-keeps AllSafe notice poster [] posted_round
      (
        λ m posted ok h.
            All-append (λ n. is_safe_proposal ("payroll.hold" ∷ []) n ≡ true) posted (m ∷ []) h
              (ok, tt),
        tt,
      )
      posts tt

held_seen : seen "starter-7" "payroll.hold" held.kit.log ≡ true
unfolding seen pair_seen
held_seen = refl

abbrev again : Round ℕ
again = record held {
  firings =
      record {
        ask = "hold payroll";
        capability_key = "payroll.hold";
        applied = true;
        note = "previously applied";
      }
      ∷ [];
}

fire_reflexes-idle_example : (again.kit ≡ held.kit) × (again.world ≡ 1)
fire_reflexes-idle_example =
    Again.fire_reflexes-idle notice held.kit 1 again (held_seen, tt) held_again

-- a rule may be registered under a key that the note of its run cannot carry: the payroll is held,
-- and then `mark` raises
abbrev two_lines : ReflexKit ℕ
two_lines = record kit {
  bank = record hold { capability_key = "payroll\nhold" } ∷ [];
  policy = record { keys = "payroll\nhold" ∷ []; max_applies = none; applied = 0 };
}

mark_raises : fire_reflexes notice two_lines 0 ≡ none
unfolding fire_reflexes seen pair_seen approves clonway_cockpit.Value.is_false
    clonway_cockpit.Value.lookup_or build_proposal clonway_cockpit.Value.is_true
    clonway_cockpit.Prelude.Texts.strip clonway_cockpit.Reflex.first_provenance
    clonway_cockpit.Handoff.is_safe_slug clonway_cockpit.Reflex.mark clonway_cockpit.Reflex.note_ok
    note_name clonway_cockpit.Prelude.Texts.text_append text_take strip_of map_char
    clonway_cockpit.Handoff.is_newline slug_char clonway_cockpit.Handoff.slug_head
    clonway_cockpit.Handoff.slug_shape clonway_cockpit.Prelude.Texts.all_char
    clonway_cockpit.Prelude.Texts.any_char clonway_cockpit.Prelude.Texts.is_space
    clonway_cockpit.Prelude.Texts.len lower clonway_cockpit.Prelude.Texts.lstrip
    clonway_cockpit.Prelude.Texts.lstrip_of clonway_cockpit.Prelude.Texts.paired
    clonway_cockpit.Prelude.Texts.rstrip clonway_cockpit.Prelude.Texts.rstrip_of
    clonway_cockpit.Reflex.after_run clonway_cockpit.Reflex.audit_reflex
    clonway_cockpit.Reflex.blank_text clonway_cockpit.Reflex.dash_out
    clonway_cockpit.Reflex.fire_each clonway_cockpit.Reflex.fire_matched
    clonway_cockpit.Reflex.fire_one clonway_cockpit.Reflex.is_dash is_safe_proposal
    clonway_cockpit.Reflex.listed_key clonway_cockpit.Reflex.note_applied
    clonway_cockpit.Reflex.report clonway_cockpit.Reflex.seen_values slug_key
    clonway_cockpit.Reflex.slug_text clonway_cockpit.Reflex.under_max clonway_cockpit.Value.lookup
mark_raises = refl
