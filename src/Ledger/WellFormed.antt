-- ===== src/Ledger/WellFormed.antt =====
-- The invariant of a `TaskLedger` that is fed with envelopes as their constructors leave them.
use clonway_cockpit.Prelude.{
  String, ◌≡◌, refl, inl, inr, Bool, true, false, Option, none, some, List, [], ◌∷◌, arith, ◌==◌,
  eq_iff, if◌then◌else◌, Bool-cases, Option-cases, is_some, All, elem, Distinct,
}
use clonway_cockpit.Prelude.Dict
use clonway_cockpit.Prelude.Dict.{Dict, keys, get-put, keys-put-Distinct}
use clonway_cockpit.GroupChat.{ChatMessage}
use clonway_cockpit.Handoff.{
  passed, HandoffEnvelope, AskDecision, is_safe_slug, check_envelope, check_decision, check_handle,
}
use clonway_cockpit.Handoff.Payload.Trip.{IsComposed}
use clonway_cockpit.Handoff.Shape.{check_envelope-IsValid}
use clonway_cockpit.Ledger.{
  empty, AskStatus, pending, AskState, FailureRecord, Task, TaskLedger, next_state, decide_found,
  decide_all, feed_forged, feed_notice, feed_response, pending_asks, feed_envelope, feed, feed_each,
}

-- the decider of a state that has one is a slug
unfoldable pub decider_ok : AskStatus → String → Bool
decider_ok pending decider = true
decider_ok _ decider = is_safe_slug decider

unfoldable pub has_decider : AskState → Bool
unfolding decider_ok
has_decider st = decider_ok st.state st.decider

-- the asks of a task are those of its notice, and every decider is a slug
pub record AsksOk (asked : List String) (asks : Dict AskState) : Type 0 where
  pub all_there : (a : String) → elem a asked ≡ true → is_some (Dict.get a asks) ≡ true
  pub no_others : (a : String) → elem a asked ≡ false → Dict.get a asks ≡ none
  pub deciders : (a : String) (st : AskState) → Dict.get a asks ≡ some st → has_decider st ≡ true

pub record TaskOk (t : String) (task : Task) : Type 0 where
  pub named : task.notice.task_id ≡ t
  pub checked : check_envelope task.notice ≡ passed tt
  pub asks : AsksOk task.notice.asks task.asks

pub record IsWellFormed (l : TaskLedger) : Type 0 where
  pub at_task : (t : String) (task : Task) → Dict.get t l.tasks ≡ some task → TaskOk t task
  pub distinct : Distinct (keys l.tasks)

next_state-decider :
    (origin : String) (d : AskDecision)
    → is_safe_slug origin ≡ true
    → check_decision d ≡ passed tt
    → has_decider (next_state origin d) ≡ true
unfolding next_state has_decider check_decision check_handle
next_state-decider origin d h c = ground arith

module _ (notice env : HandoffEnvelope) (asked : List String)
    (slug : is_safe_slug env.origin ≡ true) where
  decide_found-AsksOk :
      (d : AskDecision) (asks : Dict AskState) (fs : List FailureRecord)
      → check_decision d ≡ passed tt
      → AsksOk asked asks
      → AsksOk asked (decide_found notice env d (Dict.get d.ask asks) (asks, fs)).0
  unfolding decide_found
  decide_found-AsksOk d asks fs c h = record {
    all_there =
        λ a i. ground (arith, get-put d.ask a (next_state env.origin d) asks, h.all_there a i);
    no_others = λ a i.
        ground
          (arith, get-put d.ask a (next_state env.origin d) asks, h.no_others a i, eq_iff d.ask a);
    deciders = λ a st e. ground (
      arith,
      get-put d.ask a (next_state env.origin d) asks,
      h.deciders a st,
      next_state-decider env.origin d slug c,
    );
  }

  decide_all-AsksOk :
      (ds : List AskDecision) (asks : Dict AskState) (fs : List FailureRecord)
      → All (λ d. check_decision d ≡ passed tt) ds
      → AsksOk asked asks
      → AsksOk asked (decide_all notice env ds (asks, fs)).0
  unfolding decide_all
  decide_all-AsksOk [] asks fs c h = h
  decide_all-AsksOk (d ∷ ds) asks fs c h =
      let (asks', fs') = decide_found notice env d (Dict.get d.ask asks) (asks, fs) in
      decide_all-AsksOk ds asks' fs' c.1 (decide_found-AsksOk d asks fs c.0 h)

abbrev fresh_state : AskState
fresh_state = record { state = pending; decider = "" }

get-pending_asks :
    (a : String) (asks : List String) (d : Dict AskState)
    → Dict.get a (pending_asks asks d) ≡ (if elem a asks then some fresh_state else Dict.get a d)
unfolding pending_asks
get-pending_asks a [] d = refl
get-pending_asks a (b ∷ asks) d =
    ground (arith, get-pending_asks a asks (Dict.put b fresh_state d), get-put b a fresh_state d)

pending_asks-AsksOk : (asks : List String) → AsksOk asks (pending_asks asks [])
unfolding has_decider Dict.get
pending_asks-AsksOk asks = record {
  all_there = λ a i. ground (arith, get-pending_asks a asks []);
  no_others = λ a i. ground (arith, get-pending_asks a asks []);
  deciders = λ a st e. ground (arith, get-pending_asks a asks []);
}

put-IsWellFormed :
    (t : String) (task : Task) (l : TaskLedger)
    → TaskOk t task
    → IsWellFormed l
    → IsWellFormed (record l { tasks = Dict.put t task l.tasks })
put-IsWellFormed t task l k h = record {
  at_task = λ j x e. elim (Bool-cases (t == j)) [
    | inl same ↦
        let q : some task ≡ some x = rw same at (rw (get-put t j) at e) in
        let p : task ≡ x = cc in let tj = (eq_iff t j).0 same in rw (← tj, ← p) k
    | inr other ↦ h.at_task j x (rw other at (rw (get-put t j) at e))
  ];
  distinct = keys-put-Distinct t task l.tasks h.distinct;
}

module _ (env : HandoffEnvelope) (c : IsComposed env) (l : TaskLedger) (h : IsWellFormed l) where
  feed_notice-IsWellFormed : IsWellFormed (feed_notice env (Dict.get env.task_id l.tasks) l)
  unfolding feed_notice
  feed_notice-IsWellFormed = elim (Option-cases (Dict.get env.task_id l.tasks)) [
    | inl new ↦ rw new (
        put-IsWellFormed env.task_id _ l
          (record { named = refl; checked = c.envelope; asks = pending_asks-AsksOk env.asks }) h)
    | inr (task, old) ↦ rw old (record { at_task = h.at_task; distinct = h.distinct })
  ]

  feed_response-IsWellFormed : IsWellFormed (feed_response env (Dict.get env.task_id l.tasks) l)
  unfolding feed_response
  feed_response-IsWellFormed = elim (Option-cases (Dict.get env.task_id l.tasks)) [
    | inl new ↦ rw new h
    | inr (task, old) ↦
        let k = h.at_task env.task_id task old in
        let slug = (check_envelope-IsValid env c.envelope).origin_slug in
        let written =
          put-IsWellFormed env.task_id
            (record task {
              asks = (decide_all task.notice env env.decisions (task.asks, l.pending_failures)).0;
            })
            l
            (record {
              named = k.named;
              checked = k.checked;
              asks =
                  decide_all-AsksOk task.notice env task.notice.asks slug env.decisions task.asks
                    l.pending_failures c.decisions k.asks;
            })
            h in
        rw old (record { at_task = written.at_task; distinct = written.distinct })
  ]

  feed_forged-IsWellFormed :
      (author : String) (o : Option Task) → IsWellFormed (feed_forged env author o l)
  unfolding feed_forged
  feed_forged-IsWellFormed author none = h
  feed_forged-IsWellFormed author (some task) = elim (Bool-cases (env.kind == "response")) [
    | inl r ↦ rw r (record { at_task = h.at_task; distinct = h.distinct })
    | inr r ↦ rw r h
  ]

  feed_envelope-IsWellFormed : (author : String) → IsWellFormed (feed_envelope env author l)
  unfolding feed_envelope
  feed_envelope-IsWellFormed author = elim (Bool-cases (env.origin == author)) [
    | inr other ↦ rw other (feed_forged-IsWellFormed author (Dict.get env.task_id l.tasks))
    | inl same ↦ elim (Bool-cases (env.kind == "notice")) [
      | inl n ↦ rw (same, n) feed_notice-IsWellFormed
      | inr n ↦ elim (Bool-cases (env.kind == "plan")) [
        | inl p ↦ rw (same, n, p) (record { at_task = h.at_task; distinct = h.distinct })
        | inr p ↦ rw (same, n, p) feed_response-IsWellFormed
      ]
    ]
  ]

-- What `parse_envelope` gives was built by the constructors of handoff.py.
pub record ParsesComposed (parse : String → Option HandoffEnvelope) : Type 0 where
  pub at_text : (s : String) (env : HandoffEnvelope) → parse s ≡ some env → IsComposed env

module _ (parse : String → Option HandoffEnvelope) (p : ParsesComposed parse) where
  feed-IsWellFormed :
      (m : ChatMessage) (l : TaskLedger) → IsWellFormed l → IsWellFormed (feed parse m l)
  unfolding feed
  feed-IsWellFormed m l h = elim (Bool-cases m.is_owner) [
    | inl own ↦ rw own h
    | inr other ↦ elim (Option-cases (parse m.text)) [
      | inl prose ↦ rw (other, prose) h
      | inr (env, framed) ↦
          rw (other, framed)
            (feed_envelope-IsWellFormed env (p.at_text m.text env framed) l h m.author)
    ]
  ]

  -- Whatever messages are fed, the tasks of the ledger stay well formed: each stands under the id
  -- of its checked notice, has a state for exactly the asks of the notice, and only slugs decide.
  pub feed_each-IsWellFormed :
      (ms : List ChatMessage) (l : TaskLedger)
      → IsWellFormed l
      → IsWellFormed (feed_each parse ms l)
  unfolding feed_each
  feed_each-IsWellFormed [] l h = h
  feed_each-IsWellFormed (m ∷ ms) l h =
      feed_each-IsWellFormed ms (feed parse m l) (feed-IsWellFormed m l h)

pub empty-IsWellFormed : IsWellFormed empty
unfolding Dict.get keys
empty-IsWellFormed = record { at_task = λ t task e. cc; distinct = tt }
