-- ===== src/Ledger/Settled.antt =====
-- Who may change the state of an ask: the guards of `TaskLedger.feed`, over runs of messages.
use clonway_cockpit.Prelude.{
  String, ◌≡◌, inl, inr, true, false, Option, none, some, List, [], ◌∷◌, arith, ◌==◌, eq_iff,
  if◌then◌else◌, Bool-cases, Option-cases, All,
}
use clonway_cockpit.Prelude.Dict
use clonway_cockpit.Prelude.Dict.{Dict, keys, get-put}
use clonway_cockpit.GroupChat.{ChatMessage}
use clonway_cockpit.Handoff.{HandoffEnvelope}
use clonway_cockpit.Ledger.{
  AskState, Task, TaskLedger, is_open, is_redirected, may_decide, feed_forged, feed_notice,
  feed_response, pending_asks, feed_envelope, feed, feed_each,
}
use clonway_cockpit.Ledger.Asks.{decide_all-locked}

abbrev ask_of : String → Option Task → Option AskState
ask_of a none = none
ask_of a (some task) = Dict.get a task.asks

-- the state of an ask of a task, if the ledger has it
unfoldable pub ask_state : TaskLedger → String → String → Option AskState
ask_state l t a = ask_of a (Dict.get t l.tasks)

module _ (t a : String) (st : AskState) where
  feed_notice-locked :
      (env : HandoffEnvelope) (l : TaskLedger)
      → ask_state l t a ≡ some st
      → ask_state (feed_notice env (Dict.get env.task_id l.tasks) l) t a ≡ some st
  unfolding ask_state feed_notice
  feed_notice-locked env l h = elim (Option-cases (Dict.get env.task_id l.tasks)) [
    | inl new ↦ rw new (ground (arith, new, eq_iff env.task_id t, fresh env l.tasks))
    | inr (task, old) ↦ rw old h
  ]
    where
      fresh :
          (env : HandoffEnvelope) (tasks : Dict Task)
          → Dict.get t (
              Dict.put env.task_id (record { notice = env; asks = pending_asks env.asks [] }) tasks)
            ≡ (if env.task_id == t
                then some (record { notice = env; asks = pending_asks env.asks [] })
                else Dict.get t tasks)
      fresh env tasks = get-put env.task_id t _ tasks

  feed_response-locked :
      (env : HandoffEnvelope) (l : TaskLedger)
      → ask_state l t a ≡ some st
      → may_decide env.origin st ≡ false
      → ask_state (feed_response env (Dict.get env.task_id l.tasks) l) t a ≡ some st
  unfolding ask_state feed_response
  feed_response-locked env l h shut = elim (Option-cases (Dict.get env.task_id l.tasks)) [
    | inl new ↦ rw new h
    | inr (task, old) ↦ rw old (
        rw (get-put env.task_id t) (
          ground (
            arith,
            old,
            eq_iff env.task_id t,
            decide_all-locked task.notice env env.decisions a st task.asks l.pending_failures,
          )))
  ]

  feed_forged-tasks :
      (env : HandoffEnvelope) (author : String) (o : Option Task) (l : TaskLedger)
      → (feed_forged env author o l).tasks ≡ l.tasks
  unfolding feed_forged
  feed_forged-tasks env author o l = ground arith

  feed_envelope-locked :
      (env : HandoffEnvelope) (author : String) (l : TaskLedger)
      → ask_state l t a ≡ some st
      → may_decide author st ≡ false
      → ask_state (feed_envelope env author l) t a ≡ some st
  unfolding feed_envelope ask_state
  feed_envelope-locked env author l h shut = elim (Bool-cases (env.origin == author)) [
    | inl same ↦
        let e = (eq_iff env.origin author).0 same in
        let shut' : may_decide env.origin st ≡ false = rw e shut in
        elim (Bool-cases (env.kind == "notice")) [
          | inl n ↦ rw (same, n) (feed_notice-locked env l h)
          | inr n ↦ elim (Bool-cases (env.kind == "plan")) [
            | inl p ↦ rw (same, n, p) h
            | inr p ↦ rw (same, n, p) (feed_response-locked env l h shut')
          ]
        ]
    | inr other ↦ rw other (rw (feed_forged-tasks env author (Dict.get env.task_id l.tasks) l) h)
  ]

  module _ (parse : String → Option HandoffEnvelope) where
    feed-locked :
        (m : ChatMessage) (l : TaskLedger)
        → ask_state l t a ≡ some st
        → may_decide m.author st ≡ false
        → ask_state (feed parse m l) t a ≡ some st
    unfolding feed
    feed-locked m l h shut = elim (Bool-cases m.is_owner) [
      | inl own ↦ rw own h
      | inr other ↦ elim (Option-cases (parse m.text)) [
        | inl prose ↦ rw (other, prose) h
        | inr (env, framed) ↦ rw (other, framed) (feed_envelope-locked env m.author l h shut)
      ]
    ]

    feed_each-locked :
        (ms : List ChatMessage) (l : TaskLedger)
        → ask_state l t a ≡ some st
        → All (λ m. may_decide m.author st ≡ false) ms
        → ask_state (feed_each parse ms l) t a ≡ some st
    unfolding feed_each
    feed_each-locked [] l h shut = h
    feed_each-locked (m ∷ ms) l h shut =
        feed_each-locked ms (feed parse m l) (feed-locked m l h shut.0) shut.1

settled_shut :
    (st : AskState) (ms : List ChatMessage)
    → is_open st.state ≡ false
    → All (λ m. may_decide m.author st ≡ false) ms
unfolding may_decide
settled_shut st [] h = tt
settled_shut st (m ∷ ms) h = (ground arith, settled_shut st ms h)

held_shut :
    (st : AskState) (ms : List ChatMessage)
    → is_redirected st.state ≡ true
    → All (λ m. (m.author == st.decider) ≡ false) ms
    → All (λ m. may_decide m.author st ≡ false) ms
unfolding may_decide
held_shut st [] h far = tt
held_shut st (m ∷ ms) h far = let f = far.0 in (ground (arith, f), held_shut st ms h far.1)

module _ (parse : String → Option HandoffEnvelope) (l : TaskLedger) (t a : String) (st : AskState)
    (known : ask_state l t a ≡ some st) (ms : List ChatMessage) where
  -- First terminal answer wins: an ask that is done, accepted or the owner's keeps its state and
  -- its decider, whatever messages come.
  pub settled_stays : is_open st.state ≡ false → ask_state (feed_each parse ms l) t a ≡ some st
  settled_stays h = feed_each-locked t a st parse ms l known (settled_shut st ms h)

  -- A redirected ask keeps its state while none of the messages is by the redirect target.
  pub redirected_stays :
      is_redirected st.state ≡ true
      → All (λ m. (m.author == st.decider) ≡ false) ms
      → ask_state (feed_each parse ms l) t a ≡ some st
  redirected_stays h far = feed_each-locked t a st parse ms l known (held_shut st ms h far)
