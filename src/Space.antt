-- ===== src/Space.antt =====
-- The negotiated space: `NegotiatedSpace.owner_says`, `agent_says` and `post_notice` of
-- src/clonway_cockpit/negotiation.py, which join the round of the room with the sweep. `render` and
-- `parse` are the text of an envelope and back.
pub mod Settles
mod Tests
use clonway_cockpit.Prelude.{
  ℕ, zero, suc, ◌+◌, ◌-◌, ◌*◌, ◌/◌, ◌%◌, ◌≤◌, ◌<◌, min, max, String, ◌≡◌, refl, sym, ap, ◌∙◌, ◌≢◌,
  ◌↔◌, ◌⊎◌, inl, inr, Bool, true, false, not, ◌&&◌, ◌||◌, Option, none, some, List, [], ◌∷◌, ◌++◌,
  map, arith, ◌==◌, eq_iff, eq_refl, ltb, leb, nat_eq, if◌then◌else◌, ltb→lt, leb→le, Bool-cases,
  Option-cases, is_some, length, take, drop, any, all, keep, All, length-append, elem, Distinct,
  elem-append, All-append,
}
use clonway_cockpit.Handoff.{HandoffEnvelope}
use clonway_cockpit.GroupChat.{
  ChatMessage, PostedReply, Persona, Orchestrator, Talk, from_text, run_round,
}
use clonway_cockpit.Sweep.{NegotiatedSpace, sweep}

-- the space, its orchestrator, and the state of the responder
pub record Space (S : Type 0) : Type 0 where
  pub room : NegotiatedSpace
  pub orch : Orchestrator S
  pub minds : S

-- why post_notice raises
pub data NoticeError : Type 0 where
  not_a_notice : NoticeError
  foreign_origin : NoticeError

pub data Posting (S : Type 0) : Type 0 where
  refused : NoticeError → Posting S
  posted : Option (List PostedReply × Space S) → Posting S

module _ {S : Type 0} (parse : String → Option HandoffEnvelope) where
  -- the messages that the ledger is fed for the replies
  unfoldable pub as_messages : Orchestrator S → List PostedReply → List ChatMessage
  unfolding from_text
  as_messages o = map (λ (r : PostedReply). from_text o.wide r.text r.handle false o.space)

  -- what follows the round: _sweep, and the replies
  unfoldable pub sweep_talk : ChatMessage → Space S → Talk S → Option (List PostedReply × Space S)
  unfolding as_messages
  sweep_talk inbound sp t = elim (sweep parse (inbound ∷ as_messages sp.orch t.posted) sp.room) [
    | none ↦ none
    | some room ↦ some (t.posted, record sp { room = room; minds = t.minds })
  ]

  -- a round on one message, and its sweep; `none` where the fuel was too little or the sweep raised
  unfoldable pub speak : ℕ → ChatMessage → Space S → Option (List PostedReply × Space S)
  unfolding sweep_talk
  speak fuel inbound sp = elim (run_round sp.orch fuel (inbound ∷ []) sp.minds) [
    | none ↦ none
    | some t ↦ sweep_talk inbound sp t
  ]

  -- NegotiatedSpace.owner_says
  unfoldable pub owner_says : ℕ → String → String → Space S → Option (List PostedReply × Space S)
  unfolding speak from_text
  owner_says fuel text author sp =
      speak fuel (from_text sp.orch.wide text author true sp.orch.space) sp

  -- NegotiatedSpace.agent_says
  unfoldable pub agent_says : ℕ → String → String → Space S → Option (List PostedReply × Space S)
  unfolding speak from_text
  agent_says fuel handle text sp =
      speak fuel (from_text sp.orch.wide text handle false sp.orch.space) sp

  -- NegotiatedSpace.post_notice
  unfoldable pub post_notice :
      (HandoffEnvelope → String → String)
      → ℕ
      → String
      → HandoffEnvelope
      → String
      → Space S
      → Posting S
  unfolding agent_says
  post_notice render fuel handle env say sp =
      let result = agent_says fuel handle (render env say) sp in
      if not (env.kind == "notice")
      then refused not_a_notice
      else if not (env.origin == handle)
      then refused foreign_origin
      else posted result
