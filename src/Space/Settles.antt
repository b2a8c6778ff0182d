-- ===== src/Space/Settles.antt =====
-- negotiation.py, group_chat.py
-- Whatever is said in a negotiated space, the round ends and the space settles.
use clonway_cockpit.Prelude.{
  ℕ, ◌+◌, ◌*◌, ◌≤◌, String, ◌≡◌, refl, true, false, Option, some, List, [], ◌∷◌, arith, length,
}
use clonway_cockpit.Handoff.{HandoffEnvelope}
use clonway_cockpit.GroupChat.{ChatMessage, PostedReply, Talk, from_text, run_round}
use clonway_cockpit.GroupChat.Bounds.{round_fuel, may_draw, per_owner, run_round-bound}
use clonway_cockpit.Ledger.WellFormed.{IsWellFormed, ParsesComposed}
use clonway_cockpit.Sweep.{NegotiatedSpace, sweep}
use clonway_cockpit.Sweep.Posted.{Posted}
use clonway_cockpit.Sweep.Quiet.{IsQuiet, fed, sweep-IsQuiet}
use clonway_cockpit.Space.{Space, as_messages, sweep_talk, speak, owner_says, agent_says}

-- what follows an inbound message: at most so many replies, the posts of the sweep over the message
-- and the replies, and a settled space
pub record IsSettled {S : Type 0} (parse : String → Option HandoffEnvelope) (inbound : ChatMessage)
    (most : ℕ) (sp : Space S) (replies : List PostedReply) (sp' : Space S) : Type 0 where
  pub few : length replies ≤ most
  pub swept : Posted (fed parse (inbound ∷ as_messages parse sp.orch replies) sp.room) sp'.room
  pub quiet : IsQuiet sp'.room
  pub well : IsWellFormed sp'.room.ledger

module _ {S : Type 0} (parse : String → Option HandoffEnvelope) (p : ParsesComposed parse) where
  speak_eq :
      (fuel : ℕ) (m : ChatMessage) (sp : Space S) (t : Talk S) (room : NegotiatedSpace)
      → run_round sp.orch fuel (m ∷ []) sp.minds ≡ some t
      → sweep parse (m ∷ as_messages parse sp.orch t.posted) sp.room ≡ some room
      → speak parse fuel m sp ≡ some (t.posted, record sp { room = room; minds = t.minds })
  unfolding speak sweep_talk
  speak_eq fuel m sp t room ran swept = rw (speak, ran, sweep_talk, swept) refl

  speak-IsSettled :
      (fuel : ℕ) (m : ChatMessage) (sp : Space S)
      → IsWellFormed sp.room.ledger
      → round_fuel sp.orch (m ∷ []) ≤ fuel
      → (replies : List PostedReply) × (sp' : Space S) × (speak parse fuel m sp
          ≡ some (replies, sp'))
        × IsSettled parse m
            (may_draw (per_owner sp.orch) (m ∷ []) + sp.orch.max_persona_turns)
            sp
            replies
            sp'
  speak-IsSettled fuel m sp well enough =
      let (t, ran, few) = run_round-bound sp.orch fuel (m ∷ []) sp.minds enough in
      let (room, swept, posted, quiet, well') =
        sweep-IsQuiet parse p (m ∷ as_messages parse sp.orch t.posted) sp.room well in
      (
        t.posted,
        record sp { room = room; minds = t.minds },
        speak_eq fuel m sp t room ran swept,
        record { few = few; swept = posted; quiet = quiet; well = well' },
      )

  -- Whatever the owner says, where parsing gives constructed envelopes, from a space with a
  -- well-formed ledger and with fuel for the message, a reply of each persona and twice the turn cap:
  -- the round ends with at most as many replies as personas and twice the cap; once the message and
  -- the replies are fed, the sweep posts the plan of each task that is worth one and an escalation of
  -- each open task that was not escalated before, each once and in order, and tells the callback, if
  -- there is one; and the space is left quiet (nothing to plan, every open task marked as stalled, no
  -- failure in the buffer) with a well-formed ledger.
  pub owner_says-IsSettled :
      (fuel : ℕ) (text author : String) (sp : Space S)
      → IsWellFormed sp.room.ledger
      → 1 + 2 * sp.orch.max_persona_turns + length sp.orch.personas ≤ fuel
      → (replies : List PostedReply) × (sp' : Space S) × (owner_says parse fuel text author sp
          ≡ some (replies, sp'))
        × IsSettled parse
            (from_text sp.orch.wide text author true sp.orch.space)
            (length sp.orch.personas + 2 * sp.orch.max_persona_turns)
            sp
            replies
            sp'
  unfolding owner_says from_text
  owner_says-IsSettled fuel text author sp well enough =
      let (replies, sp', ran, done) =
        speak-IsSettled fuel (from_text sp.orch.wide text author true sp.orch.space) sp well
          (omega (arith, enough)) in
      (
        replies,
        sp',
        ran,
        record {
          few = omega (arith, done.few);
          swept = done.swept;
          quiet = done.quiet;
          well = done.well;
        },
      )

  -- Whatever an agent says, where parsing gives constructed envelopes, from a space with a
  -- well-formed ledger and with fuel for the message and the turn cap: the round ends with at most as
  -- many replies as the cap; once the message and the replies are fed, the sweep posts the plan of
  -- each task that is worth one and an escalation of each open task that was not escalated before,
  -- each once and in order, and tells the callback, if there is one; and the space is left quiet
  -- (nothing to plan, every open task marked as stalled, no failure in the buffer) with a well-formed
  -- ledger.
  pub agent_says-IsSettled :
      (fuel : ℕ) (handle text : String) (sp : Space S)
      → IsWellFormed sp.room.ledger
      → 1 + sp.orch.max_persona_turns ≤ fuel
      → (replies : List PostedReply) × (sp' : Space S) × (agent_says parse fuel handle text sp
          ≡ some (replies, sp'))
        × IsSettled parse
            (from_text sp.orch.wide text handle false sp.orch.space)
            sp.orch.max_persona_turns
            sp
            replies
            sp'
  unfolding agent_says from_text
  agent_says-IsSettled fuel handle text sp well enough =
      let (replies, sp', ran, done) =
        speak-IsSettled fuel (from_text sp.orch.wide text handle false sp.orch.space) sp well
          (omega (arith, enough)) in
      (
        replies,
        sp',
        ran,
        record {
          few = omega (arith, done.few);
          swept = done.swept;
          quiet = done.quiet;
          well = done.well;
        },
      )
