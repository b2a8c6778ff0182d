-- ===== src/Lib.antt =====
-- Models and proofs for clonway-cockpit, the framework that the workers of a back office share: how
-- an agent is allowed to write, how personas talk in a room, and how they hand work to each other.
--
-- The parts, from the bottom up, with the file that models each (paths under src/clonway_cockpit):
--   Prelude, Value      Python's texts, lists, dicts, ints, and the objects that JSON carries.
--   Approval            approval.py: the policies that may authorize a write.
--   Walk                walk.py: `confirm_apply`, the only write gate, with the context of
--                       registry.py. Walk/Preflight has the pre-flight with its remedies and the
--                       steps of a walk. Walk/Policy joins the gate with Approval.
--   Handoff             handoff.py: the envelope that one worker hands another, its validation on
--                       construction (`check_*`) and its payload both ways (Handoff/Payload).
--   GroupChat           group_chat.py: mentions, self-selection and the round with its turn cap.
--   Reflex              reflex.py: a worker's own blocking rules, fired by a notice.
--   Reconcile           negotiation.py, `_reconcile`: a model's decisions against the asks.
--   Ledger              negotiation.py, `TaskLedger`: what the room has decided of each ask.
--   Sweep               negotiation.py, `NegotiatedSpace._sweep`: plans, escalations, failures.
--   Space               negotiation.py, `NegotiatedSpace`: a round of the room and its sweep.
--   Respond             negotiation.py, `negotiating_responder`: the reflexes, the model's decisions,
--                       the notes and turns that are written, and the response.
--   Notes               private_memory.py and shared_memory.py: the notes of a scope.
--   Thread              chat_memory.py, `ThreadTranscript`: turns as notes, their indices, and the fold
--                       into a rolling summary.
--   Channel             agent.py, `serve_stdio`: keys, timeouts and the apply message on stdin.
--   Converse            conversation.py with `CockpitClient` of agent.py: the drive of a worker by a
--                       message of the operator, and the gates that it applies.
--   Viewport            viewport.py: pins, the window of a long screen, and the keys that page it.
--   Signals             signals/subscribe.py: polling the archive of signals, and its cursor.
--   Receptionist        receptionist.py: whom the front door of the fleet points at.
--   Rank                signals/rank.py: the order of signals and the global cap.
--   Calendar            uk_calendar.py: business days around bank holidays.
-- A notice goes through the room to its recipient, whose reflexes fire first and whose model decides
-- the rest; the response goes back, the ledger reads every message, and the sweep posts the plan to
-- the owner or escalates. Whatever then writes passes the gate, under a policy; an agent reaches the
-- gate over the channel, and a message of the operator reaches an agent through a conversation.
--
-- How the code is read: a dataclass is a record, a method is a function from a state to a state, and
-- an exception is a value (`raised`, `none`, `type_error`). Callbacks (a matcher, an executor, a
-- responder, an authorizer, a step, a consumer) are functions on a state or a world of their own,
-- which they may change as they like. Where the code catches what they raise, that is one of their
-- answers; elsewhere they return, as an exception would leave the modelled code. Arguments of the
-- model are the word characters of `re` outside ASCII (`wide`), the bucket and the store of the
-- signals, the presses of an operator (a list that ends where the walk waits), json.loads in Channel,
-- Rich's rendering and the terminal in Viewport, the router and the launcher of workers in Converse,
-- the gateway, the recall of notes and the inner responder in Respond, and, in Ledger, Sweep, Space
-- and Respond, the text of an envelope: `parse` stands for parse_envelope of handoff.py, with the
-- hypothesis that what it gives was constructed, and `render` for render_envelope.
--
-- Fuel: the round of the room takes a number of messages, and `round_fuel` of them are enough; the
-- pre-flight recurs on the presses, the search for a business day on the days up to the horizon or
-- down to the first of the calendar, the rows that may be pinned on a screen on their number, and the
-- digits of a number on one more than the number; all other loops recur on their lists, those that
-- read a channel on what it holds until it ends or waits.
--
-- Not modelled: terminals, rendering, threads, files, networks and model providers; the fenced text
-- around a payload; the wire form of signals, usage, souls, the shell and its panels, the audit log
-- and observability; the hash that names a thread, and the responder that remembers without
-- negotiating, `remembering_responder`.
pub mod Prelude
pub mod Value
pub mod Approval
pub mod Handoff
pub mod GroupChat
pub mod Ledger
pub mod Sweep
pub mod Reflex
pub mod Walk
pub mod Reconcile
pub mod Calendar
pub mod Space
pub mod Signals
pub mod Channel
pub mod Viewport
pub mod Respond
pub mod Converse
pub mod Notes
pub mod Thread
pub mod Rank
pub mod Receptionist
