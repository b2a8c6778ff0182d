-- ===== src/GroupChat/Speakers.antt =====
-- group_chat.py
-- Who speaks in a round, and to what.
use clonway_cockpit.Prelude.{String, ◌≡◌, ◌⊎◌, Bool, true, false, some, map, ◌==◌, any, All, elem}
use clonway_cockpit.GroupChat.{ChatMessage, PostedReply, Persona, Orchestrator, Talk}

-- what lets a persona speak to a message: it is not its own, and it mentions the persona or is the
-- owner's in the persona's domain
pub record IsCalled (matcher : String → Persona → Bool) (m : ChatMessage) (p : Persona)
    : Type 0 where
  pub not_own : (p.handle == m.author) ≡ false
  pub called : (elem p.handle m.mentions ≡ true) ⊎ ((m.is_owner ≡ true) × (matcher m.text p ≡ true))

-- a reply that a persona of the registry gave to a message that calls it
pub record IsSpoken {S : Type 0} (o : Orchestrator S) (r : PostedReply) : Type 0 where
  pub persona : Persona
  pub heard : ChatMessage
  pub minds : S
  pub registered : any (λ (q : Persona). q.handle == persona.handle) o.personas ≡ true
  pub calls : IsCalled o.matcher heard persona
  pub named : r.handle ≡ persona.handle
  pub said : (o.responder persona heard minds).0 ≡ some r.text

-- the transport was given the posted texts, in order
pub record IsTalk {S : Type 0} (o : Orchestrator S) (t : Talk S) : Type 0 where
  pub spoken : All (IsSpoken o) t.posted
  pub delivered : t.sent ≡ map (λ (r : PostedReply). (o.space, r.text)) t.posted
