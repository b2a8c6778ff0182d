-- ===== src/GroupChat/Bounds.antt =====
-- group_chat.py
-- How long a round runs, and how many replies it posts.
use clonway_cockpit.Prelude.{
  ℕ, zero, suc, ◌+◌, ◌-◌, ◌≤◌, ◌<◌, String, ◌≡◌, refl, ap, inl, inr, true, false, not, ◌&&◌, Option,
  none, some, List, [], ◌∷◌, ◌++◌, arith, leb, if◌then◌else◌, Bool-cases, length, length-append,
}
use clonway_cockpit.GroupChat.{
  ChatMessage, Persona, Orchestrator, Talk, from_text, should_respond, post_reply, hear, hear_each,
  hear_message, run_loop, run_round,
}

-- the replies that the messages of a queue may draw before the cap holds them
abbrev pub may_draw : ℕ → List ChatMessage → ℕ
may_draw per_owner [] = 0
may_draw per_owner (m ∷ ms) = (if m.is_owner then per_owner else 0) + may_draw per_owner ms

may_draw-append :
    (k : ℕ) (xs ys : List ChatMessage) → may_draw k (xs ++ ys) ≡ may_draw k xs + may_draw k ys
may_draw-append k [] ys = omega arith
may_draw-append k (x ∷ xs) ys = omega (arith, may_draw-append k xs ys)

may_draw-owner :
    (k : ℕ) (m : ChatMessage) (ms : List ChatMessage)
    → m.is_owner ≡ true
    → may_draw k (m ∷ ms) ≡ k + may_draw k ms
may_draw-owner k m ms h = simp h

may_draw-agent :
    (k : ℕ) (m : ChatMessage) (ms : List ChatMessage)
    → m.is_owner ≡ false
    → may_draw k (m ∷ ms) ≡ may_draw k ms
may_draw-agent k m ms h = ground (arith, h)

reset_eq : (m : ChatMessage) (n : ℕ) → m.is_owner ≡ true → (if m.is_owner then 0 else n) ≡ 0
reset_eq m n h = simp h

no_reset_eq : (m : ChatMessage) (n : ℕ) → m.is_owner ≡ false → (if m.is_owner then 0 else n) ≡ n
no_reset_eq m n h = simp h

module _ {S : Type 0} (o : Orchestrator S) where
  -- replies posted and still to come; and messages to take off, now and later
  abbrev drawn : ℕ → Talk S → ℕ
  drawn k t = length t.posted + may_draw k t.queue + (o.max_persona_turns - t.turns_since_owner)

  abbrev awaited : ℕ → Talk S → ℕ
  awaited k t = length t.queue + may_draw k t.queue + (o.max_persona_turns - t.turns_since_owner)

  post_reply-agent :
      (k : ℕ) (p : Persona) (r : Option String × S) (t : Talk S)
      → t.turns_since_owner < o.max_persona_turns
      → (drawn k (post_reply o p r t) ≤ drawn k t) × (awaited k (post_reply o p r t) ≤ awaited k t)
  unfolding post_reply from_text
  post_reply-agent k p (none, minds) t room = (omega arith, omega arith)
  post_reply-agent k p (some reply, minds) t room =
      let m = from_text o.wide reply p.handle false o.space in
      let e1 = may_draw-append k t.queue (m ∷ []) in
      let e2 = length-append t.queue (m ∷ []) in
      let e3 = length-append t.posted (record { handle = p.handle; text = reply } ∷ []) in
      (omega (arith, e1, e2, e3, room), omega (arith, e1, e2, e3, room))

  post_reply-owner :
      (k : ℕ) (p : Persona) (r : Option String × S) (t : Talk S)
      → (drawn k (post_reply o p r t) ≤ drawn k t + 1)
        × (awaited k (post_reply o p r t) ≤ awaited k t + 1)
  unfolding post_reply from_text
  post_reply-owner k p (none, minds) t = (omega arith, omega arith)
  post_reply-owner k p (some reply, minds) t =
      let m = from_text o.wide reply p.handle false o.space in
      let e1 = may_draw-append k t.queue (m ∷ []) in
      let e2 = length-append t.queue (m ∷ []) in
      let e3 = length-append t.posted (record { handle = p.handle; text = reply } ∷ []) in
      (omega (arith, e1, e2, e3), omega (arith, e1, e2, e3))

  hear-agent :
      (k : ℕ) (msg : ChatMessage) (p : Persona) (t : Talk S)
      → msg.is_owner ≡ false
      → (drawn k (hear o msg p t) ≤ drawn k t) × (awaited k (hear o msg p t) ≤ awaited k t)
  unfolding hear
  hear-agent k msg p t agent = elim (Bool-cases (should_respond o.matcher msg p)) [
    | inr quiet ↦ rw quiet (omega arith, omega arith)
    | inl mine ↦
        elim (Bool-cases (leb o.max_persona_turns t.turns_since_owner && not msg.is_owner)) [
          | inl capped ↦ rw (mine, capped) (omega arith, omega arith)
          | inr room ↦
              rw (mine, room)
                (post_reply-agent k p (o.responder p msg t.minds) t (ground (arith, room, agent)))
        ]
  ]

  hear-owner :
      (k : ℕ) (msg : ChatMessage) (p : Persona) (t : Talk S)
      → (drawn k (hear o msg p t) ≤ drawn k t + 1) × (awaited k (hear o msg p t) ≤ awaited k t + 1)
  unfolding hear
  hear-owner k msg p t = elim (Bool-cases (should_respond o.matcher msg p)) [
    | inr quiet ↦ rw quiet (omega arith, omega arith)
    | inl mine ↦
        elim (Bool-cases (leb o.max_persona_turns t.turns_since_owner && not msg.is_owner)) [
          | inl capped ↦ rw (mine, capped) (omega arith, omega arith)
          | inr room ↦ rw (mine, room) (post_reply-owner k p (o.responder p msg t.minds) t)
        ]
  ]

  hear_each-agent :
      (k : ℕ) (msg : ChatMessage) (ps : List Persona) (t : Talk S)
      → msg.is_owner ≡ false
      → (drawn k (hear_each o msg ps t) ≤ drawn k t)
        × (awaited k (hear_each o msg ps t) ≤ awaited k t)
  unfolding hear_each
  hear_each-agent k msg [] t agent = (omega arith, omega arith)
  hear_each-agent k msg (p ∷ ps) t agent =
      let one = hear-agent k msg p t agent in
      let rest = hear_each-agent k msg ps (hear o msg p t) agent in
      (omega (arith, one.0, rest.0), omega (arith, one.1, rest.1))

  hear_each-owner :
      (k : ℕ) (msg : ChatMessage) (ps : List Persona) (t : Talk S)
      → (drawn k (hear_each o msg ps t) ≤ drawn k t + length ps)
        × (awaited k (hear_each o msg ps t) ≤ awaited k t + length ps)
  unfolding hear_each
  hear_each-owner k msg [] t = (omega arith, omega arith)
  hear_each-owner k msg (p ∷ ps) t =
      let one = hear-owner k msg p t in
      let rest = hear_each-owner k msg ps (hear o msg p t) in
      (omega (arith, one.0, rest.0), omega (arith, one.1, rest.1))

  -- what one message of the owner may draw: a reply of each persona, and then the turns of the cap
  abbrev pub per_owner : ℕ
  per_owner = length o.personas + o.max_persona_turns

  -- the two measures, before a message is taken off
  hear_message-bound :
      (msg : ChatMessage) (rest : List ChatMessage) (t : Talk S)
      → t.queue ≡ msg ∷ rest
      → (drawn per_owner (hear_message o msg rest t) ≤ drawn per_owner t)
        × (awaited per_owner (hear_message o msg rest t) < awaited per_owner t)
  unfolding hear_message
  hear_message-bound msg rest t e = elim (Bool-cases msg.is_owner) [
    | inl owner ↦
        let each =
          hear_each-owner per_owner msg o.personas
            (record t { queue = rest; turns_since_owner = 0 }) in
        let after =
          ap (λ n. hear_each o msg o.personas (record t { queue = rest; turns_since_owner = n }))
            (reset_eq msg t.turns_since_owner owner) in
        let first = may_draw-owner per_owner msg rest owner in
        rw (e, after) (omega (arith, first, each.0), omega (arith, first, each.1))
    | inr agent ↦
        let each = hear_each-agent per_owner msg o.personas (record t { queue = rest }) agent in
        let after =
          ap (λ n. hear_each o msg o.personas (record t { queue = rest; turns_since_owner = n }))
            (no_reset_eq msg t.turns_since_owner agent) in
        let first = may_draw-agent per_owner msg rest agent in
        rw (e, after) (omega (arith, first, each.0), omega (arith, first, each.1))
  ]

  run_loop-bound :
      (fuel : ℕ) (queue : List ChatMessage) (t : Talk S)
      → t.queue ≡ queue
      → awaited per_owner t ≤ fuel
      → (t' : Talk S) × (run_loop o fuel queue t ≡ some t') × (length t'.posted ≤ drawn per_owner t)
  unfolding run_loop
  run_loop-bound fuel [] t e h = (t, refl, omega arith)
  run_loop-bound zero (msg ∷ rest) t e h = absurd (omega (arith, ap length e))
  run_loop-bound (suc fuel) (msg ∷ rest) t e h =
      let step = hear_message-bound msg rest t e in
      let after = hear_message o msg rest t in
      let (t', run, few) = run_loop-bound fuel after.queue after refl (omega (arith, step.1, h)) in
      (t', run, omega (arith, few, step.0))

-- the fuel of a round: a step for each message that came in or may be posted
abbrev pub round_fuel : {S : Type 0} → Orchestrator S → List ChatMessage → ℕ
round_fuel o inbound = length inbound + may_draw (per_owner o) inbound + o.max_persona_turns

-- A round always ends, whatever the personas answer, within `round_fuel` messages. It posts at most
-- `max_persona_turns` replies, and for each message of the owner at most as many more as there are
-- personas and turns under the cap; so without the owner, at most `max_persona_turns`.
pub run_round-bound :
    {S : Type 0} (o : Orchestrator S) (fuel : ℕ) (inbound : List ChatMessage) (minds : S)
    → round_fuel o inbound ≤ fuel
    → (t : Talk S) × (run_round o fuel inbound minds ≡ some t)
      × (length t.posted ≤ may_draw (per_owner o) inbound + o.max_persona_turns)
unfolding run_round
run_round-bound o fuel inbound minds enough =
    let start : Talk _ = record {
      queue = inbound;
      posted = [];
      turns_since_owner = 0;
      sent = [];
      minds = minds;
    } in
    let (t, run, few) = run_loop-bound o fuel inbound start refl (omega (arith, enough)) in
    (t, run, omega (arith, few))
