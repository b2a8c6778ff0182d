-- ===== src/Respond/Silent.antt =====
-- negotiation.py
-- What draws a reply of the responder, and what never runs an executor.
use clonway_cockpit.Prelude.{
  String, ◌≡◌, refl, sym, ap, ◌∙◌, ◌⊎◌, inl, inr, true, false, ◌&&◌, Option, none, some, List, [],
  ◌∷◌, ◌++◌, arith, ◌==◌, nat_eq, if◌then◌else◌, Bool-cases, Option-cases, length, any,
}
use mathlib.Core.Path.{subst}
use clonway_cockpit.GroupChat.{ChatMessage, Persona}
use clonway_cockpit.Handoff.{
  HandoffError, Checked, HandoffEnvelope, AskDecision, PlanStep, check_envelope, compose,
}
use clonway_cockpit.Reflex.{ReflexKit, ReflexFiring, fire_reflexes}
use clonway_cockpit.Reconcile.{firing_decision}
use clonway_cockpit.Respond.{
  Ran, ran, failed, ◌>>=◌, from_checked, Desk, Fleet, absent, soulless, constituted, Colleague,
  record_task_note, fire_with, fire, record_turns, response_of, post, remaining_of,
  decide_remaining, answer, construct_each, negotiate_as, negotiate, synthetic_notice, take_over,
  redirected_asks, respond_to, respond, status_line, ask_inner,
}
use clonway_cockpit.Respond.Fires.{fire_reflexes-world}

Checked-cases :
    {A : Type 0} (c : Checked A)
    → ((a : A) × (c ≡ Checked.passed a)) ⊎ ((why : HandoffError) × (c ≡ Checked.raised why))
Checked-cases (Checked.passed a) = inl (a, refl)
Checked-cases (Checked.raised why) = inr (why, refl)

-- the desk of a result, if there is one, has the world `w`
abbrev WorldIs : {W : Type 0} → W → Ran (Option String × Desk W) → Type 0
WorldIs w (ran (text, d)) = d.world ≡ w
WorldIs w (failed why) = Unit

module _ {W : Type 0} (w : W) where
  bind_world {ℓ} :
      {A : Type ℓ} (r : Ran A) (next : A → Ran (Option String × Desk W))
      → ((a : A) → WorldIs w (next a))
      → WorldIs w (r >>= next)
  bind_world (ran a) next h = h a
  bind_world (failed why) next h = tt

  record_turns_world :
      (message : ChatMessage) (reply : String) (d : Desk W)
      → (record_turns message reply d).world ≡ d.world
  unfolding record_turns
  record_turns_world message reply d = ground arith

  post_world :
      (fleet : Fleet W) (persona : Persona) (message : ChatMessage) (env : HandoffEnvelope)
      (reply_to say : String) (ds : List AskDecision) (d : Desk W)
      → d.world ≡ w
      → WorldIs w (post fleet persona message env reply_to say ds d)
  unfolding post record_task_note
  post_world fleet persona message env reply_to say ds d h =
      bind_world (from_checked (compose (response_of persona env reply_to ds))) _ (λ response.
        record_turns_world message (fleet.render response say)
          (record_task_note response (status_line ds) d)
        ∙ h)

  answer_world :
      (fleet : Fleet W) (persona : Persona) (message : ChatMessage) (env : HandoffEnvelope)
      (asks : List String) (reply_to prompt : String) (fs : List ReflexFiring) (d : Desk W)
      → d.world ≡ w
      → WorldIs w (answer fleet persona message env asks reply_to prompt fs d)
  unfolding answer record_task_note
  answer_world fleet persona message env asks reply_to prompt fs d h =
      let remaining = remaining_of asks fs in
      elim (Bool-cases (nat_eq (length remaining) 0 && nat_eq (length fs) 0)) [
        | inl e ↦ rw e h
        | inr e ↦ rw e (
            bind_world (decide_remaining fleet persona message env remaining prompt fs d) _
              (λ found. bind_world (construct_each firing_decision fs) _ (λ fired.
                post_world fleet persona message env reply_to found.0 (fired ++ found.1) d h)))
      ]

  fire_with_world :
      (env : HandoffEnvelope) (o : Option (ReflexKit W)) (d : Desk W)
      (next : List ReflexFiring × Desk W → Ran (Option String × Desk W))
      → env.facts ≡ []
      → d.world ≡ w
      → ((fs : List ReflexFiring) (e : Desk W) → e.world ≡ w → WorldIs w (next (fs, e)))
      → WorldIs w (fire_with env o d >>= next)
  unfolding fire_with
  fire_with_world env none d next bare h k = k [] d h
  fire_with_world env (some kit) d next bare h k =
      elim (Option-cases (fire_reflexes env kit d.world)) [
        | inl e ↦ rw (fire_with, e) tt
        | inr (r, e) ↦
            rw (fire_with, e) (k r.firings _ (fire_reflexes-world env kit d.world r bare e ∙ h))
      ]

  negotiate_as_world :
      (c : Colleague) (fleet : Fleet W) (persona : Persona) (message : ChatMessage)
      (env : HandoffEnvelope) (asks : List String) (reply_to : String) (d : Desk W)
      → env.facts ≡ []
      → d.world ≡ w
      → WorldIs w (negotiate_as c fleet persona message env asks reply_to d)
  unfolding negotiate_as fire
  negotiate_as_world absent fleet persona message env asks reply_to d bare h = h
  negotiate_as_world soulless fleet persona message env asks reply_to d bare h = h
  negotiate_as_world (constituted prompt) fleet persona message env asks reply_to d bare h =
      let next = λ (f : List ReflexFiring × Desk W).
        answer fleet persona message env asks reply_to prompt f.0 f.1 in
      let told = λ (fs : List ReflexFiring) (e : Desk W) (k : e.world ≡ w).
        answer_world fleet persona message env asks reply_to prompt fs e k in
      elim (Bool-cases (env.kind == "notice")) [
        | inl e ↦ rw e (fire_with_world env d.kit d next bare h told)
        | inr e ↦ rw e (told [] d h)
      ]

  compose_world :
      (env : HandoffEnvelope) (next : HandoffEnvelope → Ran (Option String × Desk W))
      → WorldIs w (next env)
      → WorldIs w (from_checked (compose env) >>= next)
  unfolding compose
  compose_world env next h = elim (Checked-cases (check_envelope env)) [
    | inl (u, e) ↦ rw (compose, e) h
    | inr (why, e) ↦ rw (compose, e) tt
  ]

  take_over_world :
      (fleet : Fleet W) (persona : Persona) (message : ChatMessage) (env : HandoffEnvelope)
      (mine : List String) (d : Desk W)
      → d.world ≡ w
      → WorldIs w (take_over fleet persona message env mine d)
  unfolding take_over synthetic_notice compose negotiate
  take_over_world fleet persona message env [] d h = h
  take_over_world fleet persona message env (a ∷ mine) d h =
      let notice = synthetic_notice persona env (a ∷ mine) in
      compose_world notice _ (
        negotiate_as_world (fleet.colleague persona.handle) fleet persona message notice (a ∷ mine)
          env.recipient d refl h)

  plan_world :
      (persona : Persona) (env : HandoffEnvelope) (d : Desk W)
      → d.world ≡ w
      → (if any (λ (s : PlanStep). s.owner == persona.handle) env.steps
          then record_task_note env "plan posted" d
          else d).world
        ≡ w
  unfolding record_task_note
  plan_world persona env d h =
      elim (Bool-cases (any (λ (s : PlanStep). s.owner == persona.handle) env.steps)) [
        | inl e ↦ rw e h
        | inr e ↦ rw e h
      ]

  respond_to_world :
      (fleet : Fleet W) (persona : Persona) (message : ChatMessage) (env : HandoffEnvelope)
      (d : Desk W)
      → (env.kind == "response") ≡ true
      → d.world ≡ w
      → WorldIs w (respond_to fleet persona message env d)
  unfolding respond_to record_task_note
  respond_to_world fleet persona message env d kind h = elim (Bool-cases (env.kind == "plan")) [
    | inl plan ↦ rw plan (plan_world persona env d h)
    | inr other ↦ elim (Bool-cases (env.recipient == persona.handle)) [
      | inl mine ↦ rw (other, kind, mine) h
      | inr theirs ↦
          rw (other, kind, theirs)
            (take_over_world fleet persona message env
              (redirected_asks persona.handle env.decisions) d h)
    ]
  ]

-- a message of an agent with an envelope
pub respond_found :
    {W : Type 0} (fleet : Fleet W) (persona : Persona) (message : ChatMessage)
    (env : HandoffEnvelope) (d : Desk W)
    → fleet.parse message.text ≡ some env
    → message.is_owner ≡ false
    → respond fleet persona message d ≡ (
        if env.origin == message.author
        then respond_to fleet persona message env d
        else ran (none, d))
unfolding respond
respond_found fleet persona message env d parsed other =
    ap
      (λ o. elim o [
        | none ↦ ask_inner fleet persona message d
        | some e ↦
            if message.is_owner
            then ask_inner fleet persona message d
            else if e.origin == message.author
            then respond_to fleet persona message e d
            else ran (none, d)
      ])
      parsed
    ∙ ap
        (λ b.
          if b
          then ask_inner fleet persona message d
          else if env.origin == message.author
          then respond_to fleet persona message env d
          else ran (none, d))
        other

-- A response, whoever it is to, never makes an executor of the responder run: whatever redirects
-- and reflexes there are, the world is as it was.
pub respond-world :
    {W : Type 0} (fleet : Fleet W) (persona : Persona) (message : ChatMessage)
    (env : HandoffEnvelope) (d d' : Desk W) (text : Option String)
    → fleet.parse message.text ≡ some env
    → message.is_owner ≡ false
    → (env.kind == "response") ≡ true
    → respond fleet persona message d ≡ ran (text, d')
    → d'.world ≡ d.world
respond-world fleet persona message env d d' text parsed other kind e =
    subst (WorldIs d.world) (sym (respond_found fleet persona message env d parsed other) ∙ e)
      (elim (Bool-cases (env.origin == message.author)) [
        | inl honest ↦ rw honest (respond_to_world d.world fleet persona message env d kind refl)
        | inr forged ↦ rw forged refl
      ])

-- the envelope is its author's, and asks something of the persona
pub record IsCalled (persona : Persona) (author : String) (env : HandoffEnvelope) : Type 0 where
  pub honest : (env.origin == author) ≡ true
  pub no_plan : (env.kind == "plan") ≡ false
  pub asked :
      (((env.kind == "response") ≡ false) × ((env.recipient == persona.handle) ≡ true))
      ⊎ (((env.kind == "response") ≡ true)
          × ((env.recipient == persona.handle) ≡ false)
          × ((ask : String) × (rest : List String) × (redirected_asks persona.handle env.decisions
                ≡ ask ∷ rest)))

-- a reply needs `P`
abbrev Needs : {W : Type 0} → Type 0 → Ran (Option String × Desk W) → Type 0
Needs P (ran (some text, d)) = P
Needs P (ran (none, d)) = Unit
Needs P (failed why) = Unit

needed : {W : Type 0} (P : Type 0) (r : Ran (Option String × Desk W)) → P → Needs P r
needed P (ran (some text, d)) h = h
needed P (ran (none, d)) h = tt
needed P (failed why) h = tt

List-cases :
    (xs : List String) → (xs ≡ []) ⊎ ((x : String) × (rest : List String) × (xs ≡ x ∷ rest))
List-cases [] = inl refl
List-cases (x ∷ xs) = inr (x, xs, refl)

module _ {W : Type 0} (fleet : Fleet W) (persona : Persona) (message : ChatMessage)
    (env : HandoffEnvelope) (d : Desk W) where
  respond_to-Needs :
      (env.origin == message.author) ≡ true
      → Needs (IsCalled persona message.author env) (respond_to fleet persona message env d)
  unfolding respond_to
  respond_to-Needs honest = elim (Bool-cases (env.kind == "plan")) [
    | inl plan ↦ rw plan tt
    | inr other ↦ elim (Bool-cases (env.kind == "response")) [
      | inl kind ↦ elim (Bool-cases (env.recipient == persona.handle)) [
        | inl mine ↦ rw (other, kind, mine) tt
        | inr theirs ↦ elim (List-cases (redirected_asks persona.handle env.decisions)) [
          | inl empty ↦ rw (other, kind, theirs, empty) tt
          | inr (ask, rest, e) ↦
              rw (other, kind, theirs)
                (needed (IsCalled persona message.author env) _ (record {
                  honest = honest;
                  no_plan = other;
                  asked = inr (kind, theirs, (ask, rest, e));
                }))
        ]
      ]
      | inr kind ↦ elim (Bool-cases (env.recipient == persona.handle)) [
        | inl mine ↦
            rw (other, kind, mine)
              (needed (IsCalled persona message.author env) _
                (record { honest = honest; no_plan = other; asked = inl (kind, mine) }))
        | inr theirs ↦ rw (other, kind, theirs) tt
      ]
    ]
  ]

  -- A message of an agent that holds an envelope draws a reply only if the envelope names the author
  -- as its origin and is no plan, and is either a notice to the persona, or a response to another
  -- that redirects some ask to the persona: no plan, no response to the persona, no forged or
  -- misdirected envelope draws one.
  pub respond-IsCalled :
      (d' : Desk W) (text : String)
      → fleet.parse message.text ≡ some env
      → message.is_owner ≡ false
      → respond fleet persona message d ≡ ran (some text, d')
      → IsCalled persona message.author env
  respond-IsCalled d' text parsed other e =
      subst (Needs (IsCalled persona message.author env))
        (sym (respond_found fleet persona message env d parsed other) ∙ e)
        (elim (Bool-cases (env.origin == message.author)) [
          | inl honest ↦ rw honest (respond_to-Needs honest)
          | inr forged ↦ rw forged tt
        ])
