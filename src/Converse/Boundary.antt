-- ===== src/Converse/Boundary.antt =====
-- conversation.py, agent.py
-- What a conversation sends to a worker, and on whose word.
use clonway_cockpit.Prelude.{
  String, ◌≡◌, refl, sym, ap, ◌∙◌, ◌⊎◌, inl, inr, Bool, true, false, Option, none, some, List, [],
  ◌∷◌, ◌++◌, ◌==◌, eq_iff, Bool-cases, Option-cases, All, All-append,
}
use mathlib.Core.Path.{subst}
use clonway_cockpit.Value.{Value, Fields}
use clonway_cockpit.Converse.{
  Arrival, frame, end_of_stream, silence, Client, Message, Plan, operator, meta_of, awaited_token,
  with_token, press_message, apply_message, drain_from, first_frame, write_ok, next, exchange,
  press, apply, drain, at_frame, play, drive, handle,
}

-- `f` is a frame that the queue gives
abbrev pub Came : List Arrival → Value → Type 0
Came arrivals f = (pre : List Arrival) × (rest : List Arrival) × (arrivals ≡ pre ++ frame f ∷ rest)

-- the script's own keys, refusals, and the applies of gates that came and that the policy allowed
pub data IsAllowed {P : Type 0} (approve : Fields → P → Bool × P) (arrivals : List Arrival)
    : Fields → Type 0 where
  key_press : (key : String) → IsAllowed approve arrivals (press_message key)
  refusal : (token : Value) → IsAllowed approve arrivals (apply_message false token)
  allowed_apply :
      (f token : Value) (meta : Fields) (p : P)
      → Came arrivals f
      → meta_of f ≡ some meta
      → awaited_token f meta ≡ some token
      → (approve (with_token token meta) p).0 ≡ true
      → IsAllowed approve arrivals (apply_message true token)

append_nil : (xs : List Arrival) → xs ++ [] ≡ xs
append_nil [] = refl
append_nil (x ∷ xs) = ap (λ l. x ∷ l) (append_nil xs)

append_cons :
    (xs : List Arrival) (y : Arrival) (ys : List Arrival) → xs ++ y ∷ ys ≡ (xs ++ y ∷ []) ++ ys
append_cons [] y ys = refl
append_cons (x ∷ xs) y ys = ap (λ l. x ∷ l) (append_cons xs y ys)

-- what is left of the queue
abbrev LeftOf : List Arrival → List Arrival → Type 0
LeftOf arrivals xs = (pre : List Arrival) × (arrivals ≡ pre ++ xs)

next_LeftOf :
    (arrivals : List Arrival) (x : Arrival) (xs : List Arrival)
    → LeftOf arrivals (x ∷ xs)
    → LeftOf arrivals xs
next_LeftOf arrivals x xs (pre, e) = (pre ++ x ∷ [], e ∙ append_cons pre x xs)

drain_LeftOf : (arrivals xs : List Arrival) → LeftOf arrivals xs → LeftOf arrivals (drain_from xs).1
unfolding drain_from
drain_LeftOf arrivals [] h = h
drain_LeftOf arrivals (frame f ∷ xs) h =
    drain_LeftOf arrivals xs (next_LeftOf arrivals (frame f) xs h)
drain_LeftOf arrivals (silence ∷ xs) h = next_LeftOf arrivals silence xs h
drain_LeftOf arrivals (end_of_stream ∷ xs) h = h

-- a frame that was found came
abbrev CameIf : List Arrival → Option Value → Type 0
CameIf arrivals none = Unit
CameIf arrivals (some f) = Came arrivals f

first_CameIf :
    (arrivals xs : List Arrival)
    → LeftOf arrivals xs
    → CameIf arrivals (first_frame xs).0 × LeftOf arrivals (first_frame xs).1
unfolding first_frame
first_CameIf arrivals [] h = (tt, h)
first_CameIf arrivals (frame f ∷ xs) h = ((h.0, xs, h.1), next_LeftOf arrivals (frame f) xs h)
first_CameIf arrivals (end_of_stream ∷ xs) h = (tt, next_LeftOf arrivals end_of_stream xs h)
first_CameIf arrivals (silence ∷ xs) h = (tt, next_LeftOf arrivals silence xs h)

module _ {P : Type 0} (approve : Fields → P → Bool × P) (arrivals : List Arrival) where
  -- a client of the queue that sent allowed messages only
  record IsFaithful (c : Client P) : Type 0 where
    left : LeftOf arrivals c.incoming
    sends : All (IsAllowed approve arrivals) c.sent

  next-IsFaithful :
      (c : Client P) → IsFaithful c → CameIf arrivals (next c).0 × IsFaithful (next c).1
  unfolding next
  next-IsFaithful c h =
      let (came, left) = first_CameIf arrivals c.incoming h.left in
      (came, record { left = left; sends = h.sends })

  exchange-IsFaithful :
      (m : Fields) (c : Client P)
      → IsAllowed approve arrivals m
      → IsFaithful c
      → CameIf arrivals (exchange m c).0 × IsFaithful (exchange m c).1
  unfolding exchange
  exchange-IsFaithful m c ok h = elim (Bool-cases (write_ok c.writes).0) [
    | inl e ↦ rw e (
        next-IsFaithful (record c { writes = (write_ok c.writes).1; sent = c.sent ++ m ∷ [] })
          (record {
            left = h.left;
            sends = All-append (IsAllowed approve arrivals) c.sent (m ∷ []) h.sends (ok, tt);
          }))
    | inr e ↦ rw e (tt, record { left = h.left; sends = h.sends })
  ]

  answered :
      (f token : Value) (meta : Fields) (p : P) (yes_no : Bool)
      → Came arrivals f
      → meta_of f ≡ some meta
      → awaited_token f meta ≡ some token
      → (approve (with_token token meta) p).0 ≡ yes_no
      → IsAllowed approve arrivals (apply_message yes_no token)
  answered f token meta p true came m t e = allowed_apply f token meta p came m t e
  answered f token meta p false came m t e = refusal token

  apply-IsFaithful :
      (f token : Value) (meta : Fields) (c : Client P)
      → Came arrivals f
      → meta_of f ≡ some meta
      → awaited_token f meta ≡ some token
      → IsFaithful c
      → CameIf arrivals (apply approve token meta c).0 × IsFaithful (apply approve token meta c).1
  unfolding apply
  apply-IsFaithful f token meta c came m t h =
      let said = approve (with_token token meta) c.policy in
      exchange-IsFaithful (apply_message said.0 token) (record c { policy = said.1 })
        (answered f token meta c.policy said.0 came m t refl)
        (record { left = h.left; sends = h.sends })

  drain-IsFaithful : (c : Client P) → IsFaithful c → IsFaithful (drain c).1
  unfolding drain
  drain-IsFaithful c h = record { left = drain_LeftOf arrivals c.incoming h.left; sends = h.sends }

  at_frame-IsFaithful :
      (f : Value) (meta : Fields) (c : Client P)
      → Came arrivals f
      → meta_of f ≡ some meta
      → IsFaithful c
      → IsFaithful (at_frame approve f meta c).1
  unfolding at_frame
  at_frame-IsFaithful f meta c came m h = elim (Option-cases (awaited_token f meta)) [
    | inl e ↦ rw (at_frame, e) (drain-IsFaithful c h)
    | inr (token, e) ↦
        let applied = apply-IsFaithful f token meta c came m e h in
        elim (Option-cases (apply approve token meta c).0) [
          | inl off ↦ rw (at_frame, e, off) applied.1
          | inr (g, on) ↦ rw (at_frame, e, on) (drain-IsFaithful _ applied.1)
        ]
  ]

  play-IsFaithful :
      (script : List String) (c : Client P) → IsFaithful c → IsFaithful (play approve script c).1
  unfolding play press
  play-IsFaithful [] c h = h
  play-IsFaithful (key ∷ script) c h =
      let (came, pressed) = exchange-IsFaithful (press_message key) c (key_press key) h in
      elim (Option-cases (press key c).0) [
        | inl off ↦ rw (play, off) pressed
        | inr (f, on) ↦
            let here : Came arrivals f = subst (CameIf arrivals) on came in
            elim (Option-cases (meta_of f)) [
              | inl bad ↦ rw (play, on, bad) pressed
              | inr (meta, m) ↦
                  let framed = at_frame-IsFaithful f meta (press key c).1 here m pressed in
                  elim (Option-cases (at_frame approve f meta (press key c).1).0) [
                    | inl end ↦ rw (play, on, m, end) framed
                    | inr (fs, more) ↦ rw (play, on, m, more) (play-IsFaithful script _ framed)
                  ]
            ]
      ]

  drive-IsFaithful :
      (script : List String) (c : Client P) → IsFaithful c → IsFaithful (drive approve script c).1
  unfolding drive
  drive-IsFaithful script c h =
      let home = (next-IsFaithful c h).1 in
      elim (Option-cases (next c).0) [
        | inl off ↦ rw (drive, off) home
        | inr (f, on) ↦ rw (drive, on) (play-IsFaithful script (next c).1 home)
      ]

-- the client after a message, where a worker was driven
abbrev pub Sends : {P : Type 0} → (Fields → Type 0) → Option (Client P) → Type 0
Sends Q none = Unit
Sends Q (some c) = All Q c.sent

module _ {P : Type 0} (router : Message → Option Plan) (launch : String → Option (Client P))
    (approve : Fields → P → Bool × P) (message : Message) where
  -- Where the router has a plan and the launcher a client that has sent nothing, then whatever the
  -- worker paints: only a message of the operator drives the worker, and each message sent to it is
  -- a key, a refusal, or the apply, by its own token, of a gate that the worker painted, after the
  -- policy said yes to the proposal of that gate.
  pub handle-IsAllowed :
      (plan : Plan) (c : Client P)
      → router message ≡ some plan
      → launch plan.worker ≡ some c
      → c.sent ≡ []
      → ((message.source ≡ operator) ⊎ ((handle router launch approve message).1 ≡ none))
        × Sends (IsAllowed approve c.incoming) (handle router launch approve message).1
  unfolding handle
  handle-IsAllowed plan c routed launched fresh = elim (Bool-cases (message.source == operator)) [
    | inl on ↦ (
      inl ((eq_iff message.source operator).0 on),
      rw (handle, on, routed, launched)
          (drive-IsFaithful approve c.incoming plan.script c (record {
            left = ([], refl);
            sends = subst (All (IsAllowed approve c.incoming)) (sym fresh) tt;
          })).sends,
    )
    | inr off ↦ (inr (rw (handle, off) refl), rw (handle, off) tt)
  ]
