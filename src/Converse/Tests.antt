-- ===== src/Converse/Tests.antt =====
-- A conversation of conversation.py with a worker that offers a gate.
use clonway_cockpit.Prelude.{
  ℕ, zero, suc, ◌+◌, ◌-◌, ◌*◌, ◌/◌, ◌%◌, ◌≤◌, ◌<◌, min, max, String, ◌≡◌, refl, sym, ap, ◌∙◌, ◌≢◌,
  ◌↔◌, ◌⊎◌, inl, inr, Bool, true, false, not, ◌&&◌, ◌||◌, Option, none, some, List, [], ◌∷◌, ◌++◌,
  map, arith, ◌==◌, eq_iff, eq_refl, ltb, leb, nat_eq, if◌then◌else◌, ltb→lt, leb→le, Bool-cases,
  and_split, Option-cases, is_some, length, take, drop, any, all, keep, All, length-append, elem,
  Distinct, elem-append, All-append,
}
use clonway_cockpit.Value.{Value, Fields, str, obj, no_members, member}
use clonway_cockpit.Converse.{
  frame, end_of_stream, silence, Client, Message, Plan, Reply, operator, handle,
}
use clonway_cockpit.Converse.Boundary
use clonway_cockpit.Converse.Boundary.{IsAllowed, Sends}

abbrev home : Value
home = obj (member "kind" (str "home") no_members)

abbrev gate_meta : Fields
gate_meta = member "gate" (str "awaiting_apply") (member "token" (str "gate-1") no_members)

abbrev gate : Value
gate = obj (member "kind" (str "walk.gate") (member "meta" (obj gate_meta) no_members))

abbrev applied : Value
applied = obj (
    member "kind" (str "walk.gate")
      (member "meta" (obj (member "status" (str "applied") no_members)) no_members))

-- the policy is the number of applies that it still allows
abbrev approve : Fields → ℕ → Bool × ℕ
approve m n = (ltb 0 n, n - 1)

abbrev worker : ℕ → Client ℕ
worker n = record {
  incoming = frame home ∷ frame gate ∷ frame applied ∷ frame home ∷ silence ∷ end_of_stream ∷ [];
  writes = [];
  sent = [];
  policy = n;
}

abbrev plan : Plan
plan = record { worker = "books"; script = "enter" ∷ "q" ∷ []; intent = "draft the bills" }

abbrev router : Message → Option Plan
router m = some plan

abbrev launch : ℕ → String → Option (Client ℕ)
launch n name = if name == "books" then some (worker n) else none

abbrev text_of : Option Reply → String
text_of none = ""
text_of (some r) = r.text

abbrev sent_of : Option (Client ℕ) → List Fields
sent_of none = []
sent_of (some c) = c.sent

abbrev order : String → Message
order source = record { text = "draft this week's bills"; source = source }

narrated :
    text_of (handle router (launch 1) approve (order operator)).0
    ≡ "Drove books — draft the bills. Applied 1 change(s). Now on: home."
unfolding handle clonway_cockpit.Prelude.Texts.join clonway_cockpit.Walk.decimal_of
    clonway_cockpit.Walk.text_drop clonway_cockpit.Prelude.Texts.text_take
    clonway_cockpit.Prelude.Texts.text_append
narrated = refl

refused : length (sent_of (handle router (launch 0) approve (order operator)).1) ≡ 3
unfolding handle
refused = refl

quoted : (handle router (launch 1) approve (order "quoted")).1 ≡ none
unfolding handle
quoted = refl

handle-IsAllowed_example :
    ((operator ≡ operator) ⊎ ((handle router (launch 1) approve (order operator)).1 ≡ none))
    × Sends
        (IsAllowed approve (worker 1).incoming)
        (handle router (launch 1) approve (order operator)).1
handle-IsAllowed_example =
    Boundary.handle-IsAllowed router (launch 1) approve (order operator) plan (worker 1) refl refl
      refl
