-- ===== src/Converse.antt =====
-- The conversational operator, src/clonway_cockpit/conversation.py, over the driver's side of the
-- agent channel, CockpitClient of src/clonway_cockpit/agent.py. What the queue of the client gives
-- to its waits is a list: a frame, the end, or a wait that times out. The process of the worker,
-- its reader thread and `quit` are left out. `P` is the state of the approval policy, the router and
-- the launcher are parameters, and a worker that is launched has a line of its own.
pub mod Boundary
mod Tests
use clonway_cockpit.Prelude.{
  ℕ, zero, suc, ◌+◌, ◌-◌, ◌*◌, ◌/◌, ◌%◌, ◌≤◌, ◌<◌, min, max, String, ◌≡◌, refl, sym, ap, ◌∙◌, ◌≢◌,
  ◌↔◌, ◌⊎◌, inl, inr, Bool, true, false, not, ◌&&◌, ◌||◌, Option, none, some, List, [], ◌∷◌, ◌++◌,
  map, arith, ◌==◌, eq_iff, eq_refl, ltb, leb, nat_eq, if◌then◌else◌, ltb→lt, leb→le, Bool-cases,
  and_split, Option-cases, is_some, length, take, drop, any, all, keep, All, length-append, elem,
  Distinct, elem-append, All-append,
}
use clonway_cockpit.Prelude.Texts.{text_append, join}
use clonway_cockpit.Value.{
  Value, Fields, str, bool, int, obj, null, arr, no_items, no_members, member, lookup, is_true,
  holds_text,
}
use clonway_cockpit.Walk.{decimal_of}
use clonway_cockpit.Prelude.Int.{pos}

pub data Arrival : Type 0 where
  frame : Value → Arrival
  end_of_stream silence : Arrival

-- `writes` says of the coming writes whether they go through; all go through after its end
pub record Client (P : Type 0) : Type 0 where
  pub incoming : List Arrival
  pub writes : List Bool
  pub sent : List Fields
  pub policy : P

-- a message, with its trust label
pub record Message : Type 0 where
  pub text : String
  pub source : String

pub record Plan : Type 0 where
  pub worker : String
  pub script : List String
  pub intent : String

pub record Reply : Type 0 where
  pub text : String
  pub acted : Bool
  pub frames : List Value

abbrev pub operator : String
operator = "operator"

-- v or {}: `none` is a value that is true and has no `get`, or a float
unfoldable pub or_empty : Option Value → Option Fields
or_empty none = some no_members
or_empty (some null) = some no_members
or_empty (some (bool false)) = some no_members
or_empty (some (str s)) = if s == "" then some no_members else none
or_empty (some (arr no_items)) = some no_members
or_empty (some (int (pos zero))) = some no_members
or_empty (some (obj m)) = some m
or_empty (some _) = none

-- frame["meta"], where the frame is an object
unfoldable pub meta_of : Value → Option Fields
unfolding or_empty lookup
meta_of (obj m) = or_empty (lookup "meta" m)
meta_of _ = none

-- v is not None
unfoldable pub present : Option Value → Option Value
present none = none
present (some null) = none
present (some v) = some v

unfoldable pub kind_is : String → Value → Bool
unfolding lookup holds_text
kind_is kind (obj m) = holds_text (lookup "kind" m) kind
kind_is kind _ = false

-- the token of a frame that waits for an apply
unfoldable pub awaited_token : Value → Fields → Option Value
unfolding kind_is lookup holds_text present
awaited_token f meta =
    if kind_is "walk.gate" f && holds_text (lookup "gate" meta) "awaiting_apply"
    then present (lookup "token" meta)
    else none

-- prop.setdefault("token", token)
unfoldable pub with_token : Value → Fields → Fields
unfolding lookup
with_token token m = elim (lookup "token" m) [ some t ↦ m | none ↦ member "token" token m ]

unfoldable pub press_message : String → Fields
press_message key = member "key" (str key) no_members

unfoldable pub apply_message : Bool → Value → Fields
apply_message true token = member "apply" (bool true) (member "token" token no_members)
apply_message false token = member "apply" (bool false) no_members

-- the frames that come before a silence or the end, which stays in the queue
unfoldable pub drain_from : List Arrival → List Value × List Arrival
drain_from [] = ([], [])
drain_from (frame f ∷ rest) = let (fs, left) = drain_from rest in (f ∷ fs, left)
drain_from (silence ∷ rest) = ([], rest)
drain_from (end_of_stream ∷ rest) = ([], end_of_stream ∷ rest)

-- what `_next` finds in the queue: no frame is CockpitClosed
unfoldable pub first_frame : List Arrival → Option Value × List Arrival
first_frame [] = (none, [])
first_frame (frame f ∷ rest) = (some f, rest)
first_frame (end_of_stream ∷ rest) = (none, rest)
first_frame (silence ∷ rest) = (none, rest)

-- whether the next write goes through, and those after it
unfoldable pub write_ok : List Bool → Bool × List Bool
write_ok [] = (true, [])
write_ok (ok ∷ rest) = (ok, rest)

module _ {P : Type 0} where
  -- _next
  unfoldable pub next : Client P → Option Value × Client P
  unfolding first_frame
  next c = let (f, rest) = first_frame c.incoming in (f, record c { incoming = rest })

  -- _send and _next: no frame is CockpitClosed, of a write that failed or of a wait
  unfoldable pub exchange : Fields → Client P → Option Value × Client P
  unfolding next write_ok
  exchange m c =
      let (ok, rest) = write_ok c.writes in
      if ok
      then next (record c { writes = rest; sent = c.sent ++ m ∷ [] })
      else (none, record c { writes = rest })

  unfoldable pub press : String → Client P → Option Value × Client P
  unfolding exchange press_message
  press key c = exchange (press_message key) c

  -- apply, at a gate with the token
  unfoldable pub apply :
      (Fields → P → Bool × P) → Value → Fields → Client P → Option Value × Client P
  unfolding exchange apply_message with_token
  apply approve token proposal c =
      let (yes_no, p) = approve (with_token token proposal) c.policy in
      exchange (apply_message yes_no token) (record c { policy = p })

  unfoldable pub drain : Client P → List Value × Client P
  unfolding drain_from
  drain c = let (fs, left) = drain_from c.incoming in (fs, record c { incoming = left })

-- how a drive ended: with its frames, or by the exception of a frame that is no object
pub data Drive : Type 0 where
  drove : List Value → Drive
  crashed : Drive

abbrev pub before : List Value → Drive → Drive
before fs (drove gs) = drove (fs ++ gs)
before fs crashed = crashed

module _ {P : Type 0} (approve : Fields → P → Bool × P) where
  -- at a frame: an apply where it waits for one, and the drain. `none` ends the script.
  unfoldable pub at_frame : Value → Fields → Client P → Option (List Value) × Client P
  unfolding awaited_token apply drain
  at_frame f meta c = elim (awaited_token f meta) [
    | none ↦ let (fs, d) = drain c in (some fs, d)
    | some token ↦
        let (found, d) = apply approve token meta c in
        elim found [ none ↦ (none, d) | some g ↦ let (fs, e) = drain d in (some (g ∷ fs), e) ]
  ]

  -- the loop over the keys of the script
  unfoldable pub play : List String → Client P → Drive × Client P
  unfolding press meta_of at_frame
  play [] c = (drove [], c)
  play (key ∷ script) c =
      let (found, d) = press key c in
      elim found [
        | none ↦ (drove [], d)
        | some f ↦ elim (meta_of f) [
          | none ↦ (crashed, d)
          | some meta ↦
              let (more, e) = at_frame f meta d in
              elim more [
                | none ↦ (drove (f ∷ []), e)
                | some fs ↦ let (rest, g) = play script e in (before (f ∷ fs) rest, g)
              ]
        ]
      ]

  -- _drive_argv, on the client of the worker that was launched
  unfoldable pub drive : List String → Client P → Drive × Client P
  unfolding next play
  drive script c =
      let (home, d) = next c in
      elim home [
        | none ↦ (drove [], d)
        | some f ↦ let (rest, e) = play script d in (before (f ∷ []) rest, e)
      ]

-- how many frames of a gate have the status
unfoldable pub with_status : String → List Value → ℕ
unfolding kind_is meta_of lookup holds_text
with_status status [] = 0
with_status status (f ∷ fs) =
    let rest = with_status status fs in
    if kind_is "walk.gate" f
      && (elim (meta_of f) [ some m ↦ holds_text (lookup "status" m) status | none ↦ false ])
    then suc rest
    else rest

unfoldable pub last_of : List Value → Option Value
last_of [] = none
last_of (f ∷ []) = some f
last_of (f ∷ g ∷ fs) = last_of (g ∷ fs)

unfoldable pub count_text : ℕ → String
count_text n = decimal_of (suc n) n ""

unfoldable pub kind_text : Option Value → List String
unfolding lookup
kind_text (some (obj m)) = elim (lookup "kind" m) [
  | some (str k) ↦ if k == "" then [] else text_append "Now on: " (text_append k ".") ∷ []
  | _ ↦ []
]
kind_text _ = []

-- _narrate, for frames whose kind is a text and whose meta is an object
unfoldable pub narrate : Plan → List Value → String
unfolding with_status last_of count_text kind_text
narrate plan fs =
    let intent = if plan.intent == "" then "" else text_append " — " plan.intent in
    let applied = with_status "applied" fs in
    let declined = with_status "declined" fs in
    join " " (
      text_append "Drove " (text_append plan.worker (text_append intent "."))
        ∷ (if leb 1 applied
            then text_append "Applied " (text_append (count_text applied) " change(s).") ∷ []
            else [])
      ++ (if leb 1 declined
          then text_append "Declined " (text_append (count_text declined) " (not authorized).") ∷ []
          else [])
      ++ kind_text (last_of fs))

unfoldable pub unacted : String → Reply
unacted text = record { text = text; acted = false; frames = [] }

-- the reply to a drive: `none` is the exception of a frame that is no object
unfoldable pub reply_of : Plan → Drive → Option Reply
unfolding narrate unacted
reply_of plan crashed = none
reply_of plan (drove []) =
    some (unacted (text_append "Could not reach " (text_append plan.worker " — it did not start.")))
reply_of plan (drove (f ∷ fs)) =
    some (record { text = narrate plan (f ∷ fs); acted = true; frames = f ∷ fs })

module _ {P : Type 0} where
  -- Conversation.handle: the launcher gives the client of a worker that it can drive, before
  -- anything was sent; the repr of its name is for one without quotes. The client after the drive stands beside the reply.
  unfoldable pub handle :
      (Message → Option Plan)
      → (String → Option (Client P))
      → (Fields → P → Bool × P)
      → Message
      → Option Reply × Option (Client P)
  unfolding drive reply_of unacted
  handle router launch approve message =
      if not (message.source == operator)
      then (some (unacted "Ignored — quoted/observed content is never run as a command."), none)
      else elim (router message) [
        | none ↦ (some (unacted "No actionable command found."), none)
        | some plan ↦ elim (launch plan.worker) [
          | none ↦ (
            some (unacted (text_append "Worker '" (text_append plan.worker "' is not drivable."))),
            none,
          )
          | some c ↦ let (result, d) = drive approve plan.script c in (reply_of plan result, some d)
        ]
      ]
