-- ===== src/Channel/Tests.antt =====
-- Runs of the agent channel of agent.py: keys, snapshots, malformed lines, gates and prompts.
use clonway_cockpit.Prelude.{
  ℕ, zero, suc, ◌+◌, ◌-◌, ◌*◌, ◌/◌, ◌%◌, ◌≤◌, ◌<◌, min, max, String, ◌≡◌, refl, sym, ap, ◌∙◌, ◌≢◌,
  ◌↔◌, ◌⊎◌, inl, inr, Bool, true, false, not, ◌&&◌, ◌||◌, Option, none, some, List, [], ◌∷◌, ◌++◌,
  map, arith, ◌==◌, eq_iff, eq_refl, ltb, leb, nat_eq, if◌then◌else◌, ltb→lt, leb→le, Bool-cases,
  and_split, Option-cases, is_some, length, take, drop, any, all, keep, All, length-append, elem,
  Distinct, elem-append, All-append,
}
use clonway_cockpit.Value.{Value, Fields, str, obj, bool, no_members, member}
use clonway_cockpit.Walk.{answered, WizardContext, Scene, proposal_of, confirm_apply}
use clonway_cockpit.Channel.{
  screen_frame, error_frame, Pump, press, returned, raised, read_message, reply_to_key, read_key,
  gate_authorizer, agent_input, agent_confirm,
}
use clonway_cockpit.Channel.Keys
use clonway_cockpit.Channel.Keys.{draws, due, answers, reads_on}
use clonway_cockpit.Channel.Gates
use clonway_cockpit.Channel.Gates.{Grants}

-- the lines of the runs and what json.loads makes of them
abbrev loads : String → Option Value
loads s =
    if s == "K"
    then some (obj (member "key" (str "down") no_members))
    else if s == "S"
    then some (obj (member "cmd" (str "snapshot") no_members))
    else if s == "A"
    then some (obj (member "apply" (bool true) (member "token" (str "gate-1") no_members)))
    else if s == "X"
    then some (obj (member "z" (bool true) (member "b" (bool true) no_members)))
    else if s == "I"
    then some (obj (member "input" (str "42") no_members))
    else none

-- a screen is a number here
abbrev pump : List String → Pump ℕ
pump lines = record {
  incoming = lines;
  sent = [];
  last = some 7;
  frames_written = 1;
  key_mark = none;
  hooked = [];
}

malformed_then_key :
    (read_key loads (pump (" bad " ∷ "S" ∷ "X" ∷ "K" ∷ "K" ∷ []))).1.sent
    ≡ error_frame "invalid json"
      ∷ screen_frame 7
      ∷ error_frame "unknown message (keys: b,z; 2 total)"
      ∷ []
unfolding read_key clonway_cockpit.Prelude.Texts.strip clonway_cockpit.Prelude.Texts.text_append
    clonway_cockpit.Prelude.Texts.text_take clonway_cockpit.Prelude.Texts.join
    clonway_cockpit.Prelude.Texts.sort_texts clonway_cockpit.Value.member_names
    clonway_cockpit.Walk.decimal_of clonway_cockpit.Value.lookup clonway_cockpit.Value.holds_text
malformed_then_key = refl

key_after_end : (read_key loads (pump (" " ∷ []))).0 ≡ "q"
unfolding read_key clonway_cockpit.Prelude.Texts.strip
key_after_end = refl

input_given : (agent_input loads "Amount" "" (pump ("I" ∷ []))).0 ≡ returned "42"
unfolding agent_input clonway_cockpit.Prelude.Texts.strip clonway_cockpit.Value.lookup
input_given = refl

input_closed : (agent_input loads "Amount" "" (pump [])).0 ≡ raised "agent input stream closed"
unfolding agent_input
input_closed = refl

confirm_garbled : (agent_confirm loads "Sure?" (pump ("bad" ∷ []))).0 ≡ false
unfolding agent_confirm clonway_cockpit.Prelude.Texts.strip
confirm_garbled = refl

press_k : read_message loads "K" ≡ press "down"
unfolding read_message clonway_cockpit.Prelude.Texts.strip
press_k = refl

skipped : all (λ r. reads_on (read_message loads r)) ("bad" ∷ "S" ∷ []) ≡ true
unfolding read_message clonway_cockpit.Prelude.Texts.strip
skipped = refl

abbrev before : Pump ℕ
before = pump ("bad" ∷ "S" ∷ "K" ∷ "rest" ∷ [])

read_key-next_example :
    let t = reply_to_key before in
    read_key loads before ≡ (
      "down",
      record t {
        incoming = "rest" ∷ [];
        key_mark = some t.frames_written;
        sent = t.sent ++ answers loads t.last ("bad" ∷ "S" ∷ []);
      },
    )
read_key-next_example =
    Keys.read_key-next loads ("bad" ∷ "S" ∷ []) ("rest" ∷ []) "K" "down" before refl skipped press_k

read_key-due_example :
    let t = (read_key loads before).1 in
    (reply_to_key (draws [] t)).sent ≡ t.sent ++ map screen_frame (due 7 [])
read_key-due_example =
    Keys.read_key-due loads ("bad" ∷ "S" ∷ []) ("rest" ∷ []) "K" "down" before [] 7 refl skipped
      press_k refl

abbrev agent_ctx : WizardContext (Pump ℕ)
agent_ctx = record {
  dry_run = true;
  authorize_apply = gate_authorizer loads none true true;
  interactive = true;
  confirm_fn = λ prompt p. (true, p);
  observed = true;
  has_audit = true;
  capability_key = some "bills.draft";
  money_movement = false;
}

abbrev scene : Scene (Pump ℕ)
scene = record {
  world = pump ("A" ∷ "A" ∷ []);
  presses = [];
  gate_seq = 0;
  audited = [];
  frames = [];
}

abbrev same_presses : List String → List String
same_presses ks = ks

-- the token of the first gate does not apply the second
replayed :
    let (first, s) = confirm_apply agent_ctx same_presses "" "books draft" scene in
    let (second, t) = confirm_apply agent_ctx same_presses "" "books draft" s in
    (first ≡ answered true) × (second ≡ answered false)
unfolding confirm_apply gate_authorizer clonway_cockpit.Prelude.Texts.strip
    clonway_cockpit.Value.lookup clonway_cockpit.Value.is_true clonway_cockpit.Value.holds_text
    clonway_cockpit.Walk.token_text clonway_cockpit.Prelude.Texts.text_append
    clonway_cockpit.Prelude.Texts.text_take
replayed = (refl, refl)

channel_gate_iff_example :
    ((confirm_apply agent_ctx same_presses "" "books draft" scene).0 ≡ answered true)
    ↔ Grants loads none true (proposal_of agent_ctx 1 "books draft") scene.world
channel_gate_iff_example =
    Gates.channel_gate_iff loads true none true agent_ctx same_presses "" "books draft" scene refl
      refl
