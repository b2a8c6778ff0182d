-- ===== src/Channel.antt =====
-- The app's side of the agent protocol: `serve_stdio` of src/clonway_cockpit/agent.py, its key pump,
-- the handshake of a gate, the two capture prompts and the choice of the authorizer. A screen is any
-- type: only its writing is seen. json.loads is a parameter, `none` where it raises.
pub mod Keys
pub mod Gates
mod Tests
use clonway_cockpit.Prelude.{
  ℕ, zero, suc, ◌+◌, ◌-◌, ◌*◌, ◌/◌, ◌%◌, ◌≤◌, ◌<◌, min, max, String, ◌≡◌, refl, sym, ap, ◌∙◌, ◌≢◌,
  ◌↔◌, ◌⊎◌, inl, inr, Bool, true, false, not, ◌&&◌, ◌||◌, Option, none, some, List, [], ◌∷◌, ◌++◌,
  map, arith, ◌==◌, eq_iff, eq_refl, ltb, leb, nat_eq, if◌then◌else◌, ltb→lt, leb→le, Bool-cases,
  Option-cases, is_some, length, take, drop, any, all, keep, All, length-append, elem, Distinct,
  elem-append, All-append,
}
use clonway_cockpit.Prelude.Texts.{strip, text_append, text_take, join, sort_texts}
use clonway_cockpit.Value.{
  Value, Fields, str, obj, no_members, lookup, is_true, holds_text, member_names,
}
use clonway_cockpit.Walk.{decimal_of}

-- what is written to the driver
pub data Sent (M : Type 0) : Type 0 where
  screen_frame : M → Sent M
  error_frame : String → Sent M
  input_request : String → String → Sent M
  confirm_request : String → Sent M

-- `incoming` is what stdin still holds, by reads; none left is EOF. `sent` is what was handed to
-- stdout, `hooked` what on_apply was called with. `key_mark` is `none` for -1.
pub record Pump (M : Type 0) : Type 0 where
  pub incoming : List String
  pub sent : List (Sent M)
  pub last : Option M
  pub frames_written : ℕ
  pub key_mark : Option ℕ
  pub hooked : List Fields

-- what a message of the key loop is to it
pub data Message : Type 0 where
  end_of_input blank invalid_json not_object bad_key snapshot quit : Message
  press : String → Message
  unknown : Fields → Message

-- what a call that may raise gives
pub data Outcome (A : Type 0) : Type 0 where
  returned : A → Outcome A
  raised : String → Outcome A

unfoldable pub command_of : Fields → Message
unfolding lookup holds_text
command_of m =
    if holds_text (lookup "cmd" m) "snapshot"
    then snapshot
    else if holds_text (lookup "cmd" m) "quit"
    then quit
    else unknown m

unfoldable pub key_of : Value → Message
key_of (str key) = press key
key_of _ = bad_key

unfoldable pub message_of : Option Value → Message
unfolding key_of command_of
message_of none = invalid_json
message_of (some (obj m)) = elim (lookup "key" m) [ some v ↦ key_of v | none ↦ command_of m ]
message_of (some _) = not_object

-- what one read of stdin is to the key loop
unfoldable pub read_message : (String → Option Value) → String → Message
unfolding message_of
read_message loads raw =
    if raw == ""
    then end_of_input
    else if strip raw == ""
    then blank
    else message_of (loads (strip raw))

unfoldable pub head_of_name : String → String
head_of_name k = text_take 32 k

-- the report of a message that is none of the protocol's: names only
unfoldable pub unknown_text : Fields → String
unfolding head_of_name
unknown_text m =
    let names = member_names m in
    text_append "unknown message (keys: " (
      text_append (join "," (take 8 (sort_texts (map head_of_name names)))) (
        text_append "; "
          (text_append (decimal_of (suc (length names)) (length names) "") " total)")))

unfoldable pub marked_now : Option ℕ → ℕ → Bool
marked_now none n = false
marked_now (some mark) n = nat_eq mark n

-- the token of a proposal that a gate made
unfoldable pub token_matches : Fields → Option Value → Bool
token_matches proposal token = elim (lookup "token" proposal) [
  | some (str t) ↦ holds_text token t
  | _ ↦ false
]

unfoldable pub is_apply : Fields → Fields → Bool
unfolding token_matches
is_apply proposal m =
    elim (lookup "apply" m) [ some v ↦ is_true v | none ↦ false ]
    && token_matches proposal (lookup "token" m)

-- json.loads(line) if line else {}
unfoldable pub reply_value : (String → Option Value) → String → Option Value
reply_value loads line = if line == "" then some (obj no_members) else loads line

unfoldable pub confirms : Option Value → Bool
confirms (some (obj m)) = elim (lookup "confirm" m) [ some v ↦ is_true v | none ↦ false ]
confirms _ = false

module _ {M : Type 0} where
  -- _write
  unfoldable pub write : Sent M → Pump M → Pump M
  write out s = record s { sent = s.sent ++ out ∷ [] }

  unfoldable pub on_screen : M → Pump M → Pump M
  unfolding write
  on_screen m s =
      write (screen_frame m) (record s { last = some m; frames_written = s.frames_written + 1 })

  -- the current screen once more, where there is one
  unfoldable pub write_last : Pump M → Pump M
  unfolding write
  write_last s = elim s.last [ some m ↦ write (screen_frame m) s | none ↦ s ]

  -- the head of read_key: a key that drew nothing gets the current screen as its reply
  unfoldable pub reply_to_key : Pump M → Pump M
  unfolding marked_now write_last
  reply_to_key s = record (if marked_now s.key_mark s.frames_written then write_last s else s) {
    key_mark = none;
  }

  -- one message: the key to return, or `none` to read on
  unfoldable pub handle : Message → Pump M → Option String × Pump M
  unfolding write write_last unknown_text
  handle end_of_input s = (some "q", s)
  handle blank s = (none, s)
  handle invalid_json s = (none, write (error_frame "invalid json") s)
  handle not_object s = (none, write (error_frame "expected a JSON object") s)
  handle bad_key s = (none, write (error_frame "key must be a string") s)
  handle snapshot s = (none, write_last s)
  handle quit s = (some "q", s)
  handle (press key) s = (some key, record s { key_mark = some s.frames_written })
  handle (unknown m) s = (none, write (error_frame (unknown_text m)) s)

  -- stdin.readline: the text read is "" at the end
  unfoldable pub readline : Pump M → String × Pump M
  readline s = elim s.incoming [ [] ↦ ("", s) | raw ∷ rest ↦ (raw, record s { incoming = rest }) ]

  -- `has_hook` is `on_apply is not None`
  unfoldable pub call_hook : Bool → Bool → Fields → Pump M → Pump M
  call_hook has_hook authorized proposal s =
      if authorized && has_hook then record s { hooked = s.hooked ++ proposal ∷ [] } else s

  -- a message in reply to a gate
  unfoldable pub weigh : Bool → Fields → Option Value → Pump M → Bool × Pump M
  unfolding is_apply call_hook write
  weigh has_hook proposal none s = (false, write (error_frame "invalid json") s)
  weigh has_hook proposal (some (obj m)) s =
      (is_apply proposal m, call_hook has_hook (is_apply proposal m) proposal s)
  weigh has_hook proposal (some v) s = (false, write (error_frame "expected a JSON object") s)

  unfoldable pub autonomous_authorize : (Fields → Bool) → Bool → Fields → Pump M → Bool × Pump M
  unfolding call_hook
  autonomous_authorize policy has_hook proposal s =
      (policy proposal, call_hook has_hook (policy proposal) proposal s)

  unfoldable pub input_of : Option Value → Pump M → Outcome String × Pump M
  unfolding write
  input_of none s = (raised "invalid input message", write (error_frame "invalid json") s)
  input_of (some (obj m)) s = elim (lookup "input" m) [
    | some (str text) ↦ (returned text, s)
    | _ ↦ (
      raised "expected an input message",
      write (error_frame "expected {\"input\": \"<value>\"}") s,
    )
  ]
  input_of (some v) s = (
    raised "expected an input message",
    write (error_frame "expected {\"input\": \"<value>\"}") s,
  )

  -- from here on `loads` is json.loads
  module _ (loads : String → Option Value) where
    -- the loop of read_key over what stdin holds
    unfoldable pub read_each : List String → Pump M → String × Pump M
    unfolding handle read_message
    read_each [] s = ("q", s)
    read_each (raw ∷ rest) s =
        let (found, t) = handle (read_message loads raw) (record s { incoming = rest }) in
        elim found [ some key ↦ (key, t) | none ↦ read_each rest t ]

    unfoldable pub read_key : Pump M → String × Pump M
    unfolding read_each reply_to_key
    read_key s = read_each s.incoming (reply_to_key s)

    unfoldable pub authorize_apply : Bool → Fields → Pump M → Bool × Pump M
    unfolding readline weigh
    authorize_apply has_hook proposal s =
        let (raw, t) = readline s in
        if raw == ""
        then (false, t)
        else if strip raw == ""
        then (false, t)
        else weigh has_hook proposal (loads (strip raw)) t

    -- the order of the authorizers: a policy, the handshake, none
    unfoldable pub gate_authorizer :
        Option (Fields → Bool) → Bool → Bool → Option (Fields → Pump M → Bool × Pump M)
    unfolding autonomous_authorize authorize_apply
    gate_authorizer (some policy) allow_apply has_hook = some (autonomous_authorize policy has_hook)
    gate_authorizer none allow_apply has_hook =
        if allow_apply then some (authorize_apply has_hook) else none

    unfoldable pub agent_input : String → String → Pump M → Outcome String × Pump M
    unfolding write readline reply_value input_of
    agent_input prompt default s =
        let (raw, t) = readline (write (input_request prompt default) s) in
        if raw == ""
        then (raised "agent input stream closed", t)
        else input_of (reply_value loads (strip raw)) t

    unfoldable pub agent_confirm : String → Pump M → Bool × Pump M
    unfolding write readline reply_value confirms
    agent_confirm prompt s =
        let (raw, t) = readline (write (confirm_request prompt) s) in
        if raw == "" then (false, t) else (confirms (reply_value loads (strip raw)), t)
