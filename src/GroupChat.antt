-- ===== src/GroupChat.antt =====
-- The shared room: src/clonway_cockpit/group_chat.py, with the personas of persona.py in the order
-- in which the registry gives them. `wide` is what Python's `re` takes for a word character outside
-- ASCII; a responder acts on a state `S` of its own, and returns.
pub mod Bounds
pub mod Speakers
mod Tests
use clonway_cockpit.Prelude.{
  ℕ, zero, suc, ◌+◌, ◌-◌, ◌*◌, ◌/◌, ◌%◌, ◌≤◌, ◌<◌, min, max, String, ◌≡◌, refl, sym, ap, ◌∙◌, ◌≢◌,
  ◌↔◌, ◌⊎◌, inl, inr, Bool, true, false, not, ◌&&◌, ◌||◌, Option, none, some, List, [], ◌∷◌, ◌++◌,
  map, arith, ◌==◌, eq_iff, eq_refl, ltb, leb, nat_eq, if◌then◌else◌, ltb→lt, leb→le, Bool-cases,
  Option-cases, is_some, length, take, drop, any, all, keep, All, length-append, elem, Distinct,
  elem-append, All-append,
}
use clonway_cockpit.Prelude.Texts.{lower, text_append}
use clonway_cockpit.Handoff.{slug_head, slug_char}
use Prim.Native.Char.{Char, code}

-- `mentions` is what `extract_mentions` found in the text
pub record ChatMessage : Type 0 where
  pub text : String
  pub author : String
  pub is_owner : Bool
  pub space : String
  pub mentions : List String

pub record PostedReply : Type 0 where
  pub handle : String
  pub text : String

pub record Persona : Type 0 where
  pub handle : String
  pub name : String
  pub domain : String
  pub email : String
  pub avatar_ref : String
  pub voice : String

abbrev pub stop_words : List String
stop_words =
    "the" ∷ "and" ∷ "for" ∷ "you" ∷ "your" ∷ "with" ∷ "who" ∷ "what" ∷ "where" ∷ "keeps" ∷ "points"
    ∷ "right" ∷ "our" ∷ "are" ∷ "this" ∷ "that" ∷ "from" ∷ []

unfoldable pub is_letter : ℕ → Bool
is_letter c = leb b'a' c && leb c b'z'

-- \w
unfoldable pub is_word : (ℕ → Bool) → ℕ → Bool
unfolding is_letter
is_word wide c =
    is_letter c
    || (leb b'A' c && leb c b'Z')
    || (leb b'0' c && leb c b'9')
    || nat_eq c b'_'
    || (leb 128 c && wide c)

-- where the scan for mentions stands: after a character (was it a word character?), after an @ that
-- may begin a mention, or inside a mention
pub data Scan : Type 0 where
  outside : Bool → Scan
  at_sign : Scan
  inside : String → Bool → Scan

unfoldable pub scan_outside : (ℕ → Bool) → Bool → ℕ → Scan
unfolding is_word
scan_outside wide prev c = if nat_eq c b'@' && not prev then at_sign else outside (is_word wide c)

-- what a mention that ends before `c` adds
unfoldable pub ended : Scan → ℕ → List String
ended (inside found prev) c = if slug_char c then [] else found ∷ []
ended _ c = []

unfoldable pub scan_next : (ℕ → Bool) → Scan → Char → Scan
unfolding scan_outside is_word
scan_next wide (outside prev) c = scan_outside wide prev (code c)
scan_next wide at_sign c =
    if slug_head (code c) then inside (String.◌∷◌ c "") true else scan_outside wide false (code c)
scan_next wide (inside found prev) c =
    if slug_char (code c)
    then inside (text_append found (String.◌∷◌ c "")) (is_word wide (code c))
    else scan_outside wide prev (code c)

-- _MENTION_RE.findall
unfoldable pub find_mentions : (ℕ → Bool) → Scan → String → List String
unfolding ended scan_next
find_mentions wide (inside found prev) String.[] = found ∷ []
find_mentions wide (outside prev) String.[] = []
find_mentions wide at_sign String.[] = []
find_mentions wide state (String.◌∷◌ c s) =
    ended state (code c) ++ find_mentions wide (scan_next wide state c) s

-- tuple(dict.fromkeys(found)): the first of each, after those that were seen
unfoldable pub first_of_each : List String → List String → List String
first_of_each before [] = []
first_of_each before (x ∷ xs) =
    let rest = first_of_each (x ∷ before) xs in
    let skipped = first_of_each before xs in if elem x before then skipped else x ∷ rest

unfoldable pub extract_mentions : (ℕ → Bool) → String → List String
unfolding find_mentions first_of_each
extract_mentions wide text = first_of_each [] (find_mentions wide (outside false) (lower text))

-- ChatMessage.from_text
unfoldable pub from_text : (ℕ → Bool) → String → String → Bool → String → ChatMessage
unfolding extract_mentions
from_text wide text author is_owner space = record {
  text = text;
  author = author;
  is_owner = is_owner;
  space = space;
  mentions = extract_mentions wide text;
}

-- re.findall(r"[a-z][a-z]+", s): the runs of two letters or more, where `run` holds the letters
-- just read
unfoldable pub long_run : String → List String
long_run String.[] = []
long_run (String.◌∷◌ c String.[]) = []
long_run (String.◌∷◌ c (String.◌∷◌ d s)) = String.◌∷◌ c (String.◌∷◌ d s) ∷ []

unfoldable pub letter_runs : String → String → List String
unfolding is_letter long_run
letter_runs run String.[] = long_run run
letter_runs run (String.◌∷◌ c s) =
    let on = letter_runs (text_append run (String.◌∷◌ c "")) s in
    let anew = letter_runs "" s in if is_letter (code c) then on else long_run run ++ anew

-- what follows the word `w` where the text begins with it
unfoldable pub after_word : String → String → Option String
after_word String.[] s = some s
after_word (String.◌∷◌ a w) String.[] = none
after_word (String.◌∷◌ a w) (String.◌∷◌ c s) =
    let rest = after_word w s in if nat_eq (code a) (code c) then rest else none

unfoldable pub starts_word : (ℕ → Bool) → String → Bool
unfolding is_word
starts_word wide String.[] = false
starts_word wide (String.◌∷◌ c s) = is_word wide (code c)

-- re.search(rf"\b{w}\b", s), after a character that is (`prev`) or is not a word character
unfoldable pub word_in : (ℕ → Bool) → String → Bool → String → Bool
unfolding after_word starts_word is_word
word_in wide w prev String.[] = false
word_in wide w prev (String.◌∷◌ c s) =
    (not prev && (elim (after_word w (String.◌∷◌ c s)) [
      | none ↦ false
      | some rest ↦ not (starts_word wide rest)
    ]))
    || word_in wide w (is_word wide (code c)) s

unfoldable pub domain_match : (ℕ → Bool) → String → Persona → Bool
unfolding letter_runs word_in
domain_match wide text persona =
    any (λ w. not (elem w stop_words) && word_in wide w false (lower text))
      (letter_runs "" (lower persona.domain))

unfoldable pub is_command : ChatMessage → Bool
is_command message = message.is_owner

-- should_respond: `matcher` is `domain_matches or domain_match`
unfoldable pub should_respond : (String → Persona → Bool) → ChatMessage → Persona → Bool
should_respond matcher message persona =
    if persona.handle == message.author
    then false
    else elem persona.handle message.mentions || (message.is_owner && matcher message.text persona)

-- GroupChatOrchestrator, with the space of the round
pub record Orchestrator (S : Type 0) : Type 0 where
  pub wide : ℕ → Bool
  pub personas : List Persona
  pub responder : Persona → ChatMessage → S → Option String × S
  pub max_persona_turns : ℕ
  pub matcher : String → Persona → Bool
  pub space : String

-- the locals of `run_round`, what the transport was given, and the responder's state
pub record Talk (S : Type 0) : Type 0 where
  pub queue : List ChatMessage
  pub posted : List PostedReply
  pub turns_since_owner : ℕ
  pub sent : List (String × String)
  pub minds : S

module _ {S : Type 0} (o : Orchestrator S) where
  -- what follows the responder's answer
  unfoldable pub post_reply : Persona → Option String × S → Talk S → Talk S
  unfolding from_text
  post_reply persona (none, minds) t = record t { minds = minds }
  post_reply persona (some reply, minds) t = record {
    queue = t.queue ++ from_text o.wide reply persona.handle false o.space ∷ [];
    posted = t.posted ++ record { handle = persona.handle; text = reply } ∷ [];
    turns_since_owner = t.turns_since_owner + 1;
    sent = t.sent ++ (o.space, reply) ∷ [];
    minds = minds;
  }

  -- one round of `for persona in self.registry.all()`
  unfoldable pub hear : ChatMessage → Persona → Talk S → Talk S
  unfolding should_respond post_reply
  hear msg persona t =
      if not (should_respond o.matcher msg persona)
      then t
      else if leb o.max_persona_turns t.turns_since_owner && not msg.is_owner
      then t
      else post_reply persona (o.responder persona msg t.minds) t

  unfoldable pub hear_each : ChatMessage → List Persona → Talk S → Talk S
  unfolding hear
  hear_each msg [] t = t
  hear_each msg (p ∷ ps) t = hear_each msg ps (hear msg p t)

  -- the body of `while queue`, for the message that was taken off
  unfoldable pub hear_message : ChatMessage → List ChatMessage → Talk S → Talk S
  unfolding hear_each
  hear_message msg rest t = hear_each msg o.personas (record t {
    queue = rest;
    turns_since_owner = if msg.is_owner then 0 else t.turns_since_owner;
  })

  -- `while queue`, for at most so many messages of the queue; `none` where that was too few
  unfoldable pub run_loop : ℕ → List ChatMessage → Talk S → Option (Talk S)
  unfolding hear_message
  run_loop fuel [] t = some t
  run_loop zero (msg ∷ rest) t = none
  run_loop (suc fuel) (msg ∷ rest) t =
      let after = hear_message msg rest t in run_loop fuel after.queue after

  -- run_round, with fuel
  unfoldable pub run_round : ℕ → List ChatMessage → S → Option (Talk S)
  unfolding run_loop
  run_round fuel inbound minds =
      run_loop fuel inbound
        (record { queue = inbound; posted = []; turns_since_owner = 0; sent = []; minds = minds })

-- GroupSpace: the round of one message of the owner, or of an agent
module _ {S : Type 0} (o : Orchestrator S) where
  unfoldable pub owner_says : ℕ → String → String → S → Option (Talk S)
  unfolding run_round from_text
  owner_says fuel text author minds =
      run_round o fuel (from_text o.wide text author true o.space ∷ []) minds

  unfoldable pub agent_says : ℕ → String → String → S → Option (Talk S)
  unfolding run_round from_text
  agent_says fuel handle text minds =
      run_round o fuel (from_text o.wide text handle false o.space ∷ []) minds
