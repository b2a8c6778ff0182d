-- ===== src/Respond/Answers.antt =====
-- negotiation.py
-- The reply to a notice: a response that answers each of its asks.
use clonway_cockpit.Prelude.{
  ℕ, suc, ◌+◌, ◌≤◌, String, ◌≡◌, refl, sym, ap, ◌∙◌, inl, inr, Bool, true, false, ◌&&◌, Option,
  none, some, List, [], ◌∷◌, ◌++◌, map, arith, ◌==◌, eq_iff, eq_refl, leb, nat_eq, if◌then◌else◌,
  Bool-cases, length, keep, All, length-append, elem, Distinct,
}
use mathlib.Core.Path.{subst}
use clonway_cockpit.Prelude.Texts.{len}
use clonway_cockpit.Value.{Fields}
use clonway_cockpit.GroupChat.{ChatMessage, Persona}
use clonway_cockpit.Handoff.{
  passed, HandoffEnvelope, AskDecision, check_line, check_each, check_envelope, compose, max_line,
  max_items, max_task_id, is_safe_slug,
}
use clonway_cockpit.Handoff.Shape
use clonway_cockpit.Ledger.PlanTotal.{check_each-cons}
use clonway_cockpit.Handoff.Shape.{IsValid, check_envelope-IsValid}
use clonway_cockpit.Reconcile.Total.{reconcile-Covers}
use clonway_cockpit.Reflex.{ReflexFiring}
use clonway_cockpit.Respond.{
  ran, ◌>>=◌, Ran, Desk, Fleet, constituted, fire, post, remaining_of, decide_from, decide,
  decide_remaining, messages_of, answer, negotiate_as, negotiate, respond_to, respond, response_of,
  record_turns, record_task_note, status_line, canned_say, asks_of_firings,
}
use clonway_cockpit.Respond.Lines.{IsReportable, firings_pass, unavailable_pass, response_checked}
use clonway_cockpit.Respond.Counts.{Within, outside, elem-covered, length-covered}
use clonway_cockpit.Respond.Reports.{KitFits, IsFired, fire-IsFired}
use clonway_cockpit.Respond.Silent.{respond_found}

abbrev pub asks_of_decisions : List AskDecision → List String
asks_of_decisions ds = map (λ (d : AskDecision). d.ask) ds

abbrev Lines : List String → Type 0
Lines asks = All (λ ask. check_line ask max_line true ≡ passed tt) asks

map-append-asks :
    (xs ys : List AskDecision)
    → asks_of_decisions (xs ++ ys) ≡ asks_of_decisions xs ++ asks_of_decisions ys
map-append-asks [] ys = refl
map-append-asks (x ∷ xs) ys = ap (λ l. x.ask ∷ l) (map-append-asks xs ys)

length-map-asks : (xs : List AskDecision) → length (asks_of_decisions xs) ≡ length xs
length-map-asks [] = refl
length-map-asks (x ∷ xs) = ap suc (length-map-asks xs)

few_decisions :
    (ds : List AskDecision) (fs rest : List String) (n : ℕ)
    → asks_of_decisions ds ≡ fs ++ rest
    → length fs + length rest ≤ n
    → length ds ≤ n
few_decisions ds fs rest n e h =
    let same : length (asks_of_decisions ds) ≡ length (fs ++ rest) = ap length e in
    omega (arith, same, length-map-asks ds, length-append fs rest, h)

some_decision :
    (a : String) (ds : List AskDecision) → elem a (asks_of_decisions ds) ≡ true → 1 ≤ length ds
some_decision a [] h = absurd (ground (arith, h))
some_decision a (d ∷ ds) h = omega arith

elem-here : (a : String) (asks : List String) → elem a (a ∷ asks) ≡ true
elem-here a asks = rw (eq_refl a) refl

-- the response of the persona to the envelope, with one decision for each covered ask
pub record IsAnswer {W : Type 0} (fleet : Fleet W) (persona : Persona) (env : HandoffEnvelope)
    (asks : List String) (reply_to : String) (r : Ran (Option String × Desk W)) : Type 0 where
  pub say : String
  pub decisions : List AskDecision
  pub desk : Desk W
  pub replied : r ≡ ran (some (fleet.render (response_of persona env reply_to decisions) say), desk)
  pub composed : check_envelope (response_of persona env reply_to decisions) ≡ passed tt
  pub answers : (a : String) → elem a (asks_of_decisions decisions) ≡ elem a asks
  pub no_more : length decisions ≤ length asks

module _ {W : Type 0} (fleet : Fleet W) (persona : Persona) (message : ChatMessage)
    (env : HandoffEnvelope) (quiet : fleet.quiet_on_error ≡ true)
    (slugs : All (λ k. is_safe_slug k ≡ true) fleet.known) where
  decide_runs :
      (o : Option Fields) (remaining : List String) (has_firings : Bool)
      → Lines remaining
      → (say : String) × (ds : List AskDecision) × (decide_from o fleet persona remaining
            has_firings
          ≡ ran (say, ds))
        × (asks_of_decisions ds ≡ remaining)
  unfolding decide_from
  decide_runs none remaining has_firings lines =
      let (ds, run, asked) = unavailable_pass remaining lines in
      (canned_say persona.name, ds, rw (quiet, run) refl, asked)
  decide_runs (some raw) remaining has_firings lines =
      let (say, ds, run, covers) =
        reconcile-Covers remaining raw fleet.known persona.handle slugs lines in
      (say, ds, rw run refl, covers.0)

  remaining_runs :
      (remaining : List String) (prompt : String) (fs : List ReflexFiring) (d : Desk W)
      → Lines remaining
      → (say : String) × (ds : List AskDecision) × (decide_remaining fleet persona message env
            remaining prompt fs d
          ≡ ran (say, ds))
        × (asks_of_decisions ds ≡ remaining)
  unfolding decide_remaining decide
  remaining_runs [] prompt fs d lines = ("", [], refl, refl)
  remaining_runs (a ∷ remaining) prompt fs d lines =
      decide_runs (fleet.complete (messages_of fleet message env (a ∷ remaining) prompt d))
        (a ∷ remaining) (leb 1 (length fs)) lines

  keep-Lines : (p : String → Bool) (asks : List String) → Lines asks → Lines (keep p asks)
  keep-Lines p [] h = tt
  keep-Lines p (a ∷ asks) h = elim (Bool-cases (p a)) [
    | inl e ↦ rw e (h.0, keep-Lines p asks h.1)
    | inr e ↦ rw e (keep-Lines p asks h.1)
  ]

  -- every ask is covered by a firing or remains
  some_left :
      (a : String) (asks : List String) (fs : List ReflexFiring)
      → Within (asks_of_firings fs) (a ∷ asks)
      → (nat_eq (length (remaining_of (a ∷ asks) fs)) 0 && nat_eq (length fs) 0) ≡ false
  unfolding remaining_of
  some_left a asks [] h = ground arith
  some_left a asks (f ∷ fs) h = ground arith

  post_runs :
      (reply_to say : String) (ds : List AskDecision) (d : Desk W)
      → check_envelope (response_of persona env reply_to ds) ≡ passed tt
      → (desk : Desk W) × (post fleet persona message env reply_to say ds d
          ≡ ran (some (fleet.render (response_of persona env reply_to ds) say), desk))
  unfolding post compose
  post_runs reply_to say ds d ok =
      let response = response_of persona env reply_to ds in
      (
        record_turns message (fleet.render response say)
            (record_task_note response (status_line ds) d),
        rw ok refl,
      )

  -- the decisions of the firings and of the rest
  answer-IsAnswer :
      (a : String) (asks : List String) (reply_to prompt : String) (fs : List ReflexFiring)
      (d : Desk W)
      → Lines (a ∷ asks)
      → length (a ∷ asks) ≤ max_items
      → All IsReportable fs
      → Within (asks_of_firings fs) (a ∷ asks)
      → Distinct (asks_of_firings fs)
      → is_safe_slug persona.handle ≡ true
      → is_safe_slug env.task_id ≡ true
      → len env.task_id ≤ max_task_id
      → is_safe_slug reply_to ≡ true
      → IsAnswer fleet persona env
          (a ∷ asks)
          reply_to
          (answer fleet persona message env (a ∷ asks) reply_to prompt fs d)
  unfolding answer remaining_of
  answer-IsAnswer a asks reply_to prompt fs d lines few can within once me id short to =
      let outside_asks = outside (asks_of_firings fs) in
      let (say, found, decided, left) =
        remaining_runs (remaining_of (a ∷ asks) fs) prompt fs d
          (keep-Lines outside_asks (a ∷ asks) lines) in
      let (fired, made, covered) = firings_pass fs can in
      let all_asked : asks_of_decisions (fired ++ found)
          ≡ asks_of_firings fs ++ remaining_of (a ∷ asks) fs =
        map-append-asks fired found ∙ rw (covered, left) refl in
      let same = λ (x : String).
        ap (elem x) all_asked ∙ elem-covered x (asks_of_firings fs) (a ∷ asks) within in
      let count = length-covered (asks_of_firings fs) (a ∷ asks) once within in
      let total : length (fired ++ found) ≤ length (a ∷ asks) =
        few_decisions (fired ++ found) (asks_of_firings fs) (remaining_of (a ∷ asks) fs) _ all_asked
          count in
      let one : 1 ≤ length (fired ++ found) =
        some_decision a (fired ++ found) (same a ∙ elem-here a asks) in
      let checked =
        response_checked persona env reply_to (fired ++ found) me id short to one
          (omega (arith, total, few)) in
      let (desk, posted) = post_runs reply_to say (fired ++ found) d checked in
      record {
        say = say;
        decisions = fired ++ found;
        desk = desk;
        replied = rw (some_left a asks fs within, decided, made) posted;
        composed = checked;
        answers = same;
        no_more = total;
      }

check_each-Lines :
    (asks : List String)
    → check_each (λ ask. check_line ask max_line true) asks ≡ passed tt
    → Lines asks
check_each-Lines [] h = tt
check_each-Lines (a ∷ asks) h =
    let (one, rest) = check_each-cons (λ ask. check_line ask max_line true) a asks h in
    (one, check_each-Lines asks rest)

-- a kind is not the others
other_kind : (kind s : String) → kind ≡ "notice" → ("notice" == s) ≡ false → (kind == s) ≡ false
other_kind kind s e h = ap (λ k. k == s) e ∙ h

recipient_slug :
    (env : HandoffEnvelope) → IsValid env → env.kind ≡ "notice" → is_safe_slug env.recipient ≡ true
recipient_slug env valid kind = elim valid.shape [
  | Shape.Shape.notice k slug x y ↦ slug
  | Shape.Shape.response k slug x y z u ↦ slug
  | Shape.Shape.plan k x y z u v ↦
      let off = other_kind env.kind "plan" kind refl in
      let on = (eq_iff env.kind "plan").1 k in absurd (ground (arith, off, on))
]

module _ {W : Type 0} (fleet : Fleet W) (persona : Persona) (message : ChatMessage)
    (env : HandoffEnvelope) (a : String) (asks : List String) (d : Desk W) where
  fired-IsAnswer :
      (prompt : String)
      → fleet.quiet_on_error ≡ true
      → All (λ k. is_safe_slug k ≡ true) fleet.known
      → IsValid env
      → env.kind ≡ "notice"
      → env.recipient ≡ persona.handle
      → env.asks ≡ a ∷ asks
      → IsFired env (fire env d)
      → IsAnswer fleet persona env (a ∷ asks) env.origin (
          fire env d >>= λ fired.
          answer fleet persona message env (a ∷ asks) env.origin prompt fired.0 fired.1)
  fired-IsAnswer prompt quiet slugs valid kind mine asked f =
      let few : length (a ∷ asks) ≤ max_items =
        subst (λ l. length l ≤ max_items) asked valid.few_asks in
      let lines = subst Lines asked (check_each-Lines env.asks valid.ask_lines) in
      let within = subst (Within (asks_of_firings f.firings)) asked f.within in
      let me = ap is_safe_slug (sym mine) ∙ recipient_slug env valid kind in
      rw (f.fired) (
        answer-IsAnswer fleet persona message env quiet slugs a asks env.origin prompt f.firings
          f.desk lines few f.can_report within f.once me valid.task_slug valid.task_short
          valid.origin_slug)

  negotiate-IsAnswer :
      (prompt : String)
      → fleet.colleague persona.handle ≡ constituted prompt
      → fleet.quiet_on_error ≡ true
      → All (λ k. is_safe_slug k ≡ true) fleet.known
      → check_envelope env ≡ passed tt
      → env.kind ≡ "notice"
      → env.recipient ≡ persona.handle
      → env.asks ≡ a ∷ asks
      → KitFits env d.kit
      → IsAnswer fleet persona env
          (a ∷ asks)
          env.origin
          (negotiate fleet persona message env (a ∷ asks) env.origin d)
  unfolding negotiate negotiate_as
  negotiate-IsAnswer prompt there quiet slugs checked kind mine asked fits =
      let valid = check_envelope-IsValid env checked in
      let lines = check_each-Lines env.asks valid.ask_lines in
      let is_notice : (env.kind == "notice") ≡ true = (eq_iff env.kind "notice").1 kind in
      subst
        (λ c.
          IsAnswer fleet persona env (a ∷ asks) env.origin
            (negotiate_as c fleet persona message env (a ∷ asks) env.origin d))
        (sym there)
        (fired-IsAnswer prompt quiet slugs valid kind mine asked
          (fire-IsFired env d fits lines is_notice))

  routed :
      env.kind ≡ "notice"
      → env.origin ≡ message.author
      → env.recipient ≡ persona.handle
      → (if env.origin == message.author
          then respond_to fleet persona message env d
          else ran (none, d))
        ≡ negotiate fleet persona message env env.asks env.origin d
  unfolding respond_to
  routed kind honest mine =
      let h = (eq_iff env.origin message.author).1 honest in
      let m = (eq_iff env.recipient persona.handle).1 mine in
      let p = other_kind env.kind "plan" kind refl in
      let r = other_kind env.kind "response" kind refl in rw (h, p, r, m) refl

  -- Whatever the model and the executors do: a constructed notice with some asks to a constituted
  -- persona, from its author, by an agent, in a fleet that stays quiet on errors and whose handles
  -- are slugs, raises nothing where the keys of the kit can be written and its counter is within its
  -- cap, and is replied to with a response to its origin that passes its checks, is on the asks of
  -- the notice, each of them and no other, and has at most as many decisions.
  pub respond-IsAnswer :
      (prompt : String)
      → fleet.parse message.text ≡ some env
      → message.is_owner ≡ false
      → env.origin ≡ message.author
      → fleet.colleague persona.handle ≡ constituted prompt
      → fleet.quiet_on_error ≡ true
      → All (λ k. is_safe_slug k ≡ true) fleet.known
      → check_envelope env ≡ passed tt
      → env.kind ≡ "notice"
      → env.recipient ≡ persona.handle
      → env.asks ≡ a ∷ asks
      → KitFits env d.kit
      → IsAnswer fleet persona env (a ∷ asks) env.origin (respond fleet persona message d)
  respond-IsAnswer prompt parsed other honest there quiet slugs checked kind mine asked fits =
      let answered = negotiate-IsAnswer prompt there quiet slugs checked kind mine asked fits in
      let found = respond_found fleet persona message env d parsed other in
      subst (IsAnswer fleet persona env (a ∷ asks) env.origin)
        (sym (
          found
          ∙ routed kind honest mine
          ∙ ap (λ l. negotiate fleet persona message env l env.origin d) asked))
        answered
