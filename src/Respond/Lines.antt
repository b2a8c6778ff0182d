-- ===== src/Respond/Lines.antt =====
-- negotiation.py
-- The constructions of a responder: its decisions and its response pass their checks.
use clonway_cockpit.Prelude.{
  ℕ, ◌≤◌, String, ◌≡◌, refl, ap, inl, inr, Bool, true, false, ◌&&◌, List, [], ◌∷◌, map, arith, ◌==◌,
  eq_iff, if◌then◌else◌, Bool-cases, length, All,
}
use clonway_cockpit.Prelude.Texts.{strip, rstrip, lstrip, len, text_take, text_append, any_char}
use clonway_cockpit.Handoff.{
  passed, HandoffEnvelope, AskDecision, check_line, check_handle, check_each, check_decision,
  check_reflex_fields, check_envelope, check_shape, max_line, max_summary, max_items, max_task_id,
  is_newline, is_safe_slug, is_version_1, is_empty,
}
use clonway_cockpit.Reconcile.{construct, firing_decision, single_line, squeeze}
use clonway_cockpit.Reconcile.Lines.{check_line-single_line}
use clonway_cockpit.Reflex.{ReflexFiring}
use clonway_cockpit.Respond.{ran, construct_each, asks_of_firings, unavailable, response_of}
use clonway_cockpit.GroupChat.{Persona}

-- a firing whose ask and capability are lines
abbrev pub IsReportable : ReflexFiring → Type 0
IsReportable f =
    (check_line f.ask max_line true ≡ passed tt)
    × (check_line f.capability_key max_summary true ≡ passed tt)

firing_passes :
    (f : ReflexFiring)
    → IsReportable f
    → (d : AskDecision) × (firing_decision f ≡ passed d) × (d.ask ≡ f.ask)
unfolding firing_decision construct check_decision check_reflex_fields check_handle
firing_passes f h =
    let l = check_line-single_line f.note max_line in
    let d : AskDecision = record {
      ask = f.ask;
      decision = "reflexed";
      redirect = "";
      note = single_line f.note max_line;
      capability = f.capability_key;
      applied = f.applied;
    } in
    (d, rw (h.0, l, h.1) refl, refl)

cons_path : {x y : String} {xs ys : List String} → x ≡ y → xs ≡ ys → x ∷ xs ≡ y ∷ ys
cons_path p q = rw (p, q) refl

pub firings_pass :
    (fs : List ReflexFiring)
    → All IsReportable fs
    → (ds : List AskDecision) × (construct_each firing_decision fs ≡ ran ds)
      × (map (λ (d : AskDecision). d.ask) ds ≡ asks_of_firings fs)
unfolding construct_each
firings_pass [] h = ([], refl, refl)
firings_pass (f ∷ fs) h =
    let (d, made, same) = firing_passes f h.0 in
    let (ds, run, asked) = firings_pass fs h.1 in
    (d ∷ ds, rw (construct_each, made, run) refl, cons_path same asked)

unavailable_note : check_line "model unavailable" max_line false ≡ passed tt
unfolding check_line strip any_char len is_newline
unavailable_note = refl

unavailable_passes :
    (a : String)
    → check_line a max_line true ≡ passed tt
    → construct (unavailable a) ≡ passed (unavailable a)
unfolding construct unavailable check_decision check_reflex_fields check_handle
unavailable_passes a h = rw (h, unavailable_note) refl

pub unavailable_pass :
    (asks : List String)
    → All (λ ask. check_line ask max_line true ≡ passed tt) asks
    → (ds : List AskDecision) × (construct_each (λ a. construct (unavailable a)) asks ≡ ran ds)
      × (map (λ (d : AskDecision). d.ask) ds ≡ asks)
unfolding construct_each unavailable
unavailable_pass [] h = ([], refl, refl)
unavailable_pass (a ∷ asks) h =
    let (ds, run, asked) = unavailable_pass asks h.1 in
    (
      unavailable a ∷ ds,
      rw (construct_each, unavailable_passes a h.0, run) refl,
      cons_path refl asked,
    )

r_len : (b : Bool) (t : String) → ¬ (len (if b && false then "" else String.◌∷◌ "r" t) ≡ 0)
unfolding len
r_len true t h = omega (arith, h)
r_len false t h = omega (arith, h)

r_nonempty : (b : Bool) (t : String) → ((if b && false then "" else String.◌∷◌ "r" t) == "") ≡ false
unfolding len
r_nonempty b t = elim (Bool-cases ((if b && false then "" else String.◌∷◌ "r" t) == "")) [
  | inl e ↦ absurd (r_len b t (ap len ((eq_iff _ "").0 e)))
  | inr e ↦ e
]

re_nonempty : (s : String) → (single_line (text_append "re: " s) max_summary == "") ≡ false
unfolding single_line text_append squeeze strip lstrip rstrip text_take
re_nonempty s = r_nonempty _ _

line_required :
    (v : String) (limit : ℕ)
    → check_line v limit false ≡ passed tt
    → (v == "") ≡ false
    → check_line v limit true ≡ passed tt
unfolding check_line
line_required v limit h k = ground (arith, h, k)

re_summary :
    (s : String)
    → check_line (single_line (text_append "re: " s) max_summary) max_summary true ≡ passed tt
re_summary s =
    line_required (single_line (text_append "re: " s) max_summary) max_summary
      (check_line-single_line (text_append "re: " s) max_summary) (re_nonempty s)

some_decision : (ds : List AskDecision) → 1 ≤ length ds → is_empty ds ≡ false
some_decision [] h = absurd (omega (arith, h))
some_decision (d ∷ ds) h = refl

-- the response passes the checks of its constructor
pub response_checked :
    (persona : Persona) (env : HandoffEnvelope) (reply_to : String) (ds : List AskDecision)
    → is_safe_slug persona.handle ≡ true
    → is_safe_slug env.task_id ≡ true
    → len env.task_id ≤ max_task_id
    → is_safe_slug reply_to ≡ true
    → 1 ≤ length ds
    → length ds ≤ max_items
    → check_envelope (response_of persona env reply_to ds) ≡ passed tt
unfolding check_envelope response_of check_handle check_each check_shape is_version_1
response_checked persona env reply_to ds me id short to some_ds few =
    ground (arith, me, id, short, to, few, re_summary env.summary, some_decision ds some_ds)
