-- ===== src/Reconcile/Total.antt =====
-- negotiation.py
-- Whatever a model answers, `_reconcile` gives one decision for each ask.
use clonway_cockpit.Prelude.{
  ℕ, zero, suc, ◌+◌, ◌-◌, ◌*◌, ◌/◌, ◌%◌, ◌≤◌, ◌<◌, min, max, String, ◌≡◌, refl, sym, ap, ◌∙◌, ◌≢◌,
  ◌↔◌, ◌⊎◌, inl, inr, Bool, true, false, not, ◌&&◌, ◌||◌, Option, none, some, List, [], ◌∷◌, ◌++◌,
  map, arith, ◌==◌, eq_iff, eq_refl, ltb, leb, nat_eq, if◌then◌else◌, ltb→lt, leb→le, Bool-cases,
  Option-cases, is_some, length, take, drop, any, all, keep, All, length-append, elem, Distinct,
  elem-append, All-append,
}
use clonway_cockpit.Prelude.Texts.{text_append}
use clonway_cockpit.Value.{Value, Fields, str, lookup_or, null}
use clonway_cockpit.Handoff.{
  Checked, raised, passed, ◌>>=◌, AskDecision, check_decision, check_line, check_handle,
  is_safe_slug, max_line, check_reflex_fields,
}
use clonway_cockpit.Reconcile.{
  construct, Pool, claim, claim_each, fill, text_or_empty, unanswered, kept_redirect, answer_of,
  decision_for, decide_each, model_decisions, pair_items, list_items, reconcile, single_line,
  max_say,
}
use clonway_cockpit.Reconcile.Lines.{check_line-single_line}

-- a decision that a model may make: a redirect goes with a decline only, to a known colleague who
-- is not the one deciding, and nothing is claimed to have been done
pub record IsModest (known : List String) (me : String) (d : AskDecision) : Type 0 where
  pub may_decide : elem d.decision model_decisions ≡ true
  pub redirects :
      (d.redirect ≡ "")
      ⊎ ((d.decision ≡ "decline") × (elem d.redirect known ≡ true) × ((d.redirect == me) ≡ false))
  pub no_capability : d.capability ≡ ""
  pub not_applied : d.applied ≡ false

kept_redirect_cases :
    (known : List String) (me decision redirect : String)
    → (kept_redirect known me decision redirect ≡ "")
      ⊎ ((decision ≡ "decline")
          × (elem (kept_redirect known me decision redirect) known ≡ true)
          × ((kept_redirect known me decision redirect == me) ≡ false))
unfolding kept_redirect
kept_redirect_cases known me decision redirect =
    elim (Bool-cases (not (decision == "decline") || redirect == me || not (elem redirect known))) [
      | inl dropped ↦ inl (rw dropped refl)
      | inr kept ↦ inr (
        ground (arith, kept, eq_iff decision "decline"),
        rw kept (ground (arith, kept)),
        rw kept (ground (arith, kept)),
      )
    ]

answer_of-IsModest :
    (known : List String) (me ask decision : String) (m : Fields)
    → elem decision model_decisions ≡ true
    → IsModest known me (answer_of known me ask decision m)
unfolding answer_of
answer_of-IsModest known me ask decision m h = record {
  may_decide = h;
  redirects = kept_redirect_cases known me decision _;
  no_capability = refl;
  not_applied = refl;
}

decision_for-IsModest :
    (known : List String) (me ask : String) (item : Option Fields)
    → IsModest known me (decision_for known me ask item)
      × ((decision_for known me ask item).ask ≡ ask)
unfolding decision_for unanswered answer_of
decision_for-IsModest known me ask none = (
  record { may_decide = refl; redirects = inl refl; no_capability = refl; not_applied = refl },
  refl,
)
decision_for-IsModest known me ask (some m) =
    elim (Bool-cases (elem (text_or_empty (lookup_or null "decision" m)) model_decisions)) [
      | inl known_one ↦ rw known_one (answer_of-IsModest known me ask _ m known_one, refl)
      | inr other ↦ rw other (
        record {
          may_decide = refl;
          redirects = inl refl;
          no_capability = refl;
          not_applied = refl;
        },
        refl,
      )
    ]

elem_slug :
    (known : List String) (s : String)
    → All (λ k. is_safe_slug k ≡ true) known
    → elem s known ≡ true
    → is_safe_slug s ≡ true
elem_slug [] s h e = absurd (ground (arith, e))
elem_slug (k ∷ ks) s h e = elim (Bool-cases (k == s)) [
  | inl same ↦ rw (← (eq_iff k s).0 same) h.0
  | inr other ↦ elem_slug ks s h.1 (ground (arith, other, e))
]

unanswered_note : (ask : String) → check_line (unanswered ask).note max_line false ≡ passed tt
unfolding unanswered check_line clonway_cockpit.Prelude.Texts.strip
    clonway_cockpit.Prelude.Texts.any_char clonway_cockpit.Handoff.is_newline
    clonway_cockpit.Prelude.Texts.len
unanswered_note ask = refl

answer_note :
    (known : List String) (me ask decision : String) (m : Fields)
    → check_line (answer_of known me ask decision m).note max_line false ≡ passed tt
unfolding answer_of
answer_note known me ask decision m =
    check_line-single_line (text_or_empty (lookup_or (str "") "reason" m)) max_line

note_checked :
    (known : List String) (me ask : String) (item : Option Fields)
    → check_line (decision_for known me ask item).note max_line false ≡ passed tt
unfolding decision_for
note_checked known me ask none = unanswered_note ask
note_checked known me ask (some m) =
    elim (Bool-cases (elem (text_or_empty (lookup_or null "decision" m)) model_decisions)) [
      | inl known_one ↦
          rw known_one (answer_note known me ask (text_or_empty (lookup_or null "decision" m)) m)
      | inr other ↦ rw other (unanswered_note ask)
    ]

false-true : false ≡ true → ⊥
false-true h = ground (arith, h)

not_reflexed : (s : String) → elem s model_decisions ≡ true → (s == "reflexed") ≡ false
not_reflexed s h = elim (Bool-cases (s == "reflexed")) [
  | inl same ↦ absurd (false-true (rw ((eq_iff s "reflexed").0 same) at h))
  | inr other ↦ other
]

modest_checked :
    (known : List String) (me : String) (d : AskDecision)
    → All (λ k. is_safe_slug k ≡ true) known
    → check_line d.ask max_line true ≡ passed tt
    → check_line d.note max_line false ≡ passed tt
    → IsModest known me d
    → check_decision d ≡ passed tt
unfolding check_decision check_handle check_reflex_fields
modest_checked known me d slugs ask note h = elim h.redirects [
  | inl bare ↦
      let plain = not_reflexed d.decision h.may_decide in
      ground (
        arith,
        (eq_iff d.redirect "").1 bare,
        plain,
        ask,
        note,
        h.may_decide,
        (eq_iff d.capability "").1 h.no_capability,
        h.not_applied,
      )
  | inr (decline, there, other) ↦
      let slug = elem_slug known d.redirect slugs there in
      let plain = not_reflexed d.decision h.may_decide in
      ground (
        arith,
        (eq_iff d.decision "decline").1 decline,
        plain,
        slug,
        ask,
        note,
        h.may_decide,
        (eq_iff d.capability "").1 h.no_capability,
        h.not_applied,
      )
]

length-fill :
    (found : List (Option Fields)) (left : List Fields) → length (fill found left) ≡ length found
unfolding fill
length-fill [] left = refl
length-fill (some m ∷ found) left = ap suc (length-fill found left)
length-fill (none ∷ found) [] = ap suc (length-fill found [])
length-fill (none ∷ found) (m ∷ left) = ap suc (length-fill found left)

length-claim_each :
    (asks : List String) (pool : Pool) → length (claim_each asks pool).0 ≡ length asks
unfolding claim_each
length-claim_each [] pool = refl
length-claim_each (ask ∷ asks) pool = ap suc (length-claim_each asks (claim ask pool).1)

length-pair_items :
    (asks : List String) (vs : List Value) → length (pair_items asks vs) ≡ length asks
unfolding pair_items
length-pair_items asks vs = length-fill _ _ ∙ length-claim_each asks _

cons_path : {x y : String} {xs ys : List String} → x ≡ y → xs ≡ ys → x ∷ xs ≡ y ∷ ys
cons_path p q = rw (p, q) refl

-- one decision for each ask, in order
abbrev pub Covers : List String → String → List String → List AskDecision → Type 0
Covers known me asks ds = (map (λ (d : AskDecision). d.ask) ds ≡ asks) × All (IsModest known me) ds

decide_each-Covers :
    (known : List String) (me : String) (asks : List String) (found : List (Option Fields))
    → All (λ k. is_safe_slug k ≡ true) known
    → All (λ ask. check_line ask max_line true ≡ passed tt) asks
    → length found ≡ length asks
    → (ds : List AskDecision) × (decide_each known me asks found ≡ passed ds)
      × Covers known me asks ds
unfolding decide_each construct
decide_each-Covers known me [] found slugs lines e = ([], refl, (refl, tt))
decide_each-Covers known me (ask ∷ asks) [] slugs lines e = absurd (omega (arith, e))
decide_each-Covers known me (ask ∷ asks) (item ∷ found) slugs lines e =
    let d = decision_for known me ask item in
    let (modest, same) = decision_for-IsModest known me ask item in
    let line : check_line d.ask max_line true ≡ passed tt = rw same lines.0 in
    let ok = modest_checked known me d slugs line (note_checked known me ask item) modest in
    let (ds, run, (asked, rest)) =
      decide_each-Covers known me asks found slugs lines.1 (omega (arith, e)) in
    (d ∷ ds, rw (ok, run) refl, (cons_path same asked, (modest, rest)))

-- Whatever a model answers, for asks that are lines and known handles that are slugs, `_reconcile`
-- raises nothing and gives one decision for each ask, verbatim and in order: accept, decline or
-- defer, with a redirect only on a decline, to a known colleague other than the one deciding, and
-- with nothing claimed as applied.
pub reconcile-Covers :
    (asks : List String) (raw : Fields) (known : List String) (me : String)
    → All (λ k. is_safe_slug k ≡ true) known
    → All (λ ask. check_line ask max_line true ≡ passed tt) asks
    → (say : String) × (ds : List AskDecision) × (reconcile asks raw known me ≡ passed (say, ds))
      × Covers known me asks ds
unfolding reconcile
reconcile-Covers asks raw known me slugs lines =
    let found = pair_items asks (list_items (lookup_or null "decisions" raw)) in
    let (ds, run, covers) =
      decide_each-Covers known me asks found slugs lines (length-pair_items asks _) in
    let say = single_line (text_or_empty (lookup_or null "say" raw)) max_say in
    (say, ds, ap (λ c. c >>= λ (es : List AskDecision). passed (say, es)) run, covers)
