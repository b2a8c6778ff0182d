-- ===== src/Reconcile/Lines.antt =====
-- negotiation.py, handoff.py
-- A text that `_single_line` made passes the checks of a line.
use clonway_cockpit.Prelude.{
  ℕ, zero, suc, ◌≤◌, String, ◌≡◌, refl, ap, ◌∙◌, inl, inr, true, false, ◌&&◌, arith, ◌==◌, eq_refl,
  Bool-cases,
}
use clonway_cockpit.Prelude.Texts.{is_space, lstrip, rstrip, strip, text_take, any_char, len}
use clonway_cockpit.Handoff.{passed, check_line, is_newline}
use clonway_cockpit.Reconcile.{Gap, at_start, in_word, after_word, squeeze, single_line}
use Prim.Native.Char.{code}

-- no newline in a text
abbrev IsFlat : String → Type 0
IsFlat s = any_char is_newline s ≡ false

newline_space : (c : ℕ) → is_newline c ≡ true → is_space c ≡ true
unfolding is_newline is_space
newline_space c h = ground (arith, h)

squeeze-IsFlat : (g : Gap) (s : String) → IsFlat (squeeze g s)
unfolding squeeze any_char is_newline
squeeze-IsFlat at_start String.[] = refl
squeeze-IsFlat in_word String.[] = refl
squeeze-IsFlat after_word String.[] = refl
squeeze-IsFlat at_start (String.◌∷◌ c s) =
    ground (arith, squeeze-IsFlat at_start s, squeeze-IsFlat in_word s, newline_space (code c))
squeeze-IsFlat in_word (String.◌∷◌ c s) =
    ground (arith, squeeze-IsFlat after_word s, squeeze-IsFlat in_word s, newline_space (code c))
squeeze-IsFlat after_word (String.◌∷◌ c s) =
    ground (arith, squeeze-IsFlat after_word s, squeeze-IsFlat in_word s, newline_space (code c))

text_take-IsFlat : (n : ℕ) (s : String) → IsFlat s → IsFlat (text_take n s)
unfolding text_take any_char
text_take-IsFlat zero s h = refl
text_take-IsFlat (suc n) String.[] h = refl
text_take-IsFlat (suc n) (String.◌∷◌ c s) h = ground (arith, text_take-IsFlat n s, h)

lstrip-IsFlat : (s : String) → IsFlat s → IsFlat (lstrip s)
unfolding lstrip any_char
lstrip-IsFlat String.[] h = refl
lstrip-IsFlat (String.◌∷◌ c s) h = ground (arith, lstrip-IsFlat s, h)

rstrip-IsFlat : (s : String) → IsFlat s → IsFlat (rstrip s)
unfolding rstrip any_char
rstrip-IsFlat String.[] h = refl
rstrip-IsFlat (String.◌∷◌ c s) h = elim (Bool-cases (rstrip s == "" && is_space (code c))) [
  | inl off ↦ rw off refl
  | inr on ↦ rw on (ground (arith, rstrip-IsFlat s, h))
]

len-take : (n : ℕ) (s : String) → len (text_take n s) ≤ n
unfolding text_take len
len-take zero s = omega arith
len-take (suc n) String.[] = omega arith
len-take (suc n) (String.◌∷◌ c s) = omega (arith, len-take n s)

len-lstrip : (s : String) → len (lstrip s) ≤ len s
unfolding lstrip len
len-lstrip String.[] = omega arith
len-lstrip (String.◌∷◌ c s) = ground (arith, len-lstrip s)

len-rstrip : (s : String) → len (rstrip s) ≤ len s
unfolding rstrip len
len-rstrip String.[] = omega arith
len-rstrip (String.◌∷◌ c s) = elim (Bool-cases (rstrip s == "" && is_space (code c))) [
  | inl off ↦ rw off (omega arith)
  | inr on ↦ rw on (omega (arith, len-rstrip s))
]

-- a text that does not begin with a space
abbrev IsLeft : String → Type 0
IsLeft String.[] = Unit
IsLeft (String.◌∷◌ c s) = is_space (code c) ≡ false

lstrip-IsLeft : (s : String) → IsLeft (lstrip s)
unfolding lstrip
lstrip-IsLeft String.[] = tt
lstrip-IsLeft (String.◌∷◌ c s) = elim (Bool-cases (is_space (code c))) [
  | inl space ↦ rw space (lstrip-IsLeft s)
  | inr other ↦ rw other other
]

IsLeft-lstrip : (s : String) → IsLeft s → lstrip s ≡ s
unfolding lstrip
IsLeft-lstrip String.[] h = refl
IsLeft-lstrip (String.◌∷◌ c s) h = rw h refl

IsLeft-rstrip : (s : String) → IsLeft s → IsLeft (rstrip s)
unfolding rstrip
IsLeft-rstrip String.[] h = tt
IsLeft-rstrip (String.◌∷◌ c s) h = elim (Bool-cases (rstrip s == "" && is_space (code c))) [
  | inl off ↦ rw off tt
  | inr on ↦ rw on h
]

rstrip_idem : (s : String) → rstrip (rstrip s) ≡ rstrip s
unfolding rstrip
rstrip_idem String.[] = refl
rstrip_idem (String.◌∷◌ c s) = elim (Bool-cases (rstrip s == "" && is_space (code c))) [
  | inl off ↦ rw off refl
  | inr on ↦ rw (on, rstrip, rstrip_idem s, on) refl
]

strip_idem : (s : String) → strip (strip s) ≡ strip s
unfolding strip
strip_idem s =
    ap rstrip (IsLeft-lstrip (rstrip (lstrip s)) (IsLeft-rstrip (lstrip s) (lstrip-IsLeft s)))
    ∙ rstrip_idem (lstrip s)

line_checked :
    (v : String) (limit : ℕ)
    → strip v ≡ v
    → IsFlat v
    → len v ≤ limit
    → check_line v limit false ≡ passed tt
unfolding check_line
line_checked v limit e flat short = rw e (ground (arith, eq_refl v, flat, short))

-- The line of a text is stripped, without a line break, and within its limit.
pub check_line-single_line :
    (text : String) (limit : ℕ) → check_line (single_line text limit) limit false ≡ passed tt
unfolding single_line
check_line-single_line text limit =
    let cut = text_take limit (squeeze at_start text) in
    line_checked (strip cut) limit (strip_idem cut)
      (rstrip-IsFlat _
        (lstrip-IsFlat cut (text_take-IsFlat limit _ (squeeze-IsFlat at_start text))))
      (omega
        (arith, len-rstrip (lstrip cut), len-lstrip cut, len-take limit (squeeze at_start text)))
