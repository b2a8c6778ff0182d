-- ===== src/Thread/Names.antt =====
-- chat_memory.py
-- The names of turns and the mark of the folded ones, read back.
use clonway_cockpit.Prelude.{
  ℕ, zero, suc, ◌+◌, ◌-◌, ◌*◌, ◌/◌, ◌%◌, ◌≤◌, ◌<◌, String, ◌≡◌, refl, ap, ◌∙◌, inl, inr, true,
  false, some, arith, ◌==◌, eq_iff, ltb, ltb→lt, Bool-cases, and_split, and_split,
}
use Prim.Native.Char.{Char, code}
use clonway_cockpit.Prelude.Texts.{
  len, all_char, text_append, text_take, strip, lstrip, rstrip, is_space,
}
use clonway_cockpit.Walk.{decimal_of, text_drop}
use clonway_cockpit.Thread.{
  is_digit, number_from, zeros, six_digits, turn_name, turn_index, leading_digits, folded_here,
  folded_in,
}

-- the digit `d` before a text
abbrev digit : ℕ → String → String
digit d s = text_append (text_take 1 (text_drop d "0123456789")) s

-- a digit is one character, at its place after the code of 0
digit_shape :
    (d : ℕ) (s : String) → d < 10 → (c : Char) × (digit d s ≡ String.◌∷◌ c s) × (code c ≡ 48 + d)
unfolding text_append text_take text_drop
digit_shape zero s h = ("0", refl, refl)
digit_shape (suc zero) s h = ("1", refl, refl)
digit_shape (suc (suc zero)) s h = ("2", refl, refl)
digit_shape (suc (suc (suc zero))) s h = ("3", refl, refl)
digit_shape (suc (suc (suc (suc zero)))) s h = ("4", refl, refl)
digit_shape (suc (suc (suc (suc (suc zero))))) s h = ("5", refl, refl)
digit_shape (suc (suc (suc (suc (suc (suc zero)))))) s h = ("6", refl, refl)
digit_shape (suc (suc (suc (suc (suc (suc (suc zero))))))) s h = ("7", refl, refl)
digit_shape (suc (suc (suc (suc (suc (suc (suc (suc zero)))))))) s h = ("8", refl, refl)
digit_shape (suc (suc (suc (suc (suc (suc (suc (suc (suc zero))))))))) s h = ("9", refl, refl)
digit_shape (suc (suc (suc (suc (suc (suc (suc (suc (suc (suc d)))))))))) s h =
    absurd (omega (arith, h))

digit_number :
    (d acc : ℕ) (s : String) → d < 10 → number_from acc (digit d s) ≡ number_from (acc * 10 + d) s
unfolding number_from
digit_number d acc s h =
    let (c, e, k) = digit_shape d s h in
    ap (number_from acc) e ∙ ap (λ n. number_from n s) (omega (arith, k))

digit_all : (d : ℕ) (s : String) → d < 10 → all_char is_digit (digit d s) ≡ all_char is_digit s
unfolding all_char is_digit
digit_all d s h =
    let (c, e, k) = digit_shape d s h in ap (all_char is_digit) e ∙ ground (arith, k, h)

len-digit : (d : ℕ) (s : String) → d < 10 → len (digit d s) ≡ len s + 1
unfolding len
len-digit d s h = let (c, e, k) = digit_shape d s h in ap len e ∙ omega arith

-- what a decimal number before a text keeps
decimal_number :
    (fuel n : ℕ) (s : String) → n < fuel → number_from 0 (decimal_of fuel n s) ≡ number_from n s
unfolding decimal_of
decimal_number zero n s h = absurd (omega (arith, h))
decimal_number (suc fuel) n s h = elim (Bool-cases (ltb n 10)) [
  | inl e ↦ rw e (digit_number n 0 s (ltb→lt n 10 e) ∙ ap (λ k. number_from k s) (omega arith))
  | inr e ↦ rw e (
      decimal_number fuel (n / 10) (digit (n % 10) s) (ground (arith, e, h))
      ∙ digit_number (n % 10) (n / 10) s (omega arith)
      ∙ ap (λ k. number_from k s) (omega arith))
]

decimal_all :
    (fuel n : ℕ) (s : String)
    → n < fuel
    → all_char is_digit (decimal_of fuel n s) ≡ all_char is_digit s
unfolding decimal_of
decimal_all zero n s h = absurd (omega (arith, h))
decimal_all (suc fuel) n s h = elim (Bool-cases (ltb n 10)) [
  | inl e ↦ rw e (digit_all n s (ltb→lt n 10 e))
  | inr e ↦ rw e (
      decimal_all fuel (n / 10) (digit (n % 10) s) (ground (arith, e, h))
      ∙ digit_all (n % 10) s (omega arith))
]

decimal_len : (fuel n : ℕ) (s : String) → n < fuel → len s + 1 ≤ len (decimal_of fuel n s)
unfolding decimal_of
decimal_len zero n s h = absurd (omega (arith, h))
decimal_len (suc fuel) n s h = elim (Bool-cases (ltb n 10)) [
  | inl e ↦ rw e (omega (arith, len-digit n s (ltb→lt n 10 e)))
  | inr e ↦
      let more = decimal_len fuel (n / 10) (digit (n % 10) s) (ground (arith, e, h)) in
      let one = len-digit (n % 10) s (omega arith) in rw e (omega (arith, more, one))
]

zeros_number : (k : ℕ) (s : String) → number_from 0 (zeros k s) ≡ number_from 0 s
unfolding zeros number_from
zeros_number zero s = refl
zeros_number (suc k) s = zeros_number k s

zeros_all : (k : ℕ) (s : String) → all_char is_digit (zeros k s) ≡ all_char is_digit s
unfolding zeros all_char is_digit
zeros_all zero s = refl
zeros_all (suc k) s = zeros_all k s

len-zeros : (k : ℕ) (s : String) → len (zeros k s) ≡ k + len s
unfolding zeros len
len-zeros zero s = omega arith
len-zeros (suc k) s = omega (arith, len-zeros k s)

-- the padded number of a turn: digits, some, and its number
module _ (n : ℕ) where
  six_number : number_from 0 (six_digits n) ≡ n
  unfolding six_digits number_from
  six_number =
      zeros_number (6 - len (decimal_of (suc n) n "")) (decimal_of (suc n) n "")
      ∙ decimal_number (suc n) n "" (omega arith)

  six_all : all_char is_digit (six_digits n) ≡ true
  unfolding six_digits all_char
  six_all =
      zeros_all (6 - len (decimal_of (suc n) n "")) (decimal_of (suc n) n "")
      ∙ decimal_all (suc n) n "" (omega arith)

  six_len : 1 ≤ len (six_digits n)
  unfolding six_digits
  six_len =
      let padded = len-zeros (6 - len (decimal_of (suc n) n "")) (decimal_of (suc n) n "") in
      let some_digit = decimal_len (suc n) n "" (omega arith) in omega (arith, padded, some_digit)

  six_some : (six_digits n == "") ≡ false
  unfolding len
  six_some = elim (Bool-cases (six_digits n == "")) [
    | inl e ↦
        let none_left : len (six_digits n) ≡ 0 = ap len ((eq_iff (six_digits n) "").0 e) in
        let one = six_len in absurd (omega (arith, none_left, one))
    | inr e ↦ e
  ]

  -- The name that a turn is recorded under is read back as its index, whatever its width.
  pub turn_index-turn_name : turn_index (turn_name n) ≡ some n
  unfolding turn_index turn_name text_append text_take text_drop
  turn_index-turn_name = rw (six_some, six_all, six_number) refl

leading_all : (s : String) → all_char is_digit s ≡ true → leading_digits s ≡ s
unfolding leading_digits all_char
leading_all String.[] h = refl
leading_all (String.◌∷◌ c s) h =
    let (one, rest) = and_split (is_digit (code c)) (all_char is_digit s) h in
    rw one (ap (String.◌∷◌ c) (leading_all s rest))

no_space : (c : ℕ) → is_digit c ≡ true → is_space c ≡ false
unfolding is_digit is_space
no_space c h = ground (arith, h)

lstrip_digits : (s : String) → all_char is_digit s ≡ true → lstrip s ≡ s
unfolding lstrip all_char
lstrip_digits String.[] h = refl
lstrip_digits (String.◌∷◌ c s) h =
    let (one, rest) = and_split (is_digit (code c)) (all_char is_digit s) h in
    rw (no_space (code c) one) refl

rstrip_digits : (s : String) → all_char is_digit s ≡ true → rstrip s ≡ s
unfolding rstrip all_char
rstrip_digits String.[] h = refl
rstrip_digits (String.◌∷◌ c s) h =
    let (one, rest) = and_split (is_digit (code c)) (all_char is_digit s) h in
    rw (rstrip_digits s rest, no_space (code c) one) (ground arith)

some_text : (s : String) → 1 ≤ len s → (s == "") ≡ false
unfolding len
some_text s h = elim (Bool-cases (s == "")) [
  | inl e ↦ let z : len s ≡ 0 = ap len ((eq_iff s "").0 e) in absurd (omega (arith, z, h))
  | inr e ↦ e
]

len-text_append : (s t : String) → len (text_append s t) ≡ len s + len t
unfolding len text_append
len-text_append String.[] t = omega arith
len-text_append (String.◌∷◌ c s) t = omega (arith, len-text_append s t)

rstrip-text_append :
    (p s : String) → rstrip s ≡ s → 1 ≤ len s → rstrip (text_append p s) ≡ text_append p s
unfolding rstrip text_append
rstrip-text_append String.[] s e h = e
rstrip-text_append (String.◌∷◌ c p) s e h =
    let rest = rstrip-text_append p s e h in
    let total = len-text_append p s in
    rw (rest, some_text (text_append p s) (omega (arith, total, h))) refl

mark_left :
    (n : ℕ)
    → lstrip (text_append "folded-through: " (six_digits n))
      ≡ text_append "folded-through: " (six_digits n)
unfolding lstrip text_append
mark_left n = refl

-- the mark of the folded turns is a stripped line, and is read back
pub strip-mark :
    (n : ℕ)
    → strip (text_append "folded-through: " (six_digits n))
      ≡ text_append "folded-through: " (six_digits n)
unfolding strip
strip-mark n =
    ap rstrip (mark_left n)
    ∙ rstrip-text_append "folded-through: " (six_digits n)
        (rstrip_digits (six_digits n) (six_all n)) (six_len n)

here_mark : (n : ℕ) → folded_here (text_append "folded-through: " (six_digits n)) ≡ some n
unfolding folded_here text_append text_take text_drop lstrip
here_mark n =
    rw
      (
        folded_here,
        lstrip_digits (six_digits n) (six_all n),
        leading_all (six_digits n) (six_all n),
        six_some n,
        six_number n,
      )
      refl

found_here :
    (c : Char) (s : String) (n : ℕ)
    → folded_here (String.◌∷◌ c s) ≡ some n
    → folded_in (String.◌∷◌ c s) ≡ some n
unfolding folded_in
found_here c s n e = rw (folded_in, e) refl

pub folded_in-mark : (n : ℕ) → folded_in (text_append "folded-through: " (six_digits n)) ≡ some n
unfolding text_append
folded_in-mark n = found_here "f" (text_append "olded-through: " (six_digits n)) n (here_mark n)
