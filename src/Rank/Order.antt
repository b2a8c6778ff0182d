-- ===== src/Rank/Order.antt =====
-- signals/rank.py
-- The order of the keys is total.
use clonway_cockpit.Prelude.{
  ℕ, String, ◌≡◌, refl, sym, ap, ◌∙◌, inl, inr, Bool, true, false, arith, ◌==◌, eq_iff, ltb, nat_eq,
  if◌then◌else◌, Bool-cases,
}
use Prim.Native.Char.{code}
use text.Mathlib.TextEquality.{Char-path}
use clonway_cockpit.Prelude.Texts.{text_leb}
use clonway_cockpit.Rank.{Key, number_first, text_first, key_leb}

text_leb-total : (s t : String) → text_leb s t ≡ false → text_leb t s ≡ true
unfolding text_leb
text_leb-total String.[] t h = absurd (cc h)
text_leb-total (String.◌∷◌ c s) String.[] h = refl
text_leb-total (String.◌∷◌ c s) (String.◌∷◌ d t) h =
    let rest = text_leb-total s t in ground (arith, h, rest)

text_leb_trans : (s t u : String) → text_leb s t ≡ true → text_leb t u ≡ true → text_leb s u ≡ true
unfolding text_leb
text_leb_trans String.[] t u h k = refl
text_leb_trans (String.◌∷◌ c s) String.[] u h k = absurd (cc h)
text_leb_trans (String.◌∷◌ c s) (String.◌∷◌ d t) String.[] h k = absurd (cc k)
text_leb_trans (String.◌∷◌ c s) (String.◌∷◌ d t) (String.◌∷◌ e u) h k =
    let rest = text_leb_trans s t u in ground (arith, h, k, rest)

text_leb_antisym : (s t : String) → text_leb s t ≡ true → text_leb t s ≡ true → s ≡ t
unfolding text_leb
text_leb_antisym String.[] String.[] h k = refl
text_leb_antisym String.[] (String.◌∷◌ d t) h k = absurd (cc k)
text_leb_antisym (String.◌∷◌ c s) String.[] h k = absurd (cc h)
text_leb_antisym (String.◌∷◌ c s) (String.◌∷◌ d t) h k =
    let same : code c ≡ code d = ground (arith, h, k) in
    let left : text_leb s t ≡ true = ground (arith, h, same) in
    let right : text_leb t s ≡ true = ground (arith, k, same) in
    ap (λ a. String.◌∷◌ a s) (Char-path c d same)
    ∙ ap (String.◌∷◌ d) (text_leb_antisym s t left right)

module _ (a b : Bool) (one_way : a ≡ false → b ≡ true) where
  number_first-total : (m n : ℕ) → number_first m n a ≡ false → number_first n m b ≡ true
  unfolding number_first
  number_first-total m n h = elim (Bool-cases (nat_eq m n)) [
    | inl e ↦
        let back : nat_eq n m ≡ true = ground (arith, e) in
        let stop : a ≡ false = ap (λ q. if q then a else ltb m n) (sym e) ∙ h in
        rw back (one_way stop)
    | inr e ↦
        let back : nat_eq n m ≡ false = ground (arith, e) in
        let stop : ltb m n ≡ false = ap (λ q. if q then a else ltb m n) (sym e) ∙ h in
        rw back (ground (arith, e, stop))
  ]

  text_first-total : (s t : String) → text_first s t a ≡ false → text_first t s b ≡ true
  unfolding text_first
  text_first-total s t h = elim (Bool-cases (s == t)) [
    | inl e ↦
        let same : s ≡ t = (eq_iff s t).0 e in
        let back : (t == s) ≡ true = (eq_iff t s).1 (sym same) in
        let stop : a ≡ false = ap (λ q. if q then a else text_leb s t) (sym e) ∙ h in
        rw back (one_way stop)
    | inr e ↦
        let stop : text_leb s t ≡ false = ap (λ q. if q then a else text_leb s t) (sym e) ∙ h in
        elim (Bool-cases (t == s)) [
          | inl k ↦ absurd (cc (e, (eq_iff s t).1 (sym ((eq_iff t s).0 k))))
          | inr k ↦ rw k (text_leb-total s t stop)
        ]
  ]

module _ (a b c : Bool) (both : a ≡ true → b ≡ true → c ≡ true) where
  number_first_trans :
      (m n p : ℕ)
      → number_first m n a ≡ true
      → number_first n p b ≡ true
      → number_first m p c ≡ true
  unfolding number_first
  number_first_trans m n p h k = ground (arith, h, k, both)

  text_first_trans :
      (s t u : String) → text_first s t a ≡ true → text_first t u b ≡ true → text_first s u c ≡ true
  unfolding text_first
  text_first_trans s t u h k = elim (Bool-cases (s == t)) [
    | inl e ↦
        let same : s ≡ t = (eq_iff s t).0 e in
        let first : a ≡ true = ap (λ q. if q then a else text_leb s t) (sym e) ∙ h in
        let moved : text_first s u b ≡ true = ap (λ v. text_first v u b) same ∙ k in
        elim (Bool-cases (s == u)) [
          | inl g ↦ rw g (both first (ap (λ q. if q then b else text_leb s u) (sym g) ∙ moved))
          | inr g ↦ rw g (ap (λ q. if q then b else text_leb s u) (sym g) ∙ moved)
        ]
    | inr e ↦
        let below : text_leb s t ≡ true = ap (λ q. if q then a else text_leb s t) (sym e) ∙ h in
        elim (Bool-cases (t == u)) [
          | inl g ↦
              let same : t ≡ u = (eq_iff t u).0 g in
              let apart : (s == u) ≡ false = ap (λ v. s == v) (sym same) ∙ e in
              rw apart (ap (text_leb s) (sym same) ∙ below)
          | inr g ↦
              let above : text_leb t u ≡ true =
                ap (λ q. if q then b else text_leb t u) (sym g) ∙ k in
              elim (Bool-cases (s == u)) [
                | inl q ↦
                    let same : s ≡ u = (eq_iff s u).0 q in
                    let back : text_leb t s ≡ true = ap (text_leb t) same ∙ above in
                    absurd (cc (e, (eq_iff s t).1 (text_leb_antisym s t below back)))
                | inr q ↦ rw q (text_leb_trans s t u below above)
              ]
        ]
  ]

pub key_leb-total : (j k : Key) → key_leb j k ≡ false → key_leb k j ≡ true
unfolding key_leb
key_leb-total j k =
    let titles = text_leb-total j.title_text k.title_text in
    let workers = text_first-total _ _ titles j.worker_name k.worker_name in
    let levels = number_first-total _ _ workers j.level_at k.level_at in
    let dues = number_first-total _ _ levels j.due_ord k.due_ord in
    number_first-total _ _ dues j.urgency_at k.urgency_at

pub key_leb_trans : (j k l : Key) → key_leb j k ≡ true → key_leb k l ≡ true → key_leb j l ≡ true
unfolding key_leb
key_leb_trans j k l =
    let titles = text_leb_trans j.title_text k.title_text l.title_text in
    let workers = text_first_trans _ _ _ titles j.worker_name k.worker_name l.worker_name in
    let levels = number_first_trans _ _ _ workers j.level_at k.level_at l.level_at in
    let dues = number_first_trans _ _ _ levels j.due_ord k.due_ord l.due_ord in
    number_first_trans _ _ _ dues j.urgency_at k.urgency_at l.urgency_at
