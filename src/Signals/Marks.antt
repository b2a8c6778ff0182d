-- ===== src/Signals/Marks.antt =====
-- signals/subscribe.py
-- Listings in the order of their dates, and what a cursor marks in them.
use clonway_cockpit.Prelude.{
  ℕ, ◌≤◌, String, ◌≡◌, refl, sym, ◌⊎◌, inl, inr, Bool, true, false, ◌&&◌, ◌||◌, Option, none, some,
  List, [], ◌∷◌, ◌++◌, arith, ◌==◌, eq_iff, ltb, nat_eq, Bool-cases, Option-cases, keep, All,
}
use mathlib.Core.Path.{subst}
use clonway_cockpit.Signals.{ArchiveObject, Cursor, is_done, archive_objects_after, advance}

abbrev pub In : {A : Type 0} → A → List A → Type 0
In x [] = ⊥
In x (y ∷ ys) = (x ≡ y) ⊎ In x ys

pub In-left : {A : Type 0} (x : A) (xs ys : List A) → In x xs → In x (xs ++ ys)
In-left x [] ys h = absurd h
In-left x (y ∷ xs) ys (inl e) = inl e
In-left x (y ∷ xs) ys (inr h) = inr (In-left x xs ys h)

pub In-last : {A : Type 0} (xs : List A) (x : A) → In x (xs ++ x ∷ [])
In-last [] x = inl refl
In-last (y ∷ xs) x = inr (In-last xs x)

-- objects in the order of their dates
abbrev pub Ordered : List ArchiveObject → Type 0
Ordered [] = Unit
Ordered (o ∷ os) = All (λ (q : ArchiveObject). o.date ≤ q.date) os × Ordered os

-- the object `o` marks `x` as done: an earlier date, or its own name
abbrev pub covers : ArchiveObject → ArchiveObject → Bool
covers o x = ltb x.date o.date || (nat_eq x.date o.date && o.run_id == x.run_id)

abbrev pub NotBefore : Option ℕ → ArchiveObject → Type 0
NotBefore none o = Unit
NotBefore (some d) o = d ≤ o.date

pub advance-done :
    (c : Cursor) (o x : ArchiveObject)
    → NotBefore c.active_date o
    → is_done (advance c o) x ≡ true
    → (is_done c x || covers o x) ≡ true
unfolding advance is_done
advance-done c o x late h = elim (Option-cases c.active_date) [
  | inl fresh ↦ ground (arith, fresh, h)
  | inr (d, active) ↦
      let late' = subst (λ a. NotBefore a o) active late in ground (arith, active, late', h)
]

pub advance-NotBefore :
    (c : Cursor) (o q : ArchiveObject)
    → NotBefore c.active_date o
    → o.date ≤ q.date
    → NotBefore (advance c o).active_date q
unfolding advance
advance-NotBefore c o q late h = elim (Option-cases c.active_date) [
  | inl fresh ↦ rw fresh h
  | inr (d, active) ↦
      let late' = subst (λ a. NotBefore a o) active late in
      rw active (elim (Bool-cases (ltb d o.date)) [
        | inl newer ↦ rw newer h
        | inr same ↦ rw same (omega (arith, late', h))
      ])
]

pub NotBefore-next :
    (c : Cursor) (o : ArchiveObject) (os : List ArchiveObject)
    → NotBefore c.active_date o
    → All (λ (q : ArchiveObject). o.date ≤ q.date) os
    → All (NotBefore (advance c o).active_date) os
NotBefore-next c o [] late h = tt
NotBefore-next c o (q ∷ os) late h =
    (advance-NotBefore c o q late h.0, NotBefore-next c o os late h.1)

pub All-In :
    (P : ArchiveObject → Type 0) (xs : List ArchiveObject) (x : ArchiveObject)
    → All P xs
    → In x xs
    → P x
All-In P [] x h i = absurd i
All-In P (y ∷ xs) x h (inl e) = subst P (sym e) h.0
All-In P (y ∷ xs) x h (inr i) = All-In P xs x h.1 i

pub In-right : (xs ys : List ArchiveObject) (x : ArchiveObject) → In x ys → In x (xs ++ ys)
In-right [] ys x i = i
In-right (y ∷ xs) ys x i = inr (In-right xs ys x i)

pub In-split :
    (xs ys : List ArchiveObject) (x : ArchiveObject) → In x (xs ++ ys) → In x xs ⊎ In x ys
In-split [] ys x i = inr i
In-split (y ∷ xs) ys x (inl e) = inl (inl e)
In-split (y ∷ xs) ys x (inr i) = elim (In-split xs ys x i) [ inl l ↦ inl (inr l) | inr r ↦ inr r ]

abbrev pub named : ℕ → String → ArchiveObject
named d r = record { date = d; run_id = r }

pub object_path : {d e : ℕ} {r q : String} → d ≡ e → r ≡ q → named d r ≡ named e q
object_path p q = rw (p, q) refl

pub same_name : (b x : ArchiveObject) → b.date ≤ x.date → covers b x ≡ true → b ≡ x
same_name b x late h =
    let d : b.date ≡ x.date = ground (arith, late, h) in
    let r : b.run_id ≡ x.run_id = ground (arith, late, h, eq_iff b.run_id x.run_id) in
    object_path d r

pub keep-All :
    (P : ArchiveObject → Type 0) (k : ArchiveObject → Bool) (os : List ArchiveObject)
    → All P os
    → All P (keep k os)
keep-All P k [] h = tt
keep-All P k (o ∷ os) h = elim (Bool-cases (k o)) [
  | inl on ↦ rw on (h.0, keep-All P k os h.1)
  | inr off ↦ rw off (keep-All P k os h.1)
]

pub keep-Ordered :
    (k : ArchiveObject → Bool) (os : List ArchiveObject) → Ordered os → Ordered (keep k os)
keep-Ordered k [] h = tt
keep-Ordered k (o ∷ os) h = elim (Bool-cases (k o)) [
  | inl on ↦ rw on (keep-All (λ q. o.date ≤ q.date) k os h.0, keep-Ordered k os h.1)
  | inr off ↦ rw off (keep-Ordered k os h.1)
]

pub left-Ordered :
    (c : Cursor) (os : List ArchiveObject) → Ordered os → Ordered (archive_objects_after c os)
unfolding archive_objects_after
left-Ordered c os h = keep-Ordered _ os h

pub undone : (c : Cursor) (o : ArchiveObject) → is_done c o ≡ false → NotBefore c.active_date o
unfolding is_done
undone c o h = elim (Option-cases c.active_date) [
  | inl fresh ↦ rw fresh tt
  | inr (d, active) ↦ rw active (ground (arith, active, h))
]

pub left-NotBefore :
    (c : Cursor) (os : List ArchiveObject)
    → All (NotBefore c.active_date) (archive_objects_after c os)
unfolding archive_objects_after
left-NotBefore c [] = tt
left-NotBefore c (o ∷ os) = elim (Bool-cases (is_done c o)) [
  | inl on ↦ rw on (left-NotBefore c os)
  | inr off ↦ rw off (undone c o off, left-NotBefore c os)
]

pub In-left_over :
    (c : Cursor) (os : List ArchiveObject) (x : ArchiveObject)
    → In x os
    → is_done c x ≡ false
    → In x (archive_objects_after c os)
unfolding archive_objects_after
In-left_over c [] x i h = absurd i
In-left_over c (o ∷ os) x (inl e) h =
    let off : is_done c o ≡ false = subst (λ y. is_done c y ≡ false) e h in rw off (inl e)
In-left_over c (o ∷ os) x (inr i) h = elim (Bool-cases (is_done c o)) [
  | inl on ↦ rw on (In-left_over c os x i h)
  | inr off ↦ rw off (inr (In-left_over c os x i h))
]
