-- ===== src/Viewport/Window.antt =====
-- viewport.py
-- What a page that is taller than the terminal shows.
use clonway_cockpit.Prelude.{
  ℕ, ◌+◌, ◌-◌, ◌≤◌, ◌<◌, String, ◌≡◌, refl, sym, ap, ◌∙◌, ◌⊎◌, inl, inr, false, ◌||◌, none, some,
  List, [], ◌∷◌, ◌++◌, arith, leb, if◌then◌else◌, Bool-cases, length, take, drop, length-append,
}
use mathlib.Core.Path.{subst}
use clonway_cockpit.Viewport.{
  Size, rows_of, View, pins, slice, find_cursor, identity_of, refresh, followed, clip, note_rows,
  framed, min_body, draw_tall, draw_page, draw_once,
}
use clonway_cockpit.Viewport.Pins.{pins_bound}
use clonway_cockpit.Viewport.Lines.{get_elem?, length-take, length-drop, length-slice}

module _ {A : Type 0} where
  length_four :
      (p q r s : List A) → length (p ++ q ++ r ++ s) ≡ length p + length q + length r + length s
  length_four p q r s =
      rw (length-append (p ++ q ++ r) s, length-append (p ++ q) r, length-append p q) refl

  length-one : (n : ℕ) (x : A) → n ≤ 1 → length (if leb 1 n then x ∷ [] else []) ≡ n
  length-one n x h = elim (Bool-cases (leb 1 n)) [
    | inl e ↦ rw e (ground (arith, e, h))
    | inr e ↦ rw e (ground (arith, e, h))
  ]

  length-framed :
      (note : ℕ → ℕ → A) (a b rows notes offset : ℕ) (lines : List A)
      → a + b ≤ length lines
      → notes ≤ 1
      → offset + rows ≤ length lines - b - a
      → length (framed note a b rows notes offset lines) ≡ a + rows + notes + b
  unfolding framed slice
  length-framed note a b rows notes offset lines h k l =
      let body = slice a (length lines - b) lines in
      let below = length body - offset - rows in
      let head = length-take a lines in
      let foot = length-drop (length lines - b) lines in
      let size = length-slice a (length lines - b) lines in
      let rest = length-drop offset body in
      let window = length-take rows (drop offset body) in
      let said = length-one notes (note offset below) k in
      length_four (take a lines) (take rows (drop offset body))
        (if leb 1 notes then note offset below ∷ [] else []) (drop (length lines - b) lines)
      ∙ rw (said, head, foot, window, rest, size) (omega (arith, h, l))

-- the screen was given exactly `height` rows, and the window stays on the body
pub record FillsScreen {R L : Type 0} (height : ℕ) (w : View R L) : Type 0 where
  pub out : List L
  pub shown : w.shown ≡ some (rows_of out)
  pub filled : length out ≡ height
  pub in_range : w.offset + w.rows ≤ w.body_len

-- the screen was given the line `c` of the page, in the row where the window has it
pub record ShowsLine {R L : Type 0} (height : ℕ) (lines : List L) (c : ℕ) (w : View R L)
    : Type 0 where
  pub out : List L
  pub shown : w.shown ≡ some (rows_of out)
  pub row : ℕ
  pub at_row : get_elem? out row ≡ get_elem? lines c
  pub is_line : c < length lines
  pub on_screen : row < height
  pub in_window :
      ((pins w.top w.bottom height).0 + w.offset ≤ c)
      × (c < (pins w.top w.bottom height).0 + w.offset + w.rows)

notes_le : (height a b : ℕ) → note_rows height a b ≤ 1
unfolding note_rows
notes_le height a b = ground arith

rows_sum :
    (height a b : ℕ)
    → a + b ≤ height
    → a + (height - a - b - note_rows height a b) + note_rows height a b + b ≡ height
unfolding note_rows
rows_sum height a b h = ground (arith, h)

clip_in : (o rows body_len : ℕ) → rows ≤ body_len → clip o rows body_len + rows ≤ body_len
unfolding clip
clip_in o rows body_len h = omega (arith, h)

-- some row of the body is left between the pins
pub rows_left :
    (height a b : ℕ)
    → 2 ≤ height
    → ((a + b + 1 + min_body) ≤ height) ⊎ ((a ≡ 0) × (b ≡ 1))
    → 1 ≤ height - a - b - note_rows height a b
unfolding note_rows
rows_left height a b h (inl e) = ground (arith, h, e)
rows_left height a b h (inr e) = let e0 = e.0 in let e1 = e.1 in ground (arith, h, e0, e1)

module _ {R L : Type 0} (note : ℕ → ℕ → L) (height : ℕ) (lines : List L) (v : View R L) where
  draw_tall-fills :
      1 ≤ height → height < length lines → FillsScreen height (draw_tall note height lines v)
  unfolding draw_tall
  draw_tall-fills h k =
      let p = pins v.top v.bottom height in
      let (t, l, m, room, end) = pins_bound v.top v.bottom height h in
      let notes = note_rows height p.0 p.1 in
      let rows = height - p.0 - p.1 - notes in
      let body_len = length lines - p.1 - p.0 in
      let offset = clip (followed v.cursor p.0 rows v) rows body_len in
      let range : offset + rows ≤ body_len = clip_in _ rows body_len (omega (arith, k, room)) in
      record {
        out = framed note p.0 p.1 rows notes offset lines;
        shown = refl;
        filled =
            length-framed note p.0 p.1 rows notes offset lines (omega (arith, room, k))
              (notes_le height p.0 p.1) range
            ∙ rows_sum height p.0 p.1 room;
        in_range = range;
      }

is_tall : (n height : ℕ) → 1 ≤ height → height < n → (leb n height || leb height 0) ≡ false
is_tall n height h k = ground (arith, h, k)

module _ {R L : Type 0} (plain : L → String) (render : R → ℕ → List L)
    (note : ℕ → ℕ → ℕ → List L → L) where
  -- the view that the passage on a fresh page leaves
  abbrev pub looked : R → Size → View R L → View R L
  looked r size v =
      let lines = render r size.width in
      let cursor = find_cursor plain v.top v.bottom lines in
      record (refresh (identity_of plain v.top lines) cursor v) {
        identity = some (identity_of plain v.top lines);
        cursor = cursor;
      }

  pub draw_once_tall :
      (r : R) (size : Size) (v : View R L)
      → v.renderable ≡ some r
      → 1 ≤ size.height
      → size.height < length (render r size.width)
      → draw_once plain render note size v
        ≡ draw_tall
            (λ above below. note size.width above below (render r size.width))
            size.height
            (render r size.width)
            (looked r size v)
  unfolding draw_once draw_page
  draw_once_tall r size v e h k =
      ap (λ o. elim o [ some p ↦ draw_page plain render note p size v | none ↦ v ]) e
      ∙ rw (is_tall (length (render r size.width)) size.height h k) refl

  -- Drawing a page of more lines than the terminal has rows, on at least one row, gives the screen
  -- exactly as many rows as the terminal has, and leaves the window within the body.
  pub draw_once-FillsScreen :
      (r : R) (size : Size) (v : View R L)
      → v.renderable ≡ some r
      → 1 ≤ size.height
      → size.height < length (render r size.width)
      → FillsScreen size.height (draw_once plain render note size v)
  draw_once-FillsScreen r size v e h k =
      subst (FillsScreen size.height) (sym (draw_once_tall r size v e h k))
        (draw_tall-fills _ size.height (render r size.width) (looked r size v) h k)
