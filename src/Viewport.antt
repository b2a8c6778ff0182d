-- ===== src/Viewport.antt =====
-- A page on the live terminal: src/clonway_cockpit/viewport.py. Rich is a parameter: `render` gives
-- the lines of a page at a width, `plain` the text of a line, `note` the line of the scroll note.
-- A draw is given the size of the terminal; the console's own size, that `_hold_console_size`
-- keeps equal to it, and the signal handler are left out. Python's offsets are clipped to 0 where
-- they may be negative, which is what subtraction on ℕ does.
pub mod Pins
pub mod Lines
pub mod Window
pub mod Paging
mod Tests
use clonway_cockpit.Prelude.{
  ℕ, zero, suc, ◌+◌, ◌-◌, ◌*◌, ◌/◌, ◌%◌, ◌≤◌, ◌<◌, min, max, String, ◌≡◌, refl, sym, ap, ◌∙◌, ◌≢◌,
  ◌↔◌, ◌⊎◌, inl, inr, Bool, true, false, not, ◌&&◌, ◌||◌, Option, none, some, List, [], ◌∷◌, ◌++◌,
  map, arith, ◌==◌, eq_iff, eq_refl, ltb, leb, nat_eq, if◌then◌else◌, ltb→lt, leb→le, Bool-cases,
  and_split, Option-cases, is_some, length, take, drop, any, all, keep, All, length-append, elem,
  Distinct, elem-append, All-append,
}
use Prim.Native.Char.{Char, code}
use clonway_cockpit.Prelude.Texts.{any_char, map_char, join}

abbrev pub min_body : ℕ
min_body = 3

pub record Size : Type 0 where
  pub width : ℕ
  pub height : ℕ

-- what the screen was last given: the page as it is, or rows
pub data Frame (R L : Type 0) : Type 0 where
  whole : R → Frame R L
  rows_of : List L → Frame R L

-- the fields of Viewport, and the last `update` of the screen
pub record View (R L : Type 0) : Type 0 where
  pub top : ℕ
  pub bottom : ℕ
  pub renderable : Option R
  pub offset : ℕ
  pub manual : Bool
  pub fresh : Bool
  pub identity : Option String
  pub cursor : Option ℕ
  pub rows : ℕ
  pub body_len : ℕ
  pub overflowing : Bool
  pub shown : Option (Frame R L)

-- one round of the loop of _pins after the other
unfoldable pub shrink : ℕ → ℕ → ℕ → ℕ → ℕ × ℕ
shrink zero height top bottom = (top, bottom)
shrink (suc fuel) height top bottom =
    let fewer_top = shrink fuel height (top - 1) bottom in
    let fewer_bottom = shrink fuel height top (bottom - 1) in
    if ltb height (top + bottom + 1 + min_body) && (ltb 0 top || ltb 1 bottom)
    then if ltb 0 top && (leb bottom top || leb bottom 1) then fewer_top else fewer_bottom
    else (top, bottom)

-- _pins: a round takes one line from a pin, so that their sum is fuel enough
unfoldable pub pins : ℕ → ℕ → ℕ → ℕ × ℕ
unfolding shrink
pins view_top view_bottom height =
    let bottom = max 1 view_bottom in shrink (view_top + bottom) height view_top bottom

unfoldable pub is_ascii_digit : ℕ → Bool
is_ascii_digit c = leb 48 c && leb c 57

unfoldable pub mask_digit : Char → Char
unfolding is_ascii_digit
mask_digit c = if is_ascii_digit (code c) then "#" else c

-- _CURSOR in text
unfoldable pub has_cursor : String → Bool
has_cursor text = any_char (λ c. nat_eq c 0x276f) text

-- _follow, on the offset
unfoldable pub follow : ℕ → ℕ → ℕ → ℕ
follow cursor rows offset =
    let context = if leb 3 rows then 1 else 0 in
    if ltb cursor (offset + context)
    then cursor - context
    else if ltb (offset + rows) (cursor + 1 + context)
    then cursor + 1 + context - rows
    else offset

-- lines[a:b]
unfoldable pub slice {ℓ} : {A : Type ℓ} → ℕ → ℕ → List A → List A
slice a b xs = drop a (take b xs)

unfoldable pub same_text : Option String → String → Bool
same_text none t = false
same_text (some s) t = s == t

unfoldable pub same_cursor : Option ℕ → Option ℕ → Bool
same_cursor none none = true
same_cursor (some a) (some b) = nat_eq a b
same_cursor _ _ = false

module _ {L : Type 0} (plain : L → String) where
  -- the search of _find_cursor from index `i`, over the lines that are left
  unfoldable pub find_from : ℕ → List L → Option ℕ
  unfolding has_cursor
  find_from i [] = none
  find_from i (l ∷ ls) =
      let rest = find_from (suc i) ls in if has_cursor (plain l) then some i else rest

  unfoldable pub find_cursor : ℕ → ℕ → List L → Option ℕ
  unfolding find_from slice
  find_cursor top bottom lines = find_from top (slice top (length lines - bottom) lines)

  -- the text of the head of a page, its digits (those of ASCII) masked
  unfoldable pub identity_of : ℕ → List L → String
  unfolding mask_digit
  identity_of top lines = map_char mask_digit (join "\n" (map plain (take top lines)))

-- max(0, min(offset, body_len - rows))
unfoldable pub clip : ℕ → ℕ → ℕ → ℕ
clip offset rows body_len = min offset (body_len - rows)

unfoldable pub note_rows : ℕ → ℕ → ℕ → ℕ
note_rows height top bottom = if leb 2 (height - top - bottom) then 1 else 0

-- the rows given to the screen: header, window, note, footer
unfoldable pub framed : {L : Type 0} → (ℕ → ℕ → L) → ℕ → ℕ → ℕ → ℕ → ℕ → List L → List L
unfolding slice
framed note top bottom rows notes offset lines =
    let body = slice top (length lines - bottom) lines in
    let visible = take rows (drop offset body) in
    take top lines
    ++ visible
    ++ (if leb 1 notes then note offset (length body - offset - rows) ∷ [] else [])
    ++ drop (length lines - bottom) lines

module _ {R L : Type 0} where
  -- the part of _draw_once that a fresh page resets
  unfoldable pub refresh : String → Option ℕ → View R L → View R L
  unfolding same_text same_cursor
  refresh identity cursor v =
      if v.fresh
      then if same_text v.identity identity
        then if same_cursor v.cursor cursor
          then record v { fresh = false }
          else record v { fresh = false; manual = false }
        else record v { fresh = false; offset = 0; manual = false }
      else v

  unfoldable pub followed : Option ℕ → ℕ → ℕ → View R L → ℕ
  unfolding follow
  followed none top rows v = v.offset
  followed (some cursor) top rows v =
      if v.manual then v.offset else follow (cursor - top) rows v.offset

  -- a page taller than the window
  unfoldable pub draw_tall : (ℕ → ℕ → L) → ℕ → List L → View R L → View R L
  unfolding pins note_rows followed clip framed
  draw_tall note height lines v =
      let (top, bottom) = pins v.top v.bottom height in
      let notes = note_rows height top bottom in
      let rows = height - top - bottom - notes in
      let body_len = length lines - bottom - top in
      let offset = clip (followed v.cursor top rows v) rows body_len in
      record v {
        overflowing = true;
        rows = rows;
        body_len = body_len;
        offset = offset;
        shown = some (rows_of (framed note top bottom rows notes offset lines));
      }

  unfoldable pub draw_whole : R → View R L → View R L
  draw_whole r v = record v { overflowing = false; rows = 0; body_len = 0; shown = some (whole r) }

  unfoldable pub page_step : View R L → ℕ
  page_step v = max 1 (v.rows - 1)

  module _ (plain : L → String) (render : R → ℕ → List L) (note : ℕ → ℕ → ℕ → List L → L) where
    unfoldable pub draw_page : R → Size → View R L → View R L
    unfolding refresh draw_tall draw_whole find_cursor identity_of
    draw_page r size v =
        let lines = render r size.width in
        let cursor = find_cursor plain v.top v.bottom lines in
        let identity = identity_of plain v.top lines in
        let w = record (refresh identity cursor v) { identity = some identity; cursor = cursor } in
        if leb (length lines) size.height || leb size.height 0
        then draw_whole r w
        else draw_tall (λ above below. note size.width above below lines) size.height lines w

    unfoldable pub draw_once : Size → View R L → View R L
    unfolding draw_page
    draw_once size v = elim v.renderable [ some r ↦ draw_page r size v | none ↦ v ]

    -- draw: a pass, and one more for each pass in which a resize came
    unfoldable pub draw : Size → List Size → View R L → View R L
    unfolding draw_once
    draw size [] v = draw_once size v
    draw size (next ∷ more) v = draw next more (draw_once size v)

    unfoldable pub update : R → Size → View R L → View R L
    unfolding draw
    update r size v = draw size [] (record v { renderable = some r; fresh = true })

    -- _scroll_to
    unfoldable pub scroll_to : ℕ → Size → View R L → View R L
    unfolding draw clip
    scroll_to offset size v =
        draw size [] (record v { offset = clip offset v.rows v.body_len; manual = true })

    unfoldable pub page_down : Size → View R L → View R L
    unfolding scroll_to page_step
    page_down size v = scroll_to (v.offset + page_step v) size v

    unfoldable pub page_up : Size → View R L → View R L
    unfolding scroll_to page_step
    page_up size v = scroll_to (v.offset - page_step v) size v

    -- what wrap_read_key does with a key: `none` is a key that it passes on
    unfoldable pub scrolled : String → Size → View R L → Option (View R L)
    unfolding page_down page_up scroll_to
    scrolled key size v =
        if key == "pgdn"
        then some (page_down size v)
        else if key == "pgup"
        then some (page_up size v)
        else if key == "home" && v.overflowing
        then some (scroll_to 0 size v)
        else if key == "end" && v.overflowing
        then some (scroll_to v.body_len size v)
        else none

    -- the wrapped reader over the presses to come, each with the size of the terminal then
    unfoldable pub read_key : List (String × Size) → View R L → Option String × View R L
    unfolding scrolled
    read_key [] v = (none, v)
    read_key ((key, size) ∷ presses) v = elim (scrolled key size v) [
      | some w ↦ read_key presses w
      | none ↦ (some key, v)
    ]
