-- ===== src/Viewport/Tests.antt =====
-- A page of viewport.py of twelve lines on terminals of eight rows, and the keys of the viewport.
use clonway_cockpit.Prelude.{
  ℕ, zero, suc, ◌+◌, ◌-◌, ◌*◌, ◌/◌, ◌%◌, ◌≤◌, ◌<◌, min, max, String, ◌≡◌, refl, sym, ap, ◌∙◌, ◌≢◌,
  ◌↔◌, ◌⊎◌, inl, inr, Bool, true, false, not, ◌&&◌, ◌||◌, Option, none, some, List, [], ◌∷◌, ◌++◌,
  map, arith, ◌==◌, eq_iff, eq_refl, ltb, leb, nat_eq, if◌then◌else◌, ltb→lt, leb→le, Bool-cases,
  and_split, Option-cases, is_some, length, take, drop, any, all, keep, All, length-append, elem,
  Distinct, elem-append, All-append,
}
use clonway_cockpit.Viewport.{Size, View, rows_of, draw_once, update, read_key, scroll_to}
use clonway_cockpit.Viewport.Window
use clonway_cockpit.Viewport.Window.{FillsScreen}
use clonway_cockpit.Viewport.Paging
use clonway_cockpit.Viewport.Paging.{pages_down}

-- a page is the list of its lines, and a line its text
abbrev render : List String → ℕ → List String
render page width = page

abbrev plain : String → String
plain line = line

abbrev note : ℕ → ℕ → ℕ → List String → String
note width above below lines = if nat_eq above 0 then "more below" else "more above"

abbrev page : List String
page =
    "t0" ∷ "t1" ∷ "t2" ∷ "t3" ∷ "a" ∷ "b" ∷ "c" ∷ "d" ∷ "❯ e" ∷ "f" ∷ "g" ∷ "h" ∷ "b0" ∷ "b1" ∷ "b2"
    ∷ "b3" ∷ []

abbrev small : Size
small = record { width = 80; height = 8 }

abbrev start : View (List String) String
start = record {
  top = 4;
  bottom = 4;
  renderable = some page;
  offset = 0;
  manual = false;
  fresh = true;
  identity = none;
  cursor = none;
  rows = 0;
  body_len = 0;
  overflowing = false;
  shown = none;
}

-- both pins give way, and the selected row is shown with a line of context
followed_page :
    (draw_once plain render note small start).shown
    ≡ some (rows_of ("t0" ∷ "t1" ∷ "d" ∷ "❯ e" ∷ "f" ∷ "more above" ∷ "b2" ∷ "b3" ∷ []))
unfolding draw_once clonway_cockpit.Prelude.Texts.any_char
followed_page = refl

-- the scroll keys do not reach the shell
keys_read :
    (read_key plain render note
      (("pgdn", small) ∷ ("home", small) ∷ ("x", small) ∷ [])
      (draw_once plain render note small start)).0
    ≡ some "x"
unfolding read_key
keys_read = refl

two_le : 2 ≤ small.height
two_le = omega arith

one_le : 1 ≤ small.height
one_le = omega arith

is_tall : small.height < length (render page small.width)
is_tall = omega arith

body_at : (update plain render note page small start).body_len ≡ 12
unfolding update
body_at = refl

in_body : 9 < (update plain render note page small start).body_len
in_body = rw body_at (omega arith)

draw_once-FillsScreen_example : FillsScreen 8 (draw_once plain render note small start)
draw_once-FillsScreen_example =
    Window.draw_once-FillsScreen plain render note page small start refl one_le is_tall

pages_down-shows_example :
    (n : ℕ) × let w =
        pages_down plain render note small n
          (scroll_to plain render note 0 small (update plain render note page small start)) in
      (w.offset ≤ 9) × (9 < w.offset + w.rows)
pages_down-shows_example =
    Paging.pages_down-shows plain render note small page start 9 two_le is_tall in_body
