-- ===== src/Viewport/Paging.antt =====
-- viewport.py
-- Scrolling through a page that is taller than the terminal.
use clonway_cockpit.Prelude.{
  ℕ, zero, suc, ◌+◌, ◌-◌, ◌*◌, ◌≤◌, ◌<◌, max, String, ◌≡◌, refl, sym, ap, ◌∙◌, inl, inr, true,
  false, Option, none, some, List, arith, ltb, ltb→lt, Bool-cases, length,
}
use mathlib.Core.Path.{subst}
use clonway_cockpit.Viewport.{
  Size, View, pins, find_cursor, identity_of, refresh, followed, clip, note_rows, draw_tall, draw,
  scroll_to, update, page_step, page_down,
}
use clonway_cockpit.Viewport.Pins.{pins_bound}
use clonway_cockpit.Viewport.Window.{looked, draw_once_tall, rows_left}

-- the rows of the body that a terminal shows
abbrev pub room : ℕ → ℕ × ℕ → ℕ
room height p = height - p.0 - p.1 - note_rows height p.0 p.1

module _ {R L : Type 0} (plain : L → String) (render : R → ℕ → List L)
    (note : ℕ → ℕ → ℕ → List L → L) (size : Size) where
  -- the view after a draw of a page too tall for the terminal at this size
  pub record IsDrawn (v : View R L) : Type 0 where
    pub page : R
    pub held : v.renderable ≡ some page
    pub seen : v.fresh ≡ false
    pub rows_left : 2 ≤ size.height
    pub tall : size.height < length (render page size.width)
    pub rows_are : v.rows ≡ room size.height (pins v.top v.bottom size.height)
    pub body_are :
        v.body_len
        ≡ length (render page size.width)
          - (pins v.top v.bottom size.height).1
          - (pins v.top v.bottom size.height).0

  followed_manual :
      (cursor : Option ℕ) (a rows : ℕ) (v : View R L)
      → v.manual ≡ true
      → followed cursor a rows v ≡ v.offset
  unfolding followed
  followed_manual none a rows v h = refl
  followed_manual (some c) a rows v h = rw h refl

  refresh_seen :
      (identity : String) (cursor : Option ℕ) (v : View R L)
      → v.fresh ≡ false
      → refresh identity cursor v ≡ v
  unfolding refresh
  refresh_seen identity cursor v h = simp h

  -- the view that a scroll leaves
  abbrev pub scrolled_to : ℕ → View R L → View R L
  scrolled_to o v = record v { offset = clip o v.rows v.body_len; manual = true }

  -- what a scroll to the offset `o` makes of a view
  record IsScrolled (o : ℕ) (v w : View R L) : Type 0 where
    drawn : IsDrawn w
    moved : w.offset ≡ clip o v.rows v.body_len
    same_rows : w.rows ≡ v.rows
    same_body : w.body_len ≡ v.body_len

  clip_twice :
      (o rows body_len : ℕ) → clip (clip o rows body_len) rows body_len ≡ clip o rows body_len
  unfolding clip
  clip_twice o rows body_len = omega arith

  draw_tall-IsScrolled :
      (o : ℕ) (v : View R L) (identity : String) (cursor : Option ℕ) (line : ℕ → ℕ → L)
      (d : IsDrawn v)
      → IsScrolled o v (
          draw_tall line size.height
            (render d.page size.width)
            (record (scrolled_to o v) { identity = some identity; cursor = cursor }))
  unfolding draw_tall
  draw_tall-IsScrolled o v identity cursor line d =
      let u = record (scrolled_to o v) { identity = some identity; cursor = cursor } in
      let p = pins v.top v.bottom size.height in
      record {
        drawn = record {
          page = d.page;
          held = d.held;
          seen = d.seen;
          rows_left = d.rows_left;
          tall = d.tall;
          rows_are = refl;
          body_are = refl;
        };
        moved =
            ap (λ k. clip k (room size.height p) (length (render d.page size.width) - p.1 - p.0))
              (followed_manual cursor p.0 (room size.height p) u refl)
            ∙ rw (sym d.rows_are, sym d.body_are) (clip_twice o v.rows v.body_len);
        same_rows = sym d.rows_are;
        same_body = sym d.body_are;
      }

  scroll_to-IsScrolled :
      (o : ℕ) (v : View R L) → IsDrawn v → IsScrolled o v (scroll_to plain render note o size v)
  unfolding scroll_to draw
  scroll_to-IsScrolled o v d =
      let u = scrolled_to o v in
      let lines = render d.page size.width in
      let line = λ (x y : ℕ). note size.width x y lines in
      let cursor = find_cursor plain v.top v.bottom lines in
      let name = identity_of plain v.top lines in
      let low = d.rows_left in
      subst (IsScrolled o v)
        (sym (
          draw_once_tall plain render note d.page size u d.held (omega (arith, low)) d.tall
          ∙ ap
              (λ w.
                draw_tall line size.height lines
                  (record w { identity = some name; cursor = cursor }))
              (refresh_seen name cursor u d.seen)))
        (draw_tall-IsScrolled o v name cursor line d)

  next_page :
      (n o rows body_len q r b : ℕ)
      → q ≡ clip (o + max 1 (rows - 1)) rows body_len
      → r ≡ rows
      → b ≡ body_len
      → clip (q + n * max 1 (r - 1)) r b ≡ clip (o + suc n * max 1 (rows - 1)) rows body_len
  unfolding clip
  next_page n o rows body_len q r b e f g =
      let more : suc n * max 1 (rows - 1) ≡ max 1 (rows - 1) + n * max 1 (rows - 1) = omega arith in
      rw (e, f, g, more) (omega arith)

  -- PgDn, a number of times
  abbrev pub pages_down : ℕ → View R L → View R L
  pages_down zero v = v
  pages_down (suc n) v = pages_down n (page_down plain render note size v)

  pages_down-offset :
      (n : ℕ) (v : View R L)
      → IsDrawn v
      → v.offset + v.rows ≤ v.body_len
      → let w = pages_down n v in
        (w.offset ≡ clip (v.offset + n * page_step v) v.rows v.body_len) × (w.rows ≡ v.rows)
  unfolding page_down page_step clip
  pages_down-offset zero v d h = (omega (arith, h), refl)
  pages_down-offset (suc n) v d h =
      let w = page_down plain render note size v in
      let s = scroll_to-IsScrolled (v.offset + page_step v) v d in
      let m = s.moved in
      let r = s.same_rows in
      let b = s.same_body in
      let (deep, rest) = pages_down-offset n w s.drawn (omega (arith, m, r, b, h)) in
      (deep ∙ next_page n v.offset v.rows v.body_len w.offset w.rows w.body_len m r b, rest ∙ r)

  -- the page of size `step` in which the index `i` falls
  page_of : (step i : ℕ) → 1 ≤ step → (n : ℕ) × (n * step ≤ i) × (i < n * step + step)
  page_of step zero h = (0, omega arith, omega (arith, h))
  page_of step (suc i) h =
      let (n, low, high) = page_of step i h in
      elim (Bool-cases (ltb (suc i) (n * step + step))) [
        | inl e ↦ (n, omega (arith, low), ltb→lt (suc i) (n * step + step) e)
        | inr e ↦ (suc n, ground (arith, e), omega (arith, h, high))
      ]

  page_shows :
      (o i n rows body_len : ℕ)
      → 1 ≤ rows
      → i < body_len
      → n * max 1 (rows - 1) ≤ i
      → i < n * max 1 (rows - 1) + max 1 (rows - 1)
      → o ≡ clip (n * max 1 (rows - 1)) rows body_len
      → (o ≤ i) × (i < o + rows)
  unfolding clip
  page_shows o i n rows body_len h k low high e =
      (omega (arith, e, low), omega (arith, e, low, high, h, k))

  home_page :
      (n rows body_len q r b : ℕ)
      → q ≡ clip 0 rows body_len
      → r ≡ rows
      → b ≡ body_len
      → clip (q + n * max 1 (r - 1)) r b ≡ clip (n * max 1 (rows - 1)) rows body_len
  unfolding clip
  home_page n rows body_len q r b e f g = rw (e, f, g) (omega arith)

  rows_one : (v : View R L) → IsDrawn v → (1 ≤ v.rows) × (v.rows ≤ v.body_len)
  rows_one v d =
      let h = d.rows_left in
      let k = d.tall in
      let r = d.rows_are in
      let b = d.body_are in
      let p = pins v.top v.bottom size.height in
      let (t, l, m, fit, end) = pins_bound v.top v.bottom size.height (omega (arith, h)) in
      let some_row = rows_left size.height p.0 p.1 h end in
      (omega (arith, r, some_row), omega (arith, r, b, k, fit))

  refresh_kept :
      (identity : String) (cursor : Option ℕ) (r : R) (v : View R L)
      → let w = refresh identity cursor (record v { renderable = some r; fresh = true }) in
        (w.fresh ≡ false) × (w.renderable ≡ some r)
  unfolding refresh
  refresh_kept identity cursor r v = (ground arith, ground arith)

  tall-IsDrawn :
      (r : R) (line : ℕ → ℕ → L) (w : View R L)
      → 2 ≤ size.height
      → size.height < length (render r size.width)
      → w.renderable ≡ some r
      → w.fresh ≡ false
      → IsDrawn (draw_tall line size.height (render r size.width) w)
  unfolding draw_tall
  tall-IsDrawn r line w h k e f = record {
    page = r;
    held = e;
    seen = f;
    rows_left = h;
    tall = k;
    rows_are = refl;
    body_are = refl;
  }

  update-IsDrawn :
      (r : R) (v : View R L)
      → 2 ≤ size.height
      → size.height < length (render r size.width)
      → IsDrawn (update plain render note r size v)
  unfolding update draw
  update-IsDrawn r v h k =
      let lines = render r size.width in
      let u = record v { renderable = some r; fresh = true } in
      let kept =
        refresh_kept (identity_of plain v.top lines) (find_cursor plain v.top v.bottom lines) r v in
      subst IsDrawn (sym (draw_once_tall plain render note r size u refl (omega (arith, h)) k)) (
        tall-IsDrawn r (λ x y. note size.width x y lines) (looked plain render note r size u) h k
          kept.1 kept.0)

  drawn_shows :
      (v : View R L) (i : ℕ)
      → IsDrawn v
      → i < v.body_len
      → (n : ℕ) × let w = pages_down n (scroll_to plain render note 0 size v) in
          (w.offset ≤ i) × (i < w.offset + w.rows)
  unfolding page_step clip
  drawn_shows v i d h =
      let s = scroll_to-IsScrolled 0 v d in
      let w = scroll_to plain render note 0 size v in
      let m = s.moved in
      let r = s.same_rows in
      let b = s.same_body in
      let (one, fits) = rows_one v d in
      let (n, low, high) = page_of (max 1 (v.rows - 1)) i (omega arith) in
      let (deep, rest) = pages_down-offset n w s.drawn (omega (arith, m, r, b, fits)) in
      let place : (pages_down n w).offset ≡ clip (n * max 1 (v.rows - 1)) v.rows v.body_len =
        deep ∙ home_page n v.rows v.body_len w.offset w.rows w.body_len m r b in
      let (above, below) =
        page_shows (pages_down n w).offset i n v.rows v.body_len one h low high place in
      (n, (above, omega (arith, below, rest, r)))

  -- Where a page has more lines than the terminal has rows, and the terminal at least two rows, then
  -- after the page was put up, Home and some number of PgDn, at the same size, bring any line of
  -- its body into the window.
  pub pages_down-shows :
      (r : R) (v : View R L) (i : ℕ)
      → 2 ≤ size.height
      → size.height < length (render r size.width)
      → i < (update plain render note r size v).body_len
      → (n : ℕ) × let w =
            pages_down n (scroll_to plain render note 0 size (update plain render note r size v)) in
          (w.offset ≤ i) × (i < w.offset + w.rows)
  pages_down-shows r v i h k low =
      drawn_shows (update plain render note r size v) i (update-IsDrawn r v h k) low
