-- ===== src/Viewport/Lines.antt =====
-- viewport.py
-- The lines of a list by their places, and where a framed page has a line of its body.
use clonway_cockpit.Prelude.{
  ℕ, zero, suc, ◌+◌, ◌-◌, ◌≤◌, ◌<◌, min, ◌≡◌, refl, ap, ◌∙◌, Option, none, some, List, [], ◌∷◌,
  ◌++◌, arith, leb, if◌then◌else◌, length, take, drop, length-append,
}
use clonway_cockpit.Viewport.{slice, framed}

module _ {A : Type 0} where
  abbrev pub get_elem? : List A → ℕ → Option A
  get_elem? [] i = none
  get_elem? (x ∷ xs) zero = some x
  get_elem? (x ∷ xs) (suc i) = get_elem? xs i

  pub length-take : (n : ℕ) (xs : List A) → length (take n xs) ≡ min n (length xs)
  length-take zero xs = omega arith
  length-take (suc n) [] = omega arith
  length-take (suc n) (x ∷ xs) = omega (arith, length-take n xs)

  pub length-drop : (n : ℕ) (xs : List A) → length (drop n xs) ≡ length xs - n
  length-drop zero xs = omega arith
  length-drop (suc n) [] = omega arith
  length-drop (suc n) (x ∷ xs) = omega (arith, length-drop n xs)

  pub length-slice : (a b : ℕ) (xs : List A) → length (slice a b xs) ≡ min b (length xs) - a
  unfolding slice
  length-slice a b xs = omega (arith, length-drop a (take b xs), length-take b xs)

  get-left : (xs ys : List A) (i : ℕ) → i < length xs → get_elem? (xs ++ ys) i ≡ get_elem? xs i
  get-left [] ys i h = absurd (omega (arith, h))
  get-left (x ∷ xs) ys zero h = refl
  get-left (x ∷ xs) ys (suc i) h = get-left xs ys i (omega (arith, h))

  get-right :
      (xs ys : List A) (i j : ℕ) → j ≡ length xs + i → get_elem? (xs ++ ys) j ≡ get_elem? ys i
  get-right [] ys i j e = ap (get_elem? ys) (omega (arith, e))
  get-right (x ∷ xs) ys i zero e = absurd (omega (arith, e))
  get-right (x ∷ xs) ys i (suc j) e = get-right xs ys i j (omega (arith, e))

  get-take : (n i : ℕ) (xs : List A) → i < n → get_elem? (take n xs) i ≡ get_elem? xs i
  get-take zero i xs h = absurd (omega (arith, h))
  get-take (suc n) i [] h = refl
  get-take (suc n) zero (x ∷ xs) h = refl
  get-take (suc n) (suc i) (x ∷ xs) h = get-take n i xs (omega (arith, h))

  get-drop : (n i j : ℕ) (xs : List A) → j ≡ n + i → get_elem? (drop n xs) i ≡ get_elem? xs j
  get-drop zero i j xs e = ap (get_elem? xs) (omega (arith, e))
  get-drop (suc n) i j [] e = refl
  get-drop (suc n) i zero (x ∷ xs) e = absurd (omega (arith, e))
  get-drop (suc n) i (suc j) (x ∷ xs) e = get-drop n i j xs (omega (arith, e))

  -- a line of the body that is in the window stands below the head, by as much as in the page less
  -- the rows that are scrolled off
  pub get-framed :
      (note : ℕ → ℕ → A) (a b rows notes offset i : ℕ) (lines : List A)
      → a + b ≤ length lines
      → offset + rows ≤ length lines - b - a
      → i < rows
      → get_elem? (framed note a b rows notes offset lines) (a + i)
        ≡ get_elem? lines (a + offset + i)
  unfolding framed slice
  get-framed note a b rows notes offset i lines h l k =
      let body : List A = slice a (length lines - b) lines in
      let visible : List A = take rows (drop offset body) in
      let said : List A =
        if leb 1 notes then note offset (length body - offset - rows) ∷ [] else [] in
      let foot : List A = drop (length lines - b) lines in
      let head : length (take a lines) ≡ a = ground (arith, length-take a lines, h) in
      let size = length-slice a (length lines - b) lines in
      let rest = length-drop offset body in
      let window = length-take rows (drop offset body) in
      let seen : length visible ≡ rows = omega (arith, window, rest, size, h, l) in
      let top : length (take a lines ++ visible) ≡ a + rows =
        length-append (take a lines) visible ∙ omega (arith, head, seen) in
      let more = length-append (take a lines ++ visible) said in
      get-left (take a lines ++ visible ++ said) foot (a + i) (omega (arith, more, top, k))
      ∙ get-left (take a lines ++ visible) said (a + i) (omega (arith, top, k))
      ∙ get-right (take a lines) visible i (a + i) (omega (arith, head))
      ∙ get-take rows i (drop offset body) k
      ∙ get-drop offset i (offset + i) body refl
      ∙ get-drop a (offset + i) (a + offset + i) (take (length lines - b) lines) (omega arith)
      ∙ get-take (length lines - b) (a + offset + i) lines (omega (arith, h, l, k))
