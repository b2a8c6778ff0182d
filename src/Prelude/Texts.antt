-- ===== src/Prelude/Texts.antt =====
-- Python's `str`, as a native text that is walked character by character.
use Prim.Native.Nat.{ℕ, zero, suc}
use Prim.Native.Char.{Char, code}
use Prim.Native.String.{String}
use mathlib.Core.Bool.{Bool, true, false, ◌&&◌, ◌||◌}
use mathlib.Core.List.{List, [], ◌∷◌}
use text.Mathlib.Text.{◌==◌}
use clonway_cockpit.Prelude.Tests.{leb, nat_eq, if◌then◌else◌}

-- len(s)
unfoldable pub len : String → ℕ
len String.[] = 0
len (String.◌∷◌ c s) = suc (len s)

-- what `str.strip()` and `str.split()` take for whitespace
unfoldable pub is_space : ℕ → Bool
is_space c =
    (leb 9 c && leb c 13)
    || (leb 28 c && leb c 32)
    || nat_eq c 0x85
    || nat_eq c 0xa0
    || nat_eq c 0x1680
    || (leb 0x2000 c && leb c 0x200a)
    || nat_eq c 0x2028
    || nat_eq c 0x2029
    || nat_eq c 0x202f
    || nat_eq c 0x205f
    || nat_eq c 0x3000

-- s.lstrip()
unfoldable pub lstrip : String → String
unfolding is_space
lstrip String.[] = ""
lstrip (String.◌∷◌ c s) = if is_space (code c) then lstrip s else String.◌∷◌ c s

-- s.rstrip(): the rest is stripped first, and a character before an empty rest falls if a space
unfoldable pub rstrip : String → String
unfolding is_space
rstrip String.[] = ""
rstrip (String.◌∷◌ c s) =
    let rest = rstrip s in if rest == "" && is_space (code c) then "" else String.◌∷◌ c rest

-- s.strip()
unfoldable pub strip : String → String
unfolding lstrip rstrip
strip s = rstrip (lstrip s)

-- s[:n]
unfoldable pub text_take : ℕ → String → String
text_take zero s = ""
text_take (suc n) String.[] = ""
text_take (suc n) (String.◌∷◌ c s) = String.◌∷◌ c (text_take n s)

-- s + t
unfoldable pub text_append : String → String → String
text_append String.[] t = t
text_append (String.◌∷◌ c s) t = String.◌∷◌ c (text_append s t)

unfoldable pub any_char : (ℕ → Bool) → String → Bool
any_char p String.[] = false
any_char p (String.◌∷◌ c s) = p (code c) || any_char p s

unfoldable pub all_char : (ℕ → Bool) → String → Bool
all_char p String.[] = true
all_char p (String.◌∷◌ c s) = p (code c) && all_char p s

unfoldable pub map_char : (Char → Char) → String → String
map_char f String.[] = ""
map_char f (String.◌∷◌ c s) = String.◌∷◌ (f c) (map_char f s)

-- the character of the second text that stands where `c` stands in the first
unfoldable pub paired : Char → String → String → Char
paired c (String.◌∷◌ a s) (String.◌∷◌ b t) = if nat_eq (code a) (code c) then b else paired c s t
paired c _ _ = c

-- s.lower(), for the letters whose lower case is ASCII: the Kelvin sign and the dotted capital I
-- are the two outside ASCII. Other letters stay as they are.
unfoldable pub lower : String → String
unfolding paired
lower String.[] = ""
lower (String.◌∷◌ c s) =
    let rest = lower s in
    if nat_eq (code c) 0x130
    then String.◌∷◌ "i" (String.◌∷◌ "̇" rest)
    else String.◌∷◌ (paired c "ABCDEFGHIJKLMNOPQRSTUVWXYZK" "abcdefghijklmnopqrstuvwxyzk") rest

-- s.strip(chars), for the characters that pass the test
unfoldable pub lstrip_of : (ℕ → Bool) → String → String
lstrip_of p String.[] = ""
lstrip_of p (String.◌∷◌ c s) = if p (code c) then lstrip_of p s else String.◌∷◌ c s

unfoldable pub rstrip_of : (ℕ → Bool) → String → String
rstrip_of p String.[] = ""
rstrip_of p (String.◌∷◌ c s) =
    let rest = rstrip_of p s in if rest == "" && p (code c) then "" else String.◌∷◌ c rest

unfoldable pub strip_of : (ℕ → Bool) → String → String
unfolding lstrip_of rstrip_of
strip_of p s = rstrip_of p (lstrip_of p s)

-- s <= t in Python's order: by code points, a prefix first
unfoldable pub text_leb : String → String → Bool
text_leb String.[] t = true
text_leb (String.◌∷◌ c s) String.[] = false
text_leb (String.◌∷◌ c s) (String.◌∷◌ d t) =
    let rest = text_leb s t in if nat_eq (code c) (code d) then rest else leb (code c) (code d)

-- sep.join(ss)
unfoldable pub join : String → List String → String
unfolding text_append
join sep [] = ""
join sep (s ∷ []) = s
join sep (s ∷ t ∷ ss) = text_append s (text_append sep (join sep (t ∷ ss)))

unfoldable pub insert_text : String → List String → List String
unfolding text_leb
insert_text s [] = s ∷ []
insert_text s (t ∷ ts) =
    let rest = insert_text s ts in if text_leb s t then s ∷ t ∷ ts else t ∷ rest

-- sorted(ss)
unfoldable pub sort_texts : List String → List String
unfolding insert_text
sort_texts [] = []
sort_texts (s ∷ ss) = insert_text s (sort_texts ss)
