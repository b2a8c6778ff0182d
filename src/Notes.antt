-- ===== src/Notes.antt =====
-- The notes of a scope: PrivateScope of src/clonway_cockpit/private_memory.py over the Fact of
-- src/clonway_cockpit/shared_memory.py. A scope is the list of its notes in the order of their names,
-- without the date and the path, and a note is put as it is read back: its body through the text of
-- the file, while its kind and its summary are taken to have no line boundary; `none` is a ValueError.
use clonway_cockpit.Prelude.{
  ℕ, String, Bool, false, not, ◌&&◌, ◌||◌, Option, none, some, List, [], ◌∷◌, ◌==◌, leb, nat_eq,
  if◌then◌else◌, keep,
}
use Prim.Native.Char.{Char, code}
use clonway_cockpit.Prelude.Texts.{strip, any_char, join, text_leb}
use clonway_cockpit.Handoff.{is_safe_slug, is_newline}

pub record Fact : Type 0 where
  pub name : String
  pub kind : String
  pub summary : String
  pub body : String
  pub source : String

-- what str.splitlines takes for the end of a line
unfoldable pub is_boundary : ℕ → Bool
is_boundary c =
    (leb 10 c && leb c 13)
    || (leb 28 c && leb c 30)
    || nat_eq c 0x85
    || nat_eq c 0x2028
    || nat_eq c 0x2029

unfoldable pub on_first_line : Char → List String → List String
on_first_line c [] = String.◌∷◌ c "" ∷ []
on_first_line c (l ∷ ls) = String.◌∷◌ c l ∷ ls

-- the lines of a text, after a carriage return or not
unfoldable pub lines_after : Bool → String → List String
unfolding is_boundary on_first_line
lines_after after_cr String.[] = []
lines_after after_cr (String.◌∷◌ c s) =
    let skipped = lines_after false s in
    let next = lines_after (nat_eq (code c) 13) s in
    if after_cr && nat_eq (code c) 10
    then skipped
    else if is_boundary (code c)
    then "" ∷ next
    else on_first_line c skipped

-- s.splitlines()
unfoldable pub splitlines : String → List String
unfolding lines_after
splitlines s = lines_after false s

-- single_line of shared_memory.py
unfoldable pub one_line : String → Option String
one_line value =
    if strip value == "" || any_char is_newline (strip value) then none else some (strip value)

unfoldable pub normal_from : Bool → String → String
normal_from after_cr String.[] = ""
normal_from after_cr (String.◌∷◌ c s) =
    let skipped = normal_from false s in
    let next = normal_from (nat_eq (code c) 13) s in
    if after_cr && nat_eq (code c) 10
    then skipped
    else String.◌∷◌ (if nat_eq (code c) 13 then "\n" else c) next

-- a body as render_fact writes and parse_frontmatter reads it
unfoldable pub reread : String → String
unfolding normal_from splitlines
reread body = strip (join "\n" (splitlines (normal_from false body)))

-- the note in its place, by name: an old one of the name is replaced
unfoldable pub put : Fact → List Fact → List Fact
put f [] = f ∷ []
put f (g ∷ gs) =
    let rest = put f gs in
    if g.name == f.name then f ∷ gs else if text_leb f.name g.name then f ∷ g ∷ gs else g ∷ rest

-- Fact(...), when each part that is a line is one
unfoldable pub note_of :
    String → Option String → Option String → String → Option String → Option Fact
note_of name none summary body source = none
note_of name (some k) none body source = none
note_of name (some k) (some l) body none = none
note_of name (some k) (some l) body (some o) =
    some (record { name = name; kind = k; summary = l; body = body; source = o })

unfoldable pub put_note : Option Fact → List Fact → Option (List Fact)
unfolding put
put_note none s = none
put_note (some f) s = some (put f s)

-- PrivateScope.remember
unfoldable pub remember :
    String → String → String → String → String → List Fact → Option (List Fact)
unfolding one_line reread note_of put_note
remember name kind summary body source s =
    let origin = if source == "" then some "" else one_line source in
    if is_safe_slug name
    then put_note (note_of name (one_line kind) (one_line summary) (reread (strip body)) origin) s
    else none

-- PrivateScope.forget, of a name that is a slug
unfoldable pub forget : String → List Fact → List Fact
forget name s = keep (λ (f : Fact). not (f.name == name)) s

-- PrivateScope.get
unfoldable pub get : String → List Fact → Option Fact
get name [] = none
get name (f ∷ s) = let rest = get name s in if f.name == name then some f else rest
