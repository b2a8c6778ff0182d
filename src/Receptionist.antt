-- ===== src/Receptionist.antt =====
-- The front door of the fleet, which points at a persona and never acts: `route` of
-- src/clonway_cockpit/receptionist.py, with the mentions and the domains of GroupChat. The registry
-- (src/clonway_cockpit/persona.py) is the list of its personas in the order of their handles.
pub mod Points
mod Tests
use clonway_cockpit.Prelude.{
  ℕ, zero, suc, ◌+◌, ◌-◌, ◌*◌, ◌/◌, ◌%◌, ◌≤◌, ◌<◌, min, max, String, ◌≡◌, refl, sym, ap, ◌∙◌, ◌≢◌,
  ◌↔◌, ◌⊎◌, inl, inr, Bool, true, false, not, ◌&&◌, ◌||◌, Option, none, some, List, [], ◌∷◌, ◌++◌,
  map, arith, ◌==◌, eq_iff, eq_refl, ltb, leb, nat_eq, if◌then◌else◌, ltb→lt, leb→le, Bool-cases,
  and_split, Option-cases, is_some, length, take, drop, any, all, keep, All, length-append, elem,
  Distinct, elem-append, All-append,
}
use clonway_cockpit.Prelude.Texts.{text_append, join}
use clonway_cockpit.GroupChat.{Persona, extract_mentions}

pub record Route : Type 0 where
  pub persona : Option Persona
  pub candidates : List Persona
  pub message : String

-- Route.kind
unfoldable pub kind_of_route : Route → String
kind_of_route r = elim r.persona [
  | some p ↦ "direct"
  | none ↦ if leb 1 (length r.candidates) then "ambiguous" else "none"
]

-- PersonaRegistry.get
unfoldable pub get_persona : List Persona → String → Option Persona
get_persona [] handle = none
get_persona (p ∷ ps) handle =
    let rest = get_persona ps handle in if p.handle == handle then some p else rest

unfoldable pub with_persona : Option Persona → List Persona → List Persona
with_persona none ps = ps
with_persona (some p) ps = p ∷ ps

-- the personas of the handles that the registry has
unfoldable pub resolve : List Persona → List String → List Persona
unfolding get_persona with_persona
resolve registry [] = []
resolve registry (h ∷ hs) = with_persona (get_persona registry h) (resolve registry hs)

unfoldable pub at_handle : Persona → String
at_handle p = text_append "@" p.handle

-- someone was addressed
unfoldable pub route_mentioned : List String → List Persona → Route
unfolding at_handle
route_mentioned raw [] = record {
  persona = none;
  candidates = [];
  message =
      text_append "I don't recognise "
        (text_append (join ", " (map (text_append "@") raw)) ". Want me to list the team?");
}
route_mentioned raw (p ∷ []) = record {
  persona = some p;
  candidates = p ∷ [];
  message =
      text_append "That's " (text_append p.name (text_append " — " (text_append p.domain ".")));
}
route_mentioned raw (p ∷ q ∷ ps) = record {
  persona = none;
  candidates = p ∷ q ∷ ps;
  message =
      text_append "That's for "
        (text_append (join " and " (map at_handle (p ∷ q ∷ ps))) " — both can chime in.");
}

-- nobody was: the personas whose domain it is
unfoldable pub route_domain : List Persona → Route
unfolding at_handle
route_domain [] = record {
  persona = none;
  candidates = [];
  message = "I'm not sure who owns that — want me to list the team?";
}
route_domain (p ∷ []) = record {
  persona = some p;
  candidates = p ∷ [];
  message = text_append "That's " (
      text_append p.name (
        text_append "'s — "
          (text_append p.domain (text_append ". Talk to @" (text_append p.handle ".")))));
}
route_domain (p ∷ q ∷ ps) = record {
  persona = none;
  candidates = p ∷ q ∷ ps;
  message =
      text_append "That could be "
        (text_append (join " or " (map at_handle (p ∷ q ∷ ps))) " — who did you mean?");
}

unfoldable pub route_from : (String → Persona → Bool) → String → List Persona → List String → Route
unfolding resolve route_mentioned route_domain
route_from matcher text registry [] = route_domain (keep (matcher text) registry)
route_from matcher text registry (h ∷ hs) = route_mentioned (h ∷ hs) (resolve registry (h ∷ hs))

-- route: `matcher` is `domain_matches or domain_match`
unfoldable pub route : (ℕ → Bool) → (String → Persona → Bool) → String → List Persona → Route
unfolding route_from
route wide matcher text registry = route_from matcher text registry (extract_mentions wide text)
