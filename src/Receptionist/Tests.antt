-- ===== src/Receptionist/Tests.antt =====
-- receptionist.py
-- Routes to two personas: by a mention, by a domain, and to nobody.
use clonway_cockpit.Prelude.{ℕ, String, ◌≡◌, refl, Bool, false, List, [], ◌∷◌}
use clonway_cockpit.Prelude.Texts.{text_append, lower, join}
use clonway_cockpit.Handoff.{slug_head, slug_char}
use clonway_cockpit.GroupChat.{Persona, domain_match, extract_mentions}
use clonway_cockpit.Receptionist.{route, kind_of_route}

abbrev ascii : ℕ → Bool
ascii c = false

abbrev persona : String → String → String → Persona
persona handle name domain = record {
  handle = handle;
  name = name;
  domain = domain;
  email = "";
  avatar_ref = "";
  voice = "";
}

abbrev team : List Persona
team = persona "milo" "Milo" "books and invoices" ∷ persona "rosa" "Rosa" "rota and shifts" ∷ []

abbrev message_to : String → String
message_to text = (route ascii (domain_match ascii) text team).message

abbrev kind_to : String → String
kind_to text = kind_of_route (route ascii (domain_match ascii) text team)

by_domain :
    message_to "who pays the invoices" ≡ "That's Milo's — books and invoices. Talk to @milo."
unfolding route extract_mentions domain_match lower slug_head slug_char text_append join
    kind_of_route
by_domain = refl

mention_wins : message_to "@rosa the invoices" ≡ "That's Rosa — rota and shifts."
unfolding route extract_mentions domain_match lower slug_head slug_char text_append join
    kind_of_route
mention_wins = refl

stranger : message_to "@zed the invoices" ≡ "I don't recognise @zed. Want me to list the team?"
unfolding route extract_mentions domain_match lower slug_head slug_char text_append join
    kind_of_route
stranger = refl

both_asked : kind_to "invoices for the rota" ≡ "ambiguous"
unfolding route extract_mentions domain_match lower slug_head slug_char text_append join
    kind_of_route
both_asked = refl

nobody : kind_to "hello" ≡ "none"
unfolding route extract_mentions domain_match lower slug_head slug_char text_append join
    kind_of_route
nobody = refl
