-- ===== src/Receptionist/Points.antt =====
-- receptionist.py
-- Whom a route points at.
use clonway_cockpit.Prelude.{
  ℕ, String, ◌≡◌, refl, sym, ap, ◌∙◌, ◌⊎◌, inl, inr, Bool, true, Option, none, some, List, [], ◌∷◌,
  arith, ◌==◌, eq_iff, eq_refl, Bool-cases, keep, All, elem,
}
use clonway_cockpit.Prelude.{some_eq}
use clonway_cockpit.GroupChat.{Persona, extract_mentions}
use clonway_cockpit.Receptionist.{
  route, route_from, route_mentioned, route_domain, resolve, get_persona, with_persona,
}

-- the one of a list of one
abbrev pub sole : List Persona → Option Persona
sole [] = none
sole (p ∷ []) = some p
sole (p ∷ q ∷ ps) = none

abbrev pub handles : List Persona → List String
handles [] = []
handles (p ∷ ps) = p.handle ∷ handles ps

-- a persona of the registry that was addressed, or whose domain it is where nobody was
abbrev pub IsOwner :
    (String → Persona → Bool) → String → List Persona → List String → Persona → Type 0
IsOwner matcher text registry raw p =
    (elem p.handle (handles registry) ≡ true)
    × ((elem p.handle raw ≡ true) ⊎ ((raw ≡ []) × (matcher text p ≡ true)))

route_mentioned-sole :
    (raw : List String) (ps : List Persona) → (route_mentioned raw ps).persona ≡ sole ps
unfolding route_mentioned
route_mentioned-sole raw [] = refl
route_mentioned-sole raw (p ∷ []) = refl
route_mentioned-sole raw (p ∷ q ∷ ps) = refl

route_mentioned-candidates :
    (raw : List String) (ps : List Persona) → (route_mentioned raw ps).candidates ≡ ps
unfolding route_mentioned
route_mentioned-candidates raw [] = refl
route_mentioned-candidates raw (p ∷ []) = refl
route_mentioned-candidates raw (p ∷ q ∷ ps) = refl

route_domain-sole : (ps : List Persona) → (route_domain ps).persona ≡ sole ps
unfolding route_domain
route_domain-sole [] = refl
route_domain-sole (p ∷ []) = refl
route_domain-sole (p ∷ q ∷ ps) = refl

route_domain-candidates : (ps : List Persona) → (route_domain ps).candidates ≡ ps
unfolding route_domain
route_domain-candidates [] = refl
route_domain-candidates (p ∷ []) = refl
route_domain-candidates (p ∷ q ∷ ps) = refl

-- the persona that is found has the handle
get_persona-some :
    (registry : List Persona) (h : String) (p : Persona)
    → get_persona registry h ≡ some p
    → (p.handle ≡ h) × (elem p.handle (handles registry) ≡ true)
unfolding get_persona
get_persona-some [] h p e = absurd (cc e)
get_persona-some (q ∷ qs) h p e = elim (Bool-cases (q.handle == h)) [
  | inl k ↦
      let found : get_persona (q ∷ qs) h ≡ some q = rw k refl in
      let same : q ≡ p = some_eq (sym found ∙ e) in
      let name : p.handle ≡ h =
        sym (ap (λ (r : Persona). r.handle) same) ∙ (eq_iff q.handle h).0 k in
      let at : (q.handle == p.handle) ≡ true =
        (eq_iff q.handle p.handle).1 (ap (λ (r : Persona). r.handle) same) in
      (name, rw at refl)
  | inr k ↦
      let later : get_persona (q ∷ qs) h ≡ get_persona qs h = rw k refl in
      let (name, there) = get_persona-some qs h p (sym later ∙ e) in (name, ground (arith, there))
]

module _ (matcher : String → Persona → Bool) (text : String) (registry : List Persona) where
  resolve_one :
      (o : Option Persona) (h : String) (raw : List String) (ps : List Persona)
      → get_persona registry h ≡ o
      → elem h raw ≡ true
      → All (IsOwner matcher text registry raw) ps
      → All (IsOwner matcher text registry raw) (with_persona o ps)
  unfolding with_persona
  resolve_one none h raw ps e k a = a
  resolve_one (some p) h raw ps e k a =
      let (name, there) = get_persona-some registry h p e in
      ((there, inl (ap (λ n. elem n raw) name ∙ k)), a)

  resolve-IsOwner :
      (hs raw : List String)
      → ((h : String) → elem h hs ≡ true → elem h raw ≡ true)
      → All (IsOwner matcher text registry raw) (resolve registry hs)
  unfolding resolve
  resolve-IsOwner [] raw sub = tt
  resolve-IsOwner (h ∷ hs) raw sub =
      let here : elem h (h ∷ hs) ≡ true = rw (eq_refl h) refl in
      resolve_one (get_persona registry h) h raw (resolve registry hs) refl (sub h here)
        (resolve-IsOwner hs raw (λ x k. sub x (ground (arith, k))))

  keep-IsOwner :
      (ps : List Persona)
      → ((h : String) → elem h (handles ps) ≡ true → elem h (handles registry) ≡ true)
      → All (IsOwner matcher text registry []) (keep (matcher text) ps)
  keep-IsOwner [] sub = tt
  keep-IsOwner (p ∷ ps) sub =
      let rest = keep-IsOwner ps (λ x k. sub x (ground (arith, k))) in
      let here : elem p.handle (handles (p ∷ ps)) ≡ true = rw (eq_refl p.handle) refl in
      elim (Bool-cases (matcher text p)) [
        | inl e ↦ rw e ((sub p.handle here, inr (refl, e)), rest)
        | inr e ↦ rw e rest
      ]

  route_from-points :
      (raw : List String)
      → ((route_from matcher text registry raw).persona
          ≡ sole (route_from matcher text registry raw).candidates)
        × All (IsOwner matcher text registry raw) (route_from matcher text registry raw).candidates
  unfolding route_from
  route_from-points [] =
      let ps : List Persona = keep (matcher text) registry in
      (
        route_domain-sole ps ∙ ap sole (sym (route_domain-candidates ps)),
        rw (route_domain-candidates ps) (keep-IsOwner registry (λ h k. k)),
      )
  route_from-points (h ∷ hs) =
      let ps : List Persona = resolve registry (h ∷ hs) in
      (
        route_mentioned-sole (h ∷ hs) ps ∙ ap sole (sym (route_mentioned-candidates (h ∷ hs) ps)),
        rw (route_mentioned-candidates (h ∷ hs) ps) (resolve-IsOwner (h ∷ hs) (h ∷ hs) (λ x k. k)),
      )

  -- A route points at a persona exactly when there is one candidate, and each candidate is of the
  -- registry and was addressed in the text, or nobody was addressed and its domain matches.
  pub route-points :
      (wide : ℕ → Bool)
      → ((route wide matcher text registry).persona
          ≡ sole (route wide matcher text registry).candidates)
        × All
            (IsOwner matcher text registry (extract_mentions wide text))
            (route wide matcher text registry).candidates
  unfolding route
  route-points wide = route_from-points (extract_mentions wide text)
