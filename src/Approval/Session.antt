-- ===== src/Approval/Session.antt =====
-- What one call and one session of the allowlist policy of approval.py can authorize.
use clonway_cockpit.Prelude.{
  ℕ, ◌+◌, ◌≤◌, String, ◌≡◌, refl, ◌≢◌, ◌↔◌, ◌⊎◌, inl, inr, true, false, Option, some, List, [], ◌∷◌,
  arith, ◌==◌, length, All, elem,
}
use clonway_cockpit.Value.{
  Value, Fields, bool, str, arr, obj, item, member, lookup, lookup_or, is_false,
}
use clonway_cockpit.Approval.{
  Verdict, verdict, type_error, AllowlistPolicy, key_listed, cap_reached, under_cap, decide,
}

-- A proposal that the operator allowed: the flag is False (or left out), and a key on the list.
pub record Eligible (allowed : List String) (proposal : Fields) : Type 0 where
  pub no_money : is_false (lookup_or (bool false) "money_movement" proposal) ≡ true
  pub key : String
  pub keyed : lookup "capability_key" proposal ≡ some (str key)
  pub nonempty : (key == "") ≡ false
  pub listed : elem key allowed ≡ true

key_listed-true :
    (allowed : List String) (o : Option Value)
    → key_listed allowed o ≡ verdict true
    → (s : String) × (o ≡ some (str s)) × ((s == "") ≡ false) × (elem s allowed ≡ true)
unfolding key_listed
key_listed-true allowed (some (str s)) h = (s, refl, ground arith, ground arith)
key_listed-true allowed (some (arr (item v vs))) h = cc
key_listed-true allowed (some (obj (member k v m))) h = cc
key_listed-true allowed o h = cc

pub decide-Eligible :
    (p : AllowlistPolicy) (m : Fields) → (decide p m).0 ≡ verdict true → Eligible p.allowlist m
unfolding decide under_cap
decide-Eligible p m h =
    let (s, e, n, l) = key_listed-true p.allowlist (lookup "capability_key" m) (ground arith) in
    record { no_money = ground arith; key = s; keyed = e; nonempty = n; listed = l }

decide-room :
    (p : AllowlistPolicy) (m : Fields) → (decide p m).0 ≡ verdict true → cap_reached p ≡ false
unfolding decide under_cap
decide-room p m h = ground arith

-- A session: the policy is asked about each proposal in turn.
pub session : AllowlistPolicy → List Fields → List Verdict × AllowlistPolicy
session p [] = ([], p)
session p (m ∷ ms) = let (v, q) = decide p m in let (vs, r) = session q ms in (v ∷ vs, r)

-- The proposals that were authorized.
pub authorized : List Verdict → List Fields → List Fields
authorized (verdict true ∷ vs) (m ∷ ms) = m ∷ authorized vs ms
authorized (v ∷ vs) (m ∷ ms) = authorized vs ms
authorized _ _ = []

decide-iff_lem :
    (p : AllowlistPolicy) (m : Fields)
    → Eligible p.allowlist m
    → cap_reached p ≡ false
    → (decide p m).0 ≡ verdict true
unfolding decide under_cap key_listed
decide-iff_lem p m e room = rw (e.keyed) (ground arith)

-- A call authorizes exactly if the proposal is eligible (money_movement False or absent, a
-- non-empty text key, on the allowlist) and the session cap is not reached.
pub decide_iff :
    (p : AllowlistPolicy) (m : Fields)
    → ((decide p m).0 ≡ verdict true) ↔ (Eligible p.allowlist m × (cap_reached p ≡ false))
decide_iff p m = (λ h. (decide-Eligible p m h, decide-room p m h), λ e. decide-iff_lem p m e.0 e.1)

-- How a call counts: one more apply exactly if it authorizes, and then there was room.
decide-true :
    (p : AllowlistPolicy) (m : Fields)
    → (decide p m).0 ≡ verdict true
    → (decide p m).1 ≡ record p { applied = p.applied + 1 }
unfolding decide under_cap
decide-true p m h = ground arith

decide-other :
    (p : AllowlistPolicy) (m : Fields) → (decide p m).0 ≢ verdict true → (decide p m).1 ≡ p
unfolding decide under_cap
decide-other p m h = ground arith

Verdict-cases : (v : Verdict) → (v ≡ verdict true) ⊎ (v ≢ verdict true)
Verdict-cases (verdict true) = inl refl
Verdict-cases (verdict false) = inr (λ e. cc)
Verdict-cases type_error = inr (λ e. cc)

authorized-other :
    (v : Verdict) (vs : List Verdict) (m : Fields) (ms : List Fields)
    → v ≢ verdict true
    → authorized (v ∷ vs) (m ∷ ms) ≡ authorized vs ms
unfolding authorized
authorized-other (verdict true) vs m ms h = absurd (h refl)
authorized-other (verdict false) vs m ms h = refl
authorized-other type_error vs m ms h = refl

-- What a session may do under a cap: the authorized proposals are eligible, and are counted.
pub record IsSafe (p : AllowlistPolicy) (cap : ℕ) (ms : List Fields) : Type 0 where
  pub eligible : All (Eligible p.allowlist) (authorized (session p ms).0 ms)
  pub within : p.applied + length (authorized (session p ms).0 ms) ≤ cap
  pub counted : (session p ms).1.applied ≡ p.applied + length (authorized (session p ms).0 ms)

decide-below :
    (p : AllowlistPolicy) (m : Fields) (cap : ℕ)
    → p.max_applies ≡ some cap
    → (decide p m).0 ≡ verdict true
    → p.applied + 1 ≤ cap
unfolding cap_reached
decide-below p m cap e t = ground (arith, decide-room p m t)

-- Under a cap that is not yet passed, every authorized proposal of a session is eligible, no more
-- are authorized than the cap leaves, and the counter says how many were.
pub session-IsSafe :
    (cap : ℕ) (ms : List Fields) (p : AllowlistPolicy)
    → p.max_applies ≡ some cap
    → p.applied ≤ cap
    → IsSafe p cap ms
unfolding session authorized
session-IsSafe cap [] p e h = record { eligible = tt; within = omega arith; counted = omega arith }
session-IsSafe cap (m ∷ ms) p e h = elim (Verdict-cases (decide p m).0) [
  | inl t ↦
      let q = record p { applied = p.applied + 1 } in
      let rest = session-IsSafe cap ms q e (decide-below p m cap e t) in
      let moved = decide-true p m t in
      record {
        eligible = rw (t, moved) (decide-Eligible p m t, rest.eligible);
        within = rw (t, moved) (omega (arith, rest.within));
        counted = rw (t, moved) (omega (arith, rest.counted));
      }
  | inr o ↦
      let rest = session-IsSafe cap ms p e h in
      let moved = decide-other p m o in
      let skip = authorized-other (decide p m).0 (session p ms).0 m ms o in
      record {
        eligible = rw (moved, skip) rest.eligible;
        within = rw (moved, skip) rest.within;
        counted = rw (moved, skip) rest.counted;
      }
]
