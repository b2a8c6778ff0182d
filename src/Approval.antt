-- ===== src/Approval.antt =====
-- Authorization policies for the write gate: src/clonway_cockpit/approval.py.
-- A policy answers a proposal with a decision and its new state. A lookup of an unhashable key in
-- the allowlist raises TypeError, which is a value of `Verdict`.
pub mod Session
mod Tests
use clonway_cockpit.Prelude.{
  ℕ, zero, suc, ◌+◌, ◌-◌, ◌*◌, ◌/◌, ◌%◌, ◌≤◌, ◌<◌, min, max, String, ◌≡◌, refl, sym, ap, ◌∙◌, ◌≢◌,
  ◌↔◌, ◌⊎◌, inl, inr, Bool, true, false, not, ◌&&◌, ◌||◌, Option, none, some, List, [], ◌∷◌, ◌++◌,
  map, arith, ◌==◌, eq_iff, eq_refl, ltb, leb, nat_eq, if◌then◌else◌, ltb→lt, leb→le, Bool-cases,
  Option-cases, is_some, length, take, drop, any, all, keep, All, length-append, elem, Distinct,
  elem-append, All-append,
}
use clonway_cockpit.Value.{
  Value, Items, Fields, null, bool, int, float, str, arr, obj, no_items, item, no_members, member,
  lookup, lookup_or, is_false, is_true,
}
use clonway_cockpit.Prelude.Int.{ℤ, pos, negsuc}

pub data Verdict : Type 0 where
  verdict : Bool → Verdict
  type_error : Verdict

unfoldable pub deny_all : Fields → Bool
deny_all proposal = false

unfoldable pub approve_all : Fields → Bool
approve_all proposal = true

-- `applied` is the private counter of autonomous applies
pub record AllowlistPolicy : Type 0 where
  pub allowlist : List String
  pub label : String
  pub max_applies : Option ℕ
  pub applied : ℕ

-- bool(key) and key in self.allowlist, for a key that may be absent or of any type
unfoldable pub key_listed : List String → Option Value → Verdict
key_listed allowed none = verdict false
key_listed allowed (some (str s)) = verdict (not (s == "") && elem s allowed)
key_listed allowed (some (arr (item v vs))) = type_error
key_listed allowed (some (obj (member k v m))) = type_error
key_listed allowed (some v) = verdict false

unfoldable pub cap_reached : AllowlistPolicy → Bool
cap_reached p = elim p.max_applies [ none ↦ false | some n ↦ leb n p.applied ]

-- what follows once the key was looked up
unfoldable pub under_cap : AllowlistPolicy → Verdict → Verdict × AllowlistPolicy
unfolding cap_reached
under_cap p type_error = (type_error, p)
under_cap p (verdict false) = (verdict false, p)
under_cap p (verdict true) =
    if cap_reached p
    then (verdict false, p)
    else (verdict true, record p { applied = p.applied + 1 })

-- AllowlistPolicy.__call__
unfoldable pub decide : AllowlistPolicy → Fields → Verdict × AllowlistPolicy
unfolding under_cap
decide p proposal =
    if is_false (lookup_or (bool false) "money_movement" proposal)
    then under_cap p (key_listed p.allowlist (lookup "capability_key" proposal))
    else (verdict false, p)

-- the answers that `prompt_human` takes for a yes, after strip() and lower()
unfoldable pub is_yes : String → Bool
is_yes answer = answer == "y" || answer == "yes"
