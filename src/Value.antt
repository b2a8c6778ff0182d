-- ===== src/Value.antt =====
-- Python objects as JSON carries them: what a proposal, a payload or a model's answer holds.
-- `obj` is a dict: its keys are distinct, in insertion order.
use clonway_cockpit.Prelude.{
  String, Bool, false, Option, none, some, List, [], ◌∷◌, ◌==◌, not, if◌then◌else◌,
}
use clonway_cockpit.Prelude.Int.{ℤ}

mutual
  pub data Value : Type 0 where
    str : String → Value
    int : ℤ → Value
    bool : Bool → Value
    -- a float stays the text of its token
    float : String → Value
    obj : Fields → Value
    arr : Items → Value
    null : Value

  pub data Fields : Type 0 where
    no_members : Fields
    member : String → Value → Fields → Fields

  pub data Items : Type 0 where
    no_items : Items
    item : Value → Items → Items

-- m.get(key)
unfoldable pub lookup : String → Fields → Option Value
lookup key no_members = none
lookup key (member k v m) = let rest = lookup key m in if k == key then some v else rest

-- m.get(key, default)
unfoldable pub lookup_or : Value → String → Fields → Value
unfolding lookup
lookup_or default key m = elim (lookup key m) [ none ↦ default | some v ↦ v ]

-- v is False
unfoldable pub is_false : Value → Bool
is_false (bool b) = not b
is_false _ = false

-- v is True
unfoldable pub is_true : Value → Bool
is_true (bool b) = b
is_true _ = false

unfoldable pub items : Items → List Value
items no_items = []
items (item v vs) = v ∷ items vs

-- list(m), in the order of insertion
unfoldable pub member_names : Fields → List String
member_names no_members = []
member_names (member k v m) = k ∷ member_names m

-- m.get(key) == t, for a text
unfoldable pub holds_text : Option Value → String → Bool
holds_text (some (str s)) t = s == t
holds_text _ t = false
