-- ===== src/Json.antt =====
-- JSON values, as the handlers receive them after `JSON.parse`.
use openkey.Common.{ℕ, Bool, String, Option, none, some, List, [], ◌∷◌, ◌==◌, if◌then◌else◌}

-- A JavaScript number: a whole number from 0, or one of the others (negative, fractional, not
-- finite), which the modelled code only rejects or copies.
pub data Number : Type 0 where
  whole : ℕ → Number
  other : ℕ → Number

mutual
  pub data Json : Type 0 where
    null : Json
    bool : Bool → Json
    num : Number → Json
    str : String → Json
    arr : Items → Json
    obj : Fields → Json

  pub data Items : Type 0 where
    nil : Items
    item : Json → Items → Items

  pub data Fields : Type 0 where
    end : Fields
    field : String → Json → Fields → Fields

-- `undefined` is `none`.
unfoldable pub get : String → Fields → Option Json
get k end = none
get k (field j v fs) = if j == k then some v else get k fs

unfoldable pub keys : Fields → List String
keys end = []
keys (field k v fs) = k ∷ keys fs

unfoldable pub items : Items → List Json
items nil = []
items (item v vs) = v ∷ items vs

-- The recursive sort of the keys, by a comparison `le`: `Object.entries(value).sort(...)` and
-- `Object.keys(value).sort()`. Arrays keep their order.
module _ (le : String → String → Bool) where
  insert_field : String → Json → Fields → Fields
  insert_field k v end = field k v end
  insert_field k v (field j w fs) =
      if le k j then field k v (field j w fs) else field j w (insert_field k v fs)

  unfoldable mutual
    unfolding insert_field

    pub canonical : Json → Json
    canonical null = null
    canonical (bool b) = bool b
    canonical (num n) = num n
    canonical (str s) = str s
    canonical (arr xs) = arr (canonical_items xs)
    canonical (obj fs) = obj (canonical_fields fs)

    pub canonical_items : Items → Items
    canonical_items nil = nil
    canonical_items (item v vs) = item (canonical v) (canonical_items vs)

    pub canonical_fields : Fields → Fields
    canonical_fields end = end
    canonical_fields (field k v fs) = insert_field k (canonical v) (canonical_fields fs)
