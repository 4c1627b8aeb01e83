-- ===== src/Object.antt =====
-- JavaScript objects that the manager uses as maps from texts (www/manager6/Parser.js,
-- www/manager6/Utils.js): own properties in the order of their creation, an assignment that the
-- setter `__proto__` swallows, the names inherited from `Object.prototype`, and the order in which
-- `Object.entries`, `Object.keys` and `Ext.Object.each` visit the own properties.
pub mod Laws
use pve_manager_electrified.Prelude.{
  ℕ, ◌+◌, ◌-◌, ◌*◌, ◌^◌, Bool, true, false, not, ◌&&◌, ◌||◌, Option, none, some, List, [], ◌∷◌,
  ◌++◌, leb, ltb, ◌==◌, if◌then◌else◌,
}
use pve_manager_electrified.Text.{Text, codes, text_eq, text_mem, is_digits}

abbrev pub proto_setter : Text
proto_setter = codes "__proto__"

-- What `{}` inherits; each of these reads as a value that is defined and truthy.
abbrev pub prototype_names : List Text
prototype_names =
    codes "__proto__"
    ∷ codes "constructor"
    ∷ codes "hasOwnProperty"
    ∷ codes "isPrototypeOf"
    ∷ codes "propertyIsEnumerable"
    ∷ codes "toLocaleString"
    ∷ codes "toString"
    ∷ codes "valueOf"
    ∷ codes "__defineGetter__"
    ∷ codes "__defineSetter__"
    ∷ codes "__lookupGetter__"
    ∷ codes "__lookupSetter__"
    ∷ []

-- The number that decimal digits write.
unfoldable pub digits_value : ℕ → Text → ℕ
digits_value acc [] = acc
digits_value acc (c ∷ s) = digits_value (acc * 10 + (c - b'0')) s

-- Texts that write an array index; such properties come first, in ascending order.
unfoldable pub is_index : Text → Bool
unfolding is_digits digits_value
is_index [] = false
is_index (c ∷ s) =
    is_digits (c ∷ s)
    && (text_eq (c ∷ s) (codes "0") || not (c == b'0'))
    && ltb (digits_value 0 (c ∷ s)) (2 ^ 32 - 1)

module _ {ℓ} {V : Type ℓ} where
  unfoldable pub lookup : Text → List (Text × V) → Option V
  unfolding text_eq
  lookup k [] = none
  lookup k ((j, v) ∷ o) = if text_eq k j then some v else lookup k o

  -- An own property is overwritten in its place, a new one comes last.
  unfoldable pub put_own : Text → V → List (Text × V) → List (Text × V)
  unfolding text_eq
  put_own k v [] = (k, v) ∷ []
  put_own k v ((j, w) ∷ o) = if text_eq k j then (j, v) ∷ o else (j, w) ∷ put_own k v o

  -- `res[k] = v`, where `v` is a primitive value.
  unfoldable pub put : Text → V → List (Text × V) → List (Text × V)
  unfolding put_own
  put k v o = if text_eq k proto_setter then o else put_own k v o

  -- `delete res[k]`
  unfoldable pub remove : Text → List (Text × V) → List (Text × V)
  unfolding text_eq
  remove k [] = []
  remove k ((j, w) ∷ o) = let rest = remove k o in if text_eq k j then rest else (j, w) ∷ rest

  unfoldable pub has_own : Text → List (Text × V) → Bool
  unfolding text_eq
  has_own k [] = false
  has_own k ((j, v) ∷ o) = text_eq k j || has_own k o

  -- `Ext.isDefined(res[k])`, inherited properties included.
  unfoldable pub is_defined : Text → List (Text × V) → Bool
  unfolding has_own text_mem
  is_defined k o = has_own k o || text_mem k prototype_names

  insert_index : ℕ → Text × V → List (Text × V) → List (Text × V)
  insert_index n e [] = e ∷ []
  insert_index n e ((j, w) ∷ o) =
      let rest = insert_index n e o in
      if ltb n (digits_value 0 j) then e ∷ (j, w) ∷ o else (j, w) ∷ rest

  index_entries : List (Text × V) → List (Text × V)
  index_entries [] = []
  index_entries ((j, w) ∷ o) =
      let rest = index_entries o in
      if is_index j then insert_index (digits_value 0 j) (j, w) rest else rest

  other_entries : List (Text × V) → List (Text × V)
  other_entries [] = []
  other_entries ((j, w) ∷ o) =
      let rest = other_entries o in if is_index j then rest else (j, w) ∷ rest

  -- `Object.entries(o)`
  unfoldable pub entries : List (Text × V) → List (Text × V)
  unfolding insert_index index_entries other_entries is_index
  entries o = index_entries o ++ other_entries o
