-- ===== src/Utils/Fields.antt =====
-- The helpers of www/manager6/Utils.js on the values of a form: delete_if_default and
-- propertyStringSet. A value is a text or an array of texts.
pub mod Deleting
use pve_manager_electrified.Prelude.{
  Bool, true, false, ◌||◌, Option, none, some, List, [], ◌∷◌, ◌++◌, if◌then◌else◌,
}
use pve_manager_electrified.Text.{Text, codes, text_eq, nonempty}
use pve_manager_electrified.Object.{lookup, put, remove}

pub data Field : Type 0 where
  text : Text → Field
  array : List Text → Field

abbrev pub delete_key : Text
delete_key = codes "delete"

-- `value === '' || value === default_val`, where the default is a text.
unfoldable pub is_default : Text → Option Field → Bool
unfolding text_eq
is_default default_val none = false
is_default default_val (some (text v)) = text_eq v [] || text_eq v default_val
is_default default_val (some (array vs)) = false

-- `values.delete` with one more name; one that is falsy is set.
unfoldable pub listed : Text → Option Field → Field
listed fieldname none = text fieldname
listed fieldname (some (text [])) = text fieldname
listed fieldname (some (text (c ∷ s))) = text ((c ∷ s) ++ b',' ∷ fieldname)
listed fieldname (some (array vs)) = array (vs ++ (fieldname ∷ []))

-- The values that the call leaves behind.
unfoldable pub delete_if_default : List (Text × Field) → Text → Text → Bool → List (Text × Field)
unfolding is_default listed lookup put remove
delete_if_default values fieldname default_val create =
    if is_default default_val (lookup fieldname values)
    then remove fieldname (
        if create
        then values
        else put delete_key (listed fieldname (lookup delete_key values)) values)
    else values

-- `source` and `value` may be `undefined`; a source that is falsy deletes the option.
unfoldable pub property_string_set :
    List (Text × Text) → Option Text → Text → Option Text → List (Text × Text)
unfolding put remove
property_string_set target none name value = remove name target
property_string_set target (some []) name value = remove name target
property_string_set target (some (c ∷ s)) name none = put name (c ∷ s) target
property_string_set target (some (c ∷ s)) name (some v) = put name v target
