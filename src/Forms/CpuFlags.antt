-- ===== src/Forms/CpuFlags.antt =====
-- www/manager6/form/VMCPUFlagSelector.js: a text of processor flags such as `+aes;-pcid`, shown as a
-- grid with a state for each flag that the node knows.
pub mod Keeping
pub mod Parts
pub mod Unknown
use pve_manager_electrified.Prelude.{
  Bool, true, false, not, ◌&&◌, Option, none, some, List, [], ◌∷◌, ◌++◌, if◌then◌else◌,
}
use pve_manager_electrified.Text.{Text, codes, text_eq, nonempty, split, join}

-- A record of the store; the state is `=`, `+` or `-`.
pub record Flag : Type 0 where
  pub name : Text
  pub state : Text

-- The grid with its store; `unkown_flags` is spelled as in the source.
pub record Selector : Type 0 where
  pub flags : List Flag
  pub is_loaded : Bool
  pub adjusted_for_value : Option Text
  pub value : Text
  pub unkown_flags : List Text

abbrev pub add_part : Text → Text → Text
add_part [] part = part
add_part (c ∷ flags) part = (c ∷ flags) ++ b';' ∷ part

-- A state that is shown in the text.
unfoldable pub is_set : Text → Bool
unfolding text_eq
is_set s = nonempty s && not (text_eq s (codes "="))

unfoldable pub add_flags : List Flag → Text → Text
unfolding is_set
add_flags [] flags = flags
add_flags (rec ∷ recs) flags =
    add_flags recs (if is_set rec.state then add_part flags (rec.state ++ rec.name) else flags)

unfoldable pub get_value : Selector → Text
unfolding add_flags join
get_value me = if me.is_loaded then add_flags me.flags [] ++ join b';' me.unkown_flags else me.value

unfoldable pub reset : List Flag → List Flag
reset [] = []
reset (rec ∷ recs) = record rec { state = codes "=" } ∷ reset recs

-- `store.findRecord('name', flag, …)` by the exact name, which Ext does not find if it is empty, and
-- `rec.set('state', sign)`.
unfoldable pub set_state : Text → Text → List Flag → Option (List Flag)
unfolding text_eq
set_state flag sign [] = none
set_state flag sign (rec ∷ recs) =
    let rest = set_state flag sign recs in
    if nonempty flag && text_eq rec.name flag
    then some (record rec { state = sign } ∷ recs)
    else elim rest [ none ↦ none | some changed ↦ some (rec ∷ changed) ]

abbrev pub or_unknown : Option (List Flag) → Text → List Flag × List Text → List Flag × List Text
or_unknown none flag (recs, unknown) = (recs, unknown ++ flag ∷ [])
or_unknown (some changed) flag (recs, unknown) = (changed, unknown)

-- `flag.substr(0, 1)` and `flag.substr(1)`
abbrev pub sign_of : Text → Text
sign_of [] = []
sign_of (c ∷ flag) = c ∷ []

abbrev pub name_of : Text → Text
name_of [] = []
name_of (c ∷ flag) = flag

unfoldable pub apply_flag : Text → List Flag × List Text → List Flag × List Text
unfolding set_state
apply_flag flag (recs, unknown) =
    or_unknown (set_state (name_of flag) (sign_of flag) recs) (name_of flag) (recs, unknown)

unfoldable pub apply_flags : List Text → List Flag × List Text → List Flag × List Text
unfolding apply_flag
apply_flags [] state = state
apply_flags (flag ∷ flags) state = apply_flags flags (apply_flag flag state)

-- `value ? value.split(';') : []`
unfoldable pub flags_of : Text → List Text
unfolding split
flags_of [] = []
flags_of (c ∷ value) = split b';' (c ∷ value)

unfoldable pub adjust_store_for_value : Selector → Selector
unfolding apply_flags flags_of reset
adjust_store_for_value me =
    let applied = apply_flags (flags_of me.value) (reset me.flags, []) in
    record me { flags = applied.0; unkown_flags = applied.1; adjusted_for_value = some me.value }

-- setValue, with `value || ''`.
unfoldable pub set_value : Text → Selector → Selector
unfolding adjust_store_for_value
set_value value me =
    let changed = record me { value = value } in
    if me.is_loaded then adjust_store_for_value changed else changed

adjusted_to : Option Text → Text → Bool
unfolding text_eq
adjusted_to none value = false
adjusted_to (some old) value = text_eq old value

-- The listener of the store's event `refresh`.
unfoldable pub refresh : Selector → Selector
unfolding adjusted_to adjust_store_for_value
refresh me = if adjusted_to me.adjusted_for_value me.value then me else adjust_store_for_value me
