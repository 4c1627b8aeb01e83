-- ===== src/Forms/CpuFlags/Unknown.antt =====
-- Flags that the node does not know lose their sign.
use pve_manager_electrified.Prelude.{
  ◌≡◌, ◌≢◌, refl, sym, ap, ◌∙◌, true, false, ◌&&◌, none, List, [], ◌∷◌, ◌++◌, All, map, arith,
  append_assoc, append-nil,
}
use pve_manager_electrified.Text.{Text, text_eq, nonempty, join}
use pve_manager_electrified.Text.Equality.{text_eq_iff}
use pve_manager_electrified.Forms.CpuFlags.{
  Flag, Selector, is_set, add_flags, get_value, reset, set_state, apply_flag, apply_flags, flags_of,
  set_value, sign_of, name_of,
}
use pve_manager_electrified.Forms.CpuFlags.Keeping.{set_value_of_loaded}

-- No flag of the grid is the one that the text names.
abbrev pub IsUnknown : List Flag → Text → Type 0
IsUnknown recs flag = All (λ r. r.name ≢ name_of flag) recs

set_state_of_unknown :
    (flag sign : Text) (recs : List Flag)
    → All (λ r. r.name ≢ flag) recs
    → set_state flag sign (reset recs) ≡ none
unfolding set_state reset
set_state_of_unknown flag sign [] h = refl
set_state_of_unknown flag sign (r ∷ recs) (n, h) =
    let other : nonempty flag && text_eq r.name flag ≡ false =
      ground (arith, text_eq_iff r.name flag, n) in
    rw (other, set_state_of_unknown flag sign recs h) refl

apply_flags_of_unknown :
    (fs : List Text) (recs : List Flag) (unknown : List Text)
    → All (IsUnknown recs) fs
    → apply_flags fs (reset recs, unknown) ≡ (reset recs, unknown ++ map name_of fs)
unfolding apply_flags
apply_flags_of_unknown [] recs unknown h = ap (λ u. (reset recs, u)) (sym (append-nil unknown))
apply_flags_of_unknown (f ∷ fs) recs unknown (n, h) =
    let step : apply_flag f (reset recs, unknown) ≡ (reset recs, unknown ++ name_of f ∷ []) =
      unfold apply_flag in rw (set_state_of_unknown (name_of f) (sign_of f) recs n) refl in
    ap (apply_flags fs) step
    ∙ apply_flags_of_unknown fs recs (unknown ++ name_of f ∷ []) h
    ∙ ap (λ u. (reset recs, u)) (append_assoc unknown (name_of f ∷ []) (map name_of fs))

add_flags-reset : (recs : List Flag) → add_flags (reset recs) [] ≡ []
unfolding add_flags reset is_set text_eq
add_flags-reset [] = refl
add_flags-reset (r ∷ recs) = add_flags-reset recs

get_value_of_parts :
    (me : Selector) (recs : List Flag) (unknown : List Text)
    → me.is_loaded ≡ true
    → me.flags ≡ reset recs
    → me.unkown_flags ≡ unknown
    → get_value me ≡ join b';' unknown
unfolding get_value
get_value_of_parts me recs unknown loaded flags is =
    rw (loaded, flags, is, add_flags-reset recs) refl

-- A value of which the node knows no flag comes back from a loaded grid with the flags in their
-- order, each without its sign.
pub get_value-set_value_of_unknown :
    (value : Text) (me : Selector)
    → me.is_loaded ≡ true
    → All (IsUnknown me.flags) (flags_of value)
    → get_value (set_value value me) ≡ join b';' (map name_of (flags_of value))
get_value-set_value_of_unknown value me loaded h =
    let after = set_value_of_loaded value me loaded in
    let applied = apply_flags_of_unknown (flags_of value) me.flags [] h in
    get_value_of_parts (set_value value me) me.flags (map name_of (flags_of value)) after.2
      (after.0 ∙ ap (λ r. r.0) applied) (after.1 ∙ ap (λ r. r.1) applied)
