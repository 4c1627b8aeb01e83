-- ===== src/Parser/Drive/Names.antt =====
-- Keys of the drive and mount point formats: what they hold, and that they are ordinary keys.
use pve_manager_electrified.Prelude.{◌≡◌, ◌≢◌, refl, true, false, [], ◌∷◌, arith, all, ◌||◌, ◌==◌}
use pve_manager_electrified.Text.{Text, is_lower, is_digit, is_blank, text_mem, nonempty}
use pve_manager_electrified.Text.Equality.{text_eq_iff}
use pve_manager_electrified.Text.Split.{Lacks}
use pve_manager_electrified.Object.{prototype_names, proto_setter, is_index}
use pve_manager_electrified.Object.Laws.{IsOrdinary}
use pve_manager_electrified.Parser.Drive.{is_name}

pub settable_of_own : (k : Text) → text_mem k prototype_names ≡ false → k ≢ proto_setter
unfolding text_mem
settable_of_own k h = ground (arith, text_eq_iff k proto_setter)

name-Lacks : (k : Text) → all (λ c. is_lower c || c == b'_') k ≡ true → Lacks b'=' k × Lacks b',' k
unfolding is_lower
name-Lacks [] h = (tt, tt)
name-Lacks (c ∷ k) h =
    let rest = name-Lacks k (ground arith) in ((ground arith, rest.0), (ground arith, rest.1))

pub is_name-Lacks : (k : Text) → is_name k ≡ true → Lacks b'=' k × Lacks b',' k
unfolding is_name
is_name-Lacks k h = name-Lacks k (ground (arith, h))

pub is_name-not_blank : (k : Text) → is_name k ≡ true → is_blank k ≡ false
unfolding is_name is_blank is_lower
is_name-not_blank [] h = cc
is_name-not_blank (c ∷ k) h = ground arith

pub name-IsOrdinary : (k v : Text) → is_name k ≡ true → IsOrdinary (k, v)
unfolding is_index is_digit is_name is_lower
name-IsOrdinary [] v h = cc
name-IsOrdinary (c ∷ k) v h = ground arith

pub nonempty_of_not_blank : (f : Text) → is_blank f ≡ false → nonempty f ≡ true
unfolding is_blank
nonempty_of_not_blank [] h = cc
nonempty_of_not_blank (c ∷ f) h = refl
