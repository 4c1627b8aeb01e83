-- ===== src/Utils/Controllers/Counting.antt =====
-- The counts that sortByPreviousUsage keeps are the numbers of disks on each controller.
use pve_manager_electrified.Prelude.{
  ℕ, ◌+◌, ◌≡◌, refl, ap, ◌∙◌, Option, none, some, List, [], ◌∷◌, arith, if◌then◌else◌,
}
use pve_manager_electrified.Text.{Text, text_eq}
use pve_manager_electrified.Text.Equality.{text_eq_iff}
use pve_manager_electrified.Object.{lookup}
use pve_manager_electrified.Utils.Controllers.{controller_of, increment, increment_if, count_used}

abbrev one_if : Text → Option Text → ℕ
one_if c none = 0
one_if c (some d) = if text_eq c d then 1 else 0

-- The number of entries of a configuration that are disks on the controller.
unfoldable pub uses : Text → List (Text × Text) → ℕ
uses c [] = 0
uses c (e ∷ config) = one_if c (controller_of e) + uses c config

unfoldable pub plus : Option ℕ → ℕ → Option ℕ
plus none k = none
plus (some n) k = some (n + k)

plus_zero : (o : Option ℕ) → o ≡ plus o 0
unfolding plus
plus_zero none = refl
plus_zero (some n) = ap some (omega arith)

lookup-increment :
    (c d : Text) (used : List (Text × ℕ))
    → lookup c (increment d used) ≡ plus (lookup c used) (if text_eq c d then 1 else 0)
unfolding lookup increment plus
lookup-increment c d [] = refl
lookup-increment c d ((k, n) ∷ used) = ground (
  arith,
  text_eq_iff c k,
  text_eq_iff d k,
  text_eq_iff c d,
  lookup-increment c d used,
  plus_zero (lookup c used),
  plus_zero (some n),
)

lookup-increment_if :
    (c : Text) (d : Option Text) (used : List (Text × ℕ))
    → lookup c (increment_if d used) ≡ plus (lookup c used) (one_if c d)
unfolding increment_if
lookup-increment_if c none used = plus_zero (lookup c used)
lookup-increment_if c (some d) used = lookup-increment c d used

plus-plus : (o : Option ℕ) (m n : ℕ) → plus (plus o m) n ≡ plus o (m + n)
unfolding plus
plus-plus none m n = refl
plus-plus (some k) m n = ap some (omega arith)

-- A counter ends at its start and the number of disks on the controller.
pub lookup-count_used :
    (c : Text) (config : List (Text × Text)) (used : List (Text × ℕ))
    → lookup c (count_used config used) ≡ plus (lookup c used) (uses c config)
unfolding count_used uses
lookup-count_used c [] used = plus_zero (lookup c used)
lookup-count_used c (e ∷ config) used =
    lookup-count_used c config _
    ∙ rw (lookup-increment_if c (controller_of e) used)
        (plus-plus (lookup c used) (one_if c (controller_of e)) (uses c config))
