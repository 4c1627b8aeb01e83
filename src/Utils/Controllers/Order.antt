-- ===== src/Utils/Controllers/Order.antt =====
-- sortByPreviousUsage returns the same controllers, those with the most disks first.
use Prim.Native.Nat.{compare, Ordering}
use native.Mathlib.Omega.{compare-lt, compare-eq, compare-gt}
use pve_manager_electrified.Prelude.{
  ℕ, ◌+◌, ◌*◌, ◌≤◌, ◌<◌, ◌≡◌, ◌↔◌, ◌⊎◌, refl, ap, ◌∙◌, true, Option, none, some, List, [], ◌∷◌, All,
  arith, if◌then◌else◌, inl, inr, Bool-cases, ◌==◌,
}
use pve_manager_electrified.Text.{Text, codes, text_eq, text_mem}
use pve_manager_electrified.Object.{lookup, entries}
use pve_manager_electrified.Utils.Controllers.{
  compare_usage, controllers, count_used, get_defaults, OsDefaults, generic, os_defaults,
  or_generic, unused_controllers, or_default, sort_by_previous_usage,
}
use pve_manager_electrified.Utils.Controllers.Sorting.{
  IsDescending, sort_by-IsDescending, count, count-sort_by,
}
use pve_manager_electrified.Utils.Controllers.Counting.{uses, plus, lookup-count_used}

abbrev pub IsController : Text → Type 0
IsController c = text_mem c controllers ≡ true

abbrev pub or_zero : Option ℕ → ℕ
or_zero none = 0
or_zero (some n) = n

-- The number of disks on a controller, and next to it the priority that the operating system gives
-- the controller, which is at most 4.
pub rank : List (Text × Text) → Text → ℕ
rank vmconfig c =
    uses c (entries vmconfig) * 5
    + or_zero (lookup c (get_defaults (lookup (codes "ostype") vmconfig)).bus_priority)

lookup-unused : (c : Text) → IsController c → lookup c unused_controllers ≡ some 0
unfolding text_mem lookup
lookup-unused c h = ground (arith, h)

lookup-used :
    (c : Text) (config : List (Text × Text))
    → IsController c
    → lookup c (count_used config unused_controllers) ≡ some (uses c config)
lookup-used c config h =
    lookup-count_used c config unused_controllers
    ∙ rw (lookup-unused c h) (unfold plus in ap some (omega arith))

abbrev linux_priority : List (Text × ℕ)
linux_priority = (codes "scsi", 4) ∷ (codes "virtio", 3) ∷ (codes "sata", 2) ∷ (codes "ide", 1) ∷ []

abbrev HasPriorities : List (Text × ℕ) → Type 0
HasPriorities priority = (priority ≡ generic.bus_priority) ⊎ (priority ≡ linux_priority)

abbrev priority_of : Option OsDefaults → List (Text × ℕ)
priority_of none = generic.bus_priority
priority_of (some d) = d.bus_priority

All-os_defaults : All (λ e. HasPriorities e.1.bus_priority) os_defaults
unfolding os_defaults
All-os_defaults = (inl refl, (inr refl, (inl refl, (inl refl, tt))))

priority_of-lookup :
    (ostype : Text) (table : List (Text × OsDefaults))
    → All (λ e. HasPriorities e.1.bus_priority) table
    → HasPriorities (priority_of (lookup ostype table))
unfolding lookup
priority_of-lookup ostype [] h = inl refl
priority_of-lookup ostype ((k, d) ∷ table) (p, h) = elim (Bool-cases (text_eq ostype k)) [
  | inl e ↦ rw e p
  | inr e ↦ rw e (priority_of-lookup ostype table h)
]

or_generic_lem : (o : Option OsDefaults) → (or_generic o).bus_priority ≡ priority_of o
unfolding or_generic
or_generic_lem none = refl
or_generic_lem (some d) = refl

get_defaults-HasPriorities :
    (ostype : Option Text) → HasPriorities (get_defaults ostype).bus_priority
unfolding get_defaults
get_defaults-HasPriorities none = inl refl
get_defaults-HasPriorities (some ostype) =
    rw (or_generic_lem (lookup ostype os_defaults))
      (priority_of-lookup ostype os_defaults All-os_defaults)

lookup-generic :
    (c : Text) → IsController c → (n : ℕ) × (lookup c generic.bus_priority ≡ some n) × (n ≤ 4)
unfolding text_mem lookup
lookup-generic c h = elim (Bool-cases (text_eq c (codes "ide"))) [
  | inl e ↦ (4, rw e refl, omega arith)
  | inr e ↦ elim (Bool-cases (text_eq c (codes "sata"))) [
    | inl f ↦ (3, rw (e, f) refl, omega arith)
    | inr f ↦ elim (Bool-cases (text_eq c (codes "scsi"))) [
      | inl g ↦ (2, rw (e, f, g) refl, omega arith)
      | inr g ↦ (1, ground (arith, e, f, g, h), omega arith)
    ]
  ]
]

lookup-linux : (c : Text) → IsController c → (n : ℕ) × (lookup c linux_priority ≡ some n) × (n ≤ 4)
unfolding text_mem lookup
lookup-linux c h = elim (Bool-cases (text_eq c (codes "scsi"))) [
  | inl e ↦ (4, rw e refl, omega arith)
  | inr e ↦ elim (Bool-cases (text_eq c (codes "virtio"))) [
    | inl f ↦ (3, rw (e, f) refl, omega arith)
    | inr f ↦ elim (Bool-cases (text_eq c (codes "sata"))) [
      | inl g ↦ (2, rw (e, f, g) refl, omega arith)
      | inr g ↦ (1, ground (arith, e, f, g, h), omega arith)
    ]
  ]
]

-- Every system gives each controller a priority of at most 4.
priority_lem :
    (ostype : Option Text) (c : Text)
    → IsController c
    → (n : ℕ) × (lookup c (get_defaults ostype).bus_priority ≡ some n) × (n ≤ 4)
priority_lem ostype c h = elim (get_defaults-HasPriorities ostype) [
  | inl e ↦ rw e (lookup-generic c h)
  | inr e ↦ rw e (lookup-linux c h)
]

gt_of_lt : (m n : ℕ) → m < n → compare n m ≡ Ordering.gt
gt_of_lt m n h = ground (arith, h, compare-lt n m, compare-eq n m)

compare-rank :
    (m n p q : ℕ)
    → p ≤ 4
    → q ≤ 4
    → ((if n == m then compare q p else compare n m) ≡ Ordering.gt) ↔ (m * 5 + p < n * 5 + q)
compare-rank m n p q hp hq =
    ground (arith, compare-gt q p, compare-gt n m, gt_of_lt p q, gt_of_lt m n)

compare_usage-rank :
    (vmconfig : List (Text × Text)) (a b : Text)
    → IsController a
    → IsController b
    → (compare_usage
          (count_used (entries vmconfig) unused_controllers)
          (get_defaults (lookup (codes "ostype") vmconfig)).bus_priority
          a
          b
        ≡ Ordering.gt)
      ↔ (rank vmconfig a < rank vmconfig b)
unfolding rank compare_usage
compare_usage-rank vmconfig a b ha hb =
    let (p, ep, hp) = priority_lem (lookup (codes "ostype") vmconfig) a ha in
    let (q, eq, hq) = priority_lem (lookup (codes "ostype") vmconfig) b hb in
    rw (lookup-used a (entries vmconfig) ha, lookup-used b (entries vmconfig) hb, ep, eq)
      (compare-rank (uses a (entries vmconfig)) (uses b (entries vmconfig)) p q hp hq)

-- sortByPreviousUsage returns each controller as often as it was listed, and no controller in front of
-- one with more disks, or with as many disks and a higher priority, if every listed controller is
-- `ide`, `sata`, `virtio` or `scsi`.
pub sort_by_previous_usage_lem :
    (vmconfig : List (Text × Text)) (list : Option (List Text))
    → All IsController (or_default list)
    → IsDescending (rank vmconfig) (sort_by_previous_usage vmconfig list)
      × ((c : Text) → count c (sort_by_previous_usage vmconfig list) ≡ count c (or_default list))
unfolding sort_by_previous_usage
sort_by_previous_usage_lem vmconfig list h = (
  sort_by-IsDescending _ IsController (rank vmconfig) (compare_usage-rank vmconfig)
      (or_default list) h,
  λ c. count-sort_by _ c (or_default list),
)
