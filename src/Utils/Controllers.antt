-- ===== src/Utils/Controllers.antt =====
-- The order in which a new disk is offered to the controllers: www/manager6/qemu/OSDefaults.js, and
-- sortByPreviousUsage of www/manager6/Utils.js. The platform's sort is an insertion sort, which is
-- stable as the platform's is.
pub mod Counting
pub mod Ordered
pub mod Sorting
pub mod Order
use Prim.Native.Nat.{compare, Ordering}
use pve_manager_electrified.Prelude.{
  ℕ, ◌+◌, Bool, true, false, not, ◌&&◌, ◌||◌, Option, none, some, List, [], ◌∷◌, ◌==◌,
  if◌then◌else◌,
}
use pve_manager_electrified.Text.{Text, codes, text_eq, text_mem, strip_prefix}
use pve_manager_electrified.Object.{lookup, put, entries}
use pve_manager_electrified.Parser.Drive.{match_bus}

pub record OsDefaults : Type 0 where
  pub bus_type : Text
  pub network_card : Text
  pub bus_priority : List (Text × ℕ)
  pub scsihw : Text
  pub cputype : Text

-- What `addOS` is called with; a setting that is left out is inherited.
pub record Settings : Type 0 where
  pub pve_os : Text
  pub parent : Text
  pub bus_type : Option Text
  pub network_card : Option Text
  pub bus_priority : Option (List (Text × ℕ))
  pub scsihw : Option Text

inherit : {A : Type 0} → A → Option A → A
inherit v none = v
inherit v (some w) = w

-- `Ext.apply(child, settings)`
apply_settings : OsDefaults → Settings → OsDefaults
unfolding inherit
apply_settings child s = record {
  bus_type = inherit child.bus_type s.bus_type;
  network_card = inherit child.network_card s.network_card;
  bus_priority = inherit child.bus_priority s.bus_priority;
  scsihw = inherit child.scsihw s.scsihw;
  cputype = child.cputype;
}

add_below : Option OsDefaults → Settings → List (Text × OsDefaults) → List (Text × OsDefaults)
unfolding put apply_settings
add_below none s me = me
add_below (some child) s me = put s.pve_os (apply_settings child s) me

unfoldable pub add_os : Settings → List (Text × OsDefaults) → List (Text × OsDefaults)
unfolding lookup add_below
add_os s me = add_below (lookup s.parent me) s me

abbrev pub generic : OsDefaults
generic = record {
  bus_type = codes "ide";
  network_card = codes "e1000";
  bus_priority =
      (codes "ide", 4) ∷ (codes "sata", 3) ∷ (codes "scsi", 2) ∷ (codes "virtio", 1) ∷ [];
  scsihw = codes "virtio-scsi-single";
  cputype = codes "x86-64-v2-AES";
}

abbrev pub l26 : Settings
l26 = record {
  pve_os = codes "l26";
  parent = codes "generic";
  bus_type = some (codes "scsi");
  network_card = some (codes "virtio");
  bus_priority =
      some ((codes "scsi", 4) ∷ (codes "virtio", 3) ∷ (codes "sata", 2) ∷ (codes "ide", 1) ∷ []);
  scsihw = none;
}

abbrev pub w2k : Settings
w2k = record {
  pve_os = codes "w2k";
  parent = codes "generic";
  bus_type = none;
  network_card = some (codes "rtl8139");
  bus_priority = none;
  scsihw = some [];
}

abbrev pub wxp : Settings
wxp = record {
  pve_os = codes "wxp";
  parent = codes "w2k";
  bus_type = none;
  network_card = none;
  bus_priority = none;
  scsihw = none;
}

-- What the constructor leaves behind.
unfoldable pub os_defaults : List (Text × OsDefaults)
unfolding add_os
os_defaults = add_os wxp (add_os w2k (add_os l26 ((codes "generic", generic) ∷ [])))

unfoldable pub or_generic : Option OsDefaults → OsDefaults
or_generic none = generic
or_generic (some d) = d

unfoldable pub get_defaults : Option Text → OsDefaults
unfolding or_generic os_defaults lookup
get_defaults none = generic
get_defaults (some ostype) = or_generic (lookup ostype os_defaults)

abbrev pub controllers : List Text
controllers = codes "ide" ∷ codes "sata" ∷ codes "virtio" ∷ codes "scsi" ∷ []

bus_if : Option (Text × Text) → Option Text
unfolding text_mem
bus_if none = none
bus_if (some (bus, index)) = if text_mem bus controllers then some bus else none

-- `property.match(PVE.Utils.bus_match)`, with its first group.
unfoldable pub bus_match : Text → Option Text
unfolding bus_if match_bus
bus_match property = bus_if (match_bus property)

has_prefix : Option Text → Bool
has_prefix none = false
has_prefix (some rest) = true

unfoldable pub contains : Text → Text → Bool
unfolding strip_prefix has_prefix
contains part [] = has_prefix (strip_prefix part [])
contains part (c ∷ s) = has_prefix (strip_prefix part (c ∷ s)) || contains part s

-- The controller that a property of the configuration uses.
unfoldable pub controller_of : Text × Text → Option Text
unfolding bus_match contains
controller_of (property, value) =
    if contains (codes "media=cdrom") value then none else bus_match property

-- `usedControllers[c]++`
unfoldable pub increment : Text → List (Text × ℕ) → List (Text × ℕ)
unfolding text_eq
increment c [] = []
increment c ((k, n) ∷ used) =
    let rest = increment c used in if text_eq c k then (k, n + 1) ∷ used else (k, n) ∷ rest

increment_if : Option Text → List (Text × ℕ) → List (Text × ℕ)
unfolding increment
increment_if none used = used
increment_if (some c) used = increment c used

unfoldable pub count_used : List (Text × Text) → List (Text × ℕ) → List (Text × ℕ)
unfolding increment_if controller_of
count_used [] used = used
count_used (e ∷ config) used = count_used config (increment_if (controller_of e) used)

abbrev pub unused_controllers : List (Text × ℕ)
unused_controllers =
    (codes "ide", 0)
    ∷ (codes "sata", 0)
    ∷ (codes "scsi", 0)
    ∷ (codes "virtio", 0)
    ∷ (codes "unused", 0)
    ∷ []

-- The sign of `b - a`; with an `undefined` it is `NaN`, which sorts as 0.
abbrev pub compare_down : Option ℕ → Option ℕ → Ordering
compare_down none b = Ordering.eq
compare_down (some m) none = Ordering.eq
compare_down (some m) (some n) = compare n m

abbrev pub equal_counts : Option ℕ → Option ℕ → Bool
equal_counts none none = true
equal_counts none (some n) = false
equal_counts (some m) none = false
equal_counts (some m) (some n) = n == m

module _ (used priority : List (Text × ℕ)) where
  unfoldable pub compare_usage : Text → Text → Ordering
  unfolding lookup
  compare_usage a b =
      if equal_counts (lookup a used) (lookup b used)
      then compare_down (lookup a priority) (lookup b priority)
      else compare_down (lookup a used) (lookup b used)

module _ {A : Type 0} (sort_fn : A → A → Ordering) where
  unfoldable pub insert_by : A → List A → List A
  insert_by x [] = x ∷ []
  insert_by x (y ∷ ys) =
      let rest = insert_by x ys in
      elim (sort_fn x y) [
        | Ordering.lt ↦ x ∷ y ∷ ys
        | Ordering.eq ↦ x ∷ y ∷ ys
        | Ordering.gt ↦ y ∷ rest
      ]

  unfoldable pub sort_by : List A → List A
  unfolding insert_by
  sort_by [] = []
  sort_by (x ∷ xs) = insert_by x (sort_by xs)

unfoldable pub or_default : Option (List Text) → List Text
or_default none = codes "ide" ∷ codes "virtio" ∷ codes "scsi" ∷ codes "sata" ∷ []
or_default (some cs) = cs

unfoldable pub sort_by_previous_usage : List (Text × Text) → Option (List Text) → List Text
unfolding sort_by compare_usage count_used or_default get_defaults lookup
sort_by_previous_usage vmconfig controller_list =
    sort_by
      (compare_usage (count_used (entries vmconfig) unused_controllers)
        (get_defaults (lookup (codes "ostype") vmconfig)).bus_priority)
      (or_default controller_list)
