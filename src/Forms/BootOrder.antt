-- ===== src/Forms/BootOrder.antt =====
-- www/manager6/qemu/BootOrderEdit.js: the list of devices to boot from, read from the configuration of
-- a guest and written back. A value of the configuration is a text.
pub mod Saving
pub mod Offered
use pve_manager_electrified.Prelude.{
  ℕ, Bool, true, false, not, ◌&&◌, ◌||◌, Option, none, some, List, [], ◌∷◌, ◌++◌, ◌==◌, map,
  if◌then◌else◌,
}
use pve_manager_electrified.Text.{
  Text, codes, text_eq, text_mem, nonempty, is_blank, is_digit, strip_prefix, split, join,
}
use pve_manager_electrified.Object.{lookup, entries, prototype_names}
use pve_manager_electrified.Parser.PropertyString.{parse_property_string, print_property_string}
use pve_manager_electrified.Utils.Controllers.{bus_match, contains, sort_by}
use pve_manager_electrified.Tree.{compare_text}

pub record Entry : Type 0 where
  pub name : Text
  pub enabled : Bool
  pub desc : Option Text

starts_digit : Option Text → Bool
unfolding is_digit
starts_digit none = false
starts_digit (some []) = false
starts_digit (some (c ∷ s)) = is_digit c

-- `/^net\d+/.test(dev)`, for the prefix `net`.
unfoldable pub is_numbered : Text → Text → Bool
unfolding starts_digit strip_prefix
is_numbered prefix dev = starts_digit (strip_prefix prefix dev)

-- `\d*-cloudinit` at the start.
digits_cloudinit : Text → Bool
unfolding is_digit strip_prefix
digits_cloudinit [] = false
digits_cloudinit (c ∷ s) =
    let rest = digits_cloudinit s in
    if is_digit c
    then rest
    else elim (strip_prefix (codes "-cloudinit") (c ∷ s)) [ none ↦ false | some _ ↦ true ]

cloudinit_behind : Option Text → Bool
unfolding digits_cloudinit is_digit
cloudinit_behind none = false
cloudinit_behind (some []) = false
cloudinit_behind (some (c ∷ s)) = is_digit c && digits_cloudinit s

-- `/[:/]vm-\d+-cloudinit/`
names_cloudinit : Text → Bool
unfolding cloudinit_behind strip_prefix
names_cloudinit [] = false
names_cloudinit (c ∷ s) =
    ((c == b':' || c == b'/') && cloudinit_behind (strip_prefix (codes "vm-") s))
    || names_cloudinit s

unfoldable pub is_cloudinit : Text → Bool
unfolding names_cloudinit contains
is_cloudinit v = contains (codes "media=cdrom") v && names_cloudinit v

unfoldable pub is_disk : Text → Bool
unfolding bus_match
is_disk value = elim (bus_match value) [ none ↦ false | some _ ↦ true ]

unfoldable pub is_bootdev : Text → Text → Bool
unfolding is_disk is_cloudinit is_numbered contains
is_bootdev dev value =
    (is_disk dev && not (is_cloudinit value))
    || is_numbered (codes "net") dev
    || is_numbered (codes "hostpci") dev
    || (is_numbered (codes "usb") dev && not (contains (codes "spice") value))

-- The keys whose entry passes.
unfoldable pub keys_such : (Text → Text → Bool) → List (Text × Text) → List Text
keys_such test [] = []
keys_such test ((key, value) ∷ config) =
    let rest = keys_such test config in if test key value then key ∷ rest else rest

is_cdrom : Text → Text → Bool
unfolding is_disk contains is_cloudinit
is_cdrom key value = is_disk key && contains (codes "media=cdrom") value && not (is_cloudinit value)

is_net : Text → Text → Bool
unfolding is_numbered
is_net key value = is_numbered (codes "net") key

-- `me.vmconfig[bootdisk]` is truthy, by an own value or an inherited one.
is_set : Text → Option Text → Bool
unfolding text_mem
is_set key none = text_mem key prototype_names
is_set key (some value) = nonempty value

boot_disk : List (Text × Text) → Option Text → List Text
unfolding is_set lookup
boot_disk config none = []
boot_disk config (some []) = []
boot_disk config (some (c ∷ s)) =
    if is_set (c ∷ s) (lookup (c ∷ s) config) then (c ∷ s) ∷ [] else []

-- The devices of one letter of the legacy order.
unfoldable pub devices_of : List (Text × Text) → ℕ → List Text
unfolding boot_disk keys_such is_cdrom is_net lookup entries
devices_of config letter =
    if letter == b'c'
    then boot_disk config (lookup (codes "bootdisk") config)
    else if letter == b'd'
    then keys_such is_cdrom (entries config)
    else if letter == b'n'
    then keys_such is_net (entries config)
    else []

unfoldable pub legacy_devices : List (Text × Text) → List ℕ → List Text
unfolding devices_of sort_by
legacy_devices config [] = []
legacy_devices config (letter ∷ letters) =
    sort_by compare_text (devices_of config letter) ++ legacy_devices config letters

-- `.slice(0, 4)`
abbrev pub first_four : Text → Text
first_four (a ∷ b ∷ c ∷ d ∷ s) = a ∷ b ∷ c ∷ d ∷ []
first_four s = s

-- `boot.legacy || 'cdn'`
abbrev pub legacy_or : Option Text → Text
legacy_or none = codes "cdn"
legacy_or (some []) = codes "cdn"
legacy_or (some (c ∷ s)) = c ∷ s

-- The test of an `undefined` reads the text `undefined`.
abbrev pub written : Option Text → Text
written none = codes "undefined"
written (some s) = s

pub legacy_order : List (Text × Text) → List (Text × Text) → List Text
unfolding legacy_devices is_blank lookup
legacy_order config boot =
    if is_blank (written (lookup (codes "boot") config))
    then []
    else legacy_devices config (first_four (legacy_or (lookup (codes "legacy") boot)))

pub enabled_of : Option Text → List Text → List Text
unfolding split
enabled_of none legacy = legacy
enabled_of (some []) legacy = legacy
enabled_of (some (c ∷ s)) legacy = split b';' (c ∷ s)

-- The names of the enabled devices, for the parsed text of `boot`.
unfoldable pub boot_order : List (Text × Text) → List (Text × Text) → List Text
unfolding enabled_of legacy_order lookup
boot_order config boot = enabled_of (lookup (codes "order") boot) (legacy_order config boot)

-- The boot devices that are not in the order.
unfoldable pub disabled_devices : List (Text × Text) → List Text → List Text
unfolding keys_such is_bootdev text_mem sort_by entries
disabled_devices config order =
    sort_by compare_text
      (keys_such (λ key value. is_bootdev key value && not (text_mem key order)) (entries config))

-- An entry with its description, where the configuration has one of its own.
unfoldable pub entry : List (Text × Text) → Bool → Text → Entry
unfolding lookup
entry config enabled name = record { name = name; enabled = enabled; desc = lookup name config }

pub boot_entries : List (Text × Text) → List Text → List Entry
unfolding entry disabled_devices
boot_entries config order =
    map (entry config true) order ++ map (entry config false) (disabled_devices config order)

pub after_parse : List (Text × Text) → Option (List (Text × Text)) → Option (List Entry)
unfolding boot_entries boot_order
after_parse config none = none
after_parse config (some boot) = some (boot_entries config (boot_order config boot))

-- setVMConfig, with the entries that it stores; a text of `boot` that cannot be parsed makes it throw.
unfoldable pub set_vm_config : List (Text × Text) → Option (List Entry)
unfolding after_parse parse_property_string lookup
set_vm_config config =
    after_parse config
      (parse_property_string (lookup (codes "boot") config) (some (codes "legacy")))

unfoldable pub enabled_names : List Entry → List Text
enabled_names [] = []
enabled_names (e ∷ es) = let rest = enabled_names es in if e.enabled then e.name ∷ rest else rest

unfoldable pub calculate_value : List Entry → Text
unfolding enabled_names join
calculate_value es = join b';' (enabled_names es)

-- onGetValues, with the text of its property `boot`.
unfoldable pub on_get_values : List Entry → Text
unfolding calculate_value print_property_string
on_get_values es = print_property_string ((codes "order", calculate_value es) ∷ []) none
