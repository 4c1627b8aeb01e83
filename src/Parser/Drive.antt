-- ===== src/Parser/Drive.antt =====
-- parseQemuDrive and printQemuDrive of www/manager6/Parser.js: a drive of a virtual machine, an
-- object of options with the bus and the number from its key under `interface` and `index`.
pub mod Names
pub mod Entries
pub mod RoundTrip
use pve_manager_electrified.Prelude.{
  ℕ, Bool, true, false, ◌&&◌, ◌||◌, Option, none, some, List, [], ◌∷◌, all, ◌==◌, if◌then◌else◌,
}
use pve_manager_electrified.Text.{
  Text, codes, text_eq, split, cut, is_blank, is_word, is_digits, is_lower, nonempty,
}
use pve_manager_electrified.Object.{lookup, put, is_defined, entries}
use pve_manager_electrified.Parser.{each}
use pve_manager_electrified.Parser.Options.{add_options}

-- A call returns a value or `undefined` (`none`), or it throws a TypeError.
pub data Outcome : Type 0 where
  returns : Option (List (Text × Text)) → Outcome
  throws : Outcome

add_letter : ℕ → Text × Text → Text × Text
add_letter c (letters, rest) = (c ∷ letters, rest)

-- The longest prefix of small letters, and the rest.
unfoldable pub span_lower : Text → Text × Text
unfolding add_letter is_lower
span_lower [] = ([], [])
span_lower (c ∷ s) =
    let more = span_lower s in if is_lower c then add_letter c more else ([], c ∷ s)

-- `key.match(/^([a-z]+)(\d+)$/)`
unfoldable pub match_bus : Text → Option (Text × Text)
unfolding span_lower is_digits
match_bus key =
    if nonempty (span_lower key).0 && is_digits (span_lower key).1
    then some (span_lower key)
    else none

-- `[a-z_]+`
unfoldable pub is_name : Text → Bool
unfolding is_lower
is_name k = nonempty k && all (λ c. is_lower c || c == b'_') k

-- `if (k === 'volume') { k = 'file'; }`
unfoldable pub volume_as_file : Text → Text
unfolding text_eq
volume_as_file k = if text_eq k (codes "volume") then codes "file" else k

-- `if (k === 'cache' && v === 'off') { v = 'none'; }`
unfoldable pub cache_value : Text → Text → Text
unfolding text_eq
cache_value k v = if text_eq k (codes "cache") && text_eq v (codes "off") then codes "none" else v

unfoldable pub assign_new : Text → Text → List (Text × Text) → Option (List (Text × Text))
unfolding is_defined
assign_new k v res = if is_defined k res then none else some (put k v res)

-- A part that is not blank, cut at its first `=`; `none` is `errors = true; return false`.
unfoldable pub drive_part : List (Text × Text) → Text × Option Text → Option (List (Text × Text))
unfolding is_name is_word volume_as_file cache_value assign_new
drive_part res (p, none) = some (put (codes "file") p res)
drive_part res (k, some v) =
    if is_name k && is_word v
    then assign_new (volume_as_file k) (cache_value (volume_as_file k) v) res
    else none

unfoldable pub drive_option : List (Text × Text) → Text → Option (List (Text × Text))
unfolding is_blank drive_part cut
drive_option res p = if is_blank p then some res else drive_part res (cut b'=' p)

truthy : Option Text → Bool
truthy none = false
truthy (some v) = nonempty v

-- `if (errors || !res.file) { return undefined; }`
unfoldable pub need_file : Option (List (Text × Text)) → Option (List (Text × Text))
unfolding truthy lookup
need_file none = none
need_file (some res) = if truthy (lookup (codes "file") res) then some res else none

unfoldable pub drive_of_bus : Option (Text × Text) → Text → Outcome
unfolding need_file
drive_of_bus none value = throws
drive_of_bus (some (bus, index)) value = returns (
    need_file (
      each drive_option ((codes "interface", bus) ∷ (codes "index", index) ∷ [])
        (split b',' value)))

unfoldable pub parse_qemu_drive : Option Text → Option Text → Outcome
unfolding drive_of_bus match_bus
parse_qemu_drive none value = returns none
parse_qemu_drive (some key) none = returns none
parse_qemu_drive (some key) (some value) =
    if nonempty key && nonempty value then drive_of_bus (match_bus key) value else returns none

unfoldable pub is_drive_place : Text → Bool
unfolding text_eq
is_drive_place k =
    text_eq k (codes "file") || text_eq k (codes "index") || text_eq k (codes "interface")

unfoldable pub print_qemu_drive : List (Text × Text) → Option Text
unfolding add_options is_drive_place
print_qemu_drive drive = add_options is_drive_place (lookup (codes "file") drive) (entries drive)
