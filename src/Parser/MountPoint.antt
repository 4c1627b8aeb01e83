-- ===== src/Parser/MountPoint.antt =====
-- parseLxcMountPoint and printLxcMountPoint of www/manager6/Parser.js: a mount point of a
-- container, with the kind of its source worked out from the file.
pub mod RoundTrip
use pve_manager_electrified.Prelude.{
  ℕ, Bool, true, false, ◌&&◌, ◌||◌, Option, none, some, List, [], ◌∷◌, all, ◌==◌, leb,
  if◌then◌else◌,
}
use pve_manager_electrified.Text.{
  Text, codes, text_eq, split, cut, is_blank, is_digit, is_lower, is_dot, lower, nonempty,
  strip_prefix,
}
use pve_manager_electrified.Object.{lookup, put, entries}
use pve_manager_electrified.Parser.{each}
use pve_manager_electrified.Parser.Options.{add_options}
use pve_manager_electrified.Parser.Drive.{is_name, volume_as_file, assign_new, need_file}

-- `.+`, anchored at both ends.
unfoldable pub is_line : Text → Bool
unfolding is_dot
is_line v = nonempty v && all is_dot v

-- A part that is not blank, cut at its first `=`; `none` is `errors = true; return false`.
unfoldable pub mp_part : List (Text × Text) → Text × Option Text → Option (List (Text × Text))
unfolding is_name is_line volume_as_file assign_new
mp_part res (p, none) = some (put (codes "file") p res)
mp_part res (k, some v) =
    if is_name k && is_line v then assign_new (volume_as_file k) v res else none

unfoldable pub mp_option : List (Text × Text) → Text → Option (List (Text × Text))
unfolding is_blank mp_part cut
mp_option res p = if is_blank p then some res else mp_part res (cut b'=' p)

unfoldable pub is_letter : ℕ → Bool
unfolding is_lower lower
is_letter c = is_lower (lower c)

unfoldable pub is_alnum : ℕ → Bool
unfolding is_letter is_digit
is_alnum c = is_letter c || is_digit c

-- `[a-z0-9\-_.]*[a-z0-9]` under the flag `i`.
unfoldable pub ends_alnum : Text → Bool
unfolding is_alnum
ends_alnum [] = false
ends_alnum (c ∷ []) = is_alnum c
ends_alnum (c ∷ d ∷ s) = (is_alnum c || c == b'-' || c == b'_' || c == b'.') && ends_alnum (d ∷ s)

-- `[a-z][a-z0-9\-_.]*[a-z0-9]`, the name of a storage.
unfoldable pub is_storage_id : Text → Bool
unfolding is_letter ends_alnum
is_storage_id [] = false
is_storage_id (c ∷ s) = is_letter c && ends_alnum s

-- `res.file.match(/^([a-z][a-z0-9\-_.]*[a-z0-9]):/i)`: no letter of a storage's name is a colon.
storage_if : Text × Option Text → Option Text
unfolding is_storage_id
storage_if (s, none) = none
storage_if (s, some rest) = if is_storage_id s then some s else none

unfoldable pub match_storage : Text → Option Text
unfolding storage_if cut
match_storage file = storage_if (cut b':' file)

abbrev pub path_type : Option Text → Text
path_type none = codes "bind"
path_type (some rest) = codes "device"

set_source : Text → Option Text → List (Text × Text) → List (Text × Text)
set_source file (some storage) res =
    put (codes "type") (codes "volume") (put (codes "storage") storage res)
set_source file none res = put (codes "type") (path_type (strip_prefix (codes "/dev/") file)) res

-- The assignments of `res.storage` and `res.type` behind the loop.
unfoldable pub classify : Text → List (Text × Text) → List (Text × Text)
unfolding set_source match_storage
classify file res = set_source file (match_storage file) res

classify_found : Option Text → List (Text × Text) → List (Text × Text)
classify_found none res = res
classify_found (some file) res = classify file res

finish : Option (List (Text × Text)) → Option (List (Text × Text))
finish none = none
finish (some res) = some (classify_found (lookup (codes "file") res) res)

unfoldable pub parse_lxc_mount_point : Option Text → Option (List (Text × Text))
unfolding mp_option need_file finish classify_found classify
parse_lxc_mount_point none = none
parse_lxc_mount_point (some []) = none
parse_lxc_mount_point (some (c ∷ s)) = finish (need_file (each mp_option [] (split b',' (c ∷ s))))

unfoldable pub is_mp_place : Text → Bool
unfolding text_eq
is_mp_place k = text_eq k (codes "file") || text_eq k (codes "type") || text_eq k (codes "storage")

unfoldable pub print_lxc_mount_point : List (Text × Text) → Option Text
unfolding add_options is_mp_place
print_lxc_mount_point mp = add_options is_mp_place (lookup (codes "file") mp) (entries mp)
