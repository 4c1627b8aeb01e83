-- ===== src/Tests/Drives.antt =====
-- Drives and mount points: runs, and the round trips at an input.
use pve_manager_electrified.Prelude.{◌≡◌, refl, some, List, [], ◌∷◌, ◌++◌, All, arith, inl, inr}
use pve_manager_electrified.Text.{Text, codes}
use pve_manager_electrified.Object.{lookup}
use pve_manager_electrified.Object.Laws.{HasDistinctKeys}
use pve_manager_electrified.Parser.Drive.{Outcome, parse_qemu_drive, print_qemu_drive}
use pve_manager_electrified.Parser.Drive.Entries.{IsBusKey, IsDriveEntry, IsDriveOption}
use pve_manager_electrified.Parser.Drive.RoundTrip.{parse-print_qemu_drive}
use pve_manager_electrified.Parser.MountPoint.{parse_lxc_mount_point, print_lxc_mount_point}
use pve_manager_electrified.Parser.MountPoint.RoundTrip.{
  IsMpEntry, IsMpOption, parse-print_lxc_mount_point,
}

abbrev drive : List (Text × Text)
drive =
    (codes "interface", codes "scsi")
    ∷ (codes "index", codes "11")
    ∷ (codes "file", codes "local:1")
    ∷ (codes "cache", codes "none")
    ∷ []

parse_drive :
    parse_qemu_drive (some (codes "scsi11")) (some (codes "volume=local:1,cache=off"))
    ≡ Outcome.returns (some drive)
unfolding parse_qemu_drive pve_manager_electrified.Parser.each pve_manager_electrified.Text.split
    pve_manager_electrified.Parser.Drive.drive_option pve_manager_electrified.Object.put
parse_drive = refl

-- A key that names no drive makes the parser throw.
parse_drive_key : parse_qemu_drive (some (codes "net")) (some (codes "local:1")) ≡ Outcome.throws
unfolding parse_qemu_drive pve_manager_electrified.Parser.Drive.match_bus
    pve_manager_electrified.Text.is_digits
parse_drive_key = refl

scsi11 : IsBusKey (codes "scsi") (codes "11")
unfolding pve_manager_electrified.Text.is_lower pve_manager_electrified.Text.is_digits
scsi11 = record { letters = (refl, refl); digits = refl }

cache_option : IsDriveOption (codes "cache", codes "none")
unfolding pve_manager_electrified.Parser.Drive.is_name pve_manager_electrified.Text.text_mem
    pve_manager_electrified.Parser.Drive.volume_as_file pve_manager_electrified.Text.is_word
    pve_manager_electrified.Parser.Drive.cache_value
cache_option = record {
  name = refl;
  own = refl;
  kept_name = refl;
  value = refl;
  kept_value = refl;
  comma = ground arith;
}

drive-entries : All IsDriveEntry drive
unfolding pve_manager_electrified.Parser.Drive.is_drive_place
drive-entries = (inl refl, (inl refl, (inl refl, (inr cache_option, tt))))

drive-distinct : HasDistinctKeys drive
drive-distinct = ground arith

parse-print_qemu_drive_example :
    (text : Text) × (print_qemu_drive drive ≡ some text)
    × (out : List (Text × Text)) × (parse_qemu_drive (some (codes "scsi" ++ codes "11")) (some text)
        ≡ Outcome.returns (some out))
    × ((k : Text) → lookup k out ≡ lookup k drive)
unfolding lookup pve_manager_electrified.Text.is_blank
parse-print_qemu_drive_example =
    parse-print_qemu_drive drive (codes "scsi") (codes "11") (codes "local:1") scsi11 refl refl refl
      (refl, ground arith, ground arith) drive-entries drive-distinct

abbrev mount : List (Text × Text)
mount =
    (codes "file", codes "tank:sub")
    ∷ (codes "mp", codes "/srv")
    ∷ (codes "storage", codes "tank")
    ∷ (codes "type", codes "volume")
    ∷ []

parse_mount : parse_lxc_mount_point (some (codes "tank:sub,mp=/srv")) ≡ some mount
unfolding parse_lxc_mount_point pve_manager_electrified.Parser.each
    pve_manager_electrified.Text.split pve_manager_electrified.Object.put
parse_mount = refl

mp_option : IsMpOption (codes "mp", codes "/srv")
unfolding pve_manager_electrified.Parser.Drive.is_name pve_manager_electrified.Text.text_mem
    pve_manager_electrified.Parser.Drive.volume_as_file
    pve_manager_electrified.Parser.MountPoint.is_line
mp_option = record { name = refl; own = refl; kept_name = refl; value = refl; comma = ground arith }

mount-entries : All IsMpEntry mount
unfolding pve_manager_electrified.Parser.MountPoint.is_mp_place
mount-entries = (inl refl, (inr mp_option, (inl refl, (inl refl, tt))))

mount-distinct : HasDistinctKeys mount
mount-distinct = ground arith

parse-print_lxc_mount_point_example :
    (text : Text) × (print_lxc_mount_point mount ≡ some text)
    × (out : List (Text × Text)) × (parse_lxc_mount_point (some text) ≡ some out)
    × ((k : Text) → lookup k out ≡ lookup k mount)
unfolding lookup pve_manager_electrified.Parser.MountPoint.match_storage
    pve_manager_electrified.Text.is_blank
parse-print_lxc_mount_point_example =
    parse-print_lxc_mount_point mount (codes "tank:sub") refl refl refl
      (refl, ground arith, ground arith) mount-entries mount-distinct
