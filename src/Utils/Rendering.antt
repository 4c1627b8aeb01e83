-- ===== src/Utils/Rendering.antt =====
-- Helpers of www/manager6/Utils.js that show a value of a configuration as a text. `gettext` is the
-- translation of the platform, a parameter.
use pve_manager_electrified.Prelude.{
  Bool, false, ◌||◌, Option, none, some, List, [], ◌∷◌, ◌++◌, map, if◌then◌else◌,
}
use pve_manager_electrified.Text.{Text, codes, text_eq, split}
use pve_manager_electrified.Parser.Startup.{Startup, parse_startup}
use pve_manager_electrified.Utils.Controllers.{contains}

-- An entry of a family of guest systems: its description and its value.
pub record OsType : Type 0 where
  pub desc : Text
  pub val : Text

abbrev os : Text → Text → OsType
os desc val = record { desc = desc; val = val }

unfoldable pub kvm_ostypes : List (Text × List OsType)
kvm_ostypes =
    (
      codes "Linux",
      os (codes "6.x - 2.6 Kernel") (codes "l26") ∷ os (codes "2.4 Kernel") (codes "l24") ∷ [],
    )
    ∷ (
      codes "Microsoft Windows",
      os (codes "11/2022/2025") (codes "win11")
          ∷ os (codes "10/2016/2019") (codes "win10")
          ∷ os (codes "8.x/2012/2012r2") (codes "win8")
          ∷ os (codes "7/2008r2") (codes "win7")
          ∷ os (codes "Vista/2008") (codes "w2k8")
          ∷ os (codes "XP/2003") (codes "wxp")
          ∷ os (codes "2000") (codes "w2k")
          ∷ [],
    )
    ∷ (codes "Solaris Kernel", os (codes "-") (codes "solaris") ∷ [])
    ∷ (codes "Other", os (codes "-") (codes "other") ∷ [])
    ∷ []

has_val : Text → List OsType → Bool
unfolding text_eq
has_val ostype [] = false
has_val ostype (entry ∷ entries) = text_eq entry.val ostype || has_val ostype entries

windows_in : Text → List (Text × List OsType) → Bool
unfolding has_val text_eq
windows_in ostype [] = false
windows_in ostype ((family, entries) ∷ families) =
    let rest = windows_in ostype families in
    if text_eq family (codes "Microsoft Windows") then has_val ostype entries else rest

unfoldable pub is_windows : Text → Bool
unfolding windows_in kvm_ostypes
is_windows ostype = windows_in ostype kvm_ostypes

icon_of : Option Text → Text
unfolding text_eq
icon_of none = codes "faded fa-question"
icon_of (some state) =
    if text_eq state (codes "good")
    then codes "good fa-check"
    else if text_eq state (codes "upgrade")
    then codes "warning fa-upload"
    else if text_eq state (codes "old")
    then codes "warning fa-refresh"
    else if text_eq state (codes "warning")
    then codes "warning fa-exclamation"
    else if text_eq state (codes "critical")
    then codes "critical fa-times"
    else codes "faded fa-question"

unfoldable pub get_health_icon : Option Text → Bool → Text
unfolding icon_of
get_health_icon state circle = if circle then icon_of state ++ codes "-circle" else icon_of state

order_text : Option Text → Text
order_text none = codes "any"
order_text (some order) = order

delay_text : Text → Option Text → Text
delay_text key none = []
delay_text key (some delay) = key ++ delay

startup_text : Startup → Text
unfolding order_text delay_text
startup_text startup =
    codes "order="
    ++ order_text startup.order
    ++ delay_text (codes ",up=") startup.up
    ++ delay_text (codes ",down=") startup.down

-- A start order that cannot be parsed makes the code throw.
unfoldable pub render_kvm_startup : Option Text → Option Text
unfolding startup_text parse_startup
render_kvm_startup value = elim (parse_startup value) [
  | none ↦ none
  | some startup ↦ some (startup_text startup)
]

-- A volume with its format and subtype; a field that is missing is empty.
pub record Volume : Type 0 where
  pub volid : Text
  pub format : Text
  pub subtype : Text

unfoldable pub volume_is_qemu_backup : Volume → Bool
unfolding text_eq contains
volume_is_qemu_backup volume =
    text_eq volume.format (codes "pbs-vm")
    || contains (codes ":backup/vzdump-qemu-") volume.volid
    || text_eq volume.subtype (codes "qemu")

unfoldable pub volume_is_lxc_backup : Volume → Bool
unfolding text_eq contains
volume_is_lxc_backup volume =
    text_eq volume.format (codes "pbs-ct")
    || contains (codes ":backup/vzdump-lxc-") volume.volid
    || contains (codes ":backup/vzdump-openvz-") volume.volid
    || text_eq volume.subtype (codes "lxc")

-- `parts.join(', ')`
show_texts : List Text → Text
show_texts [] = []
show_texts (p ∷ []) = p
show_texts (p ∷ q ∷ ps) = p ++ codes ", " ++ show_texts (q ∷ ps)

module _ (gettext : Text → Text) where
  unfoldable pub hotplug_name : Text → Text
  unfolding text_eq
  hotplug_name el =
      if text_eq el (codes "disk")
      then gettext (codes "Disk")
      else if text_eq el (codes "network")
      then gettext (codes "Network")
      else if text_eq el (codes "usb")
      then codes "USB"
      else if text_eq el (codes "memory")
      then gettext (codes "Memory")
      else if text_eq el (codes "cpu")
      then gettext (codes "CPU")
      else el

  hotplug_of : Text → Text
  unfolding hotplug_name
  hotplug_of value =
      let features = if text_eq value (codes "1") then codes "disk,network,usb" else value in
      show_texts (map hotplug_name (split b',' features))

  -- A value that is missing or empty, or `0`, is shown as disabled.
  unfoldable pub render_hotplug_features : Option Text → Text
  unfolding hotplug_of show_texts text_eq
  render_hotplug_features none = gettext (codes "Disabled")
  render_hotplug_features (some []) = gettext (codes "Disabled")
  render_hotplug_features (some (c ∷ value)) =
      if text_eq (c ∷ value) (codes "0") then gettext (codes "Disabled") else hotplug_of (c ∷ value)

-- What get_kvm_osinfo finds: the family, and the description where there is one.
pub record OsInfo : Type 0 where
  pub desc : Option Text
  pub base : Text

info_in : Text → Text → List OsType → OsInfo → OsInfo
unfolding text_eq
info_in value base [] info = info
info_in value base (e ∷ entries) info =
    info_in value base entries
      (if text_eq e.val value then record { desc = some e.desc; base = base } else info)

info_of_families : Text → List (Text × List OsType) → OsInfo → OsInfo
unfolding info_in
info_of_families value [] info = info
info_of_families value ((base, entries) ∷ families) info =
    info_of_families value families (info_in value base entries info)

-- An empty value has no entry.
unfoldable pub get_kvm_osinfo : Option Text → OsInfo
unfolding info_of_families kvm_ostypes
get_kvm_osinfo none = record { desc = none; base = codes "Other" }
get_kvm_osinfo (some []) = record { desc = none; base = codes "Other" }
get_kvm_osinfo (some (c ∷ value)) =
    info_of_families (c ∷ value) kvm_ostypes (record { desc = none; base = codes "Other" })

ostype_text : Option Text → Text → Text
unfolding text_eq
ostype_text none base = base
ostype_text (some []) base = base
ostype_text (some (c ∷ desc)) base =
    if text_eq (c ∷ desc) (codes "-") then base else base ++ b' ' ∷ c ∷ desc

unfoldable pub render_kvm_ostype : Option Text → Text
unfolding ostype_text get_kvm_osinfo
render_kvm_ostype value = ostype_text (get_kvm_osinfo value).desc (get_kvm_osinfo value).base

-- `for (const propName of Object.keys(obj))`, where `null` and `undefined` are `none`.
unfoldable pub clean_empty_object_keys : List (Text × Option Text) → List (Text × Option Text)
clean_empty_object_keys [] = []
clean_empty_object_keys ((prop_name, none) ∷ obj) = clean_empty_object_keys obj
clean_empty_object_keys ((prop_name, some v) ∷ obj) =
    (prop_name, some v) ∷ clean_empty_object_keys obj
