-- ===== src/Tests/Helpers.antt =====
-- Versions, the order of controllers and the offered paths: runs, and the theorems at an input.
use pve_manager_electrified.Prelude.{
  ℕ, ◌≤◌, ◌≡◌, ◌↔◌, ◌||◌, ◌⊎◌, ◌++◌, refl, arith, true, false, none, some, List, [], ◌∷◌, All,
}
use pve_manager_electrified.Text.{Text, codes, text_mem}
use pve_manager_electrified.Utils.Versions.{
  greater, compare_ceph_versions, qemu_min_version, get_max_usb_count, match_machine, usb_old,
}
use pve_manager_electrified.Utils.Versions.Comparing.{
  dotted, lexicographic, compare_ceph_versions-dotted,
}
use pve_manager_electrified.Utils.Versions.Minimum.{at, qemu_min_version_lem}
use pve_manager_electrified.Utils.Controllers.{sort_by_previous_usage, or_default}
use pve_manager_electrified.Utils.Controllers.Order.{IsController, rank, sort_by_previous_usage_lem}
use pve_manager_electrified.Utils.Controllers.Sorting.{IsDescending, count}
use pve_manager_electrified.Object.{lookup}
use pve_manager_electrified.Utils.Fields.{Field, text, delete_key, delete_if_default}
use pve_manager_electrified.Utils.Fields.Deleting.{IsDefaultText, names, delete_if_default_lem}
use pve_manager_electrified.PermPath.{Resource, add_paths, perm_paths, static_paths}
use pve_manager_electrified.PermPath.Offered.{is_path_of_any, perm_paths_lem}
use pve_manager_electrified.Utils.Rendering.{
  render_kvm_startup, render_kvm_ostype, render_hotplug_features,
}
use pve_manager_electrified.UiOptions.{update_tag_list, parse_tag_overrides, update_tag_settings}
use pve_manager_electrified.UiOptions.TagList.{update_tag_list_lem}
use pve_manager_electrified.Tree.{compare_text}
use pve_manager_electrified.Tree.Insert.{IsSorted}
use pve_manager_electrified.Parser.Acme.Domains.{IsDistinct}

compare_ceph_versions-dotted_example :
    compare_ceph_versions (dotted (18 ∷ 2 ∷ 10 ∷ [])) (dotted (18 ∷ 2 ∷ 9 ∷ []))
    ≡ lexicographic (18 ∷ 2 ∷ 10 ∷ []) (18 ∷ 2 ∷ 9 ∷ [])
compare_ceph_versions-dotted_example = compare_ceph_versions-dotted (2 ∷ 10 ∷ []) (2 ∷ 9 ∷ []) 18 18

-- 8.0 is greater than 7.1, and fails it.
qemu_min_version_lem_example :
    (lexicographic (8 ∷ 0 ∷ []) (7 ∷ 1 ∷ []) ≡ greater)
    × (qemu_min_version (8 ∷ 0 ∷ []) (7 ∷ 1 ∷ []) ≡ qemu_min_version (0 ∷ []) (1 ∷ []))
    × ((qemu_min_version (0 ∷ []) (1 ∷ []) ≡ true) ↔ ((i : ℕ) → at (1 ∷ []) i ≤ at (0 ∷ []) i))
qemu_min_version_lem_example = qemu_min_version_lem 8 7 (0 ∷ []) (1 ∷ []) (omega arith)

-- A guest with a machine of version 8.0 gets the old count.
usb_count_8_0 : get_max_usb_count (some (codes "l26")) (some (codes "pc-q35-8.0")) ≡ usb_old
unfolding get_max_usb_count pve_manager_electrified.Utils.Versions.match_machine
    pve_manager_electrified.Utils.Versions.machine_allows
    pve_manager_electrified.Utils.Versions.is_recent_os
    pve_manager_electrified.Utils.Versions.digits_prefix pve_manager_electrified.Text.text_eq
    qemu_min_version
usb_count_8_0 = refl

abbrev guest : List (Text × Text)
guest =
    (codes "ostype", codes "l26")
    ∷ (codes "sata0", codes "a")
    ∷ (codes "ide2", codes "b,media=cdrom")
    ∷ []

default_controllers : All IsController (or_default none)
unfolding or_default text_mem
default_controllers = (refl, (refl, (refl, (refl, tt))))

sort_by_previous_usage_lem_example :
    IsDescending (rank guest) (sort_by_previous_usage guest none)
    × ((c : Text) → count c (sort_by_previous_usage guest none) ≡ count c (or_default none))
sort_by_previous_usage_lem_example = sort_by_previous_usage_lem guest none default_controllers

abbrev pool : Resource
pool field = codes "pool"

perm_paths_lem_example :
    (text_mem (codes "/pool/pool") (perm_paths (λ ps. ps) (pool ∷ pool ∷ [])) ≡ (
      text_mem (codes "/pool/pool") static_paths
      || is_path_of_any (codes "/pool/pool") (pool ∷ pool ∷ [])))
    × IsDistinct (add_paths (pool ∷ pool ∷ []) [])
perm_paths_lem_example =
    perm_paths_lem (λ ps. ps) (pool ∷ pool ∷ []) (codes "/pool/pool") (λ q ps. refl)

abbrev form : List (Text × Field)
form =
    (codes "node", text [])
    ∷ (codes "delete", text (codes "pool"))
    ∷ (codes "id", text (codes "7"))
    ∷ []

delete_if_default_lem_example :
    (IsDefaultText (codes "any") (lookup (codes "node") form)
      × (lookup (codes "node") (delete_if_default form (codes "node") (codes "any") false) ≡ none)
      × (lookup (codes "id") (delete_if_default form (codes "node") (codes "any") false)
          ≡ lookup (codes "id") form)
      × (((false ≡ true)
            × (lookup delete_key (delete_if_default form (codes "node") (codes "any") false)
                ≡ lookup delete_key form))
          ⊎ ((false ≡ false)
              × (names
                    (lookup delete_key (delete_if_default form (codes "node") (codes "any") false))
                  ≡ names (lookup delete_key form) ++ codes "node" ∷ []))))
    ⊎ ((¬ IsDefaultText (codes "any") (lookup (codes "node") form))
        × (delete_if_default form (codes "node") (codes "any") false ≡ form))
delete_if_default_lem_example =
    delete_if_default_lem form (codes "node") (codes "any") false (codes "id") (λ e. cc) (λ e. cc)
      ((λ e. omega arith), ((λ e. omega arith), ((λ e. omega arith), ((λ e. omega arith), tt))))
      (λ e. cc) (λ e. cc)

update_tag_list_lem_example :
    (list : List Text) × (update_tag_list (some (codes "web" ∷ codes "db" ∷ codes "web" ∷ []))
      ≡ some list)
    × IsSorted compare_text list
    × IsDistinct list
    × (text_mem (codes "db") list
        ≡ text_mem (codes "db") (codes "web" ∷ codes "db" ∷ codes "web" ∷ []))
update_tag_list_lem_example =
    update_tag_list_lem (codes "web" ∷ codes "db" ∷ codes "web" ∷ []) (codes "db")

-- The colours of a tag, with those of its text.
colors_run :
    parse_tag_overrides (some (codes "web:ff0080:00ff0g;"))
    ≡ some (
        (
          codes "web",
          some (false, 255)
              ∷ some (false, 0)
              ∷ some (false, 128)
              ∷ some (false, 0)
              ∷ some (false, 255)
              ∷ some (false, 0)
              ∷ [],
        )
        ∷ [])
unfolding parse_tag_overrides
colors_run = refl

-- The shape `__default__` is not replaced.
shape_run :
    update_tag_settings []
      (some (record { color_map = none; shape = some (codes "__default__"); ordering = none }))
    ≡ some ([], codes "proxmox-tags-__default__")
unfolding update_tag_settings
shape_run = refl

startup_run : render_kvm_startup (some (codes "up=10,order=3")) ≡ some (codes "order=3,up=10")
unfolding render_kvm_startup pve_manager_electrified.Parser.each pve_manager_electrified.Text.split
    pve_manager_electrified.Text.is_digits
startup_run = refl

ostype_run : render_kvm_ostype (some (codes "w2k8")) ≡ codes "Microsoft Windows Vista/2008"
unfolding render_kvm_ostype
ostype_run = refl

hotplug_run : render_hotplug_features (λ s. s) (some (codes "1")) ≡ codes "Disk, Network, USB"
unfolding render_hotplug_features pve_manager_electrified.Text.split
hotplug_run = refl
