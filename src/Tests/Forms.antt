-- ===== src/Tests/Forms.antt =====
-- The boot order and the processor flags: runs, and the theorems at an input.
use pve_manager_electrified.Prelude.{
  ◌≡◌, ◌||◌, ◌+◌, ◌≤◌, ◌<◌, ◌↔◌, refl, inl, inr, Bool, true, false, none, some, List, [], ◌∷◌, All,
  map, arith,
}
use pve_manager_electrified.Text.{Text, codes, text_mem, text_eq, join}
use pve_manager_electrified.Object.{lookup, put, entries}
use pve_manager_electrified.Parser.PropertyString.{parse_property_string}
use pve_manager_electrified.Forms.BootOrder.{
  Entry, set_vm_config, on_get_values, enabled_names, boot_order, keys_such, is_bootdev,
}
use pve_manager_electrified.Forms.BootOrder.Saving.{IsPlainName, set_vm_config-on_get_values}
use pve_manager_electrified.Forms.BootOrder.Offered.{names, set_vm_config_lem}
use pve_manager_electrified.Forms.Search.{Item, custom_filter, field_arr, split_words}
use pve_manager_electrified.Forms.Search.Relevance.{count_pairs, is_part, custom_filter_lem}
use pve_manager_electrified.Forms.CpuFlags.{Selector, get_value, set_value, flags_of, name_of}
use pve_manager_electrified.Forms.CpuFlags.Keeping.{set_value-get_value}
use pve_manager_electrified.Forms.CpuFlags.Parts.{IsKnownFlag}
use pve_manager_electrified.Forms.CpuFlags.Unknown.{IsUnknown, get_value-set_value_of_unknown}

abbrev guest : List (Text × Text)
guest =
    (codes "scsi0", codes "local:vm-100-disk-0,size=8G")
    ∷ (codes "ide2", codes "local:iso/x.iso,media=cdrom")
    ∷ (codes "net0", codes "virtio,bridge=vmbr0")
    ∷ []

abbrev off : Text → Bool → Entry
off name enabled = record { name = name; enabled = enabled; desc = none }

abbrev edited : List Entry
edited = off (codes "net0") true ∷ off (codes "ide2") false ∷ off (codes "scsi0") true ∷ []

edited-IsPlainName : All IsPlainName edited
edited-IsPlainName = (
  (
    refl,
    ((λ e. omega arith), ((λ e. omega arith), ((λ e. omega arith), ((λ e. omega arith), tt)))),
    ((λ e. omega arith), ((λ e. omega arith), ((λ e. omega arith), ((λ e. omega arith), tt)))),
    ((λ e. omega arith), ((λ e. omega arith), ((λ e. omega arith), ((λ e. omega arith), tt)))),
  ),
  (
    (
      refl,
      ((λ e. omega arith), ((λ e. omega arith), ((λ e. omega arith), ((λ e. omega arith), tt)))),
      ((λ e. omega arith), ((λ e. omega arith), ((λ e. omega arith), ((λ e. omega arith), tt)))),
      ((λ e. omega arith), ((λ e. omega arith), ((λ e. omega arith), ((λ e. omega arith), tt)))),
    ),
    (
      (
        refl,
        (
          (λ e. omega arith),
          (
            (λ e. omega arith),
            ((λ e. omega arith), ((λ e. omega arith), ((λ e. omega arith), tt))),
          ),
        ),
        (
          (λ e. omega arith),
          (
            (λ e. omega arith),
            ((λ e. omega arith), ((λ e. omega arith), ((λ e. omega arith), tt))),
          ),
        ),
        (
          (λ e. omega arith),
          (
            (λ e. omega arith),
            ((λ e. omega arith), ((λ e. omega arith), ((λ e. omega arith), tt))),
          ),
        ),
      ),
      tt,
    ),
  ),
)

set_vm_config-on_get_values_example :
    (loaded : List Entry) × (set_vm_config (put (codes "boot") (on_get_values edited) guest)
      ≡ some loaded)
    × (enabled_names loaded ≡ enabled_names edited)
set_vm_config-on_get_values_example = set_vm_config-on_get_values guest edited edited-IsPlainName

-- Without a text of `boot`, the order is the legacy one: disks, CD-ROM drives, network.
legacy_run : boot_order guest [] ≡ codes "ide2" ∷ codes "net0" ∷ []
unfolding boot_order
legacy_run = refl

guest_parsed : parse_property_string (lookup (codes "boot") guest) (some (codes "legacy")) ≡ some []
unfolding parse_property_string lookup
guest_parsed = refl

set_vm_config_lem_example :
    (es : List Entry) × (set_vm_config guest ≡ some es)
    × (enabled_names es ≡ boot_order guest [])
    × (text_mem (codes "scsi0") (names es) ≡ (
        text_mem (codes "scsi0") (enabled_names es)
        || text_mem (codes "scsi0") (keys_such is_bootdev (entries guest))))
set_vm_config_lem_example = set_vm_config_lem guest [] (codes "scsi0") guest_parsed

abbrev grid : Selector
grid = record {
  flags =
      record { name = codes "aes"; state = codes "+" }
      ∷ record { name = codes "pcid"; state = codes "=" }
      ∷ [];
  is_loaded = true;
  adjusted_for_value = none;
  value = [];
  unkown_flags = [];
}

grid-IsKnownFlag : All IsKnownFlag grid.flags
grid-IsKnownFlag = (
  record {
    named = refl;
    plain = ((λ e. omega arith), ((λ e. omega arith), ((λ e. omega arith), tt)));
    state = inr (inl refl);
  },
  (
    record {
      named = refl;
      plain = (
        (λ e. omega arith),
        ((λ e. omega arith), ((λ e. omega arith), ((λ e. omega arith), tt))),
      );
      state = inl refl;
    },
    tt,
  ),
)

set_value-get_value_example :
    ((set_value (get_value grid) grid).flags ≡ grid.flags)
    × ((set_value (get_value grid) grid).unkown_flags ≡ [])
set_value-get_value_example =
    set_value-get_value grid refl refl grid-IsKnownFlag (((λ e. cc), tt), (tt, tt))

strange-IsUnknown : All (IsUnknown grid.flags) (flags_of (codes "+x;-y"))
unfolding flags_of
strange-IsUnknown = (((λ e. cc), ((λ e. cc), tt)), (((λ e. cc), ((λ e. cc), tt)), tt))

get_value-set_value_of_unknown_example :
    get_value (set_value (codes "+x;-y") grid) ≡ join b';' (map name_of (flags_of (codes "+x;-y")))
get_value-set_value_of_unknown_example =
    get_value-set_value_of_unknown (codes "+x;-y") grid refl strange-IsUnknown

-- A known flag and an unknown one are written without a `;` between them, and the sign is lost.
mixed_run : get_value (set_value (codes "+aes;-x") grid) ≡ codes "+aesx"
unfolding get_value set_value
mixed_run = refl

abbrev web : Item
web = record {
  kind = codes "qemu";
  values =
      (codes "name", codes "web") ∷ (codes "vmid", codes "100") ∷ (codes "node", codes "pve1") ∷ [];
  tags = some (codes "prod");
}

custom_filter_lem_example :
    (let parts = count_pairs is_part (field_arr (λ v. v) web) (split_words (codes "we prod")) in
      ((custom_filter (λ v. v) (codes "we prod") web).0
        ≡ parts + count_pairs text_eq (field_arr (λ v. v) web) (split_words (codes "we prod")))
      × ((custom_filter (λ v. v) (codes "we prod") web).0 ≤ parts + parts)
      × (((custom_filter (λ v. v) (codes "we prod") web).1 ≡ true) ↔ (0 < parts)))
custom_filter_lem_example = custom_filter_lem (λ v. v) (codes "we prod") web refl

search_run : (custom_filter (λ v. v) (codes "we prod") web).0 ≡ 3
unfolding custom_filter
search_run = refl
