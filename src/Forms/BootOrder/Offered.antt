-- ===== src/Forms/BootOrder/Offered.antt =====
-- Which devices the list of the boot order offers.
use pve_manager_electrified.Prelude.{
  ◌≡◌, refl, sym, ap, ◌∙◌, Bool, true, false, not, ◌&&◌, ◌||◌, some, List, [], ◌∷◌, ◌++◌, map,
  arith,
}
use pve_manager_electrified.Text.{Text, codes, text_eq, text_mem}
use pve_manager_electrified.Text.Equality.{text_mem-append, text_eq_iff}
use pve_manager_electrified.Object.{lookup, entries}
use pve_manager_electrified.Parser.PropertyString.{parse_property_string}
use pve_manager_electrified.Utils.Controllers.Sorting.{text_mem-sort_by}
use pve_manager_electrified.Tree.{compare_text}
use pve_manager_electrified.Forms.BootOrder.{
  Entry, entry, is_bootdev, keys_such, boot_order, boot_entries, after_parse, disabled_devices,
  set_vm_config, enabled_names,
}
use pve_manager_electrified.Forms.BootOrder.Saving.{enabled_names-boot_entries}

pub names : List Entry → List Text
names [] = []
names (e ∷ es) = e.name ∷ names es

text_mem_step :
    (k key : Text) (keys : List Text) → text_mem k (key ∷ keys) ≡ (text_eq k key || text_mem k keys)
unfolding text_mem
text_mem_step k key keys = refl

text_mem-keys_such :
    (k : Text) (order : List Text) (config : List (Text × Text))
    → text_mem k (keys_such (λ key value. is_bootdev key value && not (text_mem key order)) config)
      ≡ (text_mem k (keys_such is_bootdev config) && not (text_mem k order))
unfolding keys_such
text_mem-keys_such k order [] = unfold text_mem in refl
text_mem-keys_such k order ((key, value) ∷ config) =
    let rest = text_mem-keys_such k order config in
    ground (
      arith,
      rest,
      text_mem_step k key (keys_such is_bootdev config),
      text_mem_step k key
          (keys_such (λ key value. is_bootdev key value && not (text_mem key order)) config),
      text_eq_iff k key,
      λ (e : k ≡ key). ap (λ w. text_mem w order) e,
    )

names-append :
    (config : List (Text × Text)) (b : Bool) (order : List Text) (es : List Entry)
    → names (map (entry config b) order ++ es) ≡ order ++ names es
unfolding names entry
names-append config b [] es = refl
names-append config b (n ∷ order) es = ap (◌∷◌ n) (names-append config b order es)

names_lem :
    (config : List (Text × Text)) (b : Bool) (order : List Text)
    → names (map (entry config b) order) ≡ order
unfolding names entry
names_lem config b [] = refl
names_lem config b (n ∷ order) = ap (◌∷◌ n) (names_lem config b order)

or-and-not : (a b : Bool) → (a || (b && not a)) ≡ (a || b)
or-and-not a b = ground arith

boot_entries-offered :
    (k : Text) (config : List (Text × Text)) (order : List Text)
    → text_mem k (names (boot_entries config order))
      ≡ (text_mem k order || text_mem k (keys_such is_bootdev (entries config)))
unfolding boot_entries disabled_devices
boot_entries-offered k config order =
    ap (text_mem k)
      (names-append config true order _ ∙ ap (λ ns. order ++ ns) (names_lem config false _))
    ∙ text_mem-append k order _
    ∙ ap (λ b. text_mem k order || b)
        (text_mem-sort_by compare_text k _ ∙ text_mem-keys_such k order (entries config))
    ∙ or-and-not (text_mem k order) _

-- The list offers the enabled devices and the boot devices of the configuration, and no others, if
-- the text of `boot` can be parsed.
pub set_vm_config_lem :
    (config boot : List (Text × Text)) (k : Text)
    → parse_property_string (lookup (codes "boot") config) (some (codes "legacy")) ≡ some boot
    → (es : List Entry) × (set_vm_config config ≡ some es)
      × (enabled_names es ≡ boot_order config boot)
      × (text_mem k (names es)
          ≡ (text_mem k (enabled_names es) || text_mem k (keys_such is_bootdev (entries config))))
unfolding set_vm_config after_parse
set_vm_config_lem config boot k parsed =
    let order = boot_order config boot in
    let enabled = enabled_names-boot_entries config order in
    (
      boot_entries config order,
      ap (after_parse config) parsed,
      enabled,
      boot_entries-offered k config order
          ∙ ap (λ ns. text_mem k ns || text_mem k (keys_such is_bootdev (entries config)))
              (sym enabled),
    )
