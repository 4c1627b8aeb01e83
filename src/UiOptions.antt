-- ===== src/UiOptions.antt =====
-- www/manager6/UIOptions.js: the tags of the cluster with their colours, and the settings of the tree.
-- What the server answers (`tag-style`) and what the browser keeps are arguments.
pub mod TagList
use pve_manager_electrified.Prelude.{
  ℕ, ◌+◌, ◌-◌, ◌*◌, Bool, true, false, not, ◌&&◌, ◌||◌, Option, none, some, List, [], ◌∷◌, ◌++◌,
  leb, ◌==◌, if◌then◌else◌, ◌>>=◌,
}
use pve_manager_electrified.Text.{Text, codes, text_eq, nonempty, split, is_digit, is_hex, lower}
use pve_manager_electrified.Object.{lookup, put, entries}
use pve_manager_electrified.Parser.Acme.{first_occurrences}
use pve_manager_electrified.Utils.Controllers.{sort_by}
use pve_manager_electrified.Utils.Versions.{Signed, skip_space}
use pve_manager_electrified.Tree.{compare_text}

-- updateTagList: the texts without repetition, sorted; `undefined` throws.
unfoldable pub update_tag_list : Option (List Text) → Option (List Text)
unfolding sort_by first_occurrences
update_tag_list none = none
update_tag_list (some tags) = some (sort_by compare_text (first_occurrences [] tags))

hex_value : ℕ → ℕ
unfolding is_digit lower
hex_value c = if is_digit c then c - b'0' else lower c - b'a' + 10

-- The value of the hexadecimal digits at the start, behind those that gave `acc`.
hex_digits : Option ℕ → Text → Option ℕ
unfolding hex_value is_hex
hex_digits acc [] = acc
hex_digits acc (c ∷ s) =
    let rest =
      hex_digits (some (elim acc [ none ↦ hex_value c | some n ↦ n * 16 + hex_value c ])) s in
    if is_hex c then rest else acc

-- `0x` in front is skipped.
behind_0x : Text → Text
behind_0x (z ∷ x ∷ s) = if z == b'0' && (x == b'x' || x == b'X') then s else z ∷ x ∷ s
behind_0x s = s

with_sign : Bool → Option ℕ → Option Signed
with_sign negative none = none
with_sign negative (some n) = some (negative, n)

signed_hex : Text → Option Signed
unfolding with_sign hex_digits behind_0x
signed_hex [] = none
signed_hex (c ∷ s) =
    if c == b'-'
    then with_sign true (hex_digits none (behind_0x s))
    else if c == b'+'
    then with_sign false (hex_digits none (behind_0x s))
    else with_sign false (hex_digits none (behind_0x (c ∷ s)))

-- `parseInt(s, 16)`; `NaN` is `none`.
unfoldable pub parse_hex : Text → Option Signed
unfolding signed_hex skip_space
parse_hex s = signed_hex (skip_space s)

-- `.slice(0, 2)`, `.slice(2, 4)` and `.slice(4, 6)`
abbrev pub first_two : Text → Text
first_two (a ∷ b ∷ s) = a ∷ b ∷ []
first_two s = s

abbrev pub behind_two : Text → Text
behind_two (a ∷ b ∷ s) = s
behind_two s = []

-- Red, green and blue.
unfoldable pub rgb : Text → List (Option Signed)
unfolding parse_hex
rgb hex =
    parse_hex (first_two hex)
    ∷ parse_hex (first_two (behind_two hex))
    ∷ parse_hex (first_two (behind_two (behind_two hex)))
    ∷ []

abbrev pub Colors : Type 0
Colors = List (Text × List (Option Signed))

-- `[tag, color_hex, font_hex]`; without a colour the code throws.
assign_color : List Text → Colors → Option Colors
unfolding rgb put
assign_color [] colors = none
assign_color (tag ∷ []) colors = none
assign_color (tag ∷ color_hex ∷ []) colors = some (put tag (rgb color_hex) colors)
assign_color (tag ∷ color_hex ∷ font_hex ∷ rest) colors =
    some
      (put tag (if nonempty font_hex then rgb color_hex ++ rgb font_hex else rgb color_hex) colors)

unfoldable pub assign_colors : List Text → Colors → Option Colors
unfolding assign_color split
assign_colors [] colors = some colors
assign_colors ([] ∷ more) colors = assign_colors more colors
assign_colors ((c ∷ color) ∷ more) colors = do
  changed ← assign_color (split b':' (c ∷ color)) colors
  assign_colors more changed

unfoldable pub parse_tag_overrides : Option Text → Option Colors
unfolding assign_colors split
parse_tag_overrides none = some []
parse_tag_overrides (some overrides) = assign_colors (split b';' overrides) []

-- `Ext.apply({}, first, second)`
unfoldable pub apply_colors : Colors → Colors → Colors
unfolding put
apply_colors colors [] = colors
apply_colors colors ((tag, color) ∷ more) = apply_colors (put tag color colors) more

-- updateTagOverrides, with the overrides that it sets; `color_state` is the text of the browser.
unfoldable pub update_tag_overrides : Text → Colors → Option Colors
unfolding parse_tag_overrides apply_colors entries
update_tag_overrides color_state colors = do
  browser_colors ← parse_tag_overrides (some color_state)
  some (apply_colors (apply_colors [] (entries browser_colors)) (entries colors))

-- `tag-style`, where it is set.
pub record TagStyle : Type 0 where
  pub color_map : Option Text
  pub shape : Option Text
  pub ordering : Option Text

color_map_of : Option TagStyle → Text
color_map_of none = []
color_map_of (some style) = elim style.color_map [ none ↦ [] | some overrides ↦ overrides ]

-- The shape, also where it is `__default__`: the code assigns `circle` to another variable then.
shape_of : Option TagStyle → Text
shape_of none = codes "circle"
shape_of (some style) = elim style.shape [ none ↦ codes "circle" | some shape ↦ shape ]

-- updateTagSettings, with the overrides and the class of the tree.
unfoldable pub update_tag_settings : Text → Option TagStyle → Option (Colors × Text)
unfolding color_map_of shape_of update_tag_overrides parse_tag_overrides
update_tag_settings color_state style = do
  colors ← parse_tag_overrides (some (color_map_of style))
  overrides ← update_tag_overrides color_state colors
  some (overrides, codes "proxmox-tags-" ++ shape_of style)

is_config : Option Text → Bool
unfolding text_eq
is_config none = false
is_config (some ordering) = text_eq ordering (codes "config")

unfoldable pub should_sort_tags : Option TagStyle → Bool
unfolding is_config
should_sort_tags none = true
should_sort_tags (some style) = not (is_config style.ordering)

-- A setting of the tree: a text or a Boolean value.
pub data Setting : Type 0 where
  text : Text → Setting
  flag : Bool → Setting

abbrev pub sorting_defaults : List (Text × Setting)
sorting_defaults =
    (codes "sort-field", text (codes "vmid"))
    ∷ (codes "group-templates", flag true)
    ∷ (codes "group-guest-types", flag true)
    ∷ (codes "nest-pools", flag true)
    ∷ []

setting_or : Option Setting → Option Setting → Option Setting
setting_or none standard = standard
setting_or (some value) standard = some value

-- getTreeSortingValue; `browser_values` is what the browser keeps under `pve-tree-sorting`.
unfoldable pub get_tree_sorting_value : List (Text × Setting) → Text → Option Setting
unfolding setting_or lookup
get_tree_sorting_value browser_values key =
    setting_or (lookup key browser_values) (lookup key sorting_defaults)
