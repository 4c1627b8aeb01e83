-- ===== src/Parser/LxcNetwork.antt =====
-- parseLxcNetwork, printLxcNetwork and parseBoolean of www/manager6/Parser.js: a network device of
-- a container. Three of its options are read as Booleans.
pub mod Printing
use pve_manager_electrified.Prelude.{
  Bool, true, false, ◌&&◌, ◌||◌, Option, none, some, List, [], ◌∷◌, ◌++◌, map, not, ◌==◌, ℕ,
  if◌then◌else◌,
}
use pve_manager_electrified.Text.{
  Text, codes, text_eq, text_mem, split, join, cut, is_blank, is_word, is_digits, nonempty, lower,
  capture,
}
use pve_manager_electrified.Object.{put, entries, prototype_names}
use pve_manager_electrified.Parser.{each}

-- What a property of the result holds.
pub data Value : Type 0 where
  text : Text → Value
  flag : Bool → Value

-- `parseBoolean(value, default_value)`
unfoldable pub parse_boolean : Option Text → Bool → Bool
unfolding text_mem lower
parse_boolean none default_value = default_value
parse_boolean (some value) default_value =
    text_mem (map lower value) (codes "1" ∷ codes "on" ∷ codes "yes" ∷ codes "true" ∷ [])

abbrev pub text_keys : List Text
text_keys =
    codes "bridge"
    ∷ codes "hwaddr"
    ∷ codes "mtu"
    ∷ codes "name"
    ∷ codes "ip"
    ∷ codes "ip6"
    ∷ codes "gw"
    ∷ codes "gw6"
    ∷ codes "tag"
    ∷ codes "rate"
    ∷ []

abbrev pub flag_keys : List Text
flag_keys = codes "firewall" ∷ codes "link_down" ∷ codes "host-managed" ∷ []

-- A part that is not blank, cut at its first `=`. What matches no expression is only warned about.
unfoldable pub lxc_part : List (Text × Value) → Text × Option Text → List (Text × Value)
unfolding text_mem is_word is_digits parse_boolean
lxc_part res (k, none) = res
lxc_part res (k, some v) =
    if text_mem k text_keys && is_word v
    then put k (text v) res
    else if text_mem k flag_keys && is_digits v
    then put k (flag (parse_boolean (some v) false)) res
    else res

unfoldable pub lxc_option : List (Text × Value) → Text → List (Text × Value)
unfolding is_blank lxc_part cut
lxc_option res p = if is_blank p then res else lxc_part res (cut b'=' p)

unfoldable pub lxc_options : List (Text × Value) → List Text → List (Text × Value)
unfolding lxc_option
lxc_options res [] = res
lxc_options res (p ∷ ps) = lxc_options (lxc_option res p) ps

-- An empty value, or none, gives `undefined`.
unfoldable pub parse_lxc_network : Option Text → Option (List (Text × Value))
unfolding lxc_options
parse_lxc_network none = none
parse_lxc_network (some []) = none
parse_lxc_network (some (c ∷ s)) = some (lxc_options [] (split b',' (c ∷ s)))

abbrev pub known_keys : List Text
known_keys =
    codes "bridge"
    ∷ codes "firewall"
    ∷ codes "gw6"
    ∷ codes "gw"
    ∷ codes "hwaddr"
    ∷ codes "ip6"
    ∷ codes "ip"
    ∷ codes "mtu"
    ∷ codes "name"
    ∷ codes "rate"
    ∷ codes "tag"
    ∷ codes "link_down"
    ∷ codes "host-managed"
    ∷ []

-- A value in a template literal.
abbrev pub show_value : Value → Text
show_value (text v) = v
show_value (flag true) = codes "true"
show_value (flag false) = codes "false"

abbrev pub is_filled : Value → Bool
is_filled (text v) = nonempty v
is_filled (flag b) = true

-- `knownKeys[k]` also finds what the object inherits.
unfoldable pub is_printed : Text × Value → Bool
unfolding text_mem
is_printed (k, v) = is_filled v && (text_mem k known_keys || text_mem k prototype_names)

abbrev pub render_value : Text × Value → Text
render_value e = e.0 ++ b'=' ∷ show_value e.1

unfoldable pub filter_known : List (Text × Value) → List (Text × Value)
unfolding is_printed
filter_known [] = []
filter_known (e ∷ o) = let rest = filter_known o in if is_printed e then e ∷ rest else rest

unfoldable pub print_lxc_network : List (Text × Value) → Text
unfolding filter_known
print_lxc_network config = join b',' (map render_value (filter_known (entries config)))
