-- ===== src/Tests/PropertyString.antt =====
-- Property strings: runs, and the round trip at an input.
use pve_manager_electrified.Prelude.{◌≡◌, All, refl, arith, none, some, List, [], ◌∷◌}
use pve_manager_electrified.Text.{Text, codes, text_mem}
use pve_manager_electrified.Object.{lookup, is_index, proto_setter}
use pve_manager_electrified.Parser.PropertyString.{parse_property_string, print_property_string}
use pve_manager_electrified.Parser.PropertyString.Printable.{IsPrintable, IsUsable}
use pve_manager_electrified.Parser.PropertyString.RoundTrip.{parse-print_property_string}

abbrev options : List (Text × Text)
options =
    (codes "size", codes "4G") ∷ (codes "file", codes "local:1") ∷ (codes "aio", codes "io") ∷ []

print_options : print_property_string options (some (codes "file")) ≡ codes "local:1,aio=io,size=4G"
unfolding print_property_string pve_manager_electrified.Text.join lookup
    pve_manager_electrified.Object.entries
print_options = refl

parse_twice_default : parse_property_string (some (codes "a,b")) (some (codes "file")) ≡ none
unfolding parse_property_string pve_manager_electrified.Parser.each
    pve_manager_electrified.Text.split pve_manager_electrified.Text.split_pair
    pve_manager_electrified.Object.is_defined pve_manager_electrified.Object.put
parse_twice_default = refl

options-IsPrintable : All IsPrintable options
unfolding is_index
options-IsPrintable = ground arith

usable : IsUsable (some (codes "file"))
unfolding text_mem
usable = refl

parse-print_property_string_example :
    (out : List (Text × Text)) × (parse_property_string
        (some (print_property_string options (some (codes "file"))))
        (some (codes "file"))
      ≡ some out)
    × ((k : Text) → lookup k out ≡ lookup k options)
parse-print_property_string_example =
    parse-print_property_string options (some (codes "file")) options-IsPrintable (ground arith)
      usable
