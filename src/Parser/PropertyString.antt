-- ===== src/Parser/PropertyString.antt =====
-- parsePropertyString, printPropertyString and filterPropertyStringList of www/manager6/Parser.js.
-- An object of options is a list of entries; a value that is no string, or missing, is `none`.
pub mod Sorting
pub mod Printable
pub mod RoundTrip
use pve_manager_electrified.Prelude.{
  Bool, true, false, Option, none, some, List, [], ◌∷◌, ◌++◌, ◌==◌, ltb, if◌then◌else◌,
}
use pve_manager_electrified.Text.{Text, text_eq, split, join, split_pair, nonempty}
use pve_manager_electrified.Object.{lookup, put, is_defined, entries}
use pve_manager_electrified.Parser.{each, render}

-- The branches of the callback of `value.split(',').forEach`; `none` is a throw.
unfoldable pub assign_property :
    Option Text → List (Text × Text) → Text × Option Text → Option (List (Text × Text))
assign_property default_key res (k, some v) = some (put k v res)
assign_property none res (k, none) = none
assign_property (some d) res (k, none) = if is_defined d res then none else some (put d k res)

unfoldable pub parse_property :
    Option Text → List (Text × Text) → Text → Option (List (Text × Text))
unfolding assign_property
parse_property default_key res property = assign_property default_key res (split_pair property)

unfoldable pub parse_property_string : Option Text → Option Text → Option (List (Text × Text))
unfolding parse_property
parse_property_string none default_key = some []
parse_property_string (some []) default_key = some []
parse_property_string (some (c ∷ s)) default_key =
    each (parse_property default_key) [] (split b',' (c ∷ s))

-- `a <= b` in the order of code units, by which `sort()` orders texts.
unfoldable pub text_leb : Text → Text → Bool
text_leb [] t = true
text_leb (a ∷ s) [] = false
text_leb (a ∷ s) (b ∷ t) = if ltb a b then true else if a == b then text_leb s t else false

unfoldable pub insert_text : Text → List Text → List Text
unfolding text_leb
insert_text p [] = p ∷ []
insert_text p (q ∷ qs) =
    let rest = insert_text p qs in if text_leb p q then p ∷ q ∷ qs else q ∷ rest

-- `stringparts.sort()`
unfoldable pub sort_texts : List Text → List Text
unfolding insert_text
sort_texts [] = []
sort_texts (p ∷ ps) = insert_text p (sort_texts ps)

abbrev pub is_default : Option Text → Text → Bool
is_default none k = false
is_default (some d) k = text_eq k d

-- The parts that `Ext.Object.each` collects.
unfoldable pub string_parts : Option Text → List (Text × Text) → List Text
string_parts default_key [] = []
string_parts default_key ((k, v) ∷ o) =
    let rest = string_parts default_key o in
    if is_default default_key k then rest else if nonempty v then render (k, v) ∷ rest else rest

-- The value that the same loop finds under the default key.
unfoldable pub default_value : Option Text → List (Text × Text) → Option Text
default_value none o = none
default_value (some d) o = lookup d o

-- `if (gotDefaultKeyVal) { stringparts.unshift(defaultKeyVal); }`
unfoldable pub unshift_value : Option Text → List Text → List Text
unshift_value none parts = parts
unshift_value (some v) parts = v ∷ parts

unfoldable pub print_property_string : List (Text × Text) → Option Text → Text
unfolding sort_texts string_parts default_value unshift_value
print_property_string o default_key = join b',' (
    unshift_value (default_value default_key o) (sort_texts (string_parts default_key (entries o))))

-- The entries of a list of property strings that a predicate on the parsed result accepts.
unfoldable pub filter_property_string_list :
    List Text → (Option (List (Text × Text)) → Bool) → Option Text → List Text
filter_property_string_list [] filter_fn default_key = []
filter_property_string_list (entry ∷ list) filter_fn default_key =
    let rest = filter_property_string_list list filter_fn default_key in
    if filter_fn (parse_property_string (some entry) default_key) then entry ∷ rest else rest
