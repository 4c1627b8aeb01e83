-- ===== src/Parser/Acme.antt =====
-- printACME, parseACME and parseACMEPluginData of www/manager6/Parser.js, and the changes of the
-- list of domains, add_domain_to_acme and remove_domain_from_acme of www/manager6/Utils.js.
pub mod Domains
use pve_manager_electrified.Prelude.{
  ℕ, ◌+◌, Bool, true, false, not, ◌&&◌, Option, none, some, List, [], ◌∷◌, ◌++◌, map, ◌==◌,
  if◌then◌else◌,
}
use pve_manager_electrified.Text.{
  Text, codes, text_eq, text_mem, split, join, split_pair, split_value,
}
use pve_manager_electrified.Object.{lookup, put, put_own}
use pve_manager_electrified.Parser.{each}
use pve_manager_electrified.Parser.PropertyString.{print_property_string}

-- A property of the parsed object: a text, or the array of domains.
pub data Value : Type 0 where
  text : Text → Value
  texts : List Text → Value

-- An array is joined by `;` before the object is printed.
abbrev flat_text : Value → Text
flat_text (text t) = t
flat_text (texts ts) = join b';' ts

abbrev pub flat_entry : Text × Value → Text × Text
flat_entry e = (e.0, flat_text e.1)

unfoldable pub print_acme : List (Text × Value) → Text
unfolding print_property_string
print_acme o = print_property_string (map flat_entry o) none

acme_put : List (Text × Value) → Text × Option Text → Option (List (Text × Value))
acme_put res (k, some v) = some (put k (text v) res)
acme_put res (k, none) = none

unfoldable pub acme_property : List (Text × Value) → Text → Option (List (Text × Value))
unfolding acme_put split_pair
acme_property res p = acme_put res (split_pair p)

abbrev pub domains_key : Text
domains_key = codes "domains"

-- `res.domains = res.domains.split(/;/)`
split_value_domains : Option Value → List (Text × Value) → List (Text × Value)
split_value_domains (some (text t)) res = put_own domains_key (texts (split b';' t)) res
split_value_domains other res = res

split_domains : Option (List (Text × Value)) → Option (List (Text × Value))
unfolding split_value_domains
split_domains none = none
split_domains (some res) = some (split_value_domains (lookup domains_key res) res)

unfoldable pub parse_acme : Option Text → Option (List (Text × Value))
unfolding acme_property split_domains
parse_acme none = some []
parse_acme (some []) = some []
parse_acme (some (c ∷ s)) = split_domains (each acme_property [] (split b',' (c ∷ s)))

-- `[res, extradata]` of parseACMEPluginData: assignments, and the lines that are none.
abbrev pub PluginData : Type 0
PluginData = List (Text × Text) × List Text

plugin_put : Text → PluginData → Text × Option Text → PluginData
plugin_put line (res, extra) (k, some v) = (put k v res, extra)
plugin_put line (res, extra) (k, none) = (res, extra ++ line ∷ [])

unfoldable pub plugin_lines : PluginData → List Text → PluginData
unfolding plugin_put split_value
plugin_lines d [] = d
plugin_lines d (line ∷ lines) = plugin_lines (plugin_put line d (split_value line)) lines

unfoldable pub parse_acme_plugin_data : Text → PluginData
unfolding plugin_lines split
parse_acme_plugin_data s = plugin_lines ([], []) (split 10 s)

-- `self.indexOf(value) === index`: the first occurrences.
unfoldable pub first_occurrences : List Text → List Text → List Text
unfolding text_mem
first_occurrences seen [] = []
first_occurrences seen (v ∷ vs) =
    let rest = first_occurrences (v ∷ seen) vs in if text_mem v seen then rest else v ∷ rest

unfoldable pub drop_text : Text → List Text → List Text
unfolding text_eq
drop_text d [] = []
drop_text d (v ∷ vs) = let rest = drop_text d vs in if text_eq v d then rest else v ∷ rest

-- add_domain_to_acme on the field `domains`, which may be missing.
unfoldable pub add_domain : Option (List Text) → Text → Option (List Text)
unfolding first_occurrences
add_domain none domain = some (domain ∷ [])
add_domain (some ds) domain = some (first_occurrences [] (ds ++ domain ∷ []))

-- remove_domain_from_acme: first occurrences other than the domain.
unfoldable pub remove_domain : Option (List Text) → Text → Option (List Text)
unfolding first_occurrences drop_text
remove_domain none domain = none
remove_domain (some ds) domain = some (drop_text domain (first_occurrences [] ds))
