-- ===== src/Forms/Search.antt =====
-- www/manager6/form/GlobalSearchField.js: which resources the search shows, and their relevance.
-- `toLowerCase` is the platform's, a parameter.
pub mod Relevance
use pve_manager_electrified.Prelude.{
  ℕ, ◌+◌, Bool, true, false, not, ◌&&◌, ◌||◌, Option, none, some, List, [], ◌∷◌, ◌++◌, ltb, ◌==◌,
  map, if◌then◌else◌,
}
use pve_manager_electrified.Text.{Text, codes, text_eq, nonempty, is_space, cons_head}
use pve_manager_electrified.Object.{lookup}
use pve_manager_electrified.Utils.Controllers.{contains}

-- The data of a resource, each value as `toString` writes it.
pub record Item : Type 0 where
  pub kind : Text
  pub values : List (Text × Text)
  pub tags : Option Text

abbrev pub default_fields : List Text
default_fields = codes "name" ∷ codes "type" ∷ codes "node" ∷ codes "pool" ∷ codes "vmid" ∷ []

unfoldable pub field_map : List (Text × List Text)
field_map =
    (codes "pool", codes "type" ∷ codes "pool" ∷ codes "text" ∷ [])
    ∷ (codes "node", codes "type" ∷ codes "node" ∷ codes "text" ∷ [])
    ∷ (codes "storage", codes "type" ∷ codes "pool" ∷ codes "node" ∷ codes "storage" ∷ [])
    ∷ (codes "default", default_fields)
    ∷ []

abbrev pub or_default_fields : Option (List Text) → List Text
or_default_fields none = default_fields
or_default_fields (some fields) = fields

unfoldable pub fields_of : Text → List Text
unfolding field_map lookup
fields_of kind = or_default_fields (lookup kind field_map)

-- `/[;, ]/`
abbrev pub is_tag_separator : ℕ → Bool
is_tag_separator c = c == b';' || c == b',' || c == b' '

unfoldable pub split_tags : Text → List Text
unfolding cons_head
split_tags [] = [] ∷ []
split_tags (c ∷ s) =
    let rest = split_tags s in if is_tag_separator c then [] ∷ rest else cons_head c rest

abbrev pub starts_space : Text → Bool
starts_space [] = false
starts_space (c ∷ s) = is_space c

-- `filterVal.split(/\s+/)`: a run of spaces separates once.
unfoldable pub split_words : Text → List Text
unfolding cons_head is_space
split_words [] = [] ∷ []
split_words (c ∷ s) =
    let rest = split_words s in
    if is_space c then (if starts_space s then rest else [] ∷ rest) else cons_head c rest

trim_start : Text → Text
unfolding is_space
trim_start [] = []
trim_start (c ∷ s) = let rest = trim_start s in if is_space c then rest else c ∷ s

trim_end : Text → Text
unfolding is_space
trim_end [] = []
trim_end (c ∷ s) =
    let rest = trim_end s in if is_space c && not (nonempty rest) then [] else c ∷ rest

unfoldable pub trim : Text → Text
unfolding trim_start trim_end
trim s = trim_end (trim_start s)

abbrev pub tags_of : Option Text → List Text
tags_of none = []
tags_of (some []) = []
tags_of (some (c ∷ tags)) = split_tags (c ∷ tags)

abbrev pub lowered : (Text → Text) → Option Text → Text
lowered lower_case none = []
lowered lower_case (some v) = lower_case v

unfoldable pub values_of : (Text → Text) → Item → List Text → List Text
unfolding lookup
values_of lower_case item [] = []
values_of lower_case item (field ∷ fields) =
    lowered lower_case (lookup field item.values) ∷ values_of lower_case item fields

-- `fieldArr`, where a value that is missing is empty.
unfoldable pub field_arr : (Text → Text) → Item → List Text
unfolding fields_of values_of split_tags
field_arr lower_case item = values_of lower_case item (fields_of item.kind) ++ tags_of item.tags

-- One field value against the words.
unfoldable pub match_words : Text → List Text → ℕ → ℕ
unfolding contains text_eq
match_words value [] match = match
match_words value (word ∷ words) match = match_words value words (
    if contains word value
    then (if text_eq value word then match + 1 + 1 else match + 1)
    else match)

unfoldable pub match_fields : List Text → List Text → ℕ → ℕ
unfolding match_words
match_fields [] words match = match
match_fields (value ∷ values) words match =
    match_fields values words (if nonempty value then match_words value words match else match)

-- customFilter, with the relevance that it sets and whether the resource is shown.
unfoldable pub custom_filter : (Text → Text) → Text → Item → ℕ × Bool
unfolding match_fields field_arr split_words
custom_filter lower_case [] item = (0, true)
custom_filter lower_case (c ∷ filter_val) item =
    let match = match_fields (field_arr lower_case item) (split_words (c ∷ filter_val)) 0 in
    (match, ltb 0 match)

shown_of : (Text → Text) → Text → List Item → List Item
unfolding custom_filter
shown_of lower_case filter_val [] = []
shown_of lower_case filter_val (item ∷ items) =
    let rest = shown_of lower_case filter_val items in
    if (custom_filter lower_case filter_val item).1 then item ∷ rest else rest

-- updateFilter, with the resources that stay shown.
unfoldable pub update_filter : (Text → Text) → Text → List Item → List Item
unfolding shown_of trim
update_filter lower_case new_value items = shown_of lower_case (trim (lower_case new_value)) items
