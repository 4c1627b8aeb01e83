-- ===== src/Parser/PropertyString/RoundTrip.antt =====
-- Printing an object of options and parsing the text gives an object that reads the same.
use pve_manager_electrified.Prelude.{
  ◌≡◌, ap, ◌∙◌, true, Option, none, some, List, [], arith, All, map, if◌then◌else◌, All-imp,
  Option-cases, inl, inr,
}
use pve_manager_electrified.Text.{Text, text_eq, nonempty, join}
use pve_manager_electrified.Text.Equality.{text_eq_iff}
use pve_manager_electrified.Text.Split.{Lacks}
use pve_manager_electrified.Object.{lookup, put, remove}
use pve_manager_electrified.Object.Laws.{
  HasDistinctKeys, lookup-put, lookup-remove, entries_of_ordinary,
}
use pve_manager_electrified.Parser.{each_step, render}
use pve_manager_electrified.Parser.PropertyString.{
  parse_property, parse_property_string, sort_texts, string_parts, default_value, unshift_value,
  print_property_string,
}
use pve_manager_electrified.Parser.PropertyString.Sorting.{
  sort_entries, sort_texts-map, All-sort_entries, HasDistinctKeys-sort_entries, lookup-sort_entries,
}
use pve_manager_electrified.Parser.PropertyString.Printable.{
  IsPrintable, each-render, string_parts-none, string_parts-some, All-remove,
  HasDistinctKeys-remove, Lacks-render, parse_property_string-join, parse-map-render, IsUsable,
  parse_property-value, settable_of_usable, IsPrintable-lookup,
}

module _ (o : List (Text × Text)) (h : All IsPrintable o) (distinct : HasDistinctKeys o) where
  -- The object that the parse gives reads as `o` does.
  abbrev ReadsBack : Option Text → Text → Type 0
  ReadsBack dk s =
      (out : List (Text × Text)) × (parse_property_string (some s) dk ≡ some out)
      × ((k : Text) → lookup k out ≡ lookup k o)

  print-sorted :
      (dk : Option Text)
      → print_property_string o dk
        ≡ join b',' (unshift_value (default_value dk o) (sort_texts (string_parts dk o)))
  unfolding print_property_string
  print-sorted dk = rw (entries_of_ordinary o (All-imp (λ e p. p.ordinary) o h))

  print-none : print_property_string o none ≡ join b',' (map render (sort_entries o))
  unfolding unshift_value default_value
  print-none =
      print-sorted none ∙ ap (join b',') (ap sort_texts (string_parts-none o h) ∙ sort_texts-map o)

  none-ReadsBack : ReadsBack none (print_property_string o none)
  none-ReadsBack =
      let (out, e, reads) =
        each-render none [] (sort_entries o) (All-sort_entries _ o h)
          (HasDistinctKeys-sort_entries o distinct) in
      (
        out,
        ap (λ s. parse_property_string (some s) none) print-none
            ∙ parse-map-render none (sort_entries o) (All-sort_entries _ o h)
            ∙ e,
        λ k. reads k ∙ unfold lookup in ground (arith, lookup-sort_entries k o distinct),
      )

  module _ (d : Text) where
    -- What is printed behind the value of the default key.
    abbrev rest : List (Text × Text)
    rest = sort_entries (remove d o)

    rest-IsPrintable : All IsPrintable rest
    rest-IsPrintable = All-sort_entries _ (remove d o) (All-remove _ d o h)

    rest-distinct : HasDistinctKeys rest
    rest-distinct = HasDistinctKeys-sort_entries _ (HasDistinctKeys-remove d o distinct)

    sorted_parts : sort_texts (string_parts (some d) o) ≡ map render rest
    sorted_parts = ap sort_texts (string_parts-some d o h) ∙ sort_texts-map (remove d o)

    lookup-rest : (k : Text) → lookup k rest ≡ (if text_eq k d then none else lookup k o)
    lookup-rest k =
        lookup-sort_entries k _ (HasDistinctKeys-remove d o distinct) ∙ lookup-remove d k o

    print-some :
        print_property_string o (some d) ≡ join b',' (unshift_value (lookup d o) (map render rest))
    unfolding default_value
    print-some =
        print-sorted (some d) ∙ ap (λ ps. join b',' (unshift_value (lookup d o) ps)) sorted_parts

    parse-print_some :
        (r : Option Text)
        → lookup d o ≡ r
        → parse_property_string (some (print_property_string o (some d))) (some d)
          ≡ parse_property_string (some (join b',' (unshift_value r (map render rest)))) (some d)
    parse-print_some r e =
        ap (λ s. parse_property_string (some s) (some d))
          (print-some ∙ ap (λ q. join b',' (unshift_value q (map render rest))) e)

    unset-ReadsBack : lookup d o ≡ none → ReadsBack (some d) (print_property_string o (some d))
    unfolding unshift_value
    unset-ReadsBack unset =
        let (out, e, reads) = each-render (some d) [] rest rest-IsPrintable rest-distinct in
        (
          out,
          parse-print_some none unset ∙ parse-map-render (some d) rest rest-IsPrintable ∙ e,
          λ k.
              reads k
              ∙ unfold lookup in
                ground (arith, lookup-rest k, text_eq_iff k d, ap (λ j. lookup j o)),
        )

    set-ReadsBack :
        (v : Text)
        → lookup d o ≡ some v
        → nonempty v ≡ true
        → Lacks b',' v
        → Lacks b'=' v
        → IsUsable (some d)
        → ReadsBack (some d) (print_property_string o (some d))
    unfolding unshift_value
    set-ReadsBack v set filled commas equals usable =
        let (out, e, reads) =
          each-render (some d) (put d v []) rest rest-IsPrintable rest-distinct in
        (
          out,
          parse-print_some (some v) set
              ∙ parse_property_string-join (some d) v _ filled commas
                  (Lacks-render rest rest-IsPrintable)
              ∙ each_step (parse_property (some d)) [] v _ (parse_property-value d v equals usable)
              ∙ e,
          λ k.
              reads k
              ∙ unfold lookup in
                ground (
                  arith,
                  lookup-rest k,
                  lookup-put d k v [] (settable_of_usable d usable),
                  text_eq_iff k d,
                  ap (λ j. lookup j o),
                ),
        )

-- Parsing what printPropertyString writes succeeds, and each option reads as in the printed
-- object, with or without a default key, if the entries are printable under distinct keys and the
-- default key is no inherited name.
pub parse-print_property_string :
    (o : List (Text × Text)) (dk : Option Text)
    → All IsPrintable o
    → HasDistinctKeys o
    → IsUsable dk
    → (out : List (Text × Text)) × (parse_property_string (some (print_property_string o dk)) dk
        ≡ some out)
      × ((k : Text) → lookup k out ≡ lookup k o)
parse-print_property_string o none h distinct usable = none-ReadsBack o h distinct
parse-print_property_string o (some d) h distinct usable = elim (Option-cases (lookup d o)) [
  | inl unset ↦ unset-ReadsBack o h distinct d unset
  | inr (v, set) ↦
      let p = IsPrintable-lookup d v o h set in
      set-ReadsBack o h distinct d v set p.filled p.value_comma p.value_equals usable
]
