-- ===== src/Parser/PropertyString/Printable.antt =====
-- The entries that survive printing, and how a part of the text that holds one is read.
use mathlib.Core.Path.{subst₂}
use pve_manager_electrified.Prelude.{
  ◌≡◌, ◌≢◌, refl, sym, ap, ◌∙◌, true, false, Option, none, some, List, [], ◌∷◌, arith, All, map,
  Bool-cases, inl, inr, ℕ,
}
use pve_manager_electrified.Text.{Text, text_eq, nonempty, split, join, text_mem}
use pve_manager_electrified.Text.Equality.{text_eq_iff}
use pve_manager_electrified.Text.Split.{
  Lacks, split-join, split_pair-append, split_pair_of_Lacks, Lacks-append,
}
use pve_manager_electrified.Object.{
  lookup, put, is_defined, proto_setter, prototype_names, has_own, remove,
}
use pve_manager_electrified.Object.Laws.{HasDistinctKeys, IsOrdinary, lookup-put, lookup_of_Absent}
use pve_manager_electrified.Parser.{each, each_step, render}
use pve_manager_electrified.Parser.PropertyString.{
  assign_property, parse_property, parse_property_string, string_parts,
}

-- An entry that survives printing: key and value hold no `,` and no `=`, the key is neither an
-- array index nor `__proto__`, and the value is not empty.
pub record IsPrintable (e : Text × Text) : Type 0 where
  pub ordinary : IsOrdinary e
  pub settable : e.0 ≢ proto_setter
  pub key_comma : Lacks b',' e.0
  pub key_equals : Lacks b'=' e.0
  pub value_comma : Lacks b',' e.1
  pub value_equals : Lacks b'=' e.1
  pub filled : nonempty e.1 ≡ true

module _ (dk : Option Text) where
  pub parse_property-render :
      (res : List (Text × Text)) (e : Text × Text)
      → IsPrintable e
      → parse_property dk res (render e) ≡ some (put e.0 e.1 res)
  unfolding parse_property
  parse_property-render res e p =
      ap (assign_property dk res) (split_pair-append e.0 e.1 p.key_equals p.value_equals)

  -- Each printed entry is assigned again.
  pub each-render :
      (res : List (Text × Text)) (es : List (Text × Text))
      → All IsPrintable es
      → HasDistinctKeys es
      → (out : List (Text × Text)) × (each (parse_property dk) res (map render es) ≡ some out)
        × ((k : Text)
            → lookup k out ≡ (elim (lookup k es) [ none ↦ lookup k res | some v ↦ some v ]))
  each-render res [] h d = (res, unfold each in refl, λ k. unfold lookup in refl)
  each-render res ((j, w) ∷ es) (p, h) (a, d) =
      let (out, e, reads) = each-render (put j w res) es h d in
      (
        out,
        each_step (parse_property dk) res _ _ (parse_property-render res (j, w) p) ∙ e,
        λ k. reads k ∙ step k,
      )
    where
      step :
          (k : Text)
          → (elim (lookup k es) [ none ↦ lookup k (put j w res) | some v ↦ some v ])
            ≡ (elim (lookup k ((j, w) ∷ es)) [ none ↦ lookup k res | some v ↦ some v ])
      step k =
          unfold lookup in
          ground
            (arith, text_eq_iff k j, lookup-put j k w res, lookup_of_Absent j es, p.settable, a)

pub string_parts-none :
    (o : List (Text × Text)) → All IsPrintable o → string_parts none o ≡ map render o
unfolding string_parts
string_parts-none [] h = refl
string_parts-none (e ∷ o) (p, h) = ground (arith, string_parts-none o h, p.filled)

pub string_parts-some :
    (d : Text) (o : List (Text × Text))
    → All IsPrintable o
    → string_parts (some d) o ≡ map render (remove d o)
unfolding string_parts remove
string_parts-some d [] h = refl
string_parts-some d ((k, v) ∷ o) (p, h) =
    ground (arith, text_eq_iff k d, text_eq_iff d k, string_parts-some d o h, p.filled)

module _ (P : Text × Text → Type 0) where
  pub All-remove : (d : Text) (o : List (Text × Text)) → All P o → All P (remove d o)
  unfolding remove
  All-remove d [] h = tt
  All-remove d ((k, v) ∷ o) (p, h) = elim (Bool-cases (text_eq d k)) [
    | inl e ↦ rw e (All-remove d o h)
    | inr e ↦ rw e (p, All-remove d o h)
  ]

pub HasDistinctKeys-remove :
    (d : Text) (o : List (Text × Text)) → HasDistinctKeys o → HasDistinctKeys (remove d o)
unfolding remove
HasDistinctKeys-remove d [] h = tt
HasDistinctKeys-remove d ((k, v) ∷ o) (a, h) = elim (Bool-cases (text_eq d k)) [
  | inl e ↦ rw e (HasDistinctKeys-remove d o h)
  | inr e ↦ rw e (All-remove (λ c. k ≢ c.0) d o a, HasDistinctKeys-remove d o h)
]

pub Lacks-render : (es : List (Text × Text)) → All IsPrintable es → All (Lacks b',') (map render es)
Lacks-render [] h = tt
Lacks-render (e ∷ es) (p, h) =
    (Lacks-append b',' e.0 _ p.key_comma (ground arith, p.value_comma), Lacks-render es h)

pub join-cons :
    (c : ℕ) (p : Text) (ps : List Text) → (s : Text) × (join b',' ((c ∷ p) ∷ ps) ≡ c ∷ s)
unfolding join
join-cons c p [] = (p, refl)
join-cons c p (q ∷ ps) = (_, refl)

-- What is joined from at least one part, none of them empty or with a comma, is read part by part.
pub parse_property_string-join :
    (dk : Option Text) (p : Text) (ps : List Text)
    → nonempty p ≡ true
    → Lacks b',' p
    → All (Lacks b',') ps
    → parse_property_string (some (join b',' (p ∷ ps))) dk ≡ each (parse_property dk) [] (p ∷ ps)
parse_property_string-join dk [] ps f h hs = cc
parse_property_string-join dk (c ∷ p) ps f h hs =
    let (s, e) = join-cons c p ps in
    ap (λ t. parse_property_string (some t) dk) e
    ∙ unfold parse_property_string in
      ap (each (parse_property dk) []) (ap (split b',') (sym e) ∙ split-join b',' (c ∷ p) ps h hs)

pub render-nonempty : (e : Text × Text) → nonempty (render e) ≡ true
render-nonempty ([], v) = refl
render-nonempty (c ∷ k, v) = refl

pub parse-map-render :
    (dk : Option Text) (es : List (Text × Text))
    → All IsPrintable es
    → parse_property_string (some (join b',' (map render es))) dk
      ≡ each (parse_property dk) [] (map render es)
parse-map-render dk [] h = unfold parse_property_string each join in refl
parse-map-render dk (e ∷ es) h =
    let l = Lacks-render (e ∷ es) h in
    parse_property_string-join dk (render e) _ (render-nonempty e) l.0 l.1

-- A key that names no inherited property can be the default key.
abbrev pub IsUsable : Option Text → Type 0
IsUsable none = Unit
IsUsable (some d) = text_mem d prototype_names ≡ false

-- The value of the default key stands alone in front, and is assigned to it.
pub parse_property-value :
    (d v : Text)
    → Lacks b'=' v
    → IsUsable (some d)
    → parse_property (some d) [] v ≡ some (put d v [])
unfolding parse_property assign_property is_defined has_own
parse_property-value d v equals usable =
    ap (assign_property (some d) []) (split_pair_of_Lacks v equals) ∙ rw usable

pub settable_of_usable : (d : Text) → IsUsable (some d) → d ≢ proto_setter
unfolding text_mem
settable_of_usable d usable = ground (arith, text_eq_iff d proto_setter)

pub IsPrintable-lookup :
    (d v : Text) (o : List (Text × Text))
    → All IsPrintable o
    → lookup d o ≡ some v
    → IsPrintable (d, v)
unfolding lookup
IsPrintable-lookup d v [] h e = cc
IsPrintable-lookup d v ((k, w) ∷ o) (p, h) e = elim (Bool-cases (text_eq d k)) [
  | inl same ↦
      let k≡d : k ≡ d = sym ((text_eq_iff d k).0 same) in
      let w≡v : w ≡ v = ground arith in subst₂ (λ a b. IsPrintable (a, b)) k≡d w≡v p
  | inr other ↦ IsPrintable-lookup d v o h (ground arith)
]
