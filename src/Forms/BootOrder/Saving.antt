-- ===== src/Forms/BootOrder/Saving.antt =====
-- Saving the boot order and loading it again.
use pve_manager_electrified.Prelude.{
  ℕ, ◌≡◌, ◌≢◌, refl, sym, ap, ◌∙◌, Bool, true, false, none, some, List, [], ◌∷◌, ◌++◌, All, All-imp,
  map, arith, append-nil, inl, inr, Bool-cases, if◌then◌else◌,
}
use pve_manager_electrified.Text.{Text, codes, nonempty, split, join, text_eq}
use pve_manager_electrified.Text.Split.{Lacks, split-join, Lacks-append}
use pve_manager_electrified.Object.{lookup, put, entries, is_index}
use pve_manager_electrified.Object.Laws.{lookup-put}
use pve_manager_electrified.Parser.PropertyString.{parse_property_string, print_property_string}
use pve_manager_electrified.Parser.PropertyString.Printable.{
  IsPrintable, each-render, parse-map-render,
}
use pve_manager_electrified.Forms.BootOrder.{
  Entry, entry, boot_order, boot_entries, after_parse, disabled_devices, enabled_of, legacy_order,
  set_vm_config, enabled_names, calculate_value, on_get_values,
}

-- A name that a text of the configuration can hold.
abbrev pub IsPlainName : Entry → Type 0
IsPlainName e = (nonempty e.name ≡ true) × Lacks b';' e.name × Lacks b',' e.name × Lacks b'=' e.name

abbrev PlainText : Text → Type 0
PlainText n = (nonempty n ≡ true) × Lacks b';' n × Lacks b',' n × Lacks b'=' n

enabled_names-All :
    (P : Text → Type 0) (es : List Entry) → All (λ e. P e.name) es → All P (enabled_names es)
unfolding enabled_names
enabled_names-All P [] h = tt
enabled_names-All P (e ∷ es) (p, h) = elim (Bool-cases e.enabled) [
  | inl t ↦ rw t (p, enabled_names-All P es h)
  | inr f ↦ rw f (enabled_names-All P es h)
]

Lacks-join : (b sep : ℕ) (ps : List Text) → sep ≢ b → All (Lacks b) ps → Lacks b (join sep ps)
unfolding join
Lacks-join b sep [] n h = tt
Lacks-join b sep (p ∷ []) n (hp, h) = hp
Lacks-join b sep (p ∷ q ∷ ps) n (hp, h) = Lacks-append b p _ hp (n, Lacks-join b sep (q ∷ ps) n h)

names_of_entries :
    (config : List (Text × Text)) (order : List Text) (b : Bool) (es : List Entry)
    → enabled_names (map (entry config b) order ++ es)
      ≡ (if b then order ++ enabled_names es else enabled_names es)
unfolding enabled_names entry
names_of_entries config [] b es = ground arith
names_of_entries config (n ∷ order) true es = ap (◌∷◌ n) (names_of_entries config order true es)
names_of_entries config (n ∷ order) false es = names_of_entries config order false es

-- The enabled names of what is loaded are the order.
pub enabled_names-boot_entries :
    (config : List (Text × Text)) (order : List Text)
    → enabled_names (boot_entries config order) ≡ order
unfolding boot_entries
enabled_names-boot_entries config order =
    let off = map (entry config false) (disabled_devices config order) in
    let none_left : enabled_names (off ++ []) ≡ [] =
      names_of_entries config (disabled_devices config order) false []
      ∙ unfold enabled_names in refl in
    let none_off : enabled_names off ≡ [] = ap enabled_names (sym (append-nil off)) ∙ none_left in
    names_of_entries config order true off ∙ ap (λ ns. order ++ ns) none_off ∙ append-nil order

print_order :
    (c : ℕ) (s : Text)
    → print_property_string ((codes "order", c ∷ s) ∷ []) none ≡ codes "order=" ++ (c ∷ s)
unfolding print_property_string entries join
print_order c s = refl

order-IsPrintable :
    (v : Text) → nonempty v ≡ true → Lacks b',' v → Lacks b'=' v → IsPrintable (codes "order", v)
order-IsPrintable v filled commas equals = record {
  ordinary = unfold is_index in refl;
  settable = λ e. cc;
  key_comma = (
    (λ e. omega arith),
    ((λ e. omega arith), ((λ e. omega arith), ((λ e. omega arith), ((λ e. omega arith), tt)))),
  );
  key_equals = (
    (λ e. omega arith),
    ((λ e. omega arith), ((λ e. omega arith), ((λ e. omega arith), ((λ e. omega arith), tt)))),
  );
  value_comma = commas;
  value_equals = equals;
  filled = filled;
}

-- The text of an order is parsed to an object that has it.
parse_order :
    (v : Text)
    → nonempty v ≡ true
    → Lacks b',' v
    → Lacks b'=' v
    → (out : List (Text × Text)) × (parse_property_string
          (some (codes "order=" ++ v))
          (some (codes "legacy"))
        ≡ some out)
      × (lookup (codes "order") out ≡ some v)
unfolding join
parse_order v filled commas equals =
    let p = order-IsPrintable v filled commas equals in
    let (out, e, reads) =
      each-render (some (codes "legacy")) [] ((codes "order", v) ∷ []) (p, tt) (tt, tt) in
    (
      out,
      parse-map-render (some (codes "legacy")) ((codes "order", v) ∷ []) (p, tt) ∙ e,
      reads (codes "order") ∙ unfold lookup in unfold text_eq in refl,
    )

-- The configuration with the saved order.
abbrev pub saved : List (Text × Text) → List Entry → List (Text × Text)
saved config es = put (codes "boot") (on_get_values es) config

lookup-saved :
    (config : List (Text × Text)) (es : List Entry)
    → lookup (codes "boot") (saved config es) ≡ some (on_get_values es)
lookup-saved config es =
    lookup-put (codes "boot") (codes "boot") (on_get_values es) config (λ e. cc)
    ∙ unfold text_eq in refl

-- What is loaded from a text of `boot` that is parsed.
loaded_lem :
    (config : List (Text × Text)) (t : Text) (boot : List (Text × Text)) (order : List Text)
    → lookup (codes "boot") config ≡ some t
    → parse_property_string (some t) (some (codes "legacy")) ≡ some boot
    → boot_order config boot ≡ order
    → (loaded : List Entry) × (set_vm_config config ≡ some loaded) × (enabled_names loaded ≡ order)
unfolding set_vm_config after_parse
loaded_lem config t boot order e parsed is = (
  boot_entries config (boot_order config boot),
  ap (λ o. after_parse config (parse_property_string o (some (codes "legacy")))) e
      ∙ ap (after_parse config) parsed,
  enabled_names-boot_entries config (boot_order config boot) ∙ is,
)

boot_order-empty :
    (config : List (Text × Text))
    → lookup (codes "boot") config ≡ some []
    → boot_order config [] ≡ []
unfolding boot_order enabled_of legacy_order
boot_order-empty config e = rw e refl

boot_order-set :
    (config boot : List (Text × Text)) (v : Text)
    → lookup (codes "order") boot ≡ some v
    → nonempty v ≡ true
    → boot_order config boot ≡ split b';' v
unfolding boot_order
boot_order-set config boot [] e f = cc
boot_order-set config boot (c ∷ v) e f = rw e (unfold enabled_of in refl)

join-filled :
    (n : Text) (names : List Text) → nonempty n ≡ true → nonempty (join b';' (n ∷ names)) ≡ true
unfolding join
join-filled [] names h = cc
join-filled (c ∷ n) [] h = refl
join-filled (c ∷ n) (m ∷ names) h = refl

print_filled :
    (v : Text)
    → nonempty v ≡ true
    → print_property_string ((codes "order", v) ∷ []) none ≡ codes "order=" ++ v
print_filled [] h = cc
print_filled (c ∷ v) h = print_order c v

load_names :
    (config : List (Text × Text)) (es : List Entry) (names : List Text)
    → enabled_names es ≡ names
    → All PlainText names
    → (loaded : List Entry) × (set_vm_config (saved config es) ≡ some loaded)
      × (enabled_names loaded ≡ names)
load_names config es [] q h =
    let empty : on_get_values es ≡ [] =
      unfold on_get_values in
      unfold calculate_value in
      rw q (unfold join in unfold print_property_string in unfold entries in refl) in
    let has : lookup (codes "boot") (saved config es) ≡ some [] =
      lookup-saved config es ∙ ap some empty in
    loaded_lem (saved config es) [] [] [] has (unfold parse_property_string in refl)
      (boot_order-empty (saved config es) has)
load_names config es (n ∷ names) q h =
    let v = join b';' (n ∷ names) in
    let filled = join-filled n names h.0.0 in
    let text : on_get_values es ≡ codes "order=" ++ v =
      unfold on_get_values in unfold calculate_value in rw q (print_filled v filled) in
    let commas =
      Lacks-join b',' b';' (n ∷ names) (λ e. omega arith) (All-imp (λ m p. p.2) (n ∷ names) h) in
    let equals =
      Lacks-join b'=' b';' (n ∷ names) (λ e. omega arith) (All-imp (λ m p. p.3) (n ∷ names) h) in
    let parts = All-imp (λ m p. p.1) (n ∷ names) h in
    let (boot, parsed, holds) = parse_order v filled commas equals in
    loaded_lem (saved config es) (codes "order=" ++ v) boot (n ∷ names)
      (lookup-saved config es ∙ ap some text) parsed
      (boot_order-set (saved config es) boot v holds filled
        ∙ split-join b';' n names parts.0 parts.1)

-- Loading a configuration after the order of the panel is saved gives entries of which the same are
-- enabled, in the same order, if their names are not empty and hold no `;`, `,` and `=`.
pub set_vm_config-on_get_values :
    (config : List (Text × Text)) (es : List Entry)
    → All IsPlainName es
    → (loaded : List Entry) × (set_vm_config (put (codes "boot") (on_get_values es) config)
        ≡ some loaded)
      × (enabled_names loaded ≡ enabled_names es)
set_vm_config-on_get_values config es h =
    load_names config es (enabled_names es) refl (enabled_names-All PlainText es h)
