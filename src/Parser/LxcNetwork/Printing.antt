-- ===== src/Parser/LxcNetwork/Printing.antt =====
-- What a container's network device keeps when it is printed and read again.
use pve_manager_electrified.Prelude.{
  ◌⊎◌, inl, inr, if◌then◌else◌, ◌≡◌, ◌≢◌, refl, sym, ap, ◌∙◌, Bool, true, false, some, List, [],
  ◌∷◌, ◌++◌, arith, All, map, append-nil, append_assoc, All-map, ◌&&◌, not, all, ◌||◌, ◌==◌,
}
use pve_manager_electrified.Text.{
  Text, codes, text_eq, split, join, is_blank, is_word, is_digit, is_digits, lower, nonempty,
  text_mem, is_space,
}
use pve_manager_electrified.Text.Equality.{text_eq_iff, all-text_mem}
use pve_manager_electrified.Text.Split.{
  Lacks, Lacks-append, cut-append, split-join, is_blank-append,
}
use pve_manager_electrified.Object.{proto_setter}
use pve_manager_electrified.Object.Laws.{
  Absent, HasDistinctKeys, IsOrdinary, put_of_Absent, entries_of_ordinary, Absent-concat,
}
use pve_manager_electrified.Parser.LxcNetwork.{
  Value, text, flag, text_keys, flag_keys, known_keys, lxc_part, lxc_option, lxc_options,
  parse_boolean, parse_lxc_network, is_printed, render_value, filter_known, print_lxc_network,
}

-- A property that the device can have: a text without commas that the expression of its key reads
-- (a word, or digits under `firewall`, `link_down` and `host-managed`), or a Boolean under one of
-- those three.
abbrev pub IsLxcEntry : Text × Value → Type 0
IsLxcEntry (k, text v) =
    (((text_mem k text_keys ≡ true) × (is_word v ≡ true))
      ⊎ ((text_mem k flag_keys ≡ true) × (is_digits v ≡ true)))
    × Lacks b',' v
IsLxcEntry (k, flag b) = text_mem k flag_keys ≡ true

-- What is read back of the properties: texts, which under the three keys become the Boolean that tells
-- whether the digits are `1`; Booleans are lost.
pub read_entries : List (Text × Value) → List (Text × Value)
read_entries [] = []
read_entries ((k, text v) ∷ o) =
    (k, if text_mem k text_keys then text v else flag (text_eq v (codes "1"))) ∷ read_entries o
read_entries ((k, flag b) ∷ o) = read_entries o

is_good_key : Text → Bool
unfolding text_eq is_blank text_mem
is_good_key k =
    all (λ c. not (c == b',' || c == b'=')) k
    && not (is_blank k)
    && not (text_eq k proto_setter)
    && text_mem k known_keys

text_keys-good : (k : Text) → text_mem k text_keys ≡ true → is_good_key k ≡ true
unfolding is_good_key
text_keys-good k h = all-text_mem is_good_key k text_keys refl h

flag_keys-good : (k : Text) → text_mem k flag_keys ≡ true → is_good_key k ≡ true
unfolding is_good_key
flag_keys-good k h = all-text_mem is_good_key k flag_keys refl h

-- No key of a Boolean is a key of a text.
flag-not_text : (k : Text) → text_mem k flag_keys ≡ true → not (text_mem k text_keys) ≡ true
unfolding text_mem
flag-not_text k h = all-text_mem (λ j. not (text_mem j text_keys)) k flag_keys refl h

good-Lacks :
    (k : Text) → all (λ c. not (c == b',' || c == b'=')) k ≡ true → Lacks b',' k × Lacks b'=' k
good-Lacks [] h = (tt, tt)
good-Lacks (c ∷ k) h =
    let rest = good-Lacks k (ground arith) in ((ground arith, rest.0), (ground arith, rest.1))

module _ (k : Text) (good : is_good_key k ≡ true) where
  key-Lacks : Lacks b',' k × Lacks b'=' k
  key-Lacks = good-Lacks k (unfold is_good_key in ground (arith, good))

  key-not_space : all is_space k ≡ false
  unfolding is_good_key is_blank
  key-not_space = ground (arith, good)

  key-settable : k ≢ proto_setter
  unfolding is_good_key
  key-settable = ground (arith, good, text_eq_iff k proto_setter)

  key-known : text_mem k known_keys ≡ true
  key-known = unfold is_good_key in ground (arith, good)

  lxc_option-part :
      (res : List (Text × Value)) (v : Text)
      → lxc_option res (k ++ b'=' ∷ v) ≡ lxc_part res (k, some v)
  unfolding lxc_option is_blank
  lxc_option-part res v =
      rw (is_blank-append k (b'=' ∷ v) key-not_space, cut-append b'=' k v key-Lacks.1)

parse_boolean_of_digits :
    (v : Text) → is_digits v ≡ true → parse_boolean (some v) false ≡ text_eq v (codes "1")
unfolding parse_boolean is_digits is_digit text_mem text_eq lower
parse_boolean_of_digits [] h = cc
parse_boolean_of_digits (c ∷ []) h = ground (arith, h)
parse_boolean_of_digits (c ∷ d ∷ v) h = ground (arith, h)

-- What a text is read as.
read_value : Text → Text → Value
read_value k v = if text_mem k text_keys then text v else flag (text_eq v (codes "1"))

-- A text is assigned again.
lxc_option-text :
    (res : List (Text × Value)) (k v : Text)
    → IsLxcEntry (k, text v)
    → Absent k res
    → lxc_option res (render_value (k, text v)) ≡ res ++ (k, read_value k v) ∷ []
unfolding read_value
lxc_option-text res k v (inl (known, word), l) a =
    lxc_option-part k (text_keys-good k known) res v
    ∙ unfold lxc_part in
      rw (known, word) (put_of_Absent k (text v) res (key-settable k (text_keys-good k known)) a)
lxc_option-text res k v (inr (known, digits), l) a =
    let other : text_mem k text_keys ≡ false = ground (arith, flag-not_text k known) in
    lxc_option-part k (flag_keys-good k known) res v
    ∙ unfold lxc_part in
      rw (other, known, digits, parse_boolean_of_digits v digits)
        (put_of_Absent k (flag (text_eq v (codes "1"))) res
          (key-settable k (flag_keys-good k known)) a)

text-good : (k v : Text) → IsLxcEntry (k, text v) → is_good_key k ≡ true
text-good k v (inl (known, word), l) = text_keys-good k known
text-good k v (inr (known, digits), l) = flag_keys-good k known

-- A Boolean is printed as `true` or `false`, which no expression of the parser reads.
lxc_option-flag :
    (res : List (Text × Value)) (k : Text) (b : Bool)
    → IsLxcEntry (k, flag b)
    → lxc_option res (render_value (k, flag b)) ≡ res
lxc_option-flag res k true h =
    lxc_option-part k (flag_keys-good k h) res (codes "true")
    ∙ unfold lxc_part in ground (arith, flag-not_text k h)
lxc_option-flag res k false h =
    lxc_option-part k (flag_keys-good k h) res (codes "false")
    ∙ unfold lxc_part in ground (arith, flag-not_text k h)

lxc_options-append :
    (res es : List (Text × Value))
    → All IsLxcEntry es
    → HasDistinctKeys es
    → All (λ e. Absent e.0 res) es
    → lxc_options res (map render_value es) ≡ res ++ read_entries es
unfolding read_entries read_value lxc_options
lxc_options-append res [] h d n = sym (append-nil res)
lxc_options-append res ((k, text v) ∷ es) (g, h) (a, d) (n, ns) =
    ap (λ r. lxc_options r (map render_value es)) (lxc_option-text res k v g n)
    ∙ lxc_options-append (res ++ (k, read_value k v) ∷ []) es h d (new es a ns)
    ∙ append_assoc res ((k, read_value k v) ∷ []) (read_entries es)
  where
    new :
        (fs : List (Text × Value))
        → Absent k fs
        → All (λ f. Absent f.0 res) fs
        → All (λ f. Absent f.0 (res ++ (k, read_value k v) ∷ [])) fs
    new [] a ns = tt
    new (f ∷ fs) (ne, a) (n, ns) =
        (Absent-concat f.0 res k (read_value k v) n (λ q. ne (sym q)), new fs a ns)
lxc_options-append res ((k, flag b) ∷ es) (g, h) (a, d) (n, ns) =
    ap (λ r. lxc_options r (map render_value es)) (lxc_option-flag res k b g)
    ∙ lxc_options-append res es h d ns

entry-key-good : (e : Text × Value) → IsLxcEntry e → is_good_key e.0 ≡ true
entry-key-good (k, text v) g = text-good k v g
entry-key-good (k, flag b) g = flag_keys-good k g

entry-nonempty : (k v : Text) → IsLxcEntry (k, text v) → nonempty v ≡ true
unfolding is_word is_digits
entry-nonempty k [] (inl (known, word), l) = word
entry-nonempty k [] (inr (known, digits), l) = digits
entry-nonempty k (c ∷ v) g = refl

is_printed_of_entry : (e : Text × Value) → IsLxcEntry e → is_printed e ≡ true
unfolding is_printed
is_printed_of_entry (k, text v) g = rw (entry-nonempty k v g, key-known k (text-good k v g))
is_printed_of_entry (k, flag b) g = rw (key-known k (flag_keys-good k g))

filter_known_of_entries : (es : List (Text × Value)) → All IsLxcEntry es → filter_known es ≡ es
unfolding filter_known
filter_known_of_entries [] h = refl
filter_known_of_entries (e ∷ es) (g, h) = rw (is_printed_of_entry e g, filter_known_of_entries es h)

Lacks-render : (e : Text × Value) → IsLxcEntry e → Lacks b',' (render_value e)
Lacks-render (k, text v) g =
    Lacks-append b',' k _ (key-Lacks k (text-good k v g)).0 (omega arith, g.1)
Lacks-render (k, flag true) g =
    Lacks-append b',' k _ (key-Lacks k (flag_keys-good k g)).0 (omega arith)
Lacks-render (k, flag false) g =
    Lacks-append b',' k _ (key-Lacks k (flag_keys-good k g)).0 (omega arith)

parse_lxc_network-join :
    (k : Text) (v : Value) (ps : List Text)
    → parse_lxc_network (some (join b',' (render_value (k, v) ∷ ps)))
      ≡ some (lxc_options [] (split b',' (join b',' (render_value (k, v) ∷ ps))))
unfolding parse_lxc_network join
parse_lxc_network-join [] v [] = refl
parse_lxc_network-join [] v (p ∷ ps) = refl
parse_lxc_network-join (c ∷ k) v [] = refl
parse_lxc_network-join (c ∷ k) v (p ∷ ps) = refl

Absent-nil : (es : List (Text × Value)) → All (λ e. Absent {V = Value} e.0 []) es
Absent-nil [] = tt
Absent-nil (e ∷ es) = (tt, Absent-nil es)

-- Printing a network device and parsing the text keeps exactly the properties that hold texts.
-- `firewall`, `link_down` and `host-managed` are kept where they hold digits, as the Boolean that tells
-- whether these are `1`; where they hold a Boolean, as parseLxcNetwork gives it, they are lost. The
-- device has a property, each is under a key that the parser knows, with a Boolean under one of those three or
-- with a text that the parser reads under its key and that has no comma, and the keys are distinct
-- and no array indices.
pub parse-print_lxc_network :
    (e : Text × Value) (config : List (Text × Value))
    → All IsLxcEntry (e ∷ config)
    → All IsOrdinary (e ∷ config)
    → HasDistinctKeys (e ∷ config)
    → parse_lxc_network (some (print_lxc_network (e ∷ config))) ≡ some (read_entries (e ∷ config))
unfolding print_lxc_network
parse-print_lxc_network (k, v) config h ho d =
    ap (λ o. parse_lxc_network (some (join b',' (map render_value (filter_known o)))))
      (entries_of_ordinary ((k, v) ∷ config) ho)
    ∙ ap (λ o. parse_lxc_network (some (join b',' (map render_value o))))
        (filter_known_of_entries ((k, v) ∷ config) h)
    ∙ parse_lxc_network-join k v (map render_value config)
    ∙ ap (λ ps. some (lxc_options [] ps))
        (split-join b',' (render_value (k, v)) (map render_value config) (Lacks-render (k, v) h.0)
          (All-map (Lacks b',') render_value Lacks-render config h.1))
    ∙ ap some (lxc_options-append [] ((k, v) ∷ config) h d (Absent-nil ((k, v) ∷ config)))
