-- ===== src/Parser/MountPoint/RoundTrip.antt =====
-- A printed mount point is read back, with the kind of its source worked out again.
use pve_manager_electrified.Prelude.{
  ◌≡◌, ◌≢◌, refl, sym, ap, ◌∙◌, true, false, Option, none, some, List, [], ◌∷◌, ◌++◌, arith, All,
  map, All-imp, if◌then◌else◌, Bool-cases, ◌⊎◌, inl, inr, all,
}
use pve_manager_electrified.Text.{
  Text, codes, text_eq, split, join, is_blank, nonempty, text_mem, is_space, strip_prefix, or_else,
}
use pve_manager_electrified.Text.Equality.{text_eq_iff}
use pve_manager_electrified.Text.Split.{
  Lacks, Lacks-append, cut-append, cut_of_Lacks, is_blank-append,
}
use pve_manager_electrified.Object.{lookup, put, prototype_names, proto_setter}
use pve_manager_electrified.Object.Laws.{
  Absent, HasDistinctKeys, IsOrdinary, put_of_Absent, entries_of_ordinary, lookup-put,
}
use pve_manager_electrified.Parser.{each, render}
use pve_manager_electrified.Parser.Options.{
  add_options, printed, add_options-join, is_defined_of_Absent, each-leading, lookup-printed,
  All-printed, HasDistinctKeys-printed, Absent-printed_skipped,
}
use pve_manager_electrified.Parser.Drive.{is_name, volume_as_file, need_file}
use pve_manager_electrified.Parser.Drive.Names.{
  settable_of_own, is_name-Lacks, is_name-not_blank, name-IsOrdinary, nonempty_of_not_blank,
}
use pve_manager_electrified.Parser.MountPoint.{
  is_line, mp_part, mp_option, match_storage, path_type, classify, set_source,
  parse_lxc_mount_point, is_mp_place, print_lxc_mount_point, finish, classify_found,
}

-- An option that a parsed mount point can hold.
pub record IsMpOption (e : Text × Text) : Type 0 where
  pub name : is_name e.0 ≡ true
  pub own : text_mem e.0 prototype_names ≡ false
  pub kept_name : volume_as_file e.0 ≡ e.0
  pub value : is_line e.1 ≡ true
  pub comma : Lacks b',' e.1

mp_part-good :
    (res : List (Text × Text)) (k v : Text)
    → IsMpOption (k, v)
    → Absent k res
    → mp_part res (k, some v) ≡ some (res ++ (k, v) ∷ [])
unfolding mp_part
mp_part-good res k v g a =
    rw (g.name, g.value, g.kept_name, is_defined_of_Absent k res a g.own)
      (ap some (put_of_Absent k v res (settable_of_own k g.own) a))

mp_option-render :
    (res : List (Text × Text)) (e : Text × Text)
    → IsMpOption e
    → Absent e.0 res
    → mp_option res (render e) ≡ some (res ++ e ∷ [])
unfolding mp_option is_blank
mp_option-render res (k, v) g a =
    rw
      (
        is_blank-append k (b'=' ∷ v) (is_name-not_blank k g.name),
        cut-append b'=' k v (is_name-Lacks k g.name).0,
      )
      (mp_part-good res k v g a)

mp_option-file :
    (f : Text) → is_blank f ≡ false → Lacks b'=' f → mp_option [] f ≡ some ((codes "file", f) ∷ [])
unfolding mp_option put
mp_option-file f filled l =
    let filled' : all is_space f ≡ false = unfold is_blank in filled in
    rw (filled', cut_of_Lacks b'=' f l)

Lacks-render : (e : Text × Text) → IsMpOption e → Lacks b',' (render e)
Lacks-render e g = Lacks-append b',' e.0 _ (is_name-Lacks e.0 g.name).1 (omega arith, g.comma)

-- The entry of a mount point: one of the three places, or an option.
abbrev pub IsMpEntry : Text × Text → Type 0
IsMpEntry e = (is_mp_place e.0 ≡ true) ⊎ IsMpOption e

place-is_name : (k : Text) → is_mp_place k ≡ true → is_name k ≡ true
unfolding is_mp_place is_name
place-is_name k h = elim (Bool-cases (text_eq k (codes "file"))) [
  | inl e ↦ rw ((text_eq_iff k (codes "file")).0 e) refl
  | inr n ↦ elim (Bool-cases (text_eq k (codes "type"))) [
    | inl e ↦ rw ((text_eq_iff k (codes "type")).0 e) refl
    | inr m ↦
        let e : text_eq k (codes "storage") ≡ true = ground arith in
        rw ((text_eq_iff k (codes "storage")).0 e) refl
  ]
]

entry-IsOrdinary : (e : Text × Text) → IsMpEntry e → IsOrdinary e
entry-IsOrdinary (k, v) (inr g) = name-IsOrdinary k v g.name
entry-IsOrdinary (k, v) (inl p) = name-IsOrdinary k v (place-is_name k p)

-- The type of a source, from its file and the storage that the file names.
abbrev pub source_type : Text → Option Text → Text
source_type file none = path_type (strip_prefix (codes "/dev/") file)
source_type file (some storage) = codes "volume"

type_settable : codes "type" ≢ proto_setter
type_settable = λ e. cc

storage_settable : codes "storage" ≢ proto_setter
storage_settable = λ e. cc

lookup-set_source :
    (f k : Text) (storage : Option Text) (res : List (Text × Text))
    → lookup k (set_source f storage res) ≡ (
        if text_eq k (codes "type")
        then some (source_type f storage)
        else if text_eq k (codes "storage")
        then or_else storage (lookup k res)
        else lookup k res)
unfolding set_source
lookup-set_source f k none res = lookup-put (codes "type") k _ res type_settable ∙ ground (arith)
lookup-set_source f k (some storage) res =
    lookup-put (codes "type") k _ _ type_settable
    ∙ ground (arith, lookup-put (codes "storage") k storage res storage_settable)

lookup-classify :
    (f k : Text) (res : List (Text × Text))
    → lookup k (classify f res) ≡ (
        if text_eq k (codes "type")
        then some (source_type f (match_storage f))
        else if text_eq k (codes "storage")
        then or_else (match_storage f) (lookup k res)
        else lookup k res)
unfolding classify
lookup-classify f k res = lookup-set_source f k (match_storage f) res

parse-join :
    (p : Text) (ps : List Text)
    → nonempty p ≡ true
    → parse_lxc_mount_point (some (join b',' (p ∷ ps)))
      ≡ finish (need_file (each mp_option [] (split b',' (join b',' (p ∷ ps)))))
unfolding parse_lxc_mount_point join
parse-join [] ps h = cc
parse-join (c ∷ p) [] h = refl
parse-join (c ∷ p) (q ∷ ps) h = refl

finish-file :
    (f : Text) (es : List (Text × Text))
    → nonempty f ≡ true
    → finish (need_file (some ((codes "file", f) ∷ es)))
      ≡ some (classify f ((codes "file", f) ∷ es))
unfolding finish need_file classify_found
finish-file f es h = rw h

-- What the three places hold when the entries come from one file.
lookup-placed :
    (mp : List (Text × Text)) (f k : Text)
    → lookup (codes "file") mp ≡ some f
    → lookup (codes "storage") mp ≡ match_storage f
    → lookup (codes "type") mp ≡ some (source_type f (match_storage f))
    → lookup k (classify f ((codes "file", f) ∷ printed is_mp_place mp)) ≡ lookup k mp
lookup-placed mp f k hf hs ht =
    lookup-classify f k _
    ∙ unfold is_mp_place lookup in
      ground (
        arith,
        lookup-printed is_mp_place k mp,
        text_eq_iff k (codes "file"),
        text_eq_iff k (codes "storage"),
        text_eq_iff k (codes "type"),
        λ (e : k ≡ codes "file"). ap (λ j. lookup j mp) e ∙ hf,
        λ (e : k ≡ codes "storage"). ap (λ j. lookup j mp) e ∙ hs,
        λ (e : k ≡ codes "type"). ap (λ j. lookup j mp) e ∙ ht,
      )

print-join :
    (mp : List (Text × Text)) (f : Text)
    → lookup (codes "file") mp ≡ some f
    → All IsOrdinary mp
    → print_lxc_mount_point mp ≡ some (join b',' (f ∷ map render (printed is_mp_place mp)))
unfolding print_lxc_mount_point
print-join mp f hf h =
    ap (λ e. add_options is_mp_place (lookup (codes "file") mp) e) (entries_of_ordinary mp h)
    ∙ ap (λ s. add_options is_mp_place s mp) hf
    ∙ add_options-join is_mp_place f mp

Absent-file :
    (f : Text) (es : List (Text × Text))
    → Absent (codes "file") es
    → All (λ e. Absent e.0 ((codes "file", f) ∷ [])) es
Absent-file f es h = All-imp (λ e n. (λ q. n (sym q), tt)) es h

-- A mount point whose storage and type are those of its file is printed to a text from which
-- parseLxcMountPoint gives one in which every key reads as before, if the keys are distinct, the
-- file is not blank and holds no `,` and no `=`, and each other entry is an option that the parser
-- does not change.
pub parse-print_lxc_mount_point :
    (mp : List (Text × Text)) (f : Text)
    → lookup (codes "file") mp ≡ some f
    → lookup (codes "storage") mp ≡ match_storage f
    → lookup (codes "type") mp ≡ some (source_type f (match_storage f))
    → (is_blank f ≡ false) × Lacks b',' f × Lacks b'=' f
    → All IsMpEntry mp
    → HasDistinctKeys mp
    → (text : Text) × (print_lxc_mount_point mp ≡ some text)
      × (out : List (Text × Text)) × (parse_lxc_mount_point (some text) ≡ some out)
      × ((k : Text) → lookup k out ≡ lookup k mp)
parse-print_lxc_mount_point mp f hf hs ht (filled, commas, equals) h d =
    let es = printed is_mp_place mp in
    let full = nonempty_of_not_blank f filled in
    (
      join b',' (f ∷ map render es),
      print-join mp f hf (All-imp entry-IsOrdinary mp h),
      classify f ((codes "file", f) ∷ es),
      parse-join f (map render es) full
          ∙ ap (λ r. finish (need_file r))
              (each-leading mp_option IsMpOption mp_option-render [] ((codes "file", f) ∷ []) f es
                (mp_option-file f filled equals) commas Lacks-render
                (All-printed IsMpOption is_mp_place mp h) (HasDistinctKeys-printed is_mp_place mp d)
                (Absent-file f es (
                  Absent-printed_skipped (codes "file") is_mp_place mp
                    (unfold is_mp_place in refl))))
          ∙ finish-file f es full,
      λ k. lookup-placed mp f k hf hs ht,
    )
