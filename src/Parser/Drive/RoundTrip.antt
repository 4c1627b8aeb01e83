-- ===== src/Parser/Drive/RoundTrip.antt =====
-- A printed drive is read back.
use pve_manager_electrified.Prelude.{
  ◌≡◌, refl, sym, ap, ◌∙◌, true, false, some, List, [], ◌∷◌, ◌++◌, arith, All, map, All-imp, all,
}
use pve_manager_electrified.Text.{Text, codes, text_eq, join, is_blank, nonempty, is_space}
use pve_manager_electrified.Text.Equality.{text_eq_iff}
use pve_manager_electrified.Text.Split.{Lacks, Lacks-append, split-join, cut_of_Lacks}
use pve_manager_electrified.Object.{lookup, put}
use pve_manager_electrified.Object.Laws.{Absent, HasDistinctKeys, IsOrdinary, entries_of_ordinary}
use pve_manager_electrified.Parser.{each, each_step, render}
use pve_manager_electrified.Parser.Options.{
  add_options, printed, add_options-join, each-options, lookup-printed, All-printed,
  HasDistinctKeys-printed, Absent-printed_skipped,
}
use pve_manager_electrified.Parser.Drive.Names.{is_name-Lacks, nonempty_of_not_blank}
use pve_manager_electrified.Parser.Drive.{
  returns, match_bus, drive_option, need_file, drive_of_bus, parse_qemu_drive, is_drive_place,
  print_qemu_drive,
}
use pve_manager_electrified.Parser.Drive.Entries.{
  IsDriveOption, drive_option-render, IsBusKey, match_bus-append, IsDriveEntry, entry-IsOrdinary,
}

abbrev place_entries : Text → Text → Text → List (Text × Text)
place_entries bus index f =
    (codes "interface", bus) ∷ (codes "index", index) ∷ (codes "file", f) ∷ []

module _ (bus index f : Text) where
  Absent-place_entries :
      (es : List (Text × Text))
      → Absent (codes "interface") es
      → Absent (codes "index") es
      → Absent (codes "file") es
      → All (λ e. Absent e.0 (place_entries bus index f)) es
  Absent-place_entries [] a b c = tt
  Absent-place_entries (e ∷ es) (p, a) (q, b) (r, c) =
      ((λ h. p (sym h), (λ h. q (sym h), (λ h. r (sym h), tt))), Absent-place_entries es a b c)

  drive_option-file :
      is_blank f ≡ false
      → Lacks b'=' f
      → drive_option ((codes "interface", bus) ∷ (codes "index", index) ∷ []) f
        ≡ some (place_entries bus index f)
  unfolding drive_option put text_eq
  drive_option-file filled l =
      let filled' : all is_space f ≡ false = unfold is_blank in filled in
      rw (filled', cut_of_Lacks b'=' f l)

  each-drive :
      (es : List (Text × Text))
      → is_blank f ≡ false
      → Lacks b'=' f
      → All IsDriveOption es
      → HasDistinctKeys es
      → All (λ e. Absent e.0 (place_entries bus index f)) es
      → each drive_option
          ((codes "interface", bus) ∷ (codes "index", index) ∷ [])
          (f ∷ map render es)
        ≡ some (place_entries bus index f ++ es)
  each-drive es filled l h d n =
      each_step drive_option _ f (map render es) (drive_option-file filled l)
      ∙ each-options drive_option IsDriveOption drive_option-render (place_entries bus index f) es h
          d n

Lacks-render : (es : List (Text × Text)) → All IsDriveOption es → All (Lacks b',') (map render es)
Lacks-render [] h = tt
Lacks-render (e ∷ es) (g, h) =
    (Lacks-append b',' e.0 _ (is_name-Lacks e.0 g.name).1 (omega arith, g.comma), Lacks-render es h)

need_file-placed :
    (bus index f : Text) (es : List (Text × Text))
    → nonempty f ≡ true
    → need_file (some (place_entries bus index f ++ es)) ≡ some (place_entries bus index f ++ es)
unfolding need_file
need_file-placed bus index f es h = rw h

join-nonempty :
    (f : Text) (ps : List Text) → nonempty f ≡ true → nonempty (join b',' (f ∷ ps)) ≡ true
unfolding join
join-nonempty [] ps h = cc
join-nonempty (c ∷ f) [] h = refl
join-nonempty (c ∷ f) (p ∷ ps) h = refl

key-nonempty : (bus index : Text) → IsBusKey bus index → nonempty (bus ++ index) ≡ true
key-nonempty [] index b = cc (b.letters.0)
key-nonempty (c ∷ bus) index b = refl

parse-drive_of_bus :
    (key value bus index : Text)
    → nonempty key ≡ true
    → nonempty value ≡ true
    → match_bus key ≡ some (bus, index)
    → parse_qemu_drive (some key) (some value) ≡ drive_of_bus (some (bus, index)) value
unfolding parse_qemu_drive
parse-drive_of_bus key value bus index hk hv m =
    ground (arith, hk, hv, ap (λ r. drive_of_bus r value) m)

place_names :
    (is_drive_place (codes "interface") ≡ true)
    × (is_drive_place (codes "index") ≡ true)
    × (is_drive_place (codes "file") ≡ true)
unfolding is_drive_place
place_names = (refl, refl, refl)

print_qemu_drive-join :
    (d : List (Text × Text)) (f : Text)
    → lookup (codes "file") d ≡ some f
    → All IsOrdinary d
    → print_qemu_drive d ≡ some (join b',' (f ∷ map render (printed is_drive_place d)))
unfolding print_qemu_drive
print_qemu_drive-join d f hf h =
    ap (λ e. add_options is_drive_place (lookup (codes "file") d) e) (entries_of_ordinary d h)
    ∙ ap (λ s. add_options is_drive_place s d) hf
    ∙ add_options-join is_drive_place f d

drive_of_bus-join :
    (bus index f : Text) (es : List (Text × Text))
    → nonempty f ≡ true
    → Lacks b',' f
    → All (Lacks b',') (map render es)
    → each drive_option ((codes "interface", bus) ∷ (codes "index", index) ∷ []) (f ∷ map render es)
      ≡ some (place_entries bus index f ++ es)
    → drive_of_bus (some (bus, index)) (join b',' (f ∷ map render es))
      ≡ returns (some (place_entries bus index f ++ es))
unfolding drive_of_bus
drive_of_bus-join bus index f es full l ls e =
    ap
      (λ ps.
        returns (
          need_file
            (each drive_option ((codes "interface", bus) ∷ (codes "index", index) ∷ []) ps)))
      (split-join b',' f (map render es) l ls)
    ∙ ap (λ r. returns (need_file r)) e
    ∙ ap returns (need_file-placed bus index f es full)

lookup-placed :
    (d : List (Text × Text)) (bus index f k : Text)
    → lookup (codes "interface") d ≡ some bus
    → lookup (codes "index") d ≡ some index
    → lookup (codes "file") d ≡ some f
    → lookup k (place_entries bus index f ++ printed is_drive_place d) ≡ lookup k d
unfolding is_drive_place lookup
lookup-placed d bus index f k hb hi hf = ground (
  arith,
  lookup-printed is_drive_place k d,
  text_eq_iff k (codes "interface"),
  text_eq_iff k (codes "index"),
  text_eq_iff k (codes "file"),
  λ (e : k ≡ codes "interface"). ap (λ j. lookup j d) e ∙ hb,
  λ (e : k ≡ codes "index"). ap (λ j. lookup j d) e ∙ hi,
  λ (e : k ≡ codes "file"). ap (λ j. lookup j d) e ∙ hf,
)

-- Printing a drive under its bus and number and parsing the text with that key gives a drive in
-- which every key reads as before, if the keys are distinct, the file is not blank and holds no
-- `,` and no `=`, and each other entry is an option that the parser does not change.
pub parse-print_qemu_drive :
    (d : List (Text × Text)) (bus index f : Text)
    → IsBusKey bus index
    → lookup (codes "interface") d ≡ some bus
    → lookup (codes "index") d ≡ some index
    → lookup (codes "file") d ≡ some f
    → (is_blank f ≡ false) × Lacks b',' f × Lacks b'=' f
    → All IsDriveEntry d
    → HasDistinctKeys d
    → (text : Text) × (print_qemu_drive d ≡ some text)
      × (out : List (Text × Text)) × (parse_qemu_drive (some (bus ++ index)) (some text)
          ≡ returns (some out))
      × ((k : Text) → lookup k out ≡ lookup k d)
parse-print_qemu_drive d bus index f b hb hi hf (filled, commas, equals) h distinct =
    let es = printed is_drive_place d in
    let good : All IsDriveOption es = All-printed IsDriveOption is_drive_place d h in
    let text = join b',' (f ∷ map render es) in
    let full = nonempty_of_not_blank f filled in
    (
      text,
      print_qemu_drive-join d f hf (All-imp entry-IsOrdinary d h),
      place_entries bus index f ++ es,
      parse-drive_of_bus (bus ++ index) text bus index (key-nonempty bus index b)
            (join-nonempty f (map render es) full) (match_bus-append bus index b)
          ∙ drive_of_bus-join bus index f es full commas (Lacks-render es good) (
              each-drive bus index f es filled equals good
                (HasDistinctKeys-printed is_drive_place d distinct)
                (Absent-place_entries bus index f es
                  (Absent-printed_skipped (codes "interface") is_drive_place d place_names.0)
                  (Absent-printed_skipped (codes "index") is_drive_place d place_names.1)
                  (Absent-printed_skipped (codes "file") is_drive_place d place_names.2))),
      λ k. lookup-placed d bus index f k hb hi hf,
    )
