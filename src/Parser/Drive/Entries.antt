-- ===== src/Parser/Drive/Entries.antt =====
-- The entries of a drive that survive printing, and how each is read.
use pve_manager_electrified.Prelude.{
  ◌≡◌, refl, ap, true, false, some, List, [], ◌∷◌, ◌++◌, arith, Bool-cases, ◌⊎◌, inl, inr, all,
}
use pve_manager_electrified.Text.{
  Text, codes, text_eq, is_blank, is_word, nonempty, text_mem, is_lower, is_digits, is_digit,
}
use pve_manager_electrified.Text.Equality.{text_eq_iff}
use pve_manager_electrified.Text.Split.{Lacks, cut-append, is_blank-append}
use pve_manager_electrified.Object.{prototype_names}
use pve_manager_electrified.Object.Laws.{Absent, IsOrdinary, put_of_Absent}
use pve_manager_electrified.Parser.{render}
use pve_manager_electrified.Parser.Options.{is_defined_of_Absent}
use pve_manager_electrified.Parser.Drive.Names.{
  settable_of_own, is_name-Lacks, is_name-not_blank, name-IsOrdinary,
}
use pve_manager_electrified.Parser.Drive.{
  match_bus, is_name, volume_as_file, cache_value, drive_part, span_lower, drive_option,
  is_drive_place,
}

-- An option that a parsed drive can hold: a name that the parser neither renames nor finds on
-- every object, and a word without commas that it does not replace.
pub record IsDriveOption (e : Text × Text) : Type 0 where
  pub name : is_name e.0 ≡ true
  pub own : text_mem e.0 prototype_names ≡ false
  pub kept_name : volume_as_file e.0 ≡ e.0
  pub value : is_word e.1 ≡ true
  pub kept_value : cache_value e.0 e.1 ≡ e.1
  pub comma : Lacks b',' e.1

pub drive_part-good :
    (res : List (Text × Text)) (k v : Text)
    → IsDriveOption (k, v)
    → Absent k res
    → drive_part res (k, some v) ≡ some (res ++ (k, v) ∷ [])
unfolding drive_part
drive_part-good res k v g a =
    rw (g.name, g.value, g.kept_name, g.kept_value, is_defined_of_Absent k res a g.own)
      (ap some (put_of_Absent k v res (settable_of_own k g.own) a))

pub drive_option-render :
    (res : List (Text × Text)) (e : Text × Text)
    → IsDriveOption e
    → Absent e.0 res
    → drive_option res (render e) ≡ some (res ++ e ∷ [])
unfolding drive_option is_blank
drive_option-render res (k, v) g a =
    rw
      (
        is_blank-append k (b'=' ∷ v) (is_name-not_blank k g.name),
        cut-append b'=' k v (is_name-Lacks k g.name).0,
      )
      (drive_part-good res k v g a)

-- The letters of a bus and the digits of an index make up a key.
pub record IsBusKey (bus index : Text) : Type 0 where
  pub letters : (nonempty bus ≡ true) × (all is_lower bus ≡ true)
  pub digits : is_digits index ≡ true

pub span_lower-append :
    (bus index : Text)
    → all is_lower bus ≡ true
    → is_digits index ≡ true
    → span_lower (bus ++ index) ≡ (bus, index)
unfolding span_lower is_digits is_digit is_lower
span_lower-append [] [] h d = cc
span_lower-append [] (c ∷ s) h d = ground arith
span_lower-append (c ∷ bus) index h d = ground (arith, span_lower-append bus index (ground arith) d)

pub match_bus-append :
    (bus index : Text) → IsBusKey bus index → match_bus (bus ++ index) ≡ some (bus, index)
unfolding match_bus
match_bus-append bus index b =
    rw (span_lower-append bus index b.letters.1 b.digits, b.letters.0, b.digits)

-- An entry of a drive: one of the three places, or an option.
abbrev pub IsDriveEntry : Text × Text → Type 0
IsDriveEntry e = (is_drive_place e.0 ≡ true) ⊎ IsDriveOption e

pub place-is_name : (k : Text) → is_drive_place k ≡ true → is_name k ≡ true
unfolding is_drive_place is_name
place-is_name k h = elim (Bool-cases (text_eq k (codes "file"))) [
  | inl e ↦ rw ((text_eq_iff k (codes "file")).0 e) refl
  | inr n ↦ elim (Bool-cases (text_eq k (codes "index"))) [
    | inl e ↦ rw ((text_eq_iff k (codes "index")).0 e) refl
    | inr m ↦
        let e : text_eq k (codes "interface") ≡ true = ground arith in
        rw ((text_eq_iff k (codes "interface")).0 e) refl
  ]
]

pub entry-IsOrdinary : (e : Text × Text) → IsDriveEntry e → IsOrdinary e
entry-IsOrdinary (k, v) (inr g) = name-IsOrdinary k v g.name
entry-IsOrdinary (k, v) (inl p) = name-IsOrdinary k v (place-is_name k p)
