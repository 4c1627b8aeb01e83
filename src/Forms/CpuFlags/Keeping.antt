-- ===== src/Forms/CpuFlags/Keeping.antt =====
-- Flags that the node knows are kept: writing them and reading the text gives the states back.
use pve_manager_electrified.Prelude.{
  ◌≡◌, ◌≢◌, refl, sym, ap, ◌∙◌, true, false, some, List, [], ◌∷◌, ◌++◌, All, All-imp, All-append,
  arith, append_assoc, append-nil, inl, inr, Bool-cases,
}
use pve_manager_electrified.Text.{Text, codes, text_eq, nonempty, split, join}
use pve_manager_electrified.Text.Equality.{text_eq_iff, text_eq_refl}
use pve_manager_electrified.Text.Split.{Lacks, split-join}
use pve_manager_electrified.Forms.CpuFlags.{
  Flag, Selector, is_set, add_flags, get_value, reset, set_state, apply_flag, apply_flags, flags_of,
  adjust_store_for_value, set_value, sign_of, name_of,
}
use pve_manager_electrified.Forms.CpuFlags.Parts.{
  IsKnownFlag, HasDistinctNames, parts, parts-All, nonempty-append, part-nonempty, add_flags-nil,
}

-- Setting a state in the middle of a list.
set_state-middle :
    (done : List Flag) (rec : Flag) (sign : Text) (rest : List Flag)
    → All (λ r. r.name ≢ rec.name) done
    → nonempty rec.name ≡ true
    → set_state rec.name sign (done ++ rec ∷ rest)
      ≡ some (done ++ record rec { state = sign } ∷ rest)
unfolding set_state
set_state-middle [] rec sign rest h f = rw (f, text_eq_refl rec.name) refl
set_state-middle (d ∷ done) rec sign rest (n, h) f =
    let other : text_eq d.name rec.name ≡ false = ground (arith, text_eq_iff d.name rec.name, n) in
    rw (f, other, set_state-middle done rec sign rest h f) refl

-- A known flag that is set is its sign and its name.
split_part :
    (rec : Flag)
    → IsKnownFlag rec
    → is_set rec.state ≡ true
    → (sign_of (rec.state ++ rec.name) ≡ rec.state) × (name_of (rec.state ++ rec.name) ≡ rec.name)
unfolding is_set text_eq
split_part rec k s = elim k.state [
  | inl e ↦ absurd (let q : is_set (codes "=") ≡ true = sym (ap is_set e) ∙ s in cc)
  | inr (inl e) ↦ rw e (refl, refl)
  | inr (inr e) ↦ rw e (refl, refl)
]

unset_state : (rec : Flag) → IsKnownFlag rec → is_set rec.state ≡ false → rec.state ≡ codes "="
unfolding is_set text_eq
unset_state rec k s = elim k.state [
  | inl e ↦ e
  | inr (inl e) ↦ absurd (let q : is_set (codes "+") ≡ false = sym (ap is_set e) ∙ s in cc)
  | inr (inr e) ↦ absurd (let q : is_set (codes "-") ≡ false = sym (ap is_set e) ∙ s in cc)
]

-- The flags in front have other names.
abbrev Apart : List Flag → List Flag → Type 0
Apart done rest = All (λ r. All (λ d. d.name ≢ r.name) done) rest

Apart-next :
    (done : List Flag) (rec : Flag) (rest : List Flag)
    → All (λ r. rec.name ≢ r.name) rest
    → Apart done rest
    → Apart (done ++ rec ∷ []) rest
Apart-next done rec [] n h = tt
Apart-next done rec (r ∷ rest) (n, ns) (h, hs) =
    (All-append (λ d. d.name ≢ r.name) done (rec ∷ []) h (n, tt), Apart-next done rec rest ns hs)

Apart-of_nil : (rest : List Flag) → Apart [] rest
Apart-of_nil [] = tt
Apart-of_nil (r ∷ rest) = (tt, Apart-of_nil rest)

apply_part :
    (rec : Flag)
    → IsKnownFlag rec
    → is_set rec.state ≡ true
    → (done rest : List Flag) (unknown : List Text) → All (λ d. d.name ≢ rec.name) done
    → apply_flag (rec.state ++ rec.name) (done ++ record rec { state = codes "=" } ∷ rest, unknown)
      ≡ (done ++ rec ∷ rest, unknown)
unfolding apply_flag
apply_part rec k s done rest unknown a =
    let sign = (split_part rec k s).0 in
    let name = (split_part rec k s).1 in
    let found = set_state-middle done (record rec { state = codes "=" }) rec.state rest a k.named in
    rw (sign, name, found) refl

apply_flags-parts :
    (rest done : List Flag) (unknown : List Text)
    → All IsKnownFlag rest
    → HasDistinctNames rest
    → Apart done rest
    → apply_flags (parts rest) (done ++ reset rest, unknown) ≡ (done ++ rest, unknown)
unfolding parts reset apply_flags
apply_flags-parts [] done unknown h d a = refl
apply_flags-parts (rec ∷ rest) done unknown (k, h) (n, d) (a, more_apart) =
    let more : Path (List Flag × List Text)
        (apply_flags (parts rest) (done ++ rec ∷ reset rest, unknown))
        (done ++ rec ∷ rest, unknown) =
      ap (λ recs. apply_flags (parts rest) (recs, unknown))
        (sym (append_assoc done (rec ∷ []) (reset rest)))
      ∙ apply_flags-parts rest (done ++ rec ∷ []) unknown h d
          (Apart-next done rec rest n more_apart)
      ∙ ap (λ recs. (recs, unknown)) (append_assoc done (rec ∷ []) rest) in
    elim (Bool-cases (is_set rec.state)) [
      | inl e ↦
          rw e
            (ap (apply_flags (parts rest)) (apply_part rec k e done (reset rest) unknown a) ∙ more)
      | inr e ↦
          let same : record rec { state = codes "=" } ≡ rec =
            ap (λ t. record rec { state = t }) (sym (unset_state rec k e)) in
          rw e (ap (λ r. apply_flags (parts rest) (done ++ r ∷ reset rest, unknown)) same ∙ more)
    ]

part-Lacks : (rec : Flag) → IsKnownFlag rec → Lacks b';' (rec.state ++ rec.name)
part-Lacks rec k = elim k.state [
  | inl e ↦ rw e ((λ q. omega arith), k.plain)
  | inr (inl e) ↦ rw e ((λ q. omega arith), k.plain)
  | inr (inr e) ↦ rw e ((λ q. omega arith), k.plain)
]

parts-nonempty :
    (recs : List Flag) → All IsKnownFlag recs → All (λ p. nonempty p ≡ true) (parts recs)
unfolding parts
parts-nonempty [] h = tt
parts-nonempty (rec ∷ recs) (k, h) = elim (Bool-cases (is_set rec.state)) [
  | inl e ↦ rw e (part-nonempty rec k e, parts-nonempty recs h)
  | inr e ↦ rw e (parts-nonempty recs h)
]

flags_of-filled : (v : Text) → nonempty v ≡ true → flags_of v ≡ split b';' v
unfolding flags_of
flags_of-filled [] h = cc
flags_of-filled (c ∷ v) h = refl

join-nonempty :
    (p : Text) (ps : List Text) → nonempty p ≡ true → nonempty (join b';' (p ∷ ps)) ≡ true
unfolding join
join-nonempty p [] h = h
join-nonempty p (q ∷ ps) h = nonempty-append p (b';' ∷ join b';' (q ∷ ps)) h

pub flags_of-join :
    (ps : List Text)
    → All (λ p. nonempty p ≡ true) ps
    → All (Lacks b';') ps
    → flags_of (join b';' ps) ≡ ps
flags_of-join [] h l = unfold flags_of in unfold join in refl
flags_of-join (p ∷ ps) (f, h) (lp, l) =
    flags_of-filled (join b';' (p ∷ ps)) (join-nonempty p ps f) ∙ split-join b';' p ps lp l

-- What setting a value on a loaded grid leaves behind.
pub set_value_of_loaded :
    (value : Text) (me : Selector)
    → me.is_loaded ≡ true
    → ((set_value value me).flags ≡ (apply_flags (flags_of value) (reset me.flags, [])).0)
      × ((set_value value me).unkown_flags ≡ (apply_flags (flags_of value) (reset me.flags, [])).1)
      × ((set_value value me).is_loaded ≡ true)
unfolding set_value adjust_store_for_value
set_value_of_loaded value me loaded = rw loaded (refl, refl, refl)

get_value_of_known :
    (me : Selector)
    → me.is_loaded ≡ true
    → me.unkown_flags ≡ []
    → All IsKnownFlag me.flags
    → get_value me ≡ join b';' (parts me.flags)
unfolding get_value
get_value_of_known me loaded none_unknown known =
    rw (loaded, none_unknown)
      (unfold join in append-nil (add_flags me.flags []) ∙ add_flags-nil me.flags known)

-- Setting the text that the selector gives, when every flag is known to the node, gives the states
-- back that it shows, and no unknown flag.
pub set_value-get_value :
    (me : Selector)
    → me.is_loaded ≡ true
    → me.unkown_flags ≡ []
    → All IsKnownFlag me.flags
    → HasDistinctNames me.flags
    → ((set_value (get_value me) me).flags ≡ me.flags)
      × ((set_value (get_value me) me).unkown_flags ≡ [])
set_value-get_value me loaded none_unknown known distinct =
    let value = get_value me in
    let after = set_value_of_loaded value me loaded in
    let text : flags_of value ≡ parts me.flags =
      ap flags_of (get_value_of_known me loaded none_unknown known)
      ∙ flags_of-join (parts me.flags) (parts-nonempty me.flags known)
          (parts-All (Lacks b';') me.flags (All-imp part-Lacks me.flags known)) in
    let applied =
      ap (λ fs. apply_flags fs (reset me.flags, [])) text
      ∙ apply_flags-parts me.flags [] [] known distinct (Apart-of_nil me.flags) in
    (after.0 ∙ ap (λ r. r.0) applied, after.1 ∙ ap (λ r. r.1) applied)
