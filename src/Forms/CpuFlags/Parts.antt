-- ===== src/Forms/CpuFlags/Parts.antt =====
-- The text of the flags is the join of the parts of those that are set.
use pve_manager_electrified.Prelude.{
  ◌≡◌, ◌≢◌, refl, sym, ap, ◌∙◌, true, List, [], ◌∷◌, ◌++◌, All, arith, append_assoc, append-nil,
  inl, inr, Bool-cases, if◌then◌else◌, ◌⊎◌,
}
use pve_manager_electrified.Text.{Text, codes, nonempty, join}
use pve_manager_electrified.Text.Split.{Lacks, join-concat}
use pve_manager_electrified.Forms.CpuFlags.{Flag, add_part, is_set, add_flags}

-- A flag that the text can hold, in one of the three states.
pub record IsKnownFlag (rec : Flag) : Type 0 where
  pub named : nonempty rec.name ≡ true
  pub plain : Lacks b';' rec.name
  pub state : (rec.state ≡ codes "=") ⊎ ((rec.state ≡ codes "+") ⊎ (rec.state ≡ codes "-"))

-- No two flags have one name.
abbrev pub HasDistinctNames : List Flag → Type 0
HasDistinctNames [] = Unit
HasDistinctNames (rec ∷ recs) = All (λ r. rec.name ≢ r.name) recs × HasDistinctNames recs

-- The texts of the flags that are set.
unfoldable pub parts : List Flag → List Text
parts [] = []
parts (rec ∷ recs) =
    let rest = parts recs in if is_set rec.state then (rec.state ++ rec.name) ∷ rest else rest

pub parts-All :
    (P : Text → Type 0) (recs : List Flag)
    → All (λ r. P (r.state ++ r.name)) recs
    → All P (parts recs)
unfolding parts
parts-All P [] h = tt
parts-All P (rec ∷ recs) (p, h) = elim (Bool-cases (is_set rec.state)) [
  | inl e ↦ rw e (p, parts-All P recs h)
  | inr e ↦ rw e (parts-All P recs h)
]

pub nonempty-append : (xs ys : Text) → nonempty xs ≡ true → nonempty (xs ++ ys) ≡ true
nonempty-append [] ys h = cc
nonempty-append (c ∷ xs) ys h = refl

add_part-nonempty : (flags p : Text) → nonempty flags ≡ true → add_part flags p ≡ flags ++ b';' ∷ p
add_part-nonempty [] p h = cc
add_part-nonempty (c ∷ flags) p h = refl

-- The text is the join of the parts.
add_flags-more :
    (recs : List Flag) (p : Text) (ps : List Text)
    → nonempty (join b';' (p ∷ ps)) ≡ true
    → add_flags recs (join b';' (p ∷ ps)) ≡ join b';' (p ∷ ps ++ parts recs)
unfolding add_flags parts
add_flags-more [] p ps h = ap (λ qs. join b';' (p ∷ qs)) (sym (append-nil ps))
add_flags-more (rec ∷ recs) p ps h = elim (Bool-cases (is_set rec.state)) [
  | inl e ↦
      let part = rec.state ++ rec.name in
      let longer = join-concat b';' p ps part in
      rw e (
        ap (add_flags recs) (add_part-nonempty (join b';' (p ∷ ps)) part h ∙ sym longer)
        ∙ add_flags-more recs p (ps ++ part ∷ [])
            (ap nonempty longer ∙ nonempty-append (join b';' (p ∷ ps)) (b';' ∷ part) h)
        ∙ ap (λ qs. join b';' (p ∷ qs)) (append_assoc ps (part ∷ []) (parts recs)))
  | inr e ↦ rw e (add_flags-more recs p ps h)
]

pub part-nonempty :
    (rec : Flag)
    → IsKnownFlag rec
    → is_set rec.state ≡ true
    → nonempty (rec.state ++ rec.name) ≡ true
unfolding is_set
part-nonempty rec k s = nonempty-append rec.state rec.name (ground (arith, s))

pub add_flags-nil :
    (recs : List Flag) → All IsKnownFlag recs → add_flags recs [] ≡ join b';' (parts recs)
unfolding add_flags parts
add_flags-nil [] h = unfold join in refl
add_flags-nil (rec ∷ recs) (k, h) = elim (Bool-cases (is_set rec.state)) [
  | inl e ↦
      rw e (unfold join in add_flags-more recs (rec.state ++ rec.name) [] (part-nonempty rec k e))
  | inr e ↦ rw e (add_flags-nil recs h)
]
