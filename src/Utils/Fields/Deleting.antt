-- ===== src/Utils/Fields/Deleting.antt =====
-- What delete_if_default leaves of the values of a form.
use pve_manager_electrified.Prelude.{
  ◌≡◌, ◌≢◌, refl, sym, ◌∙◌, Bool, true, false, Option, none, some, List, [], ◌∷◌, ◌++◌, arith,
  Bool-cases, inl, inr, ap, ◌⊎◌, if◌then◌else◌,
}
use pve_manager_electrified.Text.{Text, text_eq, split}
use pve_manager_electrified.Text.Equality.{text_eq_iff, text_eq_refl}
use pve_manager_electrified.Text.Split.{Lacks, split-concat, split_of_Lacks}
use pve_manager_electrified.Object.{lookup, put, remove}
use pve_manager_electrified.Object.Laws.{lookup-remove, lookup-put_own}
use pve_manager_electrified.Utils.Fields.{
  Field, text, array, delete_key, is_default, listed, delete_if_default,
}

-- The names that the API deletes: those between commas, or those of the array.
pub names : Option Field → List Text
names none = []
names (some (text [])) = []
names (some (text (c ∷ s))) = split b',' (c ∷ s)
names (some (array vs)) = vs

-- The names before, and the new one behind them.
listed_lem :
    (p : Text) (o : Option Field)
    → p ≢ []
    → Lacks b',' p
    → names (some (listed p o)) ≡ names o ++ p ∷ []
unfolding names listed
listed_lem [] o n h = absurd (n refl)
listed_lem (d ∷ p) none n h = split_of_Lacks b',' (d ∷ p) h
listed_lem (d ∷ p) (some (text [])) n h = split_of_Lacks b',' (d ∷ p) h
listed_lem (d ∷ p) (some (text (c ∷ s))) n h =
    split-concat b',' (c ∷ s) (d ∷ p)
    ∙ ap (λ ps. split b',' (c ∷ s) ++ ps) (split_of_Lacks b',' (d ∷ p) h)
listed_lem (d ∷ p) (some (array vs)) n h = refl

lookup-put_delete :
    (k : Text) (v : Field) (values : List (Text × Field))
    → lookup k (put delete_key v values)
      ≡ (if text_eq k delete_key then some v else lookup k values)
unfolding put
lookup-put_delete k v values = lookup-put_own delete_key k v values

removed : (p : Text) (o : List (Text × Field)) → lookup p (remove p o) ≡ none
removed p o = lookup-remove p p o ∙ rw (text_eq_refl p) refl

kept : (k p : Text) (o : List (Text × Field)) → k ≢ p → lookup k (remove p o) ≡ lookup k o
kept k p o n =
    let other : text_eq k p ≡ false = ground (arith, text_eq_iff k p, n) in
    lookup-remove p k o ∙ rw other refl

put_kept :
    (k : Text) (v : Field) (o : List (Text × Field))
    → k ≢ delete_key
    → lookup k (put delete_key v o) ≡ lookup k o
put_kept k v o n =
    let other : text_eq k delete_key ≡ false = ground (arith, text_eq_iff k delete_key, n) in
    lookup-put_delete k v o ∙ rw other refl

put_delete : (v : Field) (o : List (Text × Field)) → lookup delete_key (put delete_key v o) ≡ some v
put_delete v o = lookup-put_delete delete_key v o ∙ rw (text_eq_refl delete_key) refl

-- The value is a text that is empty or the default.
abbrev pub IsDefaultText : Text → Option Field → Type 0
IsDefaultText default_val o = (v : Text) × (o ≡ some (text v)) × ((v ≡ []) ⊎ (v ≡ default_val))

is_default-cases :
    (default_val : Text) (o : Option Field)
    → ((is_default default_val o ≡ true) × IsDefaultText default_val o)
      ⊎ ((is_default default_val o ≡ false) × ¬ IsDefaultText default_val o)
unfolding is_default
is_default-cases default_val none = inr (refl, λ h. let e = h.1 in cc)
is_default-cases default_val (some (array vs)) = inr (refl, λ h. let e = h.1 in cc)
is_default-cases default_val (some (text v)) = elim (Bool-cases (text_eq v [])) [
  | inl e ↦ inl (rw e refl, (v, refl, inl ((text_eq_iff v []).0 e)))
  | inr e ↦ elim (Bool-cases (text_eq v default_val)) [
    | inl f ↦ inl (rw (e, f) refl, (v, refl, inr ((text_eq_iff v default_val).0 f)))
    | inr f ↦ inr (
      rw (e, f) refl,
      λ h. elim h.2 [
        | inl q ↦
            let same : v ≡ h.0 = (let p = h.1 in cc) in
            let t = (text_eq_iff v []).1 (same ∙ q) in cc
        | inr q ↦
            let same : v ≡ h.0 = (let p = h.1 in cc) in
            let t = (text_eq_iff v default_val).1 (same ∙ q) in cc
      ],
    )
  ]
]

module _ (values : List (Text × Field)) (p default_val : Text) where
  unchanged :
      (create : Bool)
      → is_default default_val (lookup p values) ≡ false
      → delete_if_default values p default_val create ≡ values
  unfolding delete_if_default
  unchanged create e = rw e refl

  changed :
      (create : Bool)
      → is_default default_val (lookup p values) ≡ true
      → delete_if_default values p default_val create
        ≡ remove p
            (if create then values else put delete_key (listed p (lookup delete_key values)) values)
  unfolding delete_if_default
  changed create e = rw e refl

-- If the value of a field is a text that is empty or the default, delete_if_default removes the field
-- and changes no other field but the list of those to delete: when the object is created, that list
-- stays, and otherwise it has its names of before and the field behind them. If the value is another
-- one, nothing changes. The name of the field is not empty, not `delete`, and has no comma.
pub delete_if_default_lem :
    (values : List (Text × Field)) (p default_val : Text) (create : Bool) (k : Text)
    → p ≢ []
    → p ≢ delete_key
    → Lacks b',' p
    → k ≢ p
    → k ≢ delete_key
    → (IsDefaultText default_val (lookup p values)
        × (lookup p (delete_if_default values p default_val create) ≡ none)
        × (lookup k (delete_if_default values p default_val create) ≡ lookup k values)
        × (((create ≡ true)
              × (lookup delete_key (delete_if_default values p default_val create)
                  ≡ lookup delete_key values))
            ⊎ ((create ≡ false)
                × (names (lookup delete_key (delete_if_default values p default_val create))
                    ≡ names (lookup delete_key values) ++ p ∷ []))))
      ⊎ ((¬ IsDefaultText default_val (lookup p values))
          × (delete_if_default values p default_val create ≡ values))
delete_if_default_lem values p default_val true k ne np lacks nk nd =
    elim (is_default-cases default_val (lookup p values)) [
      | inl (e, is) ↦ inl (
          rw (changed values p default_val true e) (
            is,
            removed p values,
            kept k p values nk,
            inl (refl, kept delete_key p values (λ q. np (sym q))),
          ))
      | inr (e, other) ↦ inr (other, unchanged values p default_val true e)
    ]
delete_if_default_lem values p default_val false k ne np lacks nk nd =
    let field = listed p (lookup delete_key values) in
    let marked = put delete_key field values in
    elim (is_default-cases default_val (lookup p values)) [
      | inl (e, is) ↦ inl (
          rw (changed values p default_val false e) (
            is,
            removed p marked,
            kept k p marked nk ∙ put_kept k field values nd,
            inr (
              refl,
              ap names (kept delete_key p marked (λ q. np (sym q)) ∙ put_delete field values)
                  ∙ listed_lem p (lookup delete_key values) ne lacks,
            ),
          ))
      | inr (e, other) ↦ inr (other, unchanged values p default_val false e)
    ]
