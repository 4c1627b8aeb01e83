-- ===== src/Parser/Acme/Domains.antt =====
-- The list of domains after an addition or a removal.
use pve_manager_electrified.Prelude.{
  ◌≡◌, refl, false, not, ◌&&◌, ◌||◌, Option, none, some, List, [], ◌∷◌, ◌++◌, arith, Bool-cases,
  inl, inr, ◌∙◌, ap,
}
use pve_manager_electrified.Text.{Text, text_eq, text_mem}
use pve_manager_electrified.Text.Equality.{text_mem-append, text_eq_iff, text_eq_refl}
use pve_manager_electrified.Parser.Acme.{first_occurrences, drop_text, add_domain, remove_domain}

-- No text stands twice in the list.
abbrev pub IsDistinct : List Text → Type 0
IsDistinct [] = Unit
IsDistinct (v ∷ vs) = (text_mem v vs ≡ false) × IsDistinct vs

abbrev pub or_empty : Option (List Text) → List Text
or_empty none = []
or_empty (some ds) = ds

pub text_mem-first_occurrences :
    (d : Text) (seen vs : List Text)
    → text_mem d (first_occurrences seen vs) ≡ (text_mem d vs && not (text_mem d seen))
unfolding text_mem first_occurrences
text_mem-first_occurrences d seen [] = ground arith
text_mem-first_occurrences d seen (v ∷ vs) = ground (
  arith,
  text_mem-first_occurrences d (v ∷ seen) vs,
  text_eq_iff d v,
  λ (e : d ≡ v). ap (λ w. text_mem w seen) e,
)

pub IsDistinct-first_occurrences : (seen vs : List Text) → IsDistinct (first_occurrences seen vs)
unfolding first_occurrences
IsDistinct-first_occurrences seen [] = tt
IsDistinct-first_occurrences seen (v ∷ vs) = elim (Bool-cases (text_mem v seen)) [
  | inl e ↦ rw (e, first_occurrences) (IsDistinct-first_occurrences (v ∷ seen) vs)
  | inr e ↦ rw (e, first_occurrences) (fresh, IsDistinct-first_occurrences (v ∷ seen) vs)
]
  where
    fresh : text_mem v (first_occurrences (v ∷ seen) vs) ≡ false
    fresh =
        text_mem-first_occurrences v (v ∷ seen) vs
        ∙ unfold text_mem in ground (arith, text_eq_refl v)

text_mem-drop_text :
    (e d : Text) (vs : List Text)
    → text_mem e (drop_text d vs) ≡ (text_mem e vs && not (text_eq e d))
unfolding text_mem drop_text
text_mem-drop_text e d [] = refl
text_mem-drop_text e d (v ∷ vs) =
    ground (arith, text_mem-drop_text e d vs, text_eq_iff e v, text_eq_iff v d, text_eq_iff e d)

IsDistinct-drop_text : (d : Text) (vs : List Text) → IsDistinct vs → IsDistinct (drop_text d vs)
unfolding drop_text
IsDistinct-drop_text d [] h = tt
IsDistinct-drop_text d (v ∷ vs) (n, h) = elim (Bool-cases (text_eq v d)) [
  | inl e ↦ rw (e, drop_text) (IsDistinct-drop_text d vs h)
  | inr e ↦
      rw (e, drop_text) (text_mem-drop_text v d vs ∙ ground (arith, n), IsDistinct-drop_text d vs h)
]

-- What add_domain_to_acme returns.
add_domain_lem :
    (ds : Option (List Text)) (d e : Text)
    → IsDistinct (or_empty (add_domain ds d))
      × (text_mem e (or_empty (add_domain ds d)) ≡ (text_mem e (or_empty ds) || text_eq e d))
unfolding add_domain
add_domain_lem none d e = (unfold text_mem in (refl, tt), unfold text_mem in ground arith)
add_domain_lem (some ds) d e = (
  IsDistinct-first_occurrences [] (ds ++ d ∷ []),
  text_mem-first_occurrences e [] (ds ++ d ∷ [])
      ∙ ap (λ b. b && not (text_mem e [])) (text_mem-append e ds (d ∷ []))
      ∙ unfold text_mem in ground arith,
)

-- What remove_domain_from_acme returns.
remove_domain_lem :
    (ds : Option (List Text)) (d e : Text)
    → IsDistinct (or_empty (remove_domain ds d))
      × (text_mem e (or_empty (remove_domain ds d))
          ≡ (text_mem e (or_empty ds) && not (text_eq e d)))
unfolding remove_domain
remove_domain_lem none d e = (tt, unfold text_mem in refl)
remove_domain_lem (some ds) d e = (
  IsDistinct-drop_text d _ (IsDistinct-first_occurrences [] ds),
  text_mem-drop_text e d (first_occurrences [] ds)
      ∙ ap (λ b. b && not (text_eq e d)) (text_mem-first_occurrences e [] ds)
      ∙ unfold text_mem in ground arith,
)

-- add_domain_to_acme and remove_domain_from_acme return lists of distinct domains, whatever the list
-- before: the first holds exactly the domains of that list and the added one, the second exactly
-- those other than the removed one.
pub change_domain_lem :
    (ds : Option (List Text)) (d e : Text)
    → IsDistinct (or_empty (add_domain ds d))
      × (text_mem e (or_empty (add_domain ds d)) ≡ (text_mem e (or_empty ds) || text_eq e d))
      × IsDistinct (or_empty (remove_domain ds d))
      × (text_mem e (or_empty (remove_domain ds d))
          ≡ (text_mem e (or_empty ds) && not (text_eq e d)))
change_domain_lem ds d e =
    let added = add_domain_lem ds d e in
    let removed = remove_domain_lem ds d e in (added.0, added.1, removed.0, removed.1)
