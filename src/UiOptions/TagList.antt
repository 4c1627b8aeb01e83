-- ===== src/UiOptions/TagList.antt =====
-- The list of tags is sorted and has the allowed tags.
use Prim.Native.Nat.{Ordering}
use pve_manager_electrified.Prelude.{
  ◌≡◌, refl, sym, ◌∙◌, ◌||◌, false, inl, inr, some, List, [], ◌∷◌, All, arith,
}
use pve_manager_electrified.Text.{Text, text_eq, text_mem}
use pve_manager_electrified.Text.Equality.{text_eq_iff}
use pve_manager_electrified.Parser.Acme.{first_occurrences}
use pve_manager_electrified.Utils.Controllers.Ordered.{sort_by-IsSorted}
use pve_manager_electrified.Utils.Controllers.Sorting.{
  gt-cases, insert_by-pass, insert_by-keep, text_mem-insert_by, text_mem-sort_by,
}
use pve_manager_electrified.Parser.Acme.Domains.{
  IsDistinct, IsDistinct-first_occurrences, text_mem-first_occurrences,
}
use pve_manager_electrified.Utils.Controllers.{insert_by, sort_by}
use pve_manager_electrified.Tree.{compare_text}
use pve_manager_electrified.Tree.Insert.{IsSorted}
use pve_manager_electrified.Tree.Comparisons.{compare_text-IsOrder, IsOrder-IsPreorder}
use pve_manager_electrified.UiOptions.{update_tag_list}

All-Unit : (vs : List Text) → All (λ v. Unit {0}) vs
All-Unit [] = tt
All-Unit (v ∷ vs) = (tt, All-Unit vs)

IsDistinct-insert_by :
    (sort_fn : Text → Text → Ordering) (v : Text) (vs : List Text)
    → text_mem v vs ≡ false
    → IsDistinct vs
    → IsDistinct (insert_by sort_fn v vs)
IsDistinct-insert_by sort_fn v [] n d = unfold insert_by in (n, d)
IsDistinct-insert_by sort_fn v (w ∷ ws) n (a, d) =
    let both : (text_eq v w || text_mem v ws) ≡ false = unfold text_mem in n in
    elim (gt-cases (sort_fn v w)) [
      | inl g ↦ rw (insert_by-pass sort_fn v w ws g) (
        text_mem-insert_by sort_fn w v ws
            ∙ ground (arith, a, both, text_eq_iff v w, text_eq_iff w v, λ (q : w ≡ v). sym q),
        IsDistinct-insert_by sort_fn v ws (ground (arith, both)) d,
      )
      | inr g ↦ rw (insert_by-keep sort_fn v w ws g) (n, (a, d))
    ]

IsDistinct-sort_by :
    (sort_fn : Text → Text → Ordering) (vs : List Text)
    → IsDistinct vs
    → IsDistinct (sort_by sort_fn vs)
unfolding sort_by
IsDistinct-sort_by sort_fn [] d = tt
IsDistinct-sort_by sort_fn (v ∷ vs) (n, d) =
    IsDistinct-insert_by sort_fn v (sort_by sort_fn vs) (text_mem-sort_by sort_fn v vs ∙ n)
      (IsDistinct-sort_by sort_fn vs d)

-- updateTagList gives each of the allowed tags once, and no other, sorted by their code units.
pub update_tag_list_lem :
    (tags : List Text) (tag : Text)
    → (list : List Text) × (update_tag_list (some tags) ≡ some list)
      × IsSorted compare_text list
      × IsDistinct list
      × (text_mem tag list ≡ text_mem tag tags)
unfolding update_tag_list
update_tag_list_lem tags tag =
    let laws = IsOrder-IsPreorder compare_text compare_text-IsOrder in
    (
      _,
      refl,
      sort_by-IsSorted compare_text (λ v. Unit {0}) (λ a b p q. laws.total a b)
          (λ a b c p q r. laws.transitive a b c) (first_occurrences [] tags) (All-Unit _),
      IsDistinct-sort_by compare_text (first_occurrences [] tags)
          (IsDistinct-first_occurrences [] tags),
      text_mem-sort_by compare_text tag (first_occurrences [] tags)
          ∙ text_mem-first_occurrences tag [] tags
          ∙ unfold text_mem in ground arith,
    )
