-- ===== src/Utils/Controllers/Ordered.antt =====
-- Insertion sort under a comparison that is a total preorder of the elements at hand.
use Prim.Native.Nat.{Ordering}
use mathlib.Core.Path.{subst}
use pve_manager_electrified.Prelude.{◌≡◌, ◌≢◌, sym, List, [], ◌∷◌, All, inl, inr}
use pve_manager_electrified.Utils.Controllers.{insert_by, sort_by}
use pve_manager_electrified.Utils.Controllers.Sorting.{
  gt-cases, insert_by-pass, insert_by-keep, All-insert_by, All-sort_by,
}
use pve_manager_electrified.Tree.Insert.{IsSorted}

module _ {A : Type 0} (cmp : A → A → Ordering) (P : A → Type 0)
    (total : (a b : A) → P a → P b → cmp a b ≡ Ordering.gt → cmp b a ≢ Ordering.gt)
    (transitive : (a b c : A)
      → P a
      → P b
      → P c
      → cmp a b ≢ Ordering.gt
      → cmp b c ≢ Ordering.gt
      → cmp a c ≢ Ordering.gt) where
  behind :
      (x y : A) (zs : List A)
      → P x
      → P y
      → All P zs
      → cmp x y ≢ Ordering.gt
      → All (λ z. cmp y z ≢ Ordering.gt) zs
      → All (λ z. cmp x z ≢ Ordering.gt) zs
  behind x y [] px py h e b = tt
  behind x y (z ∷ zs) px py (pz, h) e (q, b) =
      (transitive x y z px py pz e q, behind x y zs px py h e b)

  insert_by-IsSorted :
      (x : A) (ys : List A) → P x → All P ys → IsSorted cmp ys → IsSorted cmp (insert_by cmp x ys)
  insert_by-IsSorted x [] p h s = unfold insert_by in (tt, tt)
  insert_by-IsSorted x (y ∷ ys) p (q, h) (b, s) = elim (gt-cases (cmp x y)) [
    | inl e ↦ subst (IsSorted cmp) (sym (insert_by-pass cmp x y ys e)) (
      All-insert_by cmp (λ z. cmp y z ≢ Ordering.gt) x ys (total x y p q e) b,
      insert_by-IsSorted x ys p h s,
    )
    | inr e ↦
        subst (IsSorted cmp) (sym (insert_by-keep cmp x y ys e))
          ((e, behind x y ys p q h e b), (b, s))
  ]

  pub sort_by-IsSorted : (xs : List A) → All P xs → IsSorted cmp (sort_by cmp xs)
  unfolding sort_by
  sort_by-IsSorted [] h = tt
  sort_by-IsSorted (x ∷ xs) (p, h) =
      insert_by-IsSorted x (sort_by cmp xs) p (All-sort_by cmp P xs h) (sort_by-IsSorted xs h)
