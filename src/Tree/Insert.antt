-- ===== src/Tree/Insert.antt =====
-- Adding a child at the place that the search finds keeps the children sorted.
use Prim.Native.Nat.{Ordering}
use mathlib.Core.Path.{subst}
use native.Mathlib.Decide.{ℕ_discrete}
use pve_manager_electrified.Prelude.{
  ℕ, zero, suc, ◌≤◌, ◌<◌, ◌≡◌, ◌≢◌, refl, sym, ap, ◌∙◌, ◌↔◌, true, false, some, List, [], ◌∷◌,
  arith, All, get_elem?, length,
}
use pve_manager_electrified.Tree.{insert_before, insert_at, add_child, not_greater}
use pve_manager_electrified.Tree.Search.{IsMonotone, find_insert_index-Splits}

get_elem?-lt : {A : Type 0} (xs : List A) (i : ℕ) (a : A) → get_elem? xs i ≡ some a → i < length xs
get_elem?-lt [] i a e = cc
get_elem?-lt (x ∷ xs) zero a e = omega arith
get_elem?-lt (x ∷ xs) (suc i) a e = let q = get_elem?-lt xs i a e in omega arith

-- The laws that make a comparison a total preorder.
pub record IsPreorder {A : Type 0} (cmp : A → A → Ordering) : Type 0 where
  pub total : (a b : A) → cmp a b ≡ Ordering.gt → cmp b a ≢ Ordering.gt
  pub transitive :
      (a b c : A) → cmp a b ≢ Ordering.gt → cmp b c ≢ Ordering.gt → cmp a c ≢ Ordering.gt

not_greater_iff : (o : Ordering) → (not_greater o ≡ true) ↔ (o ≢ Ordering.gt)
not_greater_iff o = ground arith

greater_of_not : (o : Ordering) → not_greater o ≡ false → o ≡ Ordering.gt
greater_of_not o h = ground arith

module _ {A : Type 0} (cmp : A → A → Ordering) where
  -- No node is greater than one behind it.
  abbrev pub IsSorted : List A → Type 0
  IsSorted [] = Unit
  IsSorted (x ∷ xs) = All (λ y. cmp x y ≢ Ordering.gt) xs × IsSorted xs

  All-get_elem? :
      (P : A → Type 0) (xs : List A) (i : ℕ) (a : A) → All P xs → get_elem? xs i ≡ some a → P a
  All-get_elem? P [] i a h e = cc
  All-get_elem? P (x ∷ xs) zero a (p, h) e = let q : x ≡ a = cc in subst P q p
  All-get_elem? P (x ∷ xs) (suc i) a (p, h) e = All-get_elem? P xs i a h e

  All-of_get_elem? :
      (P : A → Type 0) (xs : List A) → ((i : ℕ) (a : A) → get_elem? xs i ≡ some a → P a) → All P xs
  All-of_get_elem? P [] h = tt
  All-of_get_elem? P (x ∷ xs) h = (h 0 x refl, All-of_get_elem? P xs (λ i. h (suc i)))

  pub All-insert_before :
      (P : A → Type 0) (xs : List A) (child : A) (p : ℕ)
      → All P xs
      → P child
      → All P (insert_before p child xs)
  unfolding insert_before
  All-insert_before P xs child zero h c = (c, h)
  All-insert_before P [] child (suc p) h c = (c, tt)
  All-insert_before P (x ∷ xs) child (suc p) (q, h) c = (q, All-insert_before P xs child p h c)

  module _ (laws : IsPreorder cmp) where
    sorted-le :
        (xs : List A) (i j : ℕ) (a b : A)
        → IsSorted xs
        → i < j
        → get_elem? xs i ≡ some a
        → get_elem? xs j ≡ some b
        → cmp a b ≢ Ordering.gt
    sorted-le [] i j a b s h e f = cc
    sorted-le (x ∷ xs) i zero a b s h e f = elim h [ ]
    sorted-le (x ∷ xs) zero (suc j) a b (l, s) h e f =
        let q : x ≡ a = cc in
        subst (λ y. cmp y b ≢ Ordering.gt) q (All-get_elem? (λ y. cmp x y ≢ Ordering.gt) xs j b l f)
    sorted-le (x ∷ xs) (suc i) (suc j) a b (l, s) h e f = sorted-le xs i j a b s (omega arith) e f

    -- Over sorted children, the test of the search is monotone.
    pub not_greater-IsMonotone :
        (xs : List A) (child : A) → IsSorted xs → IsMonotone (λ m. not_greater (cmp child m)) xs
    not_greater-IsMonotone xs child s i j a b h e f t = elim (ℕ_discrete i j) [
      | yes q ↦
          let same : some a ≡ some b = sym e ∙ ap (get_elem? xs) q ∙ f in
          let a≡b : a ≡ b = cc in subst (λ y. not_greater (cmp child y) ≡ true) a≡b t
      | no n ↦ (not_greater_iff (cmp child b)).1 (
          laws.transitive child a b ((not_greater_iff (cmp child a)).0 t)
            (sorted-le xs i j a b s (omega arith) e f))
    ]

    insert_before-IsSorted :
        (xs : List A) (child : A) (p : ℕ)
        → IsSorted xs
        → p ≤ length xs
        → ((i : ℕ) (a : A) → i < p → get_elem? xs i ≡ some a → cmp child a ≡ Ordering.gt)
        → ((i : ℕ) (a : A) → p ≤ i → get_elem? xs i ≡ some a → cmp child a ≢ Ordering.gt)
        → IsSorted (insert_before p child xs)
    unfolding insert_before
    insert_before-IsSorted xs child zero s h front back =
        (All-of_get_elem? _ xs (λ i a e. back i a (omega arith) e), s)
    insert_before-IsSorted [] child (suc p) s h front back = absurd (omega arith)
    insert_before-IsSorted (x ∷ xs) child (suc p) (l, s) h front back = (
      All-insert_before (λ y. cmp x y ≢ Ordering.gt) xs child p l
          (laws.total child x (front 0 x (omega arith) refl)),
      insert_before-IsSorted xs child p s (omega arith) (λ i a g e. front (suc i) a (omega arith) e)
          (λ i a g e. back (suc i) a (omega arith) e),
    )

-- addChildSorted adds a child to sorted children, under an order that is a total preorder: the
-- search ends, and the children with the new one at the place that it finds are sorted.
pub add_child-IsSorted :
    {A : Type 0} (cmp : A → A → Ordering) (nodes : List A) (child : A)
    → IsPreorder cmp
    → IsSorted cmp nodes
    → (p : ℕ) × (p ≤ length nodes)
      × (add_child cmp nodes child ≡ some (insert_before p child nodes))
      × IsSorted cmp (insert_before p child nodes)
add_child-IsSorted cmp nodes child laws s =
    let (p, found, splits) =
      find_insert_index-Splits (λ m. not_greater (cmp child m)) nodes (suc (length nodes)) 0
        (length nodes) (not_greater-IsMonotone cmp laws nodes child s) (omega arith) (omega arith)
        (omega arith) in
    (
      p,
      splits.high,
      unfold add_child in ap (λ r. insert_at r child nodes) found,
      insert_before-IsSorted cmp laws nodes child p s splits.high
          (λ i a h e. greater_of_not _ (splits.front i a (omega arith) h e))
          (λ i a h e. (not_greater_iff _).0 (splits.back i a h (get_elem?-lt nodes i a e) e)),
    )
