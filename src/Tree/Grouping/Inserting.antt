-- ===== src/Tree/Grouping/Inserting.antt =====
-- A child more for one node keeps the children of every node of the tree sorted.
use Prim.Native.Nat.{Ordering}
use mathlib.Core.Path.{subst}
use pve_manager_electrified.Prelude.{
  ℕ, ◌≡◌, ◌≢◌, refl, sym, ap, Bool, true, false, List, [], ◌∷◌, All, ◌==◌, if◌then◌else◌,
}
use pve_manager_electrified.Tree.{Node, Locale, Options, node_sort_fn, insert_before}
use pve_manager_electrified.Tree.Insert.{
  IsPreorder, IsSorted, All-insert_before, add_child-IsSorted,
}
use pve_manager_electrified.Tree.Comparisons.{IsOrder}
use pve_manager_electrified.Tree.Order.{node_sort_fn-IsPreorder}
use pve_manager_electrified.Tree.Grouping.{
  Info, Branch, Branches, branch, nil, cons, to_list, of_list, sort_key, compare_branches,
  insert_child, insert_below, insert_in,
}

module _ (locale_compare : Locale) (me : Options) where
  abbrev cmp : Branch → Branch → Ordering
  cmp = compare_branches locale_compare me

  -- The children of every node are sorted.
  unfoldable mutual
    pub EachSorted : Branches → Type 0
    EachSorted nil = Unit
    EachSorted (cons b bs) = IsSortedTree b × EachSorted bs

    pub IsSortedTree : Branch → Type 0
    IsSortedTree (branch n info bs) =
        IsSorted (compare_branches locale_compare me) (to_list bs) × EachSorted bs

  to_list-of_list : (bs : List Branch) → to_list (of_list bs) ≡ bs
  unfolding to_list of_list
  to_list-of_list [] = refl
  to_list-of_list (b ∷ bs) = ap (◌∷◌ b) (to_list-of_list bs)

  EachSorted-All : (bs : Branches) → EachSorted bs → All IsSortedTree (to_list bs)
  unfolding EachSorted to_list
  EachSorted-All nil h = tt
  EachSorted-All (cons b bs) (p, h) = (p, EachSorted-All bs h)

  of_list-EachSorted : (bs : List Branch) → All IsSortedTree bs → EachSorted (of_list bs)
  unfolding EachSorted of_list
  of_list-EachSorted [] h = tt
  of_list-EachSorted (b ∷ bs) (p, h) = (p, of_list-EachSorted bs h)

  preorder : IsOrder locale_compare → IsPreorder cmp
  preorder locale =
      let laws = node_sort_fn-IsPreorder locale_compare me locale in
      record {
        total = λ a b. laws.total (sort_key a) (sort_key b);
        transitive = λ a b c. laws.transitive (sort_key a) (sort_key b) (sort_key c);
      }

  insert_child-IsSorted :
      (bs : Branches) (child : Branch)
      → IsOrder locale_compare
      → IsSorted cmp (to_list bs)
      → EachSorted bs
      → IsSortedTree child
      → IsSorted cmp (to_list (insert_child locale_compare me bs child))
        × EachSorted (insert_child locale_compare me bs child)
  unfolding insert_child
  insert_child-IsSorted bs child locale s e c =
      let (p, bound, added, sorted) =
        add_child-IsSorted cmp (to_list bs) child (preorder locale) s in
      rw (added, to_list-of_list (insert_before p child (to_list bs)))
        (
          sorted,
          of_list-EachSorted _
              (All-insert_before cmp IsSortedTree (to_list bs) child p (EachSorted-All bs e) c),
        )

  sort_key-insert_below :
      (ref : ℕ) (child b : Branch)
      → sort_key (insert_below locale_compare me ref child b) ≡ sort_key b
  unfolding insert_below
  sort_key-insert_below ref child (branch n info bs) = refl

  All-insert_in :
      (P : Node → Type 0) (ref : ℕ) (child : Branch) (bs : Branches)
      → All (λ b. P (sort_key b)) (to_list bs)
      → All (λ b. P (sort_key b)) (to_list (insert_in locale_compare me ref child bs))
  unfolding insert_in to_list
  All-insert_in P ref child nil h = tt
  All-insert_in P ref child (cons b bs) (p, h) =
      (subst P (sym (sort_key-insert_below ref child b)) p, All-insert_in P ref child bs h)

  insert_in-IsSorted :
      (ref : ℕ) (child : Branch) (bs : Branches)
      → IsSorted cmp (to_list bs)
      → IsSorted cmp (to_list (insert_in locale_compare me ref child bs))
  unfolding insert_in to_list
  insert_in-IsSorted ref child nil h = tt
  insert_in-IsSorted ref child (cons b bs) (p, h) = (
    subst
        (λ (k : Node).
          All (λ c. node_sort_fn locale_compare me k (sort_key c) ≢ Ordering.gt)
            (to_list (insert_in locale_compare me ref child bs)))
        (sym (sort_key-insert_below ref child b))
        (All-insert_in (λ k. node_sort_fn locale_compare me (sort_key b) k ≢ Ordering.gt) ref child
          bs p),
    insert_in-IsSorted ref child bs h,
  )

  below-IsSortedTree :
      (b : Bool) (n : ℕ) (info : Info) (xs ys : Branches)
      → IsSorted cmp (to_list xs) × EachSorted xs
      → IsSorted cmp (to_list ys) × EachSorted ys
      → IsSortedTree (branch n info (if b then xs else ys))
  unfolding IsSortedTree
  below-IsSortedTree true n info xs ys h g = h
  below-IsSortedTree false n info xs ys h g = g

  mutual
    unfolding insert_below insert_in EachSorted IsSortedTree

    pub insert_below-IsSortedTree :
        (ref : ℕ) (child b : Branch)
        → IsOrder locale_compare
        → IsSortedTree child
        → IsSortedTree b
        → IsSortedTree (insert_below locale_compare me ref child b)
    insert_below-IsSortedTree ref child (branch n info bs) locale c (s, e) =
        below-IsSortedTree (n == ref) n info _ _ (insert_child-IsSorted bs child locale s e c)
          (insert_in-IsSorted ref child bs s, insert_in-EachSorted ref child bs locale c e)

    insert_in-EachSorted :
        (ref : ℕ) (child : Branch) (bs : Branches)
        → IsOrder locale_compare
        → IsSortedTree child
        → EachSorted bs
        → EachSorted (insert_in locale_compare me ref child bs)
    insert_in-EachSorted ref child nil locale c h = tt
    insert_in-EachSorted ref child (cons b bs) locale c (p, h) = (
      insert_below-IsSortedTree ref child b locale c p,
      insert_in-EachSorted ref child bs locale c h,
    )
