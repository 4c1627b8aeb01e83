-- ===== src/Snapshots/Ordered.antt =====
-- After compactTree, the children of each node are in the order of the field `order`.
use Prim.Native.Nat.{compare, Ordering}
use mathlib.Core.Path.{subst}
use pve_manager_electrified.Prelude.{ℕ, ◌≡◌, ◌≢◌, refl, sym, ap, List, [], ◌∷◌, All, arith}
use pve_manager_electrified.Text.{Text}
use pve_manager_electrified.Utils.Decimal.{show}
use pve_manager_electrified.Utils.Controllers.{sort_by}
use pve_manager_electrified.Utils.Controllers.Sorting.{All-sort_by}
use pve_manager_electrified.Utils.Controllers.Ordered.{sort_by-IsSorted}
use pve_manager_electrified.Tree.Insert.{IsSorted}
use pve_manager_electrified.Tree.Comparisons.{IsOrder, IsOrder-IsPreorder, compare-IsOrder}
use pve_manager_electrified.Snapshots.{
  Item, Order, number, word, order_of, item_of, Node, Nodes, node, nil, cons, append, to_list,
  of_list, compare_order, compare_nodes, fix_children, fix_child, fix_tree, mark_child, compacted,
  compact_children, compact_each, compact_node, compact_tree,
}

module _ (locale_compare : Text → Text → Ordering) where
  -- A time, or a word that comes behind every number.
  abbrev pub IsBehindNumbers : Order → Type 0
  IsBehindNumbers (number n) = Unit
  IsBehindNumbers (word w) = (n : ℕ) → locale_compare (show n) w ≡ Ordering.lt

  abbrev pub HasFineOrder : Item → Type 0
  HasFineOrder item = IsBehindNumbers (order_of item)

  unfoldable mutual
    pub EachFine : Nodes → Type 0
    EachFine nil = Unit
    EachFine (cons n ns) = IsFineTree n × EachFine ns

    -- Every item of the tree has a fine order.
    pub IsFineTree : Node → Type 0
    IsFineTree (node item cs) = HasFineOrder item × EachFine cs

  unfoldable mutual
    pub EachOrdered : Nodes → Type 0
    EachOrdered nil = Unit
    EachOrdered (cons n ns) = IsOrderedTree n × EachOrdered ns

    -- The children of every node are sorted.
    pub IsOrderedTree : Node → Type 0
    IsOrderedTree (node item cs) =
        IsSorted (compare_nodes locale_compare) (to_list cs) × EachOrdered cs

  module _ (locale : IsOrder locale_compare) where
    compare_order-total :
        (a b : Order)
        → IsBehindNumbers a
        → IsBehindNumbers b
        → compare_order locale_compare a b ≡ Ordering.gt
        → compare_order locale_compare b a ≢ Ordering.gt
    unfolding compare_order
    compare_order-total (number m) (number n) p q =
        (IsOrder-IsPreorder compare compare-IsOrder).total m n
    compare_order-total (number m) (word t) p q = λ e f. let l = q m in cc
    compare_order-total (word s) (number n) p q = λ e f. let l = p n in cc
    compare_order-total (word s) (word t) p q = (IsOrder-IsPreorder locale_compare locale).total s t

    behind-gt :
        (w : Text) (n : ℕ) → IsBehindNumbers (word w) → locale_compare w (show n) ≡ Ordering.gt
    behind-gt w n p = let t = locale.turn (show n) w in let l = p n in ground (arith, t, l)

    compare_order-transitive :
        (a b c : Order)
        → IsBehindNumbers a
        → IsBehindNumbers b
        → IsBehindNumbers c
        → compare_order locale_compare a b ≢ Ordering.gt
        → compare_order locale_compare b c ≢ Ordering.gt
        → compare_order locale_compare a c ≢ Ordering.gt
    unfolding compare_order
    compare_order-transitive (number l) (number m) (number n) p q r =
        (IsOrder-IsPreorder compare compare-IsOrder).transitive l m n
    compare_order-transitive (number l) b (word u) p q r = λ e f g. let t = r l in cc
    compare_order-transitive (number l) (word t) (number n) p q r =
        λ e f. absurd (f (behind-gt t n q))
    compare_order-transitive (word s) (number m) c p q r = λ e f. absurd (e (behind-gt s m p))
    compare_order-transitive (word s) (word t) (number n) p q r =
        λ e f. absurd (f (behind-gt t n q))
    compare_order-transitive (word s) (word t) (word u) p q r =
        (IsOrder-IsPreorder locale_compare locale).transitive s t u

  append-EachFine : (ns ms : Nodes) → EachFine ns → EachFine ms → EachFine (append ns ms)
  unfolding append EachFine
  append-EachFine nil ms h g = g
  append-EachFine (cons n ns) ms (p, h) g = (p, append-EachFine ns ms h g)

  mutual
    unfolding compacted compact_children compact_each compact_node EachFine IsFineTree order_of

    compacted-EachFine :
        (item : Item) (cs : Nodes) → HasFineOrder item → EachFine cs → EachFine (compacted item cs)
    compacted-EachFine item nil p h = ((p, tt), tt)
    compacted-EachFine item (cons (node child cs) nil) p ((q, h), _) =
        ((p, tt), compacted-EachFine (mark_child child) cs q h)
    compacted-EachFine item (cons (node child cs) (cons m ns)) p ((q, h), (pm, hs)) = (
      (
        p,
        (
          (q, compact_children-EachFine cs h),
          (compact_node-IsFineTree m pm, compact_each-EachFine ns hs),
        ),
      ),
      tt,
    )

    compact_children-EachFine : (ns : Nodes) → EachFine ns → EachFine (compact_children ns)
    compact_children-EachFine nil h = tt
    compact_children-EachFine (cons (node child cs) ns) ((q, h), hs) =
        append-EachFine _ _ (compacted-EachFine child cs q h) (compact_children-EachFine ns hs)

    compact_each-EachFine : (ns : Nodes) → EachFine ns → EachFine (compact_each ns)
    compact_each-EachFine nil h = tt
    compact_each-EachFine (cons n ns) (p, h) =
        (compact_node-IsFineTree n p, compact_each-EachFine ns h)

    compact_node-IsFineTree : (n : Node) → IsFineTree n → IsFineTree (compact_node n)
    compact_node-IsFineTree (node item cs) (p, h) = (p, compact_children-EachFine cs h)

  EachOrdered-All : (ns : Nodes) → EachOrdered ns → All IsOrderedTree (to_list ns)
  unfolding EachOrdered to_list
  EachOrdered-All nil h = tt
  EachOrdered-All (cons n ns) (p, h) = (p, EachOrdered-All ns h)

  of_list-EachOrdered : (ns : List Node) → All IsOrderedTree ns → EachOrdered (of_list ns)
  unfolding EachOrdered of_list
  of_list-EachOrdered [] h = tt
  of_list-EachOrdered (n ∷ ns) (p, h) = (p, of_list-EachOrdered ns h)

  to_list-of_list : (ns : List Node) → to_list (of_list ns) ≡ ns
  unfolding to_list of_list
  to_list-of_list [] = refl
  to_list-of_list (n ∷ ns) = ap (◌∷◌ n) (to_list-of_list ns)

  module _ (locale : IsOrder locale_compare) where
    sort-EachOrdered :
        (ns : Nodes)
        → All (λ n. HasFineOrder (item_of n)) (to_list ns)
        → EachOrdered ns
        → IsSorted
            (compare_nodes locale_compare)
            (to_list (of_list (sort_by (compare_nodes locale_compare) (to_list ns))))
          × EachOrdered (of_list (sort_by (compare_nodes locale_compare) (to_list ns)))
    sort-EachOrdered ns fine h = (
      subst (IsSorted (compare_nodes locale_compare)) (sym (to_list-of_list _)) (
          sort_by-IsSorted (compare_nodes locale_compare) (λ n. HasFineOrder (item_of n))
            (λ a b. compare_order-total locale (order_of (item_of a)) (order_of (item_of b)))
            (λ a b c.
              compare_order-transitive locale (order_of (item_of a)) (order_of (item_of b))
                (order_of (item_of c)))
            (to_list ns) fine),
      of_list-EachOrdered _ (
          All-sort_by (compare_nodes locale_compare) IsOrderedTree (to_list ns)
            (EachOrdered-All ns h)),
    )

    fix_children-fine :
        (name : Text) (ns : Nodes)
        → EachFine ns
        → All (λ n. HasFineOrder (item_of n)) (to_list (fix_children locale_compare name ns))
    unfolding fix_children fix_child to_list order_of EachFine IsFineTree
    fix_children-fine name nil h = tt
    fix_children-fine name (cons (node item cs) ns) ((p, _), h) = (p, fix_children-fine name ns h)

    mutual
      unfolding fix_children fix_child EachFine IsFineTree EachOrdered IsOrderedTree

      fix_children-EachOrdered :
          (name : Text) (ns : Nodes)
          → EachFine ns
          → EachOrdered (fix_children locale_compare name ns)
      fix_children-EachOrdered name nil h = tt
      fix_children-EachOrdered name (cons n ns) (p, h) =
          (fix_child-IsOrderedTree name n p, fix_children-EachOrdered name ns h)

      fix_child-IsOrderedTree :
          (name : Text) (n : Node) → IsFineTree n → IsOrderedTree (fix_child locale_compare name n)
      fix_child-IsOrderedTree name (node item cs) (p, h) =
          sort-EachOrdered (fix_children locale_compare item.name cs)
            (fix_children-fine item.name cs h) (fix_children-EachOrdered item.name cs h)

-- In the tree that compactTree returns, the children of every node are in the order of their field
-- `order`, if texts are compared by a total and transitive order, and each word among the fields
-- `order` comes behind every number.
pub compact_tree-IsOrderedTree :
    (locale_compare : Text → Text → Ordering) (root : Node)
    → IsOrder locale_compare
    → IsFineTree locale_compare root
    → IsOrderedTree locale_compare (compact_tree locale_compare root)
unfolding compact_tree fix_tree compact_node IsOrderedTree IsFineTree
compact_tree-IsOrderedTree locale_compare (node item cs) locale (p, h) =
    let fine = compact_children-EachFine locale_compare cs h in
    sort-EachOrdered locale_compare locale
      (fix_children locale_compare item.name (compact_children cs))
      (fix_children-fine locale_compare locale item.name (compact_children cs) fine)
      (fix_children-EachOrdered locale_compare locale item.name (compact_children cs) fine)
