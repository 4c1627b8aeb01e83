-- ===== src/Snapshots/Fixing.antt =====
-- After compactTree, each node of the tree names the node above it as its parent.
use Prim.Native.Nat.{Ordering}
use pve_manager_electrified.Prelude.{◌≡◌, refl, some, List, [], ◌∷◌, All}
use pve_manager_electrified.Text.{Text}
use pve_manager_electrified.Utils.Controllers.{sort_by}
use pve_manager_electrified.Utils.Controllers.Sorting.{All-sort_by}
use pve_manager_electrified.Snapshots.{
  Node, Nodes, node, nil, cons, to_list, of_list, compare_nodes, fix_children, fix_child, fix_tree,
  compact_node, compact_tree, compact_children,
}

-- Every node below carries the name of the node above it.
unfoldable mutual
  pub HasParents : Text → Nodes → Type 0
  HasParents name nil = Unit
  HasParents name (cons n ns) = HasParent name n × HasParents name ns

  pub HasParent : Text → Node → Type 0
  HasParent name (node item cs) = (item.parent ≡ some name) × HasParents item.name cs

pub IsLinkedTree : Node → Type 0
unfolding HasParents
IsLinkedTree (node item cs) = HasParents item.name cs

to_list-All : (name : Text) (ns : Nodes) → HasParents name ns → All (HasParent name) (to_list ns)
unfolding to_list HasParents
to_list-All name nil h = tt
to_list-All name (cons n ns) (p, h) = (p, to_list-All name ns h)

of_list-HasParents :
    (name : Text) (ns : List Node) → All (HasParent name) ns → HasParents name (of_list ns)
unfolding of_list HasParents
of_list-HasParents name [] h = tt
of_list-HasParents name (n ∷ ns) (p, h) = (p, of_list-HasParents name ns h)

module _ (locale_compare : Text → Text → Ordering) where
  sorted-HasParents :
      (name : Text) (ns : Nodes)
      → HasParents name ns
      → HasParents name (of_list (sort_by (compare_nodes locale_compare) (to_list ns)))
  sorted-HasParents name ns h = of_list-HasParents name _ (
      All-sort_by (compare_nodes locale_compare) (HasParent name) (to_list ns)
        (to_list-All name ns h))

  mutual
    unfolding fix_children fix_child HasParents HasParent

    fix_children-HasParents :
        (name : Text) (ns : Nodes) → HasParents name (fix_children locale_compare name ns)
    fix_children-HasParents name nil = tt
    fix_children-HasParents name (cons n ns) =
        (fix_child-HasParent name n, fix_children-HasParents name ns)

    fix_child-HasParent :
        (name : Text) (n : Node) → HasParent name (fix_child locale_compare name n)
    fix_child-HasParent name (node item cs) = (
      refl,
      sorted-HasParents item.name (fix_children locale_compare item.name cs)
          (fix_children-HasParents item.name cs),
    )

-- The tree that compactTree returns is linked: each node names the node above it as its parent.
pub compact_tree-IsLinkedTree :
    (locale_compare : Text → Text → Ordering) (root : Node)
    → IsLinkedTree (compact_tree locale_compare root)
unfolding compact_tree fix_tree compact_node IsLinkedTree
compact_tree-IsLinkedTree locale_compare (node item cs) =
    sorted-HasParents locale_compare item.name _
      (fix_children-HasParents locale_compare item.name (compact_children cs))
