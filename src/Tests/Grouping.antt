-- ===== src/Tests/Grouping.antt =====
-- Grouping in the resource tree: runs, and the theorems at an input.
use pve_manager_electrified.Prelude.{ℕ, ◌≡◌, refl, true, Option, none, some, [], ◌∷◌, arith}
use pve_manager_electrified.Text.{codes}
use pve_manager_electrified.Tree.{Options, compare_text}
use pve_manager_electrified.Tree.Comparisons.{compare_text-IsOrder}
use pve_manager_electrified.Tree.Grouping.{
  Info, Branch, branch, nil, TreeState, Settings, FindChild, group_child, pool_info,
}
use pve_manager_electrified.Tree.Grouping.Sorted.{group_child-IsSortedTree}
use pve_manager_electrified.Tree.Grouping.Inserting.{IsSortedTree}
use pve_manager_electrified.Tree.Grouping.Ending.{group_child_ends}

-- Nothing is found, so that every node is made.
abbrev finds_nothing : FindChild
finds_nothing test node root = none

abbrev nested : Settings
nested = record { nest_pools = true; group_renderer = none; type_text = λ v. none }

abbrev empty_tree : TreeState
empty_tree = record { root = branch 0 (pool_info []) nil; next = 1 }

abbrev defaults : Options
defaults = record { group_guest_types = true; group_templates = true; by_vmid = true }

abbrev subpool : Info
subpool = pool_info (codes "a/b")

group_child_ends_example :
    (u : TreeState) × (ref : ℕ) × (group_child compare_text defaults finds_nothing nested 4
        (codes "pool" ∷ [])
        empty_tree
        0
        subpool
      ≡ some (u, ref))
unfolding pve_manager_electrified.Object.lookup
group_child_ends_example =
    group_child_ends compare_text defaults finds_nothing nested 4 (codes "pool" ∷ []) empty_tree 0
      subpool (unfold pool_info in omega arith)

empty-IsSortedTree : IsSortedTree compare_text defaults empty_tree.root
unfolding IsSortedTree pve_manager_electrified.Tree.Grouping.to_list
empty-IsSortedTree = (tt, tt)

abbrev tree_or : Option (TreeState × ℕ) → TreeState → TreeState
tree_or none t = t
tree_or (some (u, ref)) t = u

abbrev grown : TreeState
grown =
    tree_or
      (group_child compare_text defaults finds_nothing nested 4 (codes "pool" ∷ []) empty_tree 0
        subpool)
      empty_tree

grown_lem :
    group_child compare_text defaults finds_nothing nested 4
      (codes "pool" ∷ [])
      empty_tree
      0
      subpool
    ≡ some (grown, 2)
unfolding group_child
grown_lem = refl

group_child-IsSortedTree_example : IsSortedTree compare_text defaults grown.root
group_child-IsSortedTree_example =
    group_child-IsSortedTree compare_text defaults finds_nothing nested 4 (codes "pool" ∷ [])
      empty_tree 0 subpool grown 2 compare_text-IsOrder empty-IsSortedTree grown_lem
