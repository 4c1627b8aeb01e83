-- ===== src/Tree/Grouping/Sorted.antt =====
-- Adding a resource keeps the children of every node of the tree sorted.
use mathlib.Core.Path.{subst}
use pve_manager_electrified.Prelude.{
  ℕ, zero, suc, ◌≡◌, Bool, true, false, Option, none, some, List, [], ◌∷◌, if◌then◌else◌,
}
use pve_manager_electrified.Text.{Text, text_eq}
use pve_manager_electrified.Tree.{Locale, Options}
use pve_manager_electrified.Tree.Comparisons.{IsOrder}
use pve_manager_electrified.Tree.Grouping.{
  Info, branch, nil, to_list, TreeState, Settings, FindChild, label, create_child, under, nest,
  of_pool, pool_above, pool_id, has_id, pool_info, add_child_sorted, find_group, of_group, and_then,
  group_value, group_child, has_group, group_node,
}
use pve_manager_electrified.Tree.Grouping.Inserting.{
  EachSorted, IsSortedTree, insert_below-IsSortedTree,
}

module _ (locale_compare : Locale) (options : Options) (find_child : FindChild) (me : Settings)
    (locale : IsOrder locale_compare) where
  -- What a call leaves behind, if it returns, is sorted.
  unfoldable KeepsSorted : Option (TreeState × ℕ) → Type 0
  KeepsSorted none = Unit
  KeepsSorted (some (t, ref)) = IsSortedTree locale_compare options t.root

  create_child-sorted :
      (t : TreeState) (node : ℕ) (info : Info)
      → IsSortedTree locale_compare options t.root
      → IsSortedTree locale_compare options
          (create_child locale_compare options find_child me t node info).0.root
  unfolding create_child IsSortedTree EachSorted to_list
  create_child-sorted t node info s =
      insert_below-IsSortedTree locale_compare options node (branch t.next (label me info) nil)
        t.root locale (tt, tt) s

  under-sorted :
      (info : Info) (made : Option (TreeState × ℕ))
      → KeepsSorted made
      → KeepsSorted (under locale_compare options find_child me info made)
  unfolding under KeepsSorted
  under-sorted info none h = tt
  under-sorted info (some (t, parent)) h = create_child-sorted t parent info h

  nest-sorted :
      (info : Info) (t : TreeState) (found : Option ℕ) (made : Option (TreeState × ℕ))
      → IsSortedTree locale_compare options t.root
      → KeepsSorted made
      → KeepsSorted (nest locale_compare options find_child me info t found made)
  unfolding nest KeepsSorted
  nest-sorted info t none made s h = under-sorted info made h
  nest-sorted info t (some parent) made s h = under-sorted info (some (t, parent)) s

  of_pool-sorted :
      (pool : Option Text) (nested : Text → Option (TreeState × ℕ)) (plain : Option (TreeState × ℕ))
      → ((p : Text) → KeepsSorted (nested p))
      → KeepsSorted plain
      → KeepsSorted (of_pool pool nested plain)
  of_pool-sorted none nested plain h g = g
  of_pool-sorted (some p) nested plain h g = h p

  add_child_sorted-sorted :
      (fuel : ℕ) (t : TreeState) (node : ℕ) (info : Info) (insert_pool : Bool)
      → IsSortedTree locale_compare options t.root
      → KeepsSorted
          (add_child_sorted locale_compare options find_child me fuel t node info insert_pool)
  unfolding add_child_sorted KeepsSorted
  add_child_sorted-sorted zero t node info insert_pool s = tt
  add_child_sorted-sorted (suc fuel) t node info insert_pool s =
      of_pool-sorted (pool_above me insert_pool info) _ _
        (λ p.
          nest-sorted info t (find_child (has_id (pool_id p)) node t.root) _ s
            (add_child_sorted-sorted fuel t node (pool_info p) false s))
        (create_child-sorted t node info s)

  find_group-sorted :
      (fuel : ℕ) (group v : Text) (info : Info) (t : TreeState) (node : ℕ)
      → IsSortedTree locale_compare options t.root
      → KeepsSorted (find_group locale_compare options find_child me fuel group v info t node)
  unfolding find_group KeepsSorted
  find_group-sorted fuel group v info t node s =
      elim (find_child (has_group v) node t.root)
        as (λ r. KeepsSorted (elim r [
          | some found ↦ some (t, found)
          | none ↦
              add_child_sorted locale_compare options find_child me fuel t node
                (group_node group v info) false
        ])) [
          | some found ↦ s
          | none ↦ add_child_sorted-sorted fuel t node (group_node group v info) false s
        ]

  of_group-sorted :
      (v : Option Text) (grouped : Text → Option (TreeState × ℕ)) (plain : Option (TreeState × ℕ))
      → ((w : Text) → KeepsSorted (grouped w))
      → KeepsSorted plain
      → KeepsSorted (of_group v grouped plain)
  of_group-sorted none grouped plain h g = g
  of_group-sorted (some v) grouped plain h g = h v

  and_then-sorted :
      (made : Option (TreeState × ℕ)) (rest : TreeState → ℕ → Option (TreeState × ℕ))
      → KeepsSorted made
      → ((t : TreeState) (node : ℕ)
          → IsSortedTree locale_compare options t.root
          → KeepsSorted (rest t node))
      → KeepsSorted (and_then made rest)
  unfolding KeepsSorted
  and_then-sorted none rest h g = tt
  and_then-sorted (some (t, node)) rest h g = g t node h

  either-sorted :
      (b : Bool) (x y : Option (TreeState × ℕ))
      → KeepsSorted x
      → KeepsSorted y
      → KeepsSorted (if b then x else y)
  either-sorted true x y h g = h
  either-sorted false x y h g = g

  group_child-sorted :
      (fuel : ℕ) (groups : List Text) (t : TreeState) (node : ℕ) (info : Info)
      → IsSortedTree locale_compare options t.root
      → KeepsSorted (group_child locale_compare options find_child me fuel groups t node info)
  unfolding group_child
  group_child-sorted fuel [] t node info s = add_child_sorted-sorted fuel t node info false s
  group_child-sorted fuel (group ∷ groups) t node info s =
      of_group-sorted (group_value group info) _ _
        (λ v.
          and_then-sorted (find_group locale_compare options find_child me fuel group v info t node)
            _ (find_group-sorted fuel group v info t node s)
            (λ u found h.
              either-sorted (text_eq info.sorted_by.kind group) (some (u, found)) _
                (unfold KeepsSorted in h) (group_child-sorted fuel groups u found info h)))
        (add_child_sorted-sorted fuel t node info false s)

-- groupChild keeps the tree sorted, under an order of texts that is total and transitive: when it
-- returns, whatever nodes it made, for groups and for the pools above, the children of every node
-- are in the order of nodeSortFn if they were.
pub group_child-IsSortedTree :
    (locale_compare : Locale) (options : Options) (find_child : FindChild) (me : Settings)
    (fuel : ℕ) (groups : List Text) (t : TreeState) (node : ℕ) (info : Info) (u : TreeState)
    (ref : ℕ)
    → IsOrder locale_compare
    → IsSortedTree locale_compare options t.root
    → group_child locale_compare options find_child me fuel groups t node info ≡ some (u, ref)
    → IsSortedTree locale_compare options u.root
unfolding KeepsSorted
group_child-IsSortedTree locale_compare options find_child me fuel groups t node info u ref locale s
      e =
    subst (KeepsSorted locale_compare options find_child me locale) e
      (group_child-sorted locale_compare options find_child me locale fuel groups t node info s)
