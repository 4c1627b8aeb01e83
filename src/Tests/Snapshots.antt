-- ===== src/Tests/Snapshots.antt =====
-- The snapshot tree: runs, and the theorems at an input.
use Prim.Native.Nat.{Ordering}
use pve_manager_electrified.Prelude.{
  ℕ, ◌≤◌, ◌<◌, arith, ◌≡◌, refl, true, false, Option, none, some, List, [], ◌∷◌, All,
}
use pve_manager_electrified.Text.{Text, codes, text_mem}
use pve_manager_electrified.Object.{lookup}
use pve_manager_electrified.Tree.{compare_text}
use pve_manager_electrified.Snapshots.{
  Item, Linked, Node, order_of, node, nil, cons, link, compact_node, compact_tree,
}
use pve_manager_electrified.Snapshots.Links.{
  HasFineParent, keep, is_child_of, is_named, is_orphan, link_lem,
}
use pve_manager_electrified.Snapshots.Preorder.{node_names, node_depth, compact_node_lem}
use pve_manager_electrified.Tree.Comparisons.{compare_text-IsOrder}
use pve_manager_electrified.Text.{is_digit, is_digits, text_eq}
use pve_manager_electrified.Utils.Decimal.{show, is_digits-show}
use pve_manager_electrified.Snapshots.Ordered.{
  IsFineTree, IsOrderedTree, compact_tree-IsOrderedTree,
}
use pve_manager_electrified.Snapshots.Fixing.{IsLinkedTree, compact_tree-IsLinkedTree}

-- A snapshot of a name, a parent and a time.
abbrev snapshot : Text → Option Text → Option ℕ → Item
snapshot name parent snaptime = record {
  name = name;
  parent = parent;
  snaptime = snaptime;
  snapstate = none;
  leaf = false;
  expanded = true;
  expandable = true;
  is_child_of_above = false;
  is_parent_of_next = false;
}

abbrev answer : List Item
answer =
    snapshot (codes "b") (some (codes "a")) (some 2)
    ∷ snapshot (codes "a") none (some 1)
    ∷ snapshot (codes "current") (some (codes "b")) none
    ∷ snapshot (codes "c") (some (codes "gone")) (some 3)
    ∷ []

answer_fine : All HasFineParent answer
unfolding text_mem
answer_fine = (refl, (tt, (refl, (refl, tt))))

link_lem_example :
    (l : Linked) × (link answer ≡ some l)
    × ((p : Text)
        → is_named p answer ≡ true
        → lookup p l.children ≡ some (keep (is_child_of p) answer))
    × (l.roots ≡ keep (is_orphan (λ p. is_named p answer)) answer)
link_lem_example = link_lem answer answer_fine

-- A chain of three snapshots below the root.
abbrev chain : Node
chain = node (snapshot [] none none) (
    cons
      (node (snapshot (codes "a") none (some 1)) (
        cons
          (node (snapshot (codes "b") (some (codes "a")) (some 2))
            (cons (node (snapshot (codes "current") (some (codes "b")) none) nil) nil))
          nil))
      nil)

compact_node_lem_example :
    (node_names (compact_node chain) ≡ node_names chain)
    × (node_depth (compact_node chain) ≤ node_depth chain)
compact_node_lem_example = compact_node_lem chain

compact_tree-IsLinkedTree_example : IsLinkedTree (compact_tree compare_text chain)
compact_tree-IsLinkedTree_example = compact_tree-IsLinkedTree compare_text chain

-- Digits come before letters.
digits_lt :
    (s : Text) (c : ℕ) (w : Text)
    → is_digits s ≡ true
    → b'9' < c
    → compare_text s (c ∷ w) ≡ Ordering.lt
unfolding is_digits is_digit compare_text
digits_lt [] c w h l = cc
digits_lt (d ∷ s) c w h l = ground (arith, h)

chain-IsFineTree : IsFineTree compare_text chain
unfolding IsFineTree order_of text_eq
chain-IsFineTree = (
  (λ n. digits_lt (show n) _ _ (is_digits-show n) (omega arith)),
  (
    (tt, ((tt, (((λ n. digits_lt (show n) _ _ (is_digits-show n) (omega arith)), tt), tt)), tt)),
    tt,
  ),
)

compact_tree-IsOrderedTree_example : IsOrderedTree compare_text (compact_tree compare_text chain)
compact_tree-IsOrderedTree_example =
    compact_tree-IsOrderedTree compare_text chain compare_text-IsOrder chain-IsFineTree
