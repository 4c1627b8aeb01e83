-- ===== src/Snapshots/Preorder.antt =====
-- The compact view shows the same snapshots in the same order, and is never deeper.
use Prim.Native.Nat.{max}
use pve_manager_electrified.Prelude.{
  ℕ, suc, ◌≤◌, ◌≡◌, refl, sym, ap, ◌∙◌, List, [], ◌∷◌, ◌++◌, append_assoc, append-nil, arith,
}
use pve_manager_electrified.Text.{Text}
use pve_manager_electrified.Snapshots.{
  Item, Node, Nodes, node, nil, cons, append, mark_child, compacted, compact_children, compact_each,
  compact_node,
}

mutual
  -- The names of a node and of all below it, from above, as the view shows them.
  pub names : Nodes → List Text
  names nil = []
  names (cons n ns) = node_names n ++ names ns

  pub node_names : Node → List Text
  node_names (node item cs) = item.name ∷ names cs

mutual
  pub depth : Nodes → ℕ
  depth nil = 0
  depth (cons n ns) = max (node_depth n) (depth ns)

  pub node_depth : Node → ℕ
  node_depth (node item cs) = suc (depth cs)

names-append : (ns ms : Nodes) → names (append ns ms) ≡ names ns ++ names ms
unfolding append names
names-append nil ms = refl
names-append (cons n ns) ms =
    ap (λ ls. node_names n ++ ls) (names-append ns ms)
    ∙ sym (append_assoc (node_names n) (names ns) (names ms))

mutual
  unfolding compacted compact_children compact_each compact_node names node_names

  names-compacted : (item : Item) (cs : Nodes) → names (compacted item cs) ≡ item.name ∷ names cs
  names-compacted item nil = refl
  names-compacted item (cons (node child cs) nil) =
      simp (names-compacted (mark_child child) cs, append-nil)
  names-compacted item (cons (node child cs) (cons m ns)) =
      simp (names-compact_children cs, node_names-compact_node m, names-compact_each ns, append-nil)

  names-compact_children : (ns : Nodes) → names (compact_children ns) ≡ names ns
  names-compact_children nil = refl
  names-compact_children (cons (node child cs) ns) =
      names-append (compacted child cs) (compact_children ns)
      ∙ simp (names-compacted child cs, names-compact_children ns)

  names-compact_each : (ns : Nodes) → names (compact_each ns) ≡ names ns
  names-compact_each nil = refl
  names-compact_each (cons n ns) = simp (node_names-compact_node n, names-compact_each ns)

  node_names-compact_node : (n : Node) → node_names (compact_node n) ≡ node_names n
  node_names-compact_node (node item cs) = ap (◌∷◌ item.name) (names-compact_children cs)

depth-append : (ns ms : Nodes) → depth (append ns ms) ≡ max (depth ns) (depth ms)
unfolding append depth
depth-append nil ms = omega arith
depth-append (cons n ns) ms = omega (arith, depth-append ns ms)

mutual
  unfolding compacted compact_children compact_each compact_node depth node_depth

  depth-compacted : (item : Item) (cs : Nodes) → depth (compacted item cs) ≤ suc (depth cs)
  depth-compacted item nil = omega arith
  depth-compacted item (cons (node child cs) nil) =
      omega (arith, depth-compacted (mark_child child) cs)
  depth-compacted item (cons (node child cs) (cons m ns)) =
      omega (arith, depth-compact_children cs, node_depth-compact_node m, depth-compact_each ns)

  depth-compact_children : (ns : Nodes) → depth (compact_children ns) ≤ depth ns
  depth-compact_children nil = omega arith
  depth-compact_children (cons (node child cs) ns) = omega (
    arith,
    depth-append (compacted child cs) (compact_children ns),
    depth-compacted child cs,
    depth-compact_children ns,
  )

  depth-compact_each : (ns : Nodes) → depth (compact_each ns) ≤ depth ns
  depth-compact_each nil = omega arith
  depth-compact_each (cons n ns) = omega (arith, node_depth-compact_node n, depth-compact_each ns)

  node_depth-compact_node : (n : Node) → node_depth (compact_node n) ≤ node_depth n
  node_depth-compact_node (node item cs) = omega (arith, depth-compact_children cs)

-- compactNode keeps the names of the snapshots below a node, in the order in which the view shows
-- them, and never makes the tree deeper.
pub compact_node_lem :
    (root : Node)
    → (node_names (compact_node root) ≡ node_names root)
      × (node_depth (compact_node root) ≤ node_depth root)
compact_node_lem root = (node_names-compact_node root, node_depth-compact_node root)
