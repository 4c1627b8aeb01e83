-- ===== src/Snapshots.antt =====
-- www/manager6/tree/SnapshotTree.js: the tree of a guest's snapshots. The answer of the API is a list
-- of items that name their parents; `reload` links them, and `compactTree` flattens chains of only
-- children, then sorts the children of each node.
pub mod Links
pub mod Preorder
pub mod Fixing
pub mod Ordered
use Prim.Native.Nat.{compare, Ordering}
use pve_manager_electrified.Prelude.{
  ℕ, Bool, true, false, not, ◌&&◌, ◌||◌, Option, none, some, List, [], ◌∷◌, ◌++◌, if◌then◌else◌,
  ◌==◌,
}
use pve_manager_electrified.Text.{Text, codes, text_eq, text_mem, nonempty}
use pve_manager_electrified.Object.{lookup, has_own, put_own, prototype_names}
use pve_manager_electrified.Utils.Decimal.{show}
use pve_manager_electrified.Utils.Controllers.{sort_by}

-- What the tree keeps of an item; the last five fields are set by the code.
pub record Item : Type 0 where
  pub name : Text
  pub parent : Option Text
  pub snaptime : Option ℕ
  pub snapstate : Option Text
  pub leaf : Bool
  pub expanded : Bool
  pub expandable : Bool
  pub is_child_of_above : Bool
  pub is_parent_of_next : Bool

-- The `children` arrays: that of the root, and those of the items by name (`idhash`); and the names
-- of the items that were made parents.
pub record Linked : Type 0 where
  pub roots : List Item
  pub children : List (Text × List Item)
  pub opened : List Text

-- The first loop: every item gets an entry of its own, the last of a name wins.
unfoldable pub idhash_of : List Item → List (Text × List Item) → List (Text × List Item)
unfolding put_own
idhash_of [] hash = hash
idhash_of (item ∷ items) hash = idhash_of items (put_own item.name [] hash)

-- `parent_item.children.push(item)`
push_child : Text → Item → List (Text × List Item) → List (Text × List Item)
unfolding text_eq
push_child p item [] = []
push_child p item ((k, items) ∷ hash) =
    let rest = push_child p item hash in
    if text_eq p k then (k, items ++ (item ∷ [])) ∷ hash else (k, items) ∷ rest

-- An item with a parent that is there goes to the parent, any other to the root; what objects
-- inherit has no children, and throws.
place_under : Option Text → Linked → Item → Option Linked
unfolding push_child has_own text_mem
place_under none l item = some (record l { roots = l.roots ++ (item ∷ []) })
place_under (some p) l item =
    if nonempty p && has_own p l.children
    then some (record l { children = push_child p item l.children; opened = p ∷ l.opened })
    else if text_mem p prototype_names
    then none
    else some (record l { roots = l.roots ++ (item ∷ []) })

unfoldable pub place : Linked → Item → Option Linked
unfolding place_under
place l item = place_under item.parent l item

after_place : Option Linked → (Linked → Option Linked) → Option Linked
after_place none rest = none
after_place (some l) rest = rest l

unfoldable pub place_all : List Item → Linked → Option Linked
unfolding place after_place
place_all [] l = some l
place_all (item ∷ items) l = after_place (place l item) (place_all items)

-- Both loops of `reload`.
unfoldable pub link : List Item → Option Linked
unfolding idhash_of place_all
link items = place_all items (record { roots = []; children = idhash_of items []; opened = [] })

-- An item with the fields that the loops set, after them.
unfoldable pub flagged : Linked → Item → Item
unfolding text_mem
flagged l item =
    if text_mem item.name l.opened
    then record item { leaf = false; expanded = true; expandable = false }
    else record item { leaf = true }

-- The tree itself: a node has its item and its children.
mutual
  pub data Node : Type 0 where
    node : Item → Nodes → Node

  pub data Nodes : Type 0 where
    nil : Nodes
    cons : Node → Nodes → Nodes

unfoldable pub append : Nodes → Nodes → Nodes
append nil ms = ms
append (cons n ns) ms = cons n (append ns ms)

abbrev pub mark_child : Item → Item
mark_child item = record item { is_child_of_above = true }

-- A node whose only child moves behind it.
abbrev pub mark_parent : Item → Item
mark_parent item = record item {
  is_parent_of_next = true;
  leaf = true;
  expandable = false;
  expanded = false;
}

unfoldable mutual
  -- getCompactedNodeAndChildsAsList on a node with these children.
  pub compacted : Item → Nodes → Nodes
  compacted item nil = cons (node item nil) nil
  compacted item (cons (node child cs) nil) =
      cons (node (mark_parent item) nil) (compacted (mark_child child) cs)
  compacted item (cons (node child cs) (cons m ns)) =
      cons
        (node item
          (cons (node child (compact_children cs)) (cons (compact_node m) (compact_each ns))))
        nil

  -- The new children of compactNode.
  pub compact_children : Nodes → Nodes
  compact_children nil = nil
  compact_children (cons (node child cs) ns) = append (compacted child cs) (compact_children ns)

  pub compact_each : Nodes → Nodes
  compact_each nil = nil
  compact_each (cons n ns) = cons (compact_node n) (compact_each ns)

  pub compact_node : Node → Node
  compact_node (node item cs) = node item (compact_children cs)

-- The field `order`: `snaptime || (name === 'current' ? 'ZZZ' : snapstate)`, where a state that is
-- missing is written `undefined`.
pub data Order : Type 0 where
  number : ℕ → Order
  word : Text → Order

abbrev state_order : Text → Option Text → Order
state_order name none =
    if text_eq name (codes "current") then word (codes "ZZZ") else word (codes "undefined")
state_order name (some state) =
    if text_eq name (codes "current") then word (codes "ZZZ") else word state

abbrev time_order : Option ℕ → Order → Order
time_order none other = other
time_order (some t) other = if t == 0 then other else number t

unfoldable pub order_of : Item → Order
unfolding text_eq
order_of item = time_order item.snaptime (state_order item.name item.snapstate)

abbrev pub order_text : Order → Text
order_text (number n) = show n
order_text (word s) = s

abbrev pub item_of : Node → Item
item_of (node item cs) = item

unfoldable pub to_list : Nodes → List Node
to_list nil = []
to_list (cons n ns) = n ∷ to_list ns

unfoldable pub of_list : List Node → Nodes
of_list [] = nil
of_list (n ∷ ns) = cons n (of_list ns)

module _ (locale_compare : Text → Text → Ordering) where
  unfoldable pub compare_order : Order → Order → Ordering
  unfolding show
  compare_order (number m) (number n) = compare m n
  compare_order (number m) (word t) = locale_compare (show m) t
  compare_order (word s) (number n) = locale_compare s (show n)
  compare_order (word s) (word t) = locale_compare s t

  abbrev pub compare_nodes : Node → Node → Ordering
  compare_nodes a b = compare_order (order_of (item_of a)) (order_of (item_of b))

  unfoldable mutual
    -- The children of fixTree, each with its parent's name and fixed itself.
    pub fix_children : Text → Nodes → Nodes
    fix_children name nil = nil
    fix_children name (cons n ns) = cons (fix_child name n) (fix_children name ns)

    pub fix_child : Text → Node → Node
    fix_child name (node item cs) =
        node (record item { parent = some name })
          (of_list (sort_by compare_nodes (to_list (fix_children item.name cs))))

  unfoldable pub fix_tree : Node → Node
  unfolding fix_children sort_by
  fix_tree (node item cs) =
      node item (of_list (sort_by compare_nodes (to_list (fix_children item.name cs))))

  unfoldable pub compact_tree : Node → Node
  unfolding fix_tree compact_node
  compact_tree root = fix_tree (compact_node root)
