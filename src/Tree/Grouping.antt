-- ===== src/Tree/Grouping.antt =====
-- addChildSorted and groupChild of www/manager6/tree/ResourceTree.js on the whole tree. Nodes have a
-- number by which the code's references are told apart. `findChild` is Ext's, a parameter, and so are
-- the texts of groups.
pub mod Ending
pub mod Inserting
pub mod Sorted
use Prim.Native.Nat.{Ordering}
use pve_manager_electrified.Prelude.{
  ℕ, zero, suc, Bool, true, false, not, ◌&&◌, ◌||◌, Option, none, some, List, [], ◌∷◌, ◌++◌, ◌==◌,
  if◌then◌else◌, ◌>>=◌,
}
use pve_manager_electrified.Text.{Text, codes, text_eq, split, join, nonempty}
use pve_manager_electrified.Object.{lookup}
use pve_manager_electrified.Tree.{Node, add_child, Locale, Options, node_sort_fn}

-- The data of a node: what the order reads, the group that it stands for, its texts by name
-- (`info[groupBy]`), and its label.
pub record Info : Type 0 where
  pub sorted_by : Node
  pub groupbyid : Option Text
  pub attributes : List (Text × Text)
  pub text : Option Text

mutual
  pub data Branch : Type 0 where
    branch : ℕ → Info → Branches → Branch

  pub data Branches : Type 0 where
    nil : Branches
    cons : Branch → Branches → Branches

unfoldable pub to_list : Branches → List Branch
to_list nil = []
to_list (cons b bs) = b ∷ to_list bs

unfoldable pub of_list : List Branch → Branches
of_list [] = nil
of_list (b ∷ bs) = cons b (of_list bs)

abbrev pub info_of : Branch → Info
info_of (branch ref info bs) = info

abbrev pub is_truthy : Option Text → Bool
is_truthy none = false
is_truthy (some v) = nonempty v

-- What nodeSortFn reads of a node.
abbrev pub sort_key : Branch → Node
sort_key b = record (info_of b).sorted_by { grouping = is_truthy (info_of b).groupbyid }

abbrev or_same : {A : Type 0} → Option A → A → A
or_same none old = old
or_same (some new) old = new

module _ (locale_compare : Locale) (me : Options) where
  abbrev pub compare_branches : Branch → Branch → Ordering
  compare_branches a b = node_sort_fn locale_compare me (sort_key a) (sort_key b)

  -- `node.insertBefore(child, node.childNodes[pos])`; the search always finds a place.
  unfoldable pub insert_child : Branches → Branch → Branches
  unfolding to_list of_list add_child
  insert_child bs child =
      of_list (or_same (add_child compare_branches (to_list bs) child) (to_list bs))

  unfoldable mutual
    -- The tree with a child more for the node of this number.
    pub insert_below : ℕ → Branch → Branch → Branch
    insert_below ref child (branch n info bs) =
        let changed = insert_child bs child in
        let searched = insert_in ref child bs in
        branch n info (if n == ref then changed else searched)

    pub insert_in : ℕ → Branch → Branches → Branches
    insert_in ref child nil = nil
    insert_in ref child (cons b bs) = cons (insert_below ref child b) (insert_in ref child bs)

-- The tree, and the number of the next node.
pub record TreeState : Type 0 where
  pub root : Branch
  pub next : ℕ

-- `pool.split('/').slice(0, -1).join('/')`
unfoldable pub init : List Text → List Text
init [] = []
init (p ∷ []) = []
init (p ∷ q ∷ ps) = p ∷ init (q ∷ ps)

unfoldable pub parent_pool : Text → Text
unfolding split init join
parent_pool pool = join b'/' (init (split b'/' pool))

abbrev pub pool_id : Text → Text
pool_id pool = codes "/pool/" ++ pool

-- The info of a pool that the code makes up.
unfoldable pub pool_info : Text → Info
pool_info pool = record {
  sorted_by = record {
    grouping = false;
    kind = codes "pool";
    template = false;
    vmid = 0;
    name = [];
    id = pool_id pool;
  };
  groupbyid = none;
  attributes =
      (codes "type", codes "pool") ∷ (codes "id", pool_id pool) ∷ (codes "pool", pool) ∷ [];
  text = none;
}

abbrev has_id : Text → Info → Bool
has_id id info = text_eq info.sorted_by.id id

abbrev has_group : Text → Info → Bool
has_group v info = elim info.groupbyid [ none ↦ false | some g ↦ text_eq g v ]

-- `node.findChild(…, true)` on the node of a number, with the number of the node that it finds.
abbrev pub FindChild : Type 0
FindChild = (Info → Bool) → ℕ → Branch → Option ℕ

-- The settings of the tree that grouping reads.
pub record Settings : Type 0 where
  pub nest_pools : Bool
  pub group_renderer : Option (Info → Text)
  pub type_text : Text → Option Text

group_label : Option (Info → Text) → (Text → Option Text) → Info → Text → Option Text
unfolding text_eq
group_label (some renderer) type_text info v = some (renderer info)
group_label none type_text info v =
    if text_eq info.sorted_by.kind (codes "type")
    then elim (type_text v) [ none ↦ info.text | some t ↦ if nonempty t then some t else info.text ]
    else some v

label_if : Option Text → Settings → Info → Info
unfolding group_label
label_if none me info = info
label_if (some []) me info = info
label_if (some (c ∷ v)) me info = record info {
  text = group_label me.group_renderer me.type_text info (c ∷ v);
}

-- The part `if (info.groupbyid) …`.
unfoldable pub label : Settings → Info → Info
unfolding label_if
label me info = label_if info.groupbyid me info

-- The pool above, for a pool that is to be nested.
pub above_if : Bool → Text → Option Text
unfolding parent_pool
above_if false pool = none
above_if true pool = if nonempty (parent_pool pool) then some (parent_pool pool) else none

pub nested_above : Bool → Option Text → Option Text
unfolding above_if
nested_above ok none = none
nested_above ok (some pool) = above_if (ok && nonempty pool) pool

unfoldable pub pool_above : Settings → Bool → Info → Option Text
unfolding nested_above lookup text_eq
pool_above me insert_pool info =
    nested_above (text_eq info.sorted_by.kind (codes "pool") && not insert_pool && me.nest_pools)
      (lookup (codes "pool") info.attributes)

abbrev pub of_pool :
    Option Text → (Text → Option (TreeState × ℕ)) → Option (TreeState × ℕ) → Option (TreeState × ℕ)
of_pool none nested plain = plain
of_pool (some pool) nested plain = nested pool

module _ (locale_compare : Locale) (options : Options) (find_child : FindChild)
    (me : Settings) where
  -- The end of addChildSorted: a new node, and its number.
  unfoldable pub create_child : TreeState → ℕ → Info → TreeState × ℕ
  unfolding insert_below label
  create_child t node info = (
    record {
      root = insert_below locale_compare options node (branch t.next (label me info) nil) t.root;
      next = suc t.next;
    },
    t.next,
  )

  pub under : Info → Option (TreeState × ℕ) → Option (TreeState × ℕ)
  unfolding create_child
  under info none = none
  under info (some (t, parent)) = some (create_child t parent info)

  pub nest : Info → TreeState → Option ℕ → Option (TreeState × ℕ) → Option (TreeState × ℕ)
  unfolding under
  nest info t (some parent) made = under info (some (t, parent))
  nest info t none made = under info made

  -- addChildSorted, with fuel for the pools above.
  unfoldable pub add_child_sorted : ℕ → TreeState → ℕ → Info → Bool → Option (TreeState × ℕ)
  unfolding create_child nest pool_above pool_info
  add_child_sorted zero t node info insert_pool = none
  add_child_sorted (suc fuel) t node info insert_pool =
      of_pool (pool_above me insert_pool info)
        (λ pool.
          nest info t (find_child (has_id (pool_id pool)) node t.root)
            (add_child_sorted fuel t node (pool_info pool) false))
        (some (create_child t node info))

-- `info[groupBy]`, which is falsy when the group is `undefined` or its text is empty.
unfoldable pub group_value : Text → Info → Option Text
unfolding lookup
group_value group info = elim (lookup group info.attributes) [
  | none ↦ none
  | some v ↦ if nonempty v then some v else none
]

-- The info of a group that the code makes up.
unfoldable pub group_info : Text → Text → Info
unfolding text_eq
group_info group v = record {
  sorted_by = record {
    grouping = false;
    kind = group;
    template = false;
    vmid = 0;
    name = [];
    id = group ++ b'/' ∷ v;
  };
  groupbyid = none;
  attributes =
      (codes "type", group)
      ∷ (codes "id", group ++ b'/' ∷ v)
      ∷ (if text_eq group (codes "type") then [] else (group, v) ∷ []);
  text = none;
}

-- `groupinfo`, with its `groupbyid` set.
unfoldable pub group_node : Text → Text → Info → Info
unfolding text_eq group_info
group_node group v info =
    let made = if text_eq info.sorted_by.kind group then info else group_info group v in
    record made { groupbyid = some v }

abbrev pub of_group :
    Option Text → (Text → Option (TreeState × ℕ)) → Option (TreeState × ℕ) → Option (TreeState × ℕ)
of_group none grouped plain = plain
of_group (some v) grouped plain = grouped v

abbrev pub and_then :
    Option (TreeState × ℕ) → (TreeState → ℕ → Option (TreeState × ℕ)) → Option (TreeState × ℕ)
and_then none rest = none
and_then (some (t, node)) rest = rest t node

module _ (locale_compare : Locale) (options : Options) (find_child : FindChild) (me : Settings)
    (fuel : ℕ) where
  -- The group's node, made if it is not there.
  pub find_group : Text → Text → Info → TreeState → ℕ → Option (TreeState × ℕ)
  unfolding add_child_sorted group_node
  find_group group v info t node = elim (find_child (has_group v) node t.root) [
    | some found ↦ some (t, found)
    | none ↦
        add_child_sorted locale_compare options find_child me fuel t node (group_node group v info)
          false
  ]

  -- groupChild, on the groups from the level on.
  unfoldable pub group_child : List Text → TreeState → ℕ → Info → Option (TreeState × ℕ)
  unfolding add_child_sorted find_group group_value text_eq
  group_child [] t node info =
      add_child_sorted locale_compare options find_child me fuel t node info false
  group_child (group ∷ groups) t node info =
      of_group (group_value group info)
        (λ v. and_then (find_group group v info t node) (λ u found.
          if text_eq info.sorted_by.kind group
          then some (u, found)
          else group_child groups u found info))
        (add_child_sorted locale_compare options find_child me fuel t node info false)
