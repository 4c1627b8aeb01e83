-- ===== src/Tree.antt =====
-- www/manager6/tree/ResourceTree.js: the order of the nodes of the resource tree, and the binary
-- search for the place of a new child. `localeCompare` is the platform's, a parameter.
pub mod Search
pub mod Insert
pub mod Comparisons
pub mod Order
pub mod Grouping
use Prim.Native.Nat.{compare, Ordering}
use pve_manager_electrified.Prelude.{
  ℕ, zero, suc, ◌+◌, ◌-◌, ◌/◌, Bool, true, false, not, ◌&&◌, ◌||◌, Option, none, some, List, [],
  ◌∷◌, leb, ltb, ◌==◌, get_elem?, length, if◌then◌else◌,
}
use pve_manager_electrified.Text.{Text, codes, text_eq}

-- The fields of `node.data` that the order reads. `grouping` says that `groupbyid` is set.
pub record Node : Type 0 where
  pub grouping : Bool
  pub kind : Text
  pub template : Bool
  pub vmid : ℕ
  pub name : Text
  pub id : Text

-- The sorting options of the tree.
pub record Options : Type 0 where
  pub group_guest_types : Bool
  pub group_templates : Bool
  pub by_vmid : Bool

-- Twice the numbers of the source, one of which is 3.5.
unfoldable pub type_order : Text → ℕ
unfolding text_eq
type_order t =
    if text_eq t (codes "lxc")
    then 0
    else if text_eq t (codes "qemu")
    then 2
    else if text_eq t (codes "node")
    then 4
    else if text_eq t (codes "sdn")
    then 6
    else if text_eq t (codes "network")
    then 7
    else if text_eq t (codes "storage")
    then 8
    else 18

unfoldable pub is_guest : Node → Bool
unfolding text_eq
is_guest n = text_eq n.kind (codes "qemu") || text_eq n.kind (codes "lxc")

-- `a > b ? 1 : a < b ? -1 : 0` on texts, by code units.
unfoldable pub compare_text : Text → Text → Ordering
compare_text [] [] = Ordering.eq
compare_text [] (b ∷ t) = Ordering.lt
compare_text (a ∷ s) [] = Ordering.gt
compare_text (a ∷ s) (b ∷ t) = elim (compare a b) [
  | Ordering.lt ↦ Ordering.lt
  | Ordering.eq ↦ compare_text s t
  | Ordering.gt ↦ Ordering.gt
]

-- `eq` goes on to what follows, as the source does where a comparison gives no result.
abbrev pub then_compare : Ordering → Ordering → Ordering
then_compare Ordering.eq next = next
then_compare Ordering.lt next = Ordering.lt
then_compare Ordering.gt next = Ordering.gt

-- A template sorts after a guest that is none.
abbrev pub compare_flag : Bool → Bool → Ordering
compare_flag true true = Ordering.eq
compare_flag false false = Ordering.eq
compare_flag true false = Ordering.gt
compare_flag false true = Ordering.lt

abbrev pub Locale : Type 0
Locale = Text → Text → Ordering

module _ (locale_compare : Locale) (me : Options) where
  -- The part `if (n1IsGuest) …`.
  unfoldable pub compare_guests : Node → Node → Ordering
  unfolding compare_text
  compare_guests n1 n2 =
      then_compare
        (if me.group_templates then compare_flag n1.template n2.template else Ordering.eq)
        (if me.by_vmid
          then then_compare (compare n1.vmid n2.vmid) (compare_text n1.id n2.id)
          else locale_compare n1.name n2.name)

  -- The sign of what nodeSortFn returns.
  unfoldable pub node_sort_fn : Node → Node → Ordering
  unfolding type_order is_guest compare_guests compare_text
  node_sort_fn n1 n2 =
      if (if n1.grouping then n2.grouping else not n2.grouping)
      then then_compare
          (if me.group_guest_types || not (is_guest n1) || not (is_guest n2)
            then compare (type_order n1.kind) (type_order n2.kind)
            else Ordering.eq)
          (if is_guest n1 then compare_guests n1 n2 else compare_text n1.id n2.id)
      else if n1.grouping
      then Ordering.lt
      else Ordering.gt

-- `res <= 0`
abbrev pub not_greater : Ordering → Bool
not_greater Ordering.gt = false
not_greater other = true

module _ {A : Type 0} (before : A → Bool) (nodes : List A) where
  -- The calls of findInsertIndex on `start` and `end`; `before m` says that the child sorts at or
  -- before the node `m`. A node that is not there would throw, which is `none`, as fuel that runs
  -- out is.
  unfoldable pub find_insert_index : ℕ → ℕ → ℕ → Option ℕ
  find_insert_index zero start end = none
  find_insert_index (suc fuel) start end =
      if leb end start then some start else elim (get_elem? nodes (start + (end - start) / 2)) [
        | none ↦ none
        | some m ↦ elim (before m) [
          | true ↦ find_insert_index fuel start (start + (end - start) / 2)
          | false ↦ find_insert_index fuel (start + (end - start) / 2 + 1) end
        ]
      ]

-- `node.insertBefore(child, node.childNodes[pos])`; a position behind the end appends.
unfoldable pub insert_before : {A : Type 0} → ℕ → A → List A → List A
insert_before zero child nodes = child ∷ nodes
insert_before (suc pos) child [] = child ∷ []
insert_before (suc pos) child (n ∷ nodes) = n ∷ insert_before pos child nodes

insert_at : {A : Type 0} → Option ℕ → A → List A → Option (List A)
insert_at none child nodes = none
insert_at (some pos) child nodes = some (insert_before pos child nodes)

-- The end of addChildSorted: the children with the new one in its place.
unfoldable pub add_child : {A : Type 0} → (A → A → Ordering) → List A → A → Option (List A)
unfolding find_insert_index insert_before insert_at
add_child sort_fn nodes child =
    insert_at
      (find_insert_index (λ m. not_greater (sort_fn child m)) nodes (suc (length nodes)) 0
        (length nodes))
      child nodes
