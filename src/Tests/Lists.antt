-- ===== src/Tests/Lists.antt =====
-- Domains, notes, slots and the resource tree: the theorems at an input.
use Prim.Native.Nat.{Ordering, compare}
use native.Mathlib.Omega.{compare-lt, compare-eq, compare-gt}
use pve_manager_electrified.Prelude.{
  ℕ, ◌≤◌, ◌++◌, ◌&&◌, ◌||◌, ◌≡◌, ◌≢◌, ◌⊎◌, true, Bool, none, some, List, [], ◌∷◌, arith, not,
  length,
}
use pve_manager_electrified.Text.{Text, codes, text_eq, text_mem}
use pve_manager_electrified.Parser.Acme.{add_domain, remove_domain}
use pve_manager_electrified.Parser.Acme.Domains.{IsDistinct, or_empty, change_domain_lem}
use pve_manager_electrified.Utils.Notes.{
  escape_notes_template, unescape_notes_template, unescape-escape_notes_template,
}
use pve_manager_electrified.Utils.Slots.{
  Slot, Config, next_free_disk, next_free_lxc_mp, count_of, lxc_mp_counts,
}
use pve_manager_electrified.Utils.Slots.Search.{
  IsNextFree, IsFirstOf, AllInUse, next_free_disk-IsNextFree, next_free_lxc_mp_lem,
}
use pve_manager_electrified.Tree.{
  Options, compare_text, node_sort_fn, not_greater, find_insert_index, add_child, insert_before,
}
use pve_manager_electrified.Tree.Comparisons.{compare_text-IsOrder}
use pve_manager_electrified.Tree.Order.{node_sort_fn-IsPreorder}
use pve_manager_electrified.Tree.Search.{Splits, find_insert_index-Splits}
use pve_manager_electrified.Tree.Insert.{
  IsPreorder, IsSorted, not_greater-IsMonotone, add_child-IsSorted,
}

abbrev domains : List Text
domains = codes "a.org" ∷ codes "b.org" ∷ codes "a.org" ∷ []

change_domain_lem_example :
    IsDistinct (or_empty (add_domain (some domains) (codes "a.org")))
    × (text_mem (codes "b.org") (or_empty (add_domain (some domains) (codes "a.org")))
        ≡ (text_mem (codes "b.org") domains || text_eq (codes "b.org") (codes "a.org")))
    × IsDistinct (or_empty (remove_domain (some domains) (codes "a.org")))
    × (text_mem (codes "b.org") (or_empty (remove_domain (some domains) (codes "a.org")))
        ≡ (text_mem (codes "b.org") domains && not (text_eq (codes "b.org") (codes "a.org"))))
change_domain_lem_example = change_domain_lem (some domains) (codes "a.org") (codes "b.org")

unescape-escape_notes_template_example :
    unescape_notes_template (escape_notes_template (92 ∷ codes "n" ++ 10 ∷ []))
    ≡ 92 ∷ codes "n" ++ 10 ∷ []
unescape-escape_notes_template_example = unescape-escape_notes_template (92 ∷ codes "n" ++ 10 ∷ [])

abbrev guest : Config
guest = (codes "scsi0", codes "a") ∷ (codes "scsi1", codes "b") ∷ (codes "mp0", codes "c") ∷ []

next_free_disk-IsNextFree_example :
    IsNextFree
      (codes "scsi" ∷ codes "ide" ∷ [])
      guest
      (next_free_disk (codes "scsi" ∷ codes "ide" ∷ []) guest)
next_free_disk-IsNextFree_example =
    next_free_disk-IsNextFree (codes "scsi" ∷ codes "ide" ∷ []) guest

next_free_lxc_mp_lem_example :
    ((s : Slot) × (next_free_lxc_mp (codes "mp") guest ≡ some s)
      × IsFirstOf (codes "mp") (count_of lxc_mp_counts (codes "mp")) guest s)
    ⊎ ((next_free_lxc_mp (codes "mp") guest ≡ none)
        × AllInUse (codes "mp") (count_of lxc_mp_counts (codes "mp")) guest)
next_free_lxc_mp_lem_example = next_free_lxc_mp_lem (codes "mp") guest

abbrev numbers : List ℕ
numbers = 2 ∷ 5 ∷ 9 ∷ []

le_of_not_gt : (a b : ℕ) → compare a b ≢ Ordering.gt → a ≤ b
le_of_not_gt a b = ground (arith, compare-lt a b, compare-eq a b)

not_gt_of_le : (a b : ℕ) → a ≤ b → compare a b ≢ Ordering.gt
not_gt_of_le a b h e = let g = compare-gt a b e in omega arith

numbers-IsPreorder : IsPreorder compare
numbers-IsPreorder = record {
  total = λ a b e. not_gt_of_le b a (let g = compare-gt a b e in omega arith);
  transitive = λ a b c f g.
      not_gt_of_le a c (let p = le_of_not_gt a b f in let q = le_of_not_gt b c g in omega arith);
}

numbers-IsSorted : IsSorted compare numbers
numbers-IsSorted = ((λ e. cc, (λ e. cc, tt)), ((λ e. cc, tt), (tt, tt)))

abbrev before : ℕ → Bool
before m = not_greater (compare 4 m)

find_insert_index-Splits_example :
    (p : ℕ) × (find_insert_index before numbers 4 0 3 ≡ some p) × Splits before numbers 0 3 p
find_insert_index-Splits_example =
    find_insert_index-Splits before numbers 4 0 3
      (not_greater-IsMonotone compare numbers-IsPreorder numbers 4 numbers-IsSorted) (omega arith)
      (omega arith) (omega arith)

add_child-IsSorted_example :
    (p : ℕ) × (p ≤ length numbers)
    × (add_child compare numbers 4 ≡ some (insert_before p 4 numbers))
    × IsSorted compare (insert_before p 4 numbers)
add_child-IsSorted_example =
    add_child-IsSorted compare numbers 4 numbers-IsPreorder numbers-IsSorted

abbrev defaults : Options
defaults = record { group_guest_types = true; group_templates = true; by_vmid = true }

node_sort_fn-IsPreorder_example : IsPreorder (node_sort_fn compare_text defaults)
node_sort_fn-IsPreorder_example = node_sort_fn-IsPreorder compare_text defaults compare_text-IsOrder
