-- ===== src/Tree/Order.antt =====
-- nodeSortFn is a total preorder, as the sorted insertion asks, where `localeCompare` is one.
use Prim.Native.Nat.{compare, Ordering}
use native.Mathlib.Omega.{compare-eq}
use pve_manager_electrified.Prelude.{
  ℕ, ◌≤◌, ◌<◌, ◌≡◌, sym, ◌∙◌, Bool, true, false, not, ◌||◌, arith, if◌then◌else◌, Bool-cases, inl,
  inr,
}
use pve_manager_electrified.Tree.{
  Node, Options, Locale, type_order, is_guest, compare_text, then_compare, compare_flag,
  compare_guests, node_sort_fn,
}
use pve_manager_electrified.Tree.Insert.{IsPreorder}
use pve_manager_electrified.Tree.Comparisons.{
  flip, Agree, IsOrder, IsOrder-IsPreorder, then-Agree, then-flip, compare-turn, compare-Agree,
  then-IsOrder, compare-IsOrder, on-IsOrder, compare_flag-IsOrder, equal-IsOrder, compare_text-turn,
  compare_text-Agree, compare_text-IsOrder,
}

type_order-guest : (n : Node) → is_guest n ≡ true → type_order n.kind ≤ 2
unfolding is_guest type_order
type_order-guest n h = ground (arith, h)

type_order-other : (n : Node) → is_guest n ≡ false → 4 ≤ type_order n.kind
unfolding is_guest type_order
type_order-other n h = ground (arith, h)

lt_lem : (m n : ℕ) → m < n → compare m n ≡ Ordering.lt
lt_lem m n h = ground (arith, h)

gt_lem : (m n : ℕ) → n < m → compare m n ≡ Ordering.gt
gt_lem m n h = ground (arith, h)

module _ (me : Options) where
  -- The number by which the types are told apart.
  rank_of : Node → ℕ
  rank_of n = if me.group_guest_types || not (is_guest n) then type_order n.kind else 0

  type_part :
      (a b : Node)
      → (if me.group_guest_types || not (is_guest a) || not (is_guest b)
          then compare (type_order a.kind) (type_order b.kind)
          else Ordering.eq)
        ≡ compare (rank_of a) (rank_of b)
  unfolding rank_of
  type_part a b = ground (
    arith,
    type_order-guest a,
    type_order-other a,
    type_order-guest b,
    type_order-other b,
    lt_lem (type_order a.kind) (type_order b.kind),
    gt_lem (type_order a.kind) (type_order b.kind),
    lt_lem 0 (type_order b.kind),
    gt_lem (type_order a.kind) 0,
  )

  same_kind : (a b : Node) → rank_of a ≡ rank_of b → is_guest a ≡ is_guest b
  unfolding rank_of
  same_kind a b e =
      ground
        (arith, type_order-guest a, type_order-other a, type_order-guest b, type_order-other b, e)

flag_of : Node → ℕ
flag_of n = if n.grouping then 0 else 1

grouping_part :
    (g h : Bool) (next : Ordering)
    → (if (if g then h else not h) then next else if g then Ordering.lt else Ordering.gt)
      ≡ then_compare (compare (if g then 0 else 1) (if h then 0 else 1)) next
grouping_part g h next = ground arith

module _ (locale_compare : Locale) (me : Options) (locale : IsOrder locale_compare) where
  compare_guests-IsOrder : IsOrder (compare_guests locale_compare me)
  unfolding compare_guests
  compare_guests-IsOrder = then-IsOrder _ _ template_part guest_part
    where
      template_part : IsOrder (λ (a b : Node).
          if me.group_templates then compare_flag a.template b.template else Ordering.eq)
      template_part = elim (Bool-cases me.group_templates) [
        | inl e ↦ rw e (on-IsOrder (λ (n : Node). n.template) compare_flag compare_flag-IsOrder)
        | inr e ↦ rw e equal-IsOrder
      ]

      guest_part : IsOrder (λ (a b : Node).
          if me.by_vmid
          then then_compare (compare a.vmid b.vmid) (compare_text a.id b.id)
          else locale_compare a.name b.name)
      guest_part = elim (Bool-cases me.by_vmid) [
        | inl e ↦ rw e (
            then-IsOrder _ _ (on-IsOrder (λ (n : Node). n.vmid) compare compare-IsOrder)
              (on-IsOrder (λ (n : Node). n.id) compare_text compare_text-IsOrder))
        | inr e ↦ rw e (on-IsOrder (λ (n : Node). n.name) locale_compare locale)
      ]

  -- What is compared last.
  last_part : Node → Node → Ordering
  last_part a b =
      if is_guest a then compare_guests locale_compare me a b else compare_text a.id b.id

  last_part-turn : (a b : Node) → is_guest a ≡ is_guest b → last_part b a ≡ flip (last_part a b)
  unfolding last_part
  last_part-turn a b e =
      let g = compare_guests-IsOrder.turn a b in
      let t = compare_text-turn a.id b.id in ground (arith, e, g, t)

  last_part-Agree :
      (a b c : Node)
      → is_guest a ≡ is_guest b
      → is_guest b ≡ is_guest c
      → Agree (last_part a b) (last_part b c) (last_part a c)
  unfolding last_part
  last_part-Agree a b c e f = elim (Bool-cases (is_guest a)) [
    | inl h ↦ rw (h, sym e ∙ h) (compare_guests-IsOrder.agree a b c)
    | inr h ↦ rw (h, sym e ∙ h) (compare_text-Agree a.id b.id c.id)
  ]

  by_rank : Node → Node → Ordering
  by_rank a b = then_compare (compare (rank_of me a) (rank_of me b)) (last_part a b)

  by_rank-IsOrder : IsOrder by_rank
  unfolding by_rank
  by_rank-IsOrder = record {
    turn = λ a b.
        then-flip _ _ _ _ (compare-turn (rank_of me a) (rank_of me b))
          (λ e. last_part-turn a b (same_kind me a b (compare-eq _ _ e)));
    agree = λ a b c.
        then-Agree _ _ _ _ _ _ (compare-Agree (rank_of me a) (rank_of me b) (rank_of me c)) (λ e f.
          last_part-Agree a b c (same_kind me a b (compare-eq _ _ e))
            (same_kind me b c (compare-eq _ _ f)));
  }

  node_sort_fn_parts :
      (a b : Node)
      → node_sort_fn locale_compare me a b
        ≡ then_compare (compare (flag_of a) (flag_of b)) (by_rank a b)
  unfolding node_sort_fn by_rank last_part flag_of
  node_sort_fn_parts a b = rw (type_part me a b) (grouping_part a.grouping b.grouping (by_rank a b))

  node_sort_fn-IsOrder : IsOrder (node_sort_fn locale_compare me)
  node_sort_fn-IsOrder =
      let parts = then-IsOrder _ _ (on-IsOrder flag_of compare compare-IsOrder) by_rank-IsOrder in
      record {
        turn = λ a b. rw (node_sort_fn_parts a b, node_sort_fn_parts b a) (parts.turn a b);
        agree = λ a b c.
            rw (node_sort_fn_parts a b, node_sort_fn_parts b c, node_sort_fn_parts a c)
              (parts.agree a b c);
      }

-- nodeSortFn is a total preorder of the nodes, under every choice of the sorting options, if
-- `localeCompare` turns around with its arguments and is transitive.
pub node_sort_fn-IsPreorder :
    (locale_compare : Locale) (me : Options)
    → IsOrder locale_compare
    → IsPreorder (node_sort_fn locale_compare me)
node_sort_fn-IsPreorder locale_compare me locale =
    IsOrder-IsPreorder _ (node_sort_fn-IsOrder locale_compare me locale)
