-- ===== src/Tree/Grouping/Ending.antt =====
-- Making the pools above a pool ends: each is a shorter text than the pool below it.
use pve_manager_electrified.Prelude.{
  ℕ, zero, suc, ◌≤◌, ◌<◌, ◌≡◌, refl, sym, Bool, true, false, ◌&&◌, Option, none, some, List, [],
  ◌∷◌, ◌==◌, if◌then◌else◌, inl, inr, Bool-cases, Option-cases, length, length-append, arith,
}
use pve_manager_electrified.Text.{Text, codes, text_eq, split, cons_head, join, nonempty}
use pve_manager_electrified.Text.Equality.{text_eq_iff}
use pve_manager_electrified.Object.{lookup}
use pve_manager_electrified.Tree.{Locale, Options}
use pve_manager_electrified.Tree.Grouping.{
  Info, TreeState, Settings, FindChild, init, parent_pool, pool_id, pool_info, has_id, pool_above,
  nested_above, above_if, under, nest, of_pool, add_child_sorted, find_group, has_group, of_group,
  and_then, group_value, group_info, group_node, group_child,
}

length-join :
    (sep c : ℕ) (ps : List Text) → length (join sep (cons_head c ps)) ≡ suc (length (join sep ps))
unfolding join cons_head
length-join sep c [] = refl
length-join sep c (p ∷ []) = refl
length-join sep c (p ∷ q ∷ ps) = refl

length-join_blank :
    (sep : ℕ) (ps : List Text) → length (join sep ([] ∷ ps)) ≤ suc (length (join sep ps))
unfolding join
length-join_blank sep [] = omega arith
length-join_blank sep (p ∷ ps) = omega arith

split_step :
    (sep c : ℕ) (s : Text)
    → split sep (c ∷ s) ≡ (if c == sep then [] ∷ split sep s else cons_head c (split sep s))
unfolding split
split_step sep c s = refl

length-join-split : (sep : ℕ) (s : Text) → length (join sep (split sep s)) ≤ length s
length-join-split sep [] = unfold join in unfold split in omega arith
length-join-split sep (c ∷ s) = elim (Bool-cases (c == sep)) [
  | inl e ↦
      rw (split_step sep c s, e)
        (omega (arith, length-join_blank sep (split sep s), length-join-split sep s))
  | inr e ↦
      rw (split_step sep c s, e)
        (omega (arith, length-join sep c (split sep s), length-join-split sep s))
]

length-init :
    (sep : ℕ) (p q : Text) (ps : List Text)
    → length (join sep (init (p ∷ q ∷ ps))) < length (join sep (p ∷ q ∷ ps))
unfolding init join
length-init sep p q [] = omega (arith, length-append p (sep ∷ q))
length-init sep p q (r ∷ ps) =
    let rest = length-init sep q r ps in
    omega (
      arith,
      length-append p (sep ∷ join sep (q ∷ init (r ∷ ps))),
      length-append p (sep ∷ join sep (q ∷ r ∷ ps)),
    )

shorter :
    (sep : ℕ) (ps : List Text)
    → nonempty (join sep (init ps)) ≡ true
    → length (join sep (init ps)) < length (join sep ps)
shorter sep [] h = unfold init join in cc
shorter sep (p ∷ []) h = unfold init join in cc
shorter sep (p ∷ q ∷ ps) h = length-init sep p q ps

length-parent_pool :
    (pool : Text) → nonempty (parent_pool pool) ≡ true → length (parent_pool pool) < length pool
unfolding parent_pool
length-parent_pool pool h =
    omega (arith, shorter b'/' (split b'/' pool) h, length-join-split b'/' pool)

-- The length of the text `info.pool`.
abbrev size_of : Option Text → ℕ
size_of none = 0
size_of (some pool) = length pool

abbrev pub pool_size : Info → ℕ
pool_size info = size_of (lookup (codes "pool") info.attributes)

length-above_if :
    (b : Bool) (pool above : Text) → above_if b pool ≡ some above → length above < length pool
unfolding above_if
length-above_if false pool above e = cc
length-above_if true pool above e = elim (Bool-cases (nonempty (parent_pool pool))) [
  | inl h ↦
      let q : parent_pool pool ≡ above = ground (arith, h) in rw (sym q) (length-parent_pool pool h)
  | inr h ↦ absurd (ground (arith, h))
]

length-nested_above :
    (ok : Bool) (o : Option Text) (above : Text)
    → nested_above ok o ≡ some above
    → length above < size_of o
unfolding nested_above
length-nested_above ok none above e = cc
length-nested_above ok (some pool) above e = length-above_if (ok && nonempty pool) pool above e

length-pool_above :
    (me : Settings) (b : Bool) (info : Info) (above : Text)
    → pool_above me b info ≡ some above
    → length above < pool_size info
unfolding pool_above
length-pool_above me b info above e = length-nested_above _ _ above e

pool_info_size : (pool : Text) → pool_size (pool_info pool) ≡ length pool
unfolding pool_info lookup text_eq
pool_info_size pool = refl

-- A made group has a pool only if it is grouped by pools; then that is the pool of the resource.
group_value-lookup :
    (group v : Text) (info : Info)
    → group_value group info ≡ some v
    → lookup group info.attributes ≡ some v
unfolding group_value
group_value-lookup group v info e = elim (Option-cases (lookup group info.attributes)) [
  | inl h ↦ absurd (ground (arith, h))
  | inr (w, h) ↦ ground (arith, h)
]

group_info_size :
    (group v : Text) (info : Info)
    → lookup group info.attributes ≡ some v
    → pool_size (group_info group v) ≤ pool_size info
unfolding group_info lookup
group_info_size group v info e = elim (Bool-cases (text_eq group (codes "type"))) [
  | inl h ↦ rw h (unfold text_eq in omega arith)
  | inr h ↦ elim (Bool-cases (text_eq (codes "pool") group)) [
    | inl g ↦
        let q : lookup (codes "pool") info.attributes ≡ some v =
          rw ((text_eq_iff (codes "pool") group).0 g) e in
        rw (h, g) (rw q (omega arith))
    | inr g ↦ rw (h, g) (omega arith)
  ]
]

group_node_size :
    (group v : Text) (info : Info)
    → group_value group info ≡ some v
    → pool_size (group_node group v info) ≤ pool_size info
unfolding group_node
group_node_size group v info e = elim (Bool-cases (text_eq info.sorted_by.kind group)) [
  | inl h ↦ rw h (omega arith)
  | inr h ↦ rw h (group_info_size group v info (group_value-lookup group v info e))
]

module _ (locale_compare : Locale) (options : Options) (find_child : FindChild)
    (me : Settings) where
  -- The call returns a tree and a node.
  abbrev Ends : Option (TreeState × ℕ) → Type 0
  Ends made = (u : TreeState) × (ref : ℕ) × (made ≡ some (u, ref))

  nest-Ends :
      (info : Info) (t : TreeState) (found : Option ℕ) (made : Option (TreeState × ℕ))
      → Ends made
      → Ends (nest locale_compare options find_child me info t found made)
  unfolding nest under
  nest-Ends info t (some parent) made h = (_, _, refl)
  nest-Ends info t none none (u, ref, e) = cc
  nest-Ends info t none (some (v, parent)) h = (_, _, refl)

  of_pool-Ends :
      (info : Info) (pool : Option Text) (nested : Text → Option (TreeState × ℕ))
      (plain : Option (TreeState × ℕ))
      → ((p : Text) → pool ≡ some p → Ends (nested p))
      → Ends plain
      → Ends (of_pool pool nested plain)
  of_pool-Ends info none nested plain h g = g
  of_pool-Ends info (some p) nested plain h g = h p refl

  add_child_sorted-Ends :
      (fuel : ℕ) (t : TreeState) (node : ℕ) (info : Info) (insert_pool : Bool)
      → pool_size info < fuel
      → Ends (add_child_sorted locale_compare options find_child me fuel t node info insert_pool)
  unfolding add_child_sorted
  add_child_sorted-Ends zero t node info insert_pool h = absurd (omega arith)
  add_child_sorted-Ends (suc fuel) t node info insert_pool h =
      of_pool-Ends info (pool_above me insert_pool info) _ _
        (λ p e. nest-Ends info t (find_child (has_id (pool_id p)) node t.root) _ (
          add_child_sorted-Ends fuel t node (pool_info p) false (
            let shorter = length-pool_above me insert_pool info p e in
            omega (arith, pool_info_size p))))
        (_, _, refl)

  find_group-Ends :
      (fuel : ℕ) (group v : Text) (info : Info) (t : TreeState) (node : ℕ)
      → group_value group info ≡ some v
      → pool_size info < fuel
      → Ends (find_group locale_compare options find_child me fuel group v info t node)
  unfolding find_group
  find_group-Ends fuel group v info t node e h =
      elim (find_child (has_group v) node t.root)
        as (λ r. Ends (elim r [
          | some found ↦ some (t, found)
          | none ↦
              add_child_sorted locale_compare options find_child me fuel t node
                (group_node group v info) false
        ])) [
          | some found ↦ (t, found, refl)
          | none ↦
              add_child_sorted-Ends fuel t node (group_node group v info) false
                (let smaller = group_node_size group v info e in omega arith)
        ]

  and_then-Ends :
      (made : Option (TreeState × ℕ)) (rest : TreeState → ℕ → Option (TreeState × ℕ))
      → Ends made
      → ((t : TreeState) (node : ℕ) → Ends (rest t node))
      → Ends (and_then made rest)
  and_then-Ends none rest (u, ref, e) g = cc
  and_then-Ends (some (t, node)) rest h g = g t node

  of_group-Ends :
      (v : Option Text) (grouped : Text → Option (TreeState × ℕ)) (plain : Option (TreeState × ℕ))
      → ((w : Text) → v ≡ some w → Ends (grouped w))
      → Ends plain
      → Ends (of_group v grouped plain)
  of_group-Ends none grouped plain h g = g
  of_group-Ends (some v) grouped plain h g = h v refl

  either-Ends :
      (b : Bool) (x y : Option (TreeState × ℕ)) → Ends x → Ends y → Ends (if b then x else y)
  either-Ends true x y h g = h
  either-Ends false x y h g = g

-- groupChild returns, whatever the tree and whatever findChild finds, with more fuel for the pools
-- above than the text of the resource's pool is long.
pub group_child_ends :
    (locale_compare : Locale) (options : Options) (find_child : FindChild) (me : Settings)
    (fuel : ℕ) (groups : List Text) (t : TreeState) (node : ℕ) (info : Info)
    → pool_size info < fuel
    → (u : TreeState) × (ref : ℕ) × (group_child locale_compare options find_child me fuel groups t
          node info
        ≡ some (u, ref))
unfolding group_child
group_child_ends locale_compare options find_child me fuel [] t node info h =
    add_child_sorted-Ends locale_compare options find_child me fuel t node info false h
group_child_ends locale_compare options find_child me fuel (group ∷ groups) t node info h =
    of_group-Ends locale_compare options find_child me (group_value group info) _ _
      (λ v e.
        and_then-Ends locale_compare options find_child me
          (find_group locale_compare options find_child me fuel group v info t node) _
          (find_group-Ends locale_compare options find_child me fuel group v info t node e h)
          (λ u found.
            either-Ends locale_compare options find_child me (text_eq info.sorted_by.kind group)
              (some (u, found)) _ (u, found, refl)
              (group_child_ends locale_compare options find_child me fuel groups u found info h)))
      (add_child_sorted-Ends locale_compare options find_child me fuel t node info false h)
