-- ===== src/Snapshots/Links.antt =====
-- What the loops of `reload` build: every snapshot is among the children of its parent, or of the root.
use pve_manager_electrified.Prelude.{
  ◌≡◌, refl, sym, ap, ◌∙◌, Bool, true, false, not, ◌&&◌, ◌||◌, Option, none, some, List, [], ◌∷◌,
  ◌++◌, All, arith, append_assoc, append-nil, Bool-cases, inl, inr, if◌then◌else◌,
}
use pve_manager_electrified.Text.{Text, text_eq, text_mem, nonempty}
use pve_manager_electrified.Text.Equality.{text_eq_iff}
use pve_manager_electrified.Object.{lookup, has_own, put_own, prototype_names}
use pve_manager_electrified.Object.Laws.{lookup-put_own}
use pve_manager_electrified.Snapshots.{
  Item, Linked, idhash_of, push_child, place_under, place, place_all, after_place, link,
}

-- The items that pass the test, in their order.
pub keep : (Item → Bool) → List Item → List Item
keep test [] = []
keep test (item ∷ items) = if test item then item ∷ keep test items else keep test items

abbrev named_so : Text → Option Text → Bool
named_so p none = false
named_so p (some q) = nonempty q && text_eq p q

-- The parent of the item is `p`, which is not empty.
abbrev pub is_child_of : Text → Item → Bool
is_child_of p item = named_so p item.parent

pub is_named : Text → List Item → Bool
is_named p [] = false
is_named p (item ∷ items) = text_eq p item.name || is_named p items

abbrev lacks_parent : (Text → Bool) → Option Text → Bool
lacks_parent known none = true
lacks_parent known (some q) = not (nonempty q && known q)

-- The item names no parent, or one that is not there.
abbrev pub is_orphan : (Text → Bool) → Item → Bool
is_orphan known item = lacks_parent known item.parent

abbrev FineParent : Option Text → Type 0
FineParent none = Unit
FineParent (some q) = text_mem q prototype_names ≡ false

-- The parent is not named like what objects inherit.
abbrev pub HasFineParent : Item → Type 0
HasFineParent item = FineParent item.parent

abbrev extend : Option (List Item) → List Item → Option (List Item)
extend none xs = none
extend (some ys) xs = some (ys ++ xs)

lookup-push_child :
    (p q : Text) (item : Item) (hash : List (Text × List Item))
    → lookup p (push_child q item hash)
      ≡ (if text_eq p q then extend (lookup p hash) (item ∷ []) else lookup p hash)
unfolding lookup push_child
lookup-push_child p q item [] = ground arith
lookup-push_child p q item ((k, items) ∷ hash) =
    ground
      (arith, text_eq_iff p k, text_eq_iff q k, text_eq_iff p q, lookup-push_child p q item hash)

has_own-push_child :
    (p q : Text) (item : Item) (hash : List (Text × List Item))
    → has_own p (push_child q item hash) ≡ has_own p hash
unfolding has_own push_child
has_own-push_child p q item [] = refl
has_own-push_child p q item ((k, items) ∷ hash) = ground (arith, has_own-push_child p q item hash)

extend_nil : (o : Option (List Item)) → o ≡ extend o []
extend_nil none = refl
extend_nil (some ys) = ap some (sym (append-nil ys))

extend-append :
    (o : Option (List Item)) (xs ys : List Item) → extend (extend o xs) ys ≡ extend o (xs ++ ys)
extend-append none xs ys = refl
extend-append (some zs) xs ys = ap some (append_assoc zs xs ys)

lookup_of_not_own :
    (p : Text) (hash : List (Text × List Item)) → has_own p hash ≡ false → lookup p hash ≡ none
unfolding has_own lookup
lookup_of_not_own p [] h = refl
lookup_of_not_own p ((k, items) ∷ hash) h = ground (arith, lookup_of_not_own p hash, h)

one_if : Bool → Item → List Item
one_if b item = if b then item ∷ [] else []

keep-cons :
    (test : Item → Bool) (item : Item) (items : List Item)
    → one_if (test item) item ++ keep test items ≡ keep test (item ∷ items)
unfolding keep one_if
keep-cons test item items = elim (Bool-cases (test item)) [ inl e ↦ rw e refl | inr e ↦ rw e refl ]

module _ (known : Text → Bool) where
  -- What placing items makes of a state.
  record Placed (items : List Item) (l : Linked) : Type 0 where
    after : Linked
    placed : place_all items l ≡ some after
    below :
        (p : Text)
        → lookup p after.children ≡ extend (lookup p l.children) (keep (is_child_of p) items)
    top : after.roots ≡ l.roots ++ keep (is_orphan known) items

  -- What placing one item makes of a state.
  record PlacedOne (o : Option Text) (item : Item) (l : Linked) : Type 0 where
    after : Linked
    placed : place_under o l item ≡ some after
    below :
        (p : Text)
        → lookup p after.children ≡ extend (lookup p l.children) (one_if (named_so p o) item)
    top : after.roots ≡ l.roots ++ one_if (lacks_parent known o) item
    keys : (p : Text) → has_own p after.children ≡ known p

  place_under_lem :
      (o : Option Text) (item : Item) (l : Linked)
      → ((p : Text) → has_own p l.children ≡ known p)
      → FineParent o
      → PlacedOne o item l
  unfolding place_under one_if
  place_under_lem none item l k f = record {
    after = record l { roots = l.roots ++ (item ∷ []) };
    placed = refl;
    below = λ p. extend_nil (lookup p l.children);
    top = refl;
    keys = k;
  }
  place_under_lem (some q) item l k f = elim (Bool-cases (nonempty q && has_own q l.children)) [
    | inl e ↦ record {
      after = record l { children = push_child q item l.children; opened = q ∷ l.opened };
      placed = rw e refl;
      below = λ p.
          ground
            (arith, e, lookup-push_child p q item l.children, extend_nil (lookup p l.children));
      top =
          let t : nonempty q && known q ≡ true = ground (arith, e, k q) in
          rw t (sym (append-nil l.roots));
      keys = λ p. has_own-push_child p q item l.children ∙ k p;
    }
    | inr e ↦ record {
      after = record l { roots = l.roots ++ (item ∷ []) };
      placed = rw (e, f) refl;
      below = λ p. ground (
        arith,
        e,
        text_eq_iff p q,
        lookup_of_not_own q l.children,
        extend_nil (lookup p l.children),
        λ (f : p ≡ q). ap (λ w. lookup w l.children) f,
      );
      top = let t : nonempty q && known q ≡ false = ground (arith, e, k q) in rw t refl;
      keys = k;
    }
  ]

  place_all-cons :
      (item : Item) (items : List Item) (l after : Linked)
      → place_under item.parent l item ≡ some after
      → place_all (item ∷ items) l ≡ place_all items after
  unfolding place_all place after_place
  place_all-cons item items l after e = rw e refl

  place_all_lem :
      (items : List Item) (l : Linked)
      → ((p : Text) → has_own p l.children ≡ known p)
      → All HasFineParent items
      → Placed items l
  unfolding place_all keep
  place_all_lem [] l k h = record {
    after = l;
    placed = refl;
    below = λ p. extend_nil (lookup p l.children);
    top = sym (append-nil l.roots);
  }
  place_all_lem (item ∷ items) l k (f, h) =
      let one = place_under_lem item.parent item l k f in
      let rest = place_all_lem items one.after one.keys h in
      record {
        after = rest.after;
        placed = place_all-cons item items l one.after one.placed ∙ rest.placed;
        below = λ p.
            rest.below p
            ∙ ap (λ o. extend o (keep (is_child_of p) items)) (one.below p)
            ∙ extend-append (lookup p l.children) _ _
            ∙ ap (extend (lookup p l.children)) (keep-cons (is_child_of p) item items);
        top =
            rest.top
            ∙ ap (λ ls. ls ++ keep (is_orphan known) items) one.top
            ∙ append_assoc l.roots _ _
            ∙ ap (λ ls. l.roots ++ ls) (keep-cons (is_orphan known) item items);
      }

abbrev empty_if : Bool → Option (List Item)
empty_if true = some []
empty_if false = none

lookup-idhash_of :
    (p : Text) (items : List Item) (hash : List (Text × List Item))
    → lookup p (idhash_of items hash) ≡ (if is_named p items then some [] else lookup p hash)
unfolding idhash_of is_named
lookup-idhash_of p [] hash = refl
lookup-idhash_of p (item ∷ items) hash =
    lookup-idhash_of p items _ ∙ ground (arith, lookup-put_own item.name p [] hash)

has_own-put_own :
    (p k : Text) (hash : List (Text × List Item))
    → has_own p (put_own k [] hash) ≡ (text_eq p k || has_own p hash)
unfolding has_own put_own
has_own-put_own p k [] = refl
has_own-put_own p k ((j, items) ∷ hash) =
    ground (arith, has_own-put_own p k hash, text_eq_iff k j, text_eq_iff p j, text_eq_iff p k)

has_own-idhash_of :
    (p : Text) (items : List Item) (hash : List (Text × List Item))
    → has_own p (idhash_of items hash) ≡ (is_named p items || has_own p hash)
unfolding idhash_of is_named
has_own-idhash_of p [] hash = refl
has_own-idhash_of p (item ∷ items) hash =
    has_own-idhash_of p items _ ∙ ground (arith, has_own-put_own p item.name hash)

-- Linking the snapshots succeeds, and gives each of them, in their order, to the children of the
-- snapshot that it names as its parent, and to those of the root if it names none that is there. No
-- snapshot names a parent that is spelled like a property that all objects inherit.
pub link_lem :
    (items : List Item)
    → All HasFineParent items
    → (l : Linked) × (link items ≡ some l)
      × ((p : Text)
          → is_named p items ≡ true
          → lookup p l.children ≡ some (keep (is_child_of p) items))
      × (l.roots ≡ keep (is_orphan (λ p. is_named p items)) items)
unfolding link
link_lem items h =
    let start : Linked = record { roots = []; children = idhash_of items []; opened = [] } in
    let placed =
      place_all_lem (λ p. is_named p items) items start
        (λ p. has_own-idhash_of p items [] ∙ ground arith) h in
    let start_lookup : (p : Text)
        → is_named p items ≡ true
        → lookup p (idhash_of items []) ≡ some [] =
      λ p n. lookup-idhash_of p items [] ∙ rw n refl in
    (
      placed.after,
      placed.placed,
      λ p n. placed.below p ∙ ap (λ o. extend o (keep (is_child_of p) items)) (start_lookup p n),
      placed.top,
    )
