-- ===== src/Text/Split.antt =====
-- Splitting at a separator and joining undo one another.
use mathlib.Core.Path.{subst}
use pve_manager_electrified.Prelude.{
  ℕ, ◌≡◌, ◌≢◌, refl, ap, sym, ◌∙◌, Option, List, [], ◌∷◌, ◌++◌, none, some, arith, All, all, ◌&&◌,
  Bool, false, All-append, ◌==◌, inl, inr, Bool-cases, append_assoc,
}
use pve_manager_electrified.Text.{
  Text, split, cons_head, join, cut, split_pair, strip_prefix, is_blank, is_space,
}

abbrev pub Lacks : ℕ → Text → Type 0
Lacks b = All (λ c. c ≢ b)

pub split-append : (sep : ℕ) (p s : Text) → Lacks sep p → split sep (p ++ sep ∷ s) ≡ p ∷ split sep s
unfolding split
split-append sep [] s h = ground arith
split-append sep (c ∷ p) s (n, h) = ground (arith, split-append sep p s h)

pub split_of_Lacks : (sep : ℕ) (p : Text) → Lacks sep p → split sep p ≡ p ∷ []
unfolding split
split_of_Lacks sep [] h = refl
split_of_Lacks sep (c ∷ p) (n, h) = ground (arith, split_of_Lacks sep p h)

-- Splitting a join gives the parts back, if there is a part and none holds the separator.
pub split-join :
    (sep : ℕ) (p : Text) (ps : List Text)
    → Lacks sep p
    → All (Lacks sep) ps
    → split sep (join sep (p ∷ ps)) ≡ p ∷ ps
unfolding join
split-join sep p [] hp h = split_of_Lacks sep p hp
split-join sep p (q ∷ ps) hp (hq, h) =
    split-append sep p _ hp ∙ ap (◌∷◌ p) (split-join sep q ps hq h)

pub join-concat :
    (sep : ℕ) (p : Text) (ps : List Text) (q : Text)
    → join sep (p ∷ ps ++ q ∷ []) ≡ join sep (p ∷ ps) ++ sep ∷ q
unfolding join
join-concat sep p [] q = refl
join-concat sep p (r ∷ ps) q = rw (join-concat sep r ps q) (sym (append_assoc p _ _))

pub cut-append : (sep : ℕ) (p s : Text) → Lacks sep p → cut sep (p ++ sep ∷ s) ≡ (p, some s)
unfolding cut
cut-append sep [] s h = ground arith
cut-append sep (c ∷ p) s (n, h) = ground (arith, cut-append sep p s h)

pub cut_of_Lacks : (sep : ℕ) (p : Text) → Lacks sep p → cut sep p ≡ (p, none)
unfolding cut
cut_of_Lacks sep [] h = refl
cut_of_Lacks sep (c ∷ p) (n, h) = ground (arith, cut_of_Lacks sep p h)

pub split_pair-append :
    (k v : Text) → Lacks b'=' k → Lacks b'=' v → split_pair (k ++ b'=' ∷ v) ≡ (k, some v)
unfolding split_pair
split_pair-append k v hk hv = rw (split-append b'=' k v hk, split_of_Lacks b'=' v hv)

pub split_pair_of_Lacks : (v : Text) → Lacks b'=' v → split_pair v ≡ (v, none)
unfolding split_pair
split_pair_of_Lacks v h = rw (split_of_Lacks b'=' v h)

pub Lacks-append : (sep : ℕ) (p q : Text) → Lacks sep p → Lacks sep q → Lacks sep (p ++ q)
Lacks-append sep p q = All-append _ p q

pub all-append : (test : ℕ → Bool) (p q : Text) → all test (p ++ q) ≡ (all test p && all test q)
all-append test [] q = refl
all-append test (c ∷ p) q = ground (arith, all-append test p q)

pub is_blank-append : (p q : Text) → is_blank p ≡ false → is_blank (p ++ q) ≡ false
unfolding is_blank
is_blank-append p q h = ground (arith, all-append is_space p q)

pub Lacks-split : (sep : ℕ) (s : Text) → All (Lacks sep) (split sep s)
unfolding split
Lacks-split sep [] = (tt, tt)
Lacks-split sep (c ∷ s) = elim (Bool-cases (c == sep)) [
  | inl e ↦ rw (e, split) (tt, Lacks-split sep s)
  | inr e ↦ rw (e, split) (Lacks-cons_head c (split sep s) (ground arith) (Lacks-split sep s))
]
  where
    Lacks-cons_head :
        (c : ℕ) (ps : List Text) → c ≢ sep → All (Lacks sep) ps → All (Lacks sep) (cons_head c ps)
    Lacks-cons_head c [] n h = ((n, tt), tt)
    Lacks-cons_head c (p ∷ ps) n (hp, h) = ((n, hp), h)

pub Lacks-strip_prefix :
    (b : ℕ) (key p v : Text) → strip_prefix key p ≡ some v → Lacks b p → Lacks b v
unfolding strip_prefix
Lacks-strip_prefix b [] p v e h = let q : p ≡ v = cc in subst (Lacks b) q h
Lacks-strip_prefix b (a ∷ key) [] v e h = cc
Lacks-strip_prefix b (a ∷ key) (c ∷ p) v e (n, h) = Lacks-strip_prefix b key p v (ground arith) h

abbrev pub LacksAfter : ℕ → Option Text → Type 0
LacksAfter b none = Unit
LacksAfter b (some v) = Lacks b v

pub Lacks-cut :
    (b sep : ℕ) (p : Text) → Lacks b p → Lacks b (cut sep p).0 × LacksAfter b (cut sep p).1
unfolding cut
Lacks-cut b sep [] h = (tt, tt)
Lacks-cut b sep (c ∷ p) (n, h) = elim (Bool-cases (c == sep)) [
  | inl e ↦ rw (e, cut) (tt, h)
  | inr e ↦ rw (e, cut) ((n, (Lacks-cut b sep p h).0), (Lacks-cut b sep p h).1)
]

cons_head-filled : (c : ℕ) (ps : List Text) → cons_head c ps ≢ []
unfolding cons_head
cons_head-filled c [] = λ e. cc
cons_head-filled c (p ∷ ps) = λ e. cc

split_filled : (sep : ℕ) (s : Text) → split sep s ≢ []
unfolding split
split_filled sep [] = λ e. cc
split_filled sep (c ∷ s) = elim (Bool-cases (c == sep)) [
  | inl e ↦ rw e (λ q. cc)
  | inr e ↦ rw e (cons_head-filled c (split sep s))
]

cons_head-append :
    (c : ℕ) (ps qs : List Text) → ps ≢ [] → cons_head c (ps ++ qs) ≡ cons_head c ps ++ qs
unfolding cons_head
cons_head-append c [] qs n = absurd (n refl)
cons_head-append c (p ∷ ps) qs n = refl

-- A text with a separator inside is split on both sides of it.
pub split-concat : (sep : ℕ) (s q : Text) → split sep (s ++ sep ∷ q) ≡ split sep s ++ split sep q
unfolding split
split-concat sep [] q = split-append sep [] q tt
split-concat sep (c ∷ s) q = elim (Bool-cases (c == sep)) [
  | inl e ↦ rw e (ap (λ ps. [] ∷ ps) (split-concat sep s q))
  | inr e ↦ rw e (
      ap (cons_head c) (split-concat sep s q)
      ∙ cons_head-append c (split sep s) (split sep q) (split_filled sep s))
]
