-- ===== src/Tree/Comparisons.antt =====
-- Comparisons that turn around with their arguments and are transitive: those of numbers, flags and
-- texts, of one field, and of one thing after the other.
use Prim.Native.Nat.{compare, Ordering}
use pve_manager_electrified.Prelude.{ℕ, ◌≡◌, refl, [], ◌∷◌, arith}
use pve_manager_electrified.Text.{Text}
use pve_manager_electrified.Tree.{compare_text, then_compare, compare_flag}
use pve_manager_electrified.Tree.Insert.{IsPreorder}

-- The other direction of a comparison.
abbrev pub flip : Ordering → Ordering
flip Ordering.lt = Ordering.gt
flip Ordering.eq = Ordering.eq
flip Ordering.gt = Ordering.lt

-- Three results of one comparison, of `a` with `b`, of `b` with `c` and of `a` with `c`, that a total
-- preorder can give.
abbrev pub Agree : Ordering → Ordering → Ordering → Type 0
Agree Ordering.lt Ordering.lt ac = ac ≡ Ordering.lt
Agree Ordering.lt Ordering.eq ac = ac ≡ Ordering.lt
Agree Ordering.eq Ordering.lt ac = ac ≡ Ordering.lt
Agree Ordering.eq Ordering.eq ac = ac ≡ Ordering.eq
Agree Ordering.lt Ordering.gt ac = Unit
Agree Ordering.eq Ordering.gt ac = Unit
Agree Ordering.gt bc ac = Unit

-- A comparison that turns around with its arguments, and that is transitive.
pub record IsOrder {A : Type 0} (cmp : A → A → Ordering) : Type 0 where
  pub turn : (a b : A) → cmp b a ≡ flip (cmp a b)
  pub agree : (a b c : A) → Agree (cmp a b) (cmp b c) (cmp a c)

pub IsOrder-IsPreorder : {A : Type 0} (cmp : A → A → Ordering) → IsOrder cmp → IsPreorder cmp
IsOrder-IsPreorder cmp laws = record {
  total = λ a b e f. let t = laws.turn a b in ground (arith, t, e, f);
  transitive = λ a b c f g e. let t = laws.agree a b c in ground (arith, t, e, f, g);
}

-- Two comparisons in turn, on three elements.
pub then-Agree :
    (ab bc ac ab' bc' ac' : Ordering)
    → Agree ab bc ac
    → (ab ≡ Ordering.eq → bc ≡ Ordering.eq → Agree ab' bc' ac')
    → Agree (then_compare ab ab') (then_compare bc bc') (then_compare ac ac')
then-Agree ab bc ac ab' bc' ac' h f = ground (arith, h, f)

pub then-flip :
    (ab ba ab' ba' : Ordering)
    → ba ≡ flip ab
    → (ab ≡ Ordering.eq → ba' ≡ flip ab')
    → then_compare ba ba' ≡ flip (then_compare ab ab')
then-flip ab ba ab' ba' h f = ground (arith, h, f)

pub compare-turn : (m n : ℕ) → compare n m ≡ flip (compare m n)
compare-turn m n = ground arith

pub compare-Agree : (a b c : ℕ) → Agree (compare a b) (compare b c) (compare a c)
compare-Agree a b c = ground arith

pub then-IsOrder :
    {A : Type 0} (c d : A → A → Ordering)
    → IsOrder c
    → IsOrder d
    → IsOrder (λ x y. then_compare (c x y) (d x y))
then-IsOrder c d hc hd = record {
  turn = λ x y. then-flip _ _ _ _ (hc.turn x y) (λ e. hd.turn x y);
  agree = λ x y z. then-Agree _ _ _ _ _ _ (hc.agree x y z) (λ e f. hd.agree x y z);
}

pub compare-IsOrder : IsOrder compare
compare-IsOrder = record { turn = compare-turn; agree = compare-Agree }

-- An order of one field is an order.
pub on-IsOrder :
    {A B : Type 0} (field : A → B) (c : B → B → Ordering)
    → IsOrder c
    → IsOrder (λ x y. c (field x) (field y))
on-IsOrder field c h = record {
  turn = λ x y. h.turn (field x) (field y);
  agree = λ x y z. h.agree (field x) (field y) (field z);
}

pub compare_flag-IsOrder : IsOrder compare_flag
compare_flag-IsOrder = record { turn = λ a b. ground arith; agree = λ a b c. ground arith }

pub equal-IsOrder : {A : Type 0} → IsOrder (λ (x y : A). Ordering.eq)
equal-IsOrder = record { turn = λ x y. refl; agree = λ x y z. refl }

compare_text-cons :
    (a b : ℕ) (s t : Text)
    → compare_text (a ∷ s) (b ∷ t) ≡ then_compare (compare a b) (compare_text s t)
unfolding compare_text
compare_text-cons a b s t = ground arith

pub compare_text-turn : (s t : Text) → compare_text t s ≡ flip (compare_text s t)
unfolding compare_text
compare_text-turn [] [] = refl
compare_text-turn [] (b ∷ t) = refl
compare_text-turn (a ∷ s) [] = refl
compare_text-turn (a ∷ s) (b ∷ t) =
    rw (compare_text-cons a b s t, compare_text-cons b a t s)
      (then-flip _ _ _ _ (compare-turn a b) (λ e. compare_text-turn s t))

lt-Agree : (o : Ordering) → Agree Ordering.lt o Ordering.lt
lt-Agree o = ground arith

gt-Agree : (o : Ordering) → Agree o Ordering.gt Ordering.gt
gt-Agree o = ground arith

pub compare_text-Agree :
    (s t u : Text) → Agree (compare_text s t) (compare_text t u) (compare_text s u)
unfolding compare_text
compare_text-Agree [] [] [] = refl
compare_text-Agree [] [] (c ∷ u) = refl
compare_text-Agree [] (b ∷ t) [] = tt
compare_text-Agree [] (b ∷ t) (c ∷ u) = lt-Agree _
compare_text-Agree (a ∷ s) [] u = tt
compare_text-Agree (a ∷ s) (b ∷ t) [] = gt-Agree _
compare_text-Agree (a ∷ s) (b ∷ t) (c ∷ u) =
    rw (compare_text-cons a b s t, compare_text-cons b c t u, compare_text-cons a c s u)
      (then-Agree _ _ _ _ _ _ (compare-Agree a b c) (λ e f. compare_text-Agree s t u))

pub compare_text-IsOrder : IsOrder compare_text
compare_text-IsOrder = record { turn = compare_text-turn; agree = compare_text-Agree }
