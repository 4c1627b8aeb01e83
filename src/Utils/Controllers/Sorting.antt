-- ===== src/Utils/Controllers/Sorting.antt =====
-- Insertion sort: it keeps the elements, and puts them in descending order of a rank that the
-- comparison follows.
use Prim.Native.Nat.{Ordering}
use mathlib.Core.Path.{subst}
use pve_manager_electrified.Prelude.{
  ℕ, ◌+◌, ◌≤◌, ◌<◌, ◌≡◌, ◌≢◌, ◌↔◌, ◌⊎◌, ◌||◌, refl, sym, ap, ◌∙◌, List, [], ◌∷◌, All, All-imp,
  arith, if◌then◌else◌, inl, inr,
}
use pve_manager_electrified.Text.{Text, text_eq, text_mem}
use pve_manager_electrified.Utils.Controllers.{insert_by, sort_by}

-- No element has a lower rank than one behind it.
abbrev pub IsDescending : {A : Type 0} → (A → ℕ) → List A → Type 0
IsDescending rank [] = Unit
IsDescending rank (x ∷ xs) = All (λ y. rank y ≤ rank x) xs × IsDescending rank xs

pub gt-cases : (o : Ordering) → (o ≡ Ordering.gt) ⊎ (o ≢ Ordering.gt)
gt-cases Ordering.gt = inl refl
gt-cases Ordering.eq = inr (λ e. cc)
gt-cases Ordering.lt = inr (λ e. cc)

not-lt→le : (m n : ℕ) → ¬ (m < n) → n ≤ m
not-lt→le m n h = ground (arith, h)

module _ {A : Type 0} (sort_fn : A → A → Ordering) (x y : A) (ys : List A) where
  pub insert_by-pass :
      sort_fn x y ≡ Ordering.gt → insert_by sort_fn x (y ∷ ys) ≡ y ∷ insert_by sort_fn x ys
  unfolding insert_by
  insert_by-pass e = rw (e, insert_by) refl

  pub insert_by-keep : sort_fn x y ≢ Ordering.gt → insert_by sort_fn x (y ∷ ys) ≡ x ∷ y ∷ ys
  unfolding insert_by
  insert_by-keep e = ground (arith, e)

module _ {A : Type 0} (sort_fn : A → A → Ordering) where
  pub All-insert_by :
      (P : A → Type 0) (x : A) (ys : List A) → P x → All P ys → All P (insert_by sort_fn x ys)
  unfolding insert_by
  All-insert_by P x [] p h = (p, tt)
  All-insert_by P x (y ∷ ys) p (q, h) = elim (gt-cases (sort_fn x y)) [
    | inl e ↦ rw (insert_by-pass sort_fn x y ys e) (q, All-insert_by P x ys p h)
    | inr e ↦ rw (insert_by-keep sort_fn x y ys e) (p, (q, h))
  ]

  pub All-sort_by : (P : A → Type 0) (xs : List A) → All P xs → All P (sort_by sort_fn xs)
  unfolding sort_by
  All-sort_by P [] h = tt
  All-sort_by P (x ∷ xs) (p, h) = All-insert_by P x (sort_by sort_fn xs) p (All-sort_by P xs h)

module _ {A : Type 0} (sort_fn : A → A → Ordering) (P : A → Type 0) (rank : A → ℕ)
    (says : (a b : A) → P a → P b → (sort_fn a b ≡ Ordering.gt) ↔ (rank a < rank b)) where
  insert_by-IsDescending :
      (x : A) (ys : List A)
      → P x
      → All P ys
      → IsDescending rank ys
      → IsDescending rank (insert_by sort_fn x ys)
  unfolding insert_by
  insert_by-IsDescending x [] p h d = (tt, tt)
  insert_by-IsDescending x (y ∷ ys) p (q, h) (b, d) = elim (gt-cases (sort_fn x y)) [
    | inl e ↦
        let lower : rank x < rank y = (says x y p q).0 e in
        subst (IsDescending rank) (sym (insert_by-pass sort_fn x y ys e)) (
          All-insert_by sort_fn (λ z. rank z ≤ rank y) x ys (omega arith) b,
          insert_by-IsDescending x ys p h d,
        )
    | inr e ↦
        let above : rank y ≤ rank x = not-lt→le _ _ (λ lower. e ((says x y p q).1 lower)) in
        subst (IsDescending rank) (sym (insert_by-keep sort_fn x y ys e))
          ((above, All-imp (λ z c. omega arith) ys b), (b, d))
  ]

  pub sort_by-IsDescending : (xs : List A) → All P xs → IsDescending rank (sort_by sort_fn xs)
  unfolding sort_by
  sort_by-IsDescending [] h = tt
  sort_by-IsDescending (x ∷ xs) (p, h) =
      insert_by-IsDescending x (sort_by sort_fn xs) p (All-sort_by sort_fn P xs h)
        (sort_by-IsDescending xs h)

-- How often a text is in a list.
pub count : Text → List Text → ℕ
count c [] = 0
count c (d ∷ ds) = (if text_eq c d then 1 else 0) + count c ds

module _ (sort_fn : Text → Text → Ordering) (c : Text) where
  count-insert_by :
      (d : Text) (ds : List Text)
      → count c (insert_by sort_fn d ds) ≡ (if text_eq c d then 1 else 0) + count c ds
  unfolding count
  count-insert_by d [] = unfold insert_by in refl
  count-insert_by d (e ∷ ds) = elim (gt-cases (sort_fn d e)) [
    | inl g ↦
        rw (insert_by-pass sort_fn d e ds g)
          (let rest = count-insert_by d ds in omega (arith, rest))
    | inr g ↦ rw (insert_by-keep sort_fn d e ds g) refl
  ]

  pub count-sort_by : (ds : List Text) → count c (sort_by sort_fn ds) ≡ count c ds
  unfolding count sort_by
  count-sort_by [] = refl
  count-sort_by (d ∷ ds) =
      count-insert_by d (sort_by sort_fn ds)
      ∙ ap (λ n. (if text_eq c d then 1 else 0) + n) (count-sort_by ds)

module _ (sort_fn : Text → Text → Ordering) (k : Text) where
  pub text_mem-insert_by :
      (d : Text) (ds : List Text)
      → text_mem k (insert_by sort_fn d ds) ≡ (text_eq k d || text_mem k ds)
  unfolding text_mem
  text_mem-insert_by d [] = unfold insert_by in refl
  text_mem-insert_by d (e ∷ ds) = elim (gt-cases (sort_fn d e)) [
    | inl g ↦ rw (insert_by-pass sort_fn d e ds g) (ground (arith, text_mem-insert_by d ds))
    | inr g ↦ rw (insert_by-keep sort_fn d e ds g) refl
  ]

  pub text_mem-sort_by : (ds : List Text) → text_mem k (sort_by sort_fn ds) ≡ text_mem k ds
  unfolding text_mem sort_by
  text_mem-sort_by [] = refl
  text_mem-sort_by (d ∷ ds) =
      text_mem-insert_by d (sort_by sort_fn ds) ∙ ap (λ b. text_eq k d || b) (text_mem-sort_by ds)
