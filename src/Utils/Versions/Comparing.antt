-- ===== src/Utils/Versions/Comparing.antt =====
-- compare_ceph_versions compares the numbers of two versions in their order.
use pve_manager_electrified.Prelude.{
  ℕ, ◌≡◌, refl, sym, ap, ◌∙◌, true, false, some, List, [], ◌∷◌, map, all, All, arith, Bool-cases,
  inl, inr,
}
use pve_manager_electrified.Text.{Text, text_eq, split, join, is_digit, is_digits, is_space}
use pve_manager_electrified.Text.Equality.{text_eq_iff}
use pve_manager_electrified.Text.Split.{Lacks, split-join}
use pve_manager_electrified.Object.{digits_value}
use pve_manager_electrified.Utils.Decimal.{show, digits_value-show, is_digits-show}
use pve_manager_electrified.Utils.Versions.{
  Sign, less, same, greater, sign_of, or_next, difference, parse_int, signed, unsigned, skip_space,
  digits_prefix, compare_parts, compare_ceph_versions, Version, written,
}

-- The first numbers that differ decide, and a version sorts before what extends it.
unfoldable pub lexicographic : List ℕ → List ℕ → Sign
lexicographic [] [] = same
lexicographic [] (n ∷ ns) = less
lexicographic (m ∷ ms) [] = greater
lexicographic (m ∷ ms) (n ∷ ns) = or_next (sign_of m n) (lexicographic ms ns)

digits_prefix_of_digits : (s : Text) → all is_digit s ≡ true → digits_prefix s ≡ s
unfolding digits_prefix
digits_prefix_of_digits [] h = refl
digits_prefix_of_digits (c ∷ s) h = ground (arith, digits_prefix_of_digits s, h)

skip_space_of_digit : (c : ℕ) (s : Text) → is_digit c ≡ true → skip_space (c ∷ s) ≡ c ∷ s
unfolding skip_space is_digit is_space
skip_space_of_digit c s h = ground arith

signed_of_digit :
    (c : ℕ) (s : Text) → is_digit c ≡ true → signed (c ∷ s) ≡ unsigned false (digits_prefix (c ∷ s))
unfolding signed is_digit
signed_of_digit c s h = ground arith

unsigned_of :
    (c : ℕ) (s : Text)
    → digits_prefix (c ∷ s) ≡ c ∷ s
    → unsigned false (digits_prefix (c ∷ s)) ≡ some (false, digits_value 0 (c ∷ s))
unfolding unsigned
unsigned_of c s e = rw e refl

parse_int_of_digits : (s : Text) → is_digits s ≡ true → parse_int s ≡ some (false, digits_value 0 s)
unfolding parse_int is_digits
parse_int_of_digits [] h = cc
parse_int_of_digits (c ∷ s) h =
    let first : is_digit c ≡ true = ground (arith, h) in
    let whole = digits_prefix_of_digits (c ∷ s) h in
    rw (skip_space_of_digit c s first) (signed_of_digit c s first ∙ unsigned_of c s whole)

-- The text of a version.
abbrev pub dotted : List ℕ → Version
dotted v = written (join b'.' (map show v))

difference-show : (m n : ℕ) → difference (parse_int (show m)) (parse_int (show n)) ≡ sign_of m n
unfolding difference
difference-show m n =
    rw
      (
        parse_int_of_digits (show m) (is_digits-show m),
        parse_int_of_digits (show n) (is_digits-show n),
        digits_value-show m,
        digits_value-show n,
      )
      refl

compare_parts-show : (v w : List ℕ) → compare_parts (map show v) (map show w) ≡ lexicographic v w
unfolding compare_parts lexicographic
compare_parts-show [] [] = refl
compare_parts-show [] (n ∷ w) = refl
compare_parts-show (m ∷ v) [] = refl
compare_parts-show (m ∷ v) (n ∷ w) = rw (difference-show m n, compare_parts-show v w) refl

lexicographic_refl : (v : List ℕ) → lexicographic v v ≡ same
unfolding lexicographic
lexicographic_refl [] = refl
lexicographic_refl (n ∷ v) = ground (arith, lexicographic_refl v)

digits-Lacks : (s : Text) → all is_digit s ≡ true → Lacks b'.' s
unfolding is_digit
digits-Lacks [] h = tt
digits-Lacks (c ∷ s) h =
    let rest = digits-Lacks s (ground (arith, h)) in ((λ e. ground (arith, h, e)), rest)

show-Lacks : (n : ℕ) → Lacks b'.' (show n)
show-Lacks n =
    let digits = is_digits-show n in
    digits-Lacks (show n) (unfold is_digits in ground (arith, digits))

All-show-Lacks : (v : List ℕ) → All (Lacks b'.') (map show v)
All-show-Lacks [] = tt
All-show-Lacks (n ∷ v) = (show-Lacks n, All-show-Lacks v)

split-show : (m : ℕ) (v : List ℕ) → split b'.' (join b'.' (map show (m ∷ v))) ≡ map show (m ∷ v)
split-show m v = split-join b'.' (show m) (map show v) (show-Lacks m) (All-show-Lacks v)

-- Versions that are written alike have the same numbers.
same_of_equal :
    (v w : List ℕ) (m n : ℕ)
    → join b'.' (map show (m ∷ v)) ≡ join b'.' (map show (n ∷ w))
    → same ≡ lexicographic (m ∷ v) (n ∷ w)
same_of_equal v w m n e =
    let alike : map show (m ∷ v) ≡ map show (n ∷ w) =
      sym (split-show m v) ∙ ap (split b'.') e ∙ split-show n w in
    sym (lexicographic_refl (m ∷ v))
    ∙ sym (compare_parts-show (m ∷ v) (m ∷ v))
    ∙ ap (compare_parts (map show (m ∷ v))) alike
    ∙ compare_parts-show (m ∷ v) (n ∷ w)

-- Comparing two versions that are written as numbers between dots gives the order of their numbers.
pub compare_ceph_versions-dotted :
    (v w : List ℕ) (m n : ℕ)
    → compare_ceph_versions (dotted (m ∷ v)) (dotted (n ∷ w)) ≡ lexicographic (m ∷ v) (n ∷ w)
unfolding compare_ceph_versions
compare_ceph_versions-dotted v w m n =
    let s = join b'.' (map show (m ∷ v)) in
    let t = join b'.' (map show (n ∷ w)) in
    elim (Bool-cases (text_eq s t)) [
      | inl e ↦ rw e (same_of_equal v w m n ((text_eq_iff s t).0 e))
      | inr e ↦ rw (e, split-show m v, split-show n w) (compare_parts-show (m ∷ v) (n ∷ w))
    ]
