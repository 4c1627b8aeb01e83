-- ===== src/Text/Equality.antt =====
-- The equality test decides equality of texts.
use pve_manager_electrified.Prelude.{
  ◌≡◌, refl, ◌↔◌, Bool, true, ◌||◌, List, [], ◌∷◌, ◌++◌, some, arith, all, Bool-cases, inl, inr,
}
use pve_manager_electrified.Text.{Text, text_mem, text_eq, strip_prefix}

text_eq→eq : (a b : Text) → text_eq a b ≡ true → a ≡ b
unfolding text_eq
text_eq→eq [] [] h = refl
text_eq→eq [] (b ∷ t) h = cc
text_eq→eq (a ∷ s) [] h = cc
text_eq→eq (a ∷ s) (b ∷ t) h = ground (arith, text_eq→eq s t)

pub text_eq_refl : (a : Text) → text_eq a a ≡ true
unfolding text_eq
text_eq_refl [] = refl
text_eq_refl (a ∷ s) = ground (arith, text_eq_refl s)

pub text_eq_iff : (a b : Text) → (text_eq a b ≡ true) ↔ (a ≡ b)
text_eq_iff a b = (text_eq→eq a b, λ e. rw e (text_eq_refl b))

pub strip_prefix-append : (p s : Text) → strip_prefix p (p ++ s) ≡ some s
unfolding strip_prefix
strip_prefix-append [] s = refl
strip_prefix-append (a ∷ p) s = ground (arith, strip_prefix-append p s)

-- A test that every listed text passes is passed by each of them.
pub all-text_mem :
    (test : Text → Bool) (m : Text) (ms : List Text)
    → all test ms ≡ true
    → text_mem m ms ≡ true
    → test m ≡ true
unfolding text_mem
all-text_mem test m [] a h = cc
all-text_mem test m (n ∷ ms) a h = elim (Bool-cases (text_eq m n)) [
  | inl e ↦ rw ((text_eq_iff m n).0 e) (ground arith)
  | inr e ↦ all-text_mem test m ms (ground arith) (ground arith)
]

pub text_mem-append :
    (d : Text) (vs ws : List Text) → text_mem d (vs ++ ws) ≡ (text_mem d vs || text_mem d ws)
unfolding text_mem
text_mem-append d [] ws = refl
text_mem-append d (v ∷ vs) ws = ground (arith, text_mem-append d vs ws)
