-- ===== src/Utils/Decimal.antt =====
-- Numbers as JavaScript writes them in a template literal or by `toString`, in decimal.
use pve_manager_electrified.Prelude.{
  ℕ, zero, suc, ◌+◌, ◌-◌, ◌*◌, ◌/◌, ◌%◌, ◌<◌, ◌≡◌, refl, ◌∙◌, true, [], ◌∷◌, ◌++◌, arith, ltb, all,
  if◌then◌else◌, Bool-cases, inl, inr,
}
use pve_manager_electrified.Text.{Text, is_digits, is_digit, nonempty}
use pve_manager_electrified.Text.Split.{all-append}
use pve_manager_electrified.Object.{digits_value}

-- The last argument but one bounds the number of digits.
show_fuel : ℕ → ℕ → Text
show_fuel zero n = []
show_fuel (suc f) n =
    let more = show_fuel f (n / 10) in
    if ltb n 10 then (b'0' + n) ∷ [] else more ++ (b'0' + n % 10) ∷ []

unfoldable pub show : ℕ → Text
unfolding show_fuel
show n = show_fuel (suc n) n

digits_value-concat :
    (acc : ℕ) (s : Text) (c : ℕ)
    → digits_value acc (s ++ c ∷ []) ≡ digits_value acc s * 10 + (c - b'0')
unfolding digits_value
digits_value-concat acc [] c = refl
digits_value-concat acc (d ∷ s) c = digits_value-concat (acc * 10 + (d - b'0')) s c

digits_value-show_fuel : (f n : ℕ) → n < f → digits_value 0 (show_fuel f n) ≡ n
unfolding show_fuel
digits_value-show_fuel zero n h = absurd (omega arith)
digits_value-show_fuel (suc f) n h = elim (Bool-cases (ltb n 10)) [
  | inl e ↦ rw (e, show_fuel) (unfold digits_value in ground (arith, e))
  | inr e ↦
      rw (e, show_fuel)
        (digits_value-concat 0 (show_fuel f (n / 10)) (b'0' + n % 10)
          ∙ ground (arith, e, digits_value-show_fuel f (n / 10)))
]

-- The digits that are written have the value of the number, so different numbers are written
-- differently.
pub digits_value-show : (n : ℕ) → digits_value 0 (show n) ≡ n
unfolding show
digits_value-show n = digits_value-show_fuel (suc n) n (omega arith)

all-digit-show_fuel : (f n : ℕ) → all is_digit (show_fuel f n) ≡ true
unfolding show_fuel is_digit
all-digit-show_fuel zero n = refl
all-digit-show_fuel (suc f) n = elim (Bool-cases (ltb n 10)) [
  | inl e ↦ rw (e, show_fuel) (ground (arith, e))
  | inr e ↦
      rw (e, show_fuel)
        (all-append is_digit (show_fuel f (n / 10)) _
          ∙ ground (arith, all-digit-show_fuel f (n / 10)))
]

show-nonempty : (n : ℕ) → nonempty (show n) ≡ true
unfolding show
show-nonempty n = elim (Bool-cases (ltb n 10)) [
  | inl e ↦ rw (e, show_fuel) refl
  | inr e ↦ rw (e, show_fuel) (append-nonempty (show_fuel n (n / 10)) _)
]
  where
    append-nonempty : (s : Text) (c : ℕ) → nonempty (s ++ c ∷ []) ≡ true
    append-nonempty [] c = refl
    append-nonempty (d ∷ s) c = refl

pub is_digits-show : (n : ℕ) → is_digits (show n) ≡ true
unfolding is_digits
is_digits-show n = rw (show-nonempty n) (unfold show in all-digit-show_fuel (suc n) n)
