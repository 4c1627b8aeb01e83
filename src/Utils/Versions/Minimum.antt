-- ===== src/Utils/Versions/Minimum.antt =====
-- What qemu_min_version decides: a comparison of the numbers place by place.
use pve_manager_electrified.Prelude.{
  ℕ, zero, suc, ◌≤◌, ◌<◌, ◌≡◌, ◌↔◌, refl, true, List, [], ◌∷◌, arith,
}
use pve_manager_electrified.Utils.Versions.{qemu_min_version, all_zero, greater}
use pve_manager_electrified.Utils.Versions.Comparing.{lexicographic}

-- The number at a place of a version, 0 behind its end.
unfoldable pub at : List ℕ → ℕ → ℕ
at [] i = 0
at (v ∷ vs) zero = v
at (v ∷ vs) (suc i) = at vs i

to_places :
    (m : ℕ) (ms : List ℕ) (bound : ℕ → ℕ)
    → m ≤ bound 0
    → ((i : ℕ) → at ms i ≤ bound (suc i))
    → (i : ℕ) → at (m ∷ ms) i ≤ bound i
unfolding at
to_places m ms bound h f zero = h
to_places m ms bound h f (suc i) = f i

all_zero_iff : (ms : List ℕ) → (all_zero ms ≡ true) ↔ ((i : ℕ) → at ms i ≤ 0)
unfolding all_zero at
all_zero_iff [] = (λ h i. omega arith, λ f. refl)
all_zero_iff (m ∷ ms) = (
  λ h. to_places m ms (λ i. 0) (ground (arith, h)) ((all_zero_iff ms).0 (ground (arith, h))),
  λ f.
      let rest = (all_zero_iff ms).1 (λ i. f (suc i)) in
      let first : m ≤ 0 = f 0 in ground (arith, rest, first),
)

-- What the loops decide, place by place.
qemu_min_version-places :
    (vs ms : List ℕ) → (qemu_min_version vs ms ≡ true) ↔ ((i : ℕ) → at ms i ≤ at vs i)
unfolding qemu_min_version at
qemu_min_version-places [] ms = all_zero_iff ms
qemu_min_version-places (v ∷ vs) [] = (λ h i. omega arith, λ f. refl)
qemu_min_version-places (v ∷ vs) (m ∷ ms) = (
  λ h.
      to_places m ms (at (v ∷ vs)) (ground (arith, h))
        ((qemu_min_version-places vs ms).0 (ground (arith, h))),
  λ f.
      let rest = (qemu_min_version-places vs ms).1 (λ i. f (suc i)) in
      let first : m ≤ v = f 0 in ground (arith, rest, first),
)

-- The comment above qemu_min_version promises `true` for a version that is equal to the minimum or
-- greater. The code does otherwise: a version whose first number is greater is greater, and still
-- qemu_min_version goes on to the numbers behind, and holds exactly when it holds of those. It holds
-- of a version exactly when no number is below the one at the same place of the minimum, where a
-- number behind the end is 0.
pub qemu_min_version_lem :
    (v m : ℕ) (vs ms : List ℕ)
    → m < v
    → (lexicographic (v ∷ vs) (m ∷ ms) ≡ greater)
      × (qemu_min_version (v ∷ vs) (m ∷ ms) ≡ qemu_min_version vs ms)
      × ((qemu_min_version vs ms ≡ true) ↔ ((i : ℕ) → at ms i ≤ at vs i))
qemu_min_version_lem v m vs ms h = (
  unfold lexicographic in ground (arith, h),
  unfold qemu_min_version in ground (arith, h),
  qemu_min_version-places vs ms,
)
