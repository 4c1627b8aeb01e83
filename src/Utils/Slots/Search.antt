-- ===== src/Utils/Slots/Search.antt =====
-- The searches for a free slot return the first free one, and nothing only when all are in use.
use mathlib.Core.Path.{subst}
use native.Mathlib.Decide.{ℕ_discrete}
use pve_manager_electrified.Prelude.{
  ℕ, zero, suc, ◌+◌, ◌≤◌, ◌<◌, ◌≡◌, refl, true, false, Option, none, some, List, [], ◌∷◌, arith,
  Bool-cases, Option-cases, ◌⊎◌, inl, inr,
}
use pve_manager_electrified.Text.{Text}
use pve_manager_electrified.Object.{is_defined}
use pve_manager_electrified.Utils.Slots.{
  max_ids, lxc_mp_counts, count_of, confid, Slot, Config, find_id, next_free_disk, next_free_lxc_mp,
}

-- The configuration uses the slot.
abbrev pub InUse : Text → Config → ℕ → Type 0
InUse c config i = is_defined (confid c i) config ≡ true

-- `s` is the lowest slot of the controller `c`, below its count `n`, that is not in use.
pub record IsFirstOf (c : Text) (n : ℕ) (config : Config) (s : Slot) : Type 0 where
  pub controller : s.controller ≡ c
  pub bound : s.id < n
  pub named : s.confid ≡ confid c s.id
  pub free : is_defined s.confid config ≡ false
  pub below : (j : ℕ) → j < s.id → InUse c config j

-- Every slot of a controller is in use.
abbrev pub AllInUse : Text → ℕ → Config → Type 0
AllInUse c n config = (j : ℕ) → j < n → InUse c config j

-- What a search over controllers may return: the first free slot of the first controller that has
-- one, or nothing when none has.
abbrev pub IsNextFree : List Text → Config → Option Slot → Type 0
IsNextFree [] config r = r ≡ none
IsNextFree (c ∷ cs) config r =
    ((s : Slot) × (r ≡ some s) × IsFirstOf c (count_of max_ids c) config s)
    ⊎ (AllInUse c (count_of max_ids c) config × IsNextFree cs config r)

at_or_above : (P : ℕ → Type 0) (i j : ℕ) → P i → ((k : ℕ) → suc i ≤ k → k ≡ j → P k) → i ≤ j → P j
at_or_above P i j here above h = elim (ℕ_discrete i j) [
  | yes e ↦ subst P e here
  | no n ↦ above j (omega arith) refl
]

find_id-none :
    (c : Text) (config : Config) (i n : ℕ)
    → find_id c config i n ≡ none
    → (j : ℕ) → i ≤ j
    → j < i + n
    → InUse c config j
unfolding find_id
find_id-none c config i zero e j lo hi = absurd (omega arith)
find_id-none c config i (suc n) e j lo hi = elim (Bool-cases (is_defined (confid c i) config)) [
  | inl used ↦
      at_or_above (InUse c config) i j used
        (λ k h q. find_id-none c config (suc i) n (rw (used, find_id) at e) k h (omega arith)) lo
  | inr free ↦ let e' = rw (free, find_id) at e in cc
]

find_id-some :
    (c : Text) (config : Config) (i n k : ℕ)
    → find_id c config i n ≡ some k
    → (i ≤ k)
      × (k < i + n)
      × (is_defined (confid c k) config ≡ false)
      × ((j : ℕ) → i ≤ j → j < k → InUse c config j)
unfolding find_id
find_id-some c config i zero k e = cc
find_id-some c config i (suc n) k e = elim (Bool-cases (is_defined (confid c i) config)) [
  | inl used ↦
      let (lo, hi, free, below) = find_id-some c config (suc i) n k (rw (used, find_id) at e) in
      (
        omega arith,
        omega arith,
        free,
        λ j h q. at_or_above (InUse c config) i j used (λ l g s. below l g (omega arith)) h,
      )
  | inr free ↦
      let e' = rw (free, find_id) at e in
      let same : i ≡ k = cc in
      (
        omega arith,
        omega arith,
        subst (λ l. is_defined (confid c l) config ≡ false) same free,
        λ j h q. absurd (omega arith),
      )
]

found-IsFirstOf :
    (c : Text) (config : Config) (n i : ℕ)
    → find_id c config 0 n ≡ some i
    → IsFirstOf c n config (record { controller = c; id = i; confid = confid c i })
found-IsFirstOf c config n i e =
    let (lo, hi, free, below) = find_id-some c config 0 n i e in
    record {
      controller = refl;
      bound = omega arith;
      named = refl;
      free = free;
      below = λ j h. below j (omega arith) h;
    }

-- nextFreeDisk returns the lowest free slot of the first of the given controllers that has one, with
-- its number below the controller's count and its name made of both; it returns nothing only when
-- every slot of every given controller is in use.
pub next_free_disk-IsNextFree :
    (cs : List Text) (config : Config) → IsNextFree cs config (next_free_disk cs config)
unfolding next_free_disk
next_free_disk-IsNextFree [] config = refl
next_free_disk-IsNextFree (c ∷ cs) config =
    elim (Option-cases (find_id c config 0 (count_of max_ids c))) [
      | inl full ↦
          let rest = next_free_disk-IsNextFree cs config in
          rw (full, next_free_disk)
            (inr (λ j h. find_id-none c config 0 _ full j (omega arith) (omega arith), rest))
      | inr (i, found) ↦
          rw (found, next_free_disk) (inl (_, refl, found-IsFirstOf c config _ i found))
    ]

-- nextFreeLxcMP returns the lowest free slot of the kind, below its count, or nothing when every slot
-- of the kind is in use.
pub next_free_lxc_mp_lem :
    (kind : Text) (config : Config)
    → ((s : Slot) × (next_free_lxc_mp kind config ≡ some s)
        × IsFirstOf kind (count_of lxc_mp_counts kind) config s)
      ⊎ ((next_free_lxc_mp kind config ≡ none) × AllInUse kind (count_of lxc_mp_counts kind) config)
unfolding next_free_lxc_mp
next_free_lxc_mp_lem kind config =
    elim (Option-cases (find_id kind config 0 (count_of lxc_mp_counts kind))) [
      | inl full ↦
          inr (rw full, λ j h. find_id-none kind config 0 _ full j (omega arith) (omega arith))
      | inr (i, found) ↦ inl (_, rw found, found-IsFirstOf kind config _ i found)
    ]
