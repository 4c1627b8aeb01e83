-- ===== src/Tree/Search.antt =====
-- The binary search ends, and finds the place that separates the children in front of the new one
-- from those behind it.
use pve_manager_electrified.Prelude.{
  ℕ, zero, suc, ◌+◌, ◌-◌, ◌/◌, ◌≤◌, ◌<◌, ◌≡◌, refl, Bool, true, false, some, List, [], ◌∷◌, arith,
  leb, leb→le, get_elem?, length, Bool-cases, inl, inr,
}
use pve_manager_electrified.Tree.{find_insert_index}

get_elem?_of_lt :
    {A : Type 0} (nodes : List A) (i : ℕ)
    → i < length nodes
    → (a : A) × (get_elem? nodes i ≡ some a)
get_elem?_of_lt [] i h = elim h [ ]
get_elem?_of_lt (x ∷ xs) zero h = (x, refl)
get_elem?_of_lt (x ∷ xs) (suc i) h = get_elem?_of_lt xs i (omega arith)

not_leb→lt : (a b : ℕ) → leb a b ≡ false → b < a
not_leb→lt a b h = ground arith

module _ {A : Type 0} (before : A → Bool) (nodes : List A) where
  -- Once a node is at or behind the place, all that follow are.
  abbrev pub IsMonotone : Type 0
  IsMonotone =
      (i j : ℕ) (a b : A)
      → i ≤ j
      → get_elem? nodes i ≡ some a
      → get_elem? nodes j ≡ some b
      → before a ≡ true
      → before b ≡ true

  -- `p` separates the positions of the range from `start` to `end`.
  pub record Splits (start end p : ℕ) : Type 0 where
    pub low : start ≤ p
    pub high : p ≤ end
    pub front : (i : ℕ) (a : A) → start ≤ i → i < p → get_elem? nodes i ≡ some a → before a ≡ false
    pub back : (i : ℕ) (a : A) → p ≤ i → i < end → get_elem? nodes i ≡ some a → before a ≡ true

  -- A node at or behind the place: the search goes on in front of it.
  Splits-left :
      (start mid end p : ℕ) (m : A)
      → IsMonotone
      → mid < end
      → get_elem? nodes mid ≡ some m
      → before m ≡ true
      → Splits start mid p
      → Splits start end p
  Splits-left start mid end p m mono h e b s = record {
    low = s.low;
    high = let q = s.high in omega arith;
    front = s.front;
    back = λ i a lo hi g. elim (Bool-cases (leb mid i)) [
      | inl le ↦ mono mid i m a (leb→le mid i le) e g b
      | inr lt ↦ s.back i a lo (not_leb→lt mid i lt) g
    ];
  }

  Splits-right :
      (start mid end p : ℕ) (m : A)
      → IsMonotone
      → start ≤ mid
      → get_elem? nodes mid ≡ some m
      → before m ≡ false
      → Splits (mid + 1) end p
      → Splits start end p
  Splits-right start mid end p m mono h e b s = record {
    low = let q = s.low in omega arith;
    high = s.high;
    front = λ i a lo hi g. elim (Bool-cases (leb i mid)) [
      | inl le ↦ front_of i a (leb→le i mid le) g
      | inr lt ↦ let q = not_leb→lt i mid lt in s.front i a (omega arith) hi g
    ];
    back = s.back;
  }
    where
      front_of : (i : ℕ) (a : A) → i ≤ mid → get_elem? nodes i ≡ some a → before a ≡ false
      front_of i a le g = elim (Bool-cases (before a)) [
        | inl t ↦ let q = mono i mid a m le g e t in cc
        | inr f ↦ f
      ]

  -- If the test is monotone over the children (each child behind one at or behind the new node's
  -- place is so too, as it is where the children are sorted), the range consists of positions that
  -- exist and the fuel is more than its length, the search returns a place that separates the range:
  -- the children of the range in front of it fail the test, and those from it on pass.
  pub find_insert_index-Splits :
      (fuel start end : ℕ)
      → IsMonotone
      → end - start < fuel
      → start ≤ end
      → end ≤ length nodes
      → (p : ℕ) × (find_insert_index before nodes fuel start end ≡ some p) × Splits start end p
  unfolding find_insert_index
  find_insert_index-Splits zero start end mono f h l = absurd (omega arith)
  find_insert_index-Splits (suc fuel) start end mono f h l = elim (Bool-cases (leb end start)) [
    | inl done ↦
        let q = leb→le end start done in
        (
          start,
          rw done,
          record {
            low = omega arith;
            high = h;
            front = λ i a lo hi g. absurd (omega arith);
            back = λ i a lo hi g. absurd (omega arith);
          },
        )
    | inr more ↦
        let q = not_leb→lt end start more in
        let (m, e) = get_elem?_of_lt nodes (start + (end - start) / 2) (omega arith) in
        elim (Bool-cases (before m)) [
          | inl b ↦
              let (p, found, s) =
                find_insert_index-Splits fuel start (start + (end - start) / 2) mono (omega arith)
                  (omega arith) (omega arith) in
              (
                p,
                ground (arith, more, e, b, found),
                Splits-left start (start + (end - start) / 2) end p m mono (omega arith) e b s,
              )
          | inr b ↦
              let (p, found, s) =
                find_insert_index-Splits fuel (start + (end - start) / 2 + 1) end mono (omega arith)
                  (omega arith) l in
              (
                p,
                ground (arith, more, e, b, found),
                Splits-right start (start + (end - start) / 2) end p m mono (omega arith) e b s,
              )
        ]
  ]
