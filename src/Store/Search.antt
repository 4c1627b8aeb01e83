-- ===== src/Store/Search.antt =====
-- What the lookups of guests find.
use pve_manager_electrified.Prelude.{
  ℕ, suc, ◌+◌, ◌≡◌, ◌⊎◌, Option-cases, refl, ap, ◌∙◌, Bool, true, false, Option, none, some, List,
  [], ◌∷◌, any, arith, Bool-cases, inl, inr, if◌then◌else◌,
}
use pve_manager_electrified.Text.{Text, codes}
use pve_manager_electrified.Utils.Versions.{parse_int}
use pve_manager_electrified.Store.{
  Resource, find_exact, equal_vmid, index_of_vmid, find_vmid, get_at, guest_node, guest_name,
  is_found, data_node, name_of_record, name_or_empty,
}

-- The first record that passes the test.
pub first_such : (Resource → Bool) → List Resource → Option Resource
first_such test [] = none
first_such test (r ∷ rs) = if test r then some r else first_such test rs

-- The number of a guest as the views write it.
abbrev pub has_vmid : Text → Resource → Bool
has_vmid vmid r = equal_vmid (parse_int vmid) r.vmid

module _ (test : Resource → Bool) where
  abbrev shifted : Option ℕ → ℕ → Option ℕ
  shifted none k = none
  shifted (some i) k = some (i + k)

  find_exact-from :
      (rs : List Resource) (i : ℕ) → find_exact test rs (suc i) ≡ shifted (find_exact test rs i) 1
  unfolding find_exact
  find_exact-from [] i = refl
  find_exact-from (r ∷ rs) i = ground (arith, find_exact-from rs (suc i))

  get_at-cons :
      (o : Option ℕ) (r : Resource) (rs : List Resource)
      → get_at (shifted o 1) (r ∷ rs) ≡ get_at o rs
  unfolding get_at
  get_at-cons none r rs = refl
  get_at-cons (some i) r rs = ground arith

  -- The record at the index that was found is the first that passes.
  get_at-find_exact : (rs : List Resource) → get_at (find_exact test rs 0) rs ≡ first_such test rs
  unfolding find_exact first_such
  get_at-find_exact [] = unfold get_at in refl
  get_at-find_exact (r ∷ rs) = elim (Bool-cases (test r)) [
    | inl e ↦ rw e (unfold get_at in refl)
    | inr e ↦
        rw (e, find_exact-from rs 0)
          (get_at-cons (find_exact test rs 0) r rs ∙ get_at-find_exact rs)
  ]

  is_found-find_exact : (rs : List Resource) (i : ℕ) → is_found (find_exact test rs i) ≡ any test rs
  unfolding find_exact is_found
  is_found-find_exact [] i = refl
  is_found-find_exact (r ∷ rs) i = ground (arith, is_found-find_exact rs (suc i))

any-first_such :
    (test : Resource → Bool) (rs : List Resource) → first_such test rs ≡ none → any test rs ≡ false
unfolding first_such
any-first_such test [] h = refl
any-first_such test (r ∷ rs) h = ground (arith, any-first_such test rs)

any-first_such-some :
    (test : Resource → Bool) (rs : List Resource) (s : Resource)
    → first_such test rs ≡ some s
    → any test rs ≡ true
unfolding first_such
any-first_such-some test [] s h = cc
any-first_such-some test (r ∷ rs) s h = ground (arith, any-first_such-some test rs s)

module _ (vmid : Text) (rs : List Resource) where
  found : find_vmid vmid rs ≡ any (has_vmid vmid) rs
  unfolding find_vmid index_of_vmid
  found = is_found-find_exact (has_vmid vmid) rs 0

  record_lem : get_at (index_of_vmid vmid rs) rs ≡ first_such (has_vmid vmid) rs
  unfolding index_of_vmid
  record_lem = get_at-find_exact (has_vmid vmid) rs

  node_lem : guest_node vmid rs ≡ data_node (first_such (has_vmid vmid) rs)
  unfolding guest_node
  node_lem = ap data_node record_lem

  name_lem : guest_name vmid rs ≡ name_of_record (first_such (has_vmid vmid) rs)
  unfolding guest_name
  name_lem = ap name_of_record record_lem

-- What the store says of a guest's number. If no record has it, findVMID is false, guestNode throws
-- and guestName is `-`; else findVMID is true, and guestNode and guestName are those of the first
-- record that has it, the name empty if it is missing.
pub guest_lem :
    (vmid : Text) (rs : List Resource)
    → ((first_such (has_vmid vmid) rs ≡ none)
        × (find_vmid vmid rs ≡ false)
        × (guest_node vmid rs ≡ none)
        × (guest_name vmid rs ≡ codes "-"))
      ⊎ ((r : Resource) × (first_such (has_vmid vmid) rs ≡ some r)
          × (find_vmid vmid rs ≡ true)
          × (guest_node vmid rs ≡ some r.node)
          × (guest_name vmid rs ≡ name_or_empty r.name))
unfolding data_node name_of_record
guest_lem vmid rs = elim (Option-cases (first_such (has_vmid vmid) rs)) [
  | inl e ↦ inl (
    e,
    found vmid rs ∙ any-first_such (has_vmid vmid) rs e,
    node_lem vmid rs ∙ ap data_node e,
    name_lem vmid rs ∙ ap name_of_record e,
  )
  | inr (r, e) ↦ inr (
    r,
    e,
    found vmid rs ∙ any-first_such-some (has_vmid vmid) rs r e,
    node_lem vmid rs ∙ ap data_node e,
    name_lem vmid rs ∙ ap name_of_record e,
  )
]
