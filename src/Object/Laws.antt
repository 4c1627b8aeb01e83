-- ===== src/Object/Laws.antt =====
-- Reading an object after a write, and the visits of its entries.
use pve_manager_electrified.Prelude.{
  ◌≡◌, ◌≢◌, refl, false, none, some, List, [], ◌∷◌, ◌++◌, arith, All, if◌then◌else◌,
}
use pve_manager_electrified.Text.{Text, text_eq}
use pve_manager_electrified.Text.Equality.{text_eq_iff}
use pve_manager_electrified.Object.{
  lookup, put, put_own, proto_setter, is_index, entries, index_entries, other_entries, has_own,
  remove,
}

module _ {ℓ} {V : Type ℓ} where
  abbrev pub IsOrdinary : Text × V → Type 0
  IsOrdinary e = is_index e.0 ≡ false

  -- No key of the object is `k`.
  abbrev pub Absent : Text → List (Text × V) → Type 0
  Absent k = All (λ e. k ≢ e.0)

  abbrev pub HasDistinctKeys : List (Text × V) → Type 0
  HasDistinctKeys [] = Unit
  HasDistinctKeys ((k, v) ∷ o) = Absent k o × HasDistinctKeys o

  pub lookup-put_own :
      (k j : Text) (v : V) (o : List (Text × V))
      → lookup j (put_own k v o) ≡ (if text_eq j k then some v else lookup j o)
  unfolding lookup put_own
  lookup-put_own k j v [] = refl
  lookup-put_own k j v ((i, w) ∷ o) =
      ground (arith, text_eq_iff k i, text_eq_iff j i, text_eq_iff j k, lookup-put_own k j v o)

  pub lookup-put :
      (k j : Text) (v : V) (o : List (Text × V))
      → k ≢ proto_setter
      → lookup j (put k v o) ≡ (if text_eq j k then some v else lookup j o)
  unfolding put
  lookup-put k j v o h = ground (arith, text_eq_iff k proto_setter, lookup-put_own k j v o)

  pub put_own_of_Absent :
      (k : Text) (v : V) (o : List (Text × V)) → Absent k o → put_own k v o ≡ o ++ (k, v) ∷ []
  unfolding put_own
  put_own_of_Absent k v [] h = refl
  put_own_of_Absent k v ((j, w) ∷ o) (n, h) =
      ground (arith, text_eq_iff k j, put_own_of_Absent k v o h)

  pub put_of_Absent :
      (k : Text) (v : V) (o : List (Text × V))
      → k ≢ proto_setter
      → Absent k o
      → put k v o ≡ o ++ (k, v) ∷ []
  unfolding put
  put_of_Absent k v o n h = ground (arith, text_eq_iff k proto_setter, put_own_of_Absent k v o h)

  pub lookup_of_Absent : (k : Text) (o : List (Text × V)) → Absent k o → lookup k o ≡ none
  unfolding lookup
  lookup_of_Absent k [] h = refl
  lookup_of_Absent k ((j, w) ∷ o) (n, h) = ground (arith, text_eq_iff k j, lookup_of_Absent k o h)

  pub has_own_of_Absent : (k : Text) (o : List (Text × V)) → Absent k o → has_own k o ≡ false
  unfolding has_own
  has_own_of_Absent k [] h = refl
  has_own_of_Absent k ((j, w) ∷ o) (n, h) = ground (arith, text_eq_iff k j, has_own_of_Absent k o h)

  pub Absent-concat :
      (k : Text) (o : List (Text × V)) (j : Text) (v : V)
      → Absent k o
      → k ≢ j
      → Absent k (o ++ (j, v) ∷ [])
  Absent-concat k [] j v _ h = (h, tt)
  Absent-concat k (d ∷ o) j v (n, h) p = (n, Absent-concat k o j v h p)

  pub lookup-remove :
      (k j : Text) (o : List (Text × V))
      → lookup j (remove k o) ≡ (if text_eq j k then none else lookup j o)
  unfolding lookup remove
  lookup-remove k j [] = ground arith
  lookup-remove k j ((i, w) ∷ o) =
      ground (arith, text_eq_iff k i, text_eq_iff j i, text_eq_iff j k, lookup-remove k j o)

  index_entries_of_ordinary : (o : List (Text × V)) → All IsOrdinary o → index_entries o ≡ []
  unfolding index_entries
  index_entries_of_ordinary [] h = refl
  index_entries_of_ordinary ((j, w) ∷ o) (n, h) = ground (arith, index_entries_of_ordinary o h)

  other_entries_of_ordinary : (o : List (Text × V)) → All IsOrdinary o → other_entries o ≡ o
  unfolding other_entries
  other_entries_of_ordinary [] h = refl
  other_entries_of_ordinary ((j, w) ∷ o) (n, h) = ground (arith, other_entries_of_ordinary o h)

  -- Where no key writes an array index, the entries come in the order of their creation.
  pub entries_of_ordinary : (o : List (Text × V)) → All IsOrdinary o → entries o ≡ o
  unfolding entries
  entries_of_ordinary o h = rw (index_entries_of_ordinary o h) (other_entries_of_ordinary o h)
