-- ===== src/Parser/PropertyString/Sorting.antt =====
-- Sorting the printed parts is sorting the entries, and keeps what the entries say of each key.
use pve_manager_electrified.Prelude.{
  ◌≡◌, ◌≢◌, refl, sym, ap, ◌∙◌, some, List, [], ◌∷◌, arith, All, map, if◌then◌else◌, Bool-cases,
  inl, inr,
}
use pve_manager_electrified.Text.{Text, text_eq}
use pve_manager_electrified.Text.Equality.{text_eq_iff}
use pve_manager_electrified.Object.{lookup}
use pve_manager_electrified.Object.Laws.{Absent, HasDistinctKeys}
use pve_manager_electrified.Parser.{render}
use pve_manager_electrified.Parser.PropertyString.{text_leb, insert_text, sort_texts}

pub insert_entry : Text × Text → List (Text × Text) → List (Text × Text)
insert_entry e [] = e ∷ []
insert_entry e (d ∷ es) =
    let rest = insert_entry e es in if text_leb (render e) (render d) then e ∷ d ∷ es else d ∷ rest

pub sort_entries : List (Text × Text) → List (Text × Text)
sort_entries [] = []
sort_entries (e ∷ es) = insert_entry e (sort_entries es)

insert_text-map :
    (e : Text × Text) (es : List (Text × Text))
    → insert_text (render e) (map render es) ≡ map render (insert_entry e es)
unfolding insert_text insert_entry
insert_text-map e [] = refl
insert_text-map e (d ∷ es) = elim (Bool-cases (text_leb (render e) (render d))) [
  | inl h ↦ rw h
  | inr h ↦ rw h (ap (◌∷◌ (render d)) (insert_text-map e es))
]

pub sort_texts-map :
    (es : List (Text × Text)) → sort_texts (map render es) ≡ map render (sort_entries es)
unfolding sort_texts sort_entries
sort_texts-map [] = refl
sort_texts-map (e ∷ es) = rw (sort_texts-map es) (insert_text-map e (sort_entries es))

module _ (P : Text × Text → Type 0) where
  All-insert_entry :
      (e : Text × Text) (es : List (Text × Text)) → P e → All P es → All P (insert_entry e es)
  unfolding insert_entry
  All-insert_entry e [] p h = (p, tt)
  All-insert_entry e (d ∷ es) p (q, h) = elim (Bool-cases (text_leb (render e) (render d))) [
    | inl t ↦ rw t (p, (q, h))
    | inr t ↦ rw t (q, All-insert_entry e es p h)
  ]

  pub All-sort_entries : (es : List (Text × Text)) → All P es → All P (sort_entries es)
  unfolding sort_entries
  All-sort_entries [] h = tt
  All-sort_entries (e ∷ es) (p, h) = All-insert_entry e _ p (All-sort_entries es h)

HasDistinctKeys-insert_entry :
    (e : Text × Text) (es : List (Text × Text))
    → Absent e.0 es
    → HasDistinctKeys es
    → HasDistinctKeys (insert_entry e es)
unfolding insert_entry
HasDistinctKeys-insert_entry e [] h d = (tt, tt)
HasDistinctKeys-insert_entry e (d ∷ es) (n, h) (a, ds) =
    elim (Bool-cases (text_leb (render e) (render d))) [
      | inl t ↦ rw t ((n, h), (a, ds))
      | inr t ↦ rw t (
        All-insert_entry (λ c. d.0 ≢ c.0) e es (λ q. n (sym q)) a,
        HasDistinctKeys-insert_entry e es h ds,
      )
    ]

pub HasDistinctKeys-sort_entries :
    (es : List (Text × Text)) → HasDistinctKeys es → HasDistinctKeys (sort_entries es)
unfolding sort_entries
HasDistinctKeys-sort_entries [] h = tt
HasDistinctKeys-sort_entries ((k, v) ∷ es) (a, d) =
    HasDistinctKeys-insert_entry (k, v) _ (All-sort_entries (λ e. k ≢ e.0) es a)
      (HasDistinctKeys-sort_entries es d)

lookup-insert_entry :
    (j : Text) (e : Text × Text) (es : List (Text × Text))
    → Absent e.0 es
    → lookup j (insert_entry e es) ≡ (if text_eq j e.0 then some e.1 else lookup j es)
unfolding lookup insert_entry
lookup-insert_entry j e [] h = refl
lookup-insert_entry j e ((i, w) ∷ es) (n, h) =
    ground (arith, text_eq_iff j i, text_eq_iff j e.0, lookup-insert_entry j e es h)

pub lookup-sort_entries :
    (j : Text) (es : List (Text × Text))
    → HasDistinctKeys es
    → lookup j (sort_entries es) ≡ lookup j es
unfolding lookup sort_entries
lookup-sort_entries j [] h = refl
lookup-sort_entries j ((k, v) ∷ es) (a, d) =
    lookup-insert_entry j (k, v) (sort_entries es) (All-sort_entries (λ e. k ≢ e.0) es a)
    ∙ ground (arith, lookup-sort_entries j es d)
