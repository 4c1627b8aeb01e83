-- ===== src/Parser/Options.antt =====
-- The common part of the drive, mount point and processor formats: an object of options that is
-- printed behind a leading value, and read back by assignments that refuse a key twice.
use pve_manager_electrified.Prelude.{
  ◌≡◌, refl, sym, ap, ◌∙◌, Bool, true, false, Option, none, some, List, [], ◌∷◌, ◌++◌, arith, All,
  map, All-imp, All-map, append_assoc, append-nil, if◌then◌else◌, ◌⊎◌, Bool-cases, inl, inr,
}
use pve_manager_electrified.Text.{Text, split, join, plus_eq, text_mem}
use pve_manager_electrified.Text.Equality.{text_eq_iff}
use pve_manager_electrified.Text.Split.{Lacks, split-join}
use pve_manager_electrified.Object.{lookup, is_defined, prototype_names}
use pve_manager_electrified.Object.Laws.{Absent, HasDistinctKeys, Absent-concat, has_own_of_Absent}
use pve_manager_electrified.Parser.{each, each_step, render}

-- The loop `text += ',' + key + '=' + value` over the entries that are not skipped.
unfoldable pub add_options : (Text → Bool) → Option Text → List (Text × Text) → Option Text
add_options skip text [] = text
add_options skip text (e ∷ o) =
    add_options skip (if skip e.0 then text else plus_eq text (b',' ∷ render e)) o

-- The entries that the loop prints.
unfoldable pub printed : (Text → Bool) → List (Text × Text) → List (Text × Text)
printed skip [] = []
printed skip (e ∷ o) = let rest = printed skip o in if skip e.0 then rest else e ∷ rest

-- What an empty text in front of the parts leaves to be put before it.
pub append-join : (f : Text) (rs : List Text) → f ++ join b',' ([] ∷ rs) ≡ join b',' (f ∷ rs)
unfolding join
append-join f [] = append-nil f
append-join f (r ∷ rs) = refl

join_behind :
    (s r : Text) (rs : List Text)
    → join b',' ((s ++ b',' ∷ r) ∷ rs) ≡ s ++ b',' ∷ join b',' (r ∷ rs)
unfolding join
join_behind s r [] = refl
join_behind s r (q ∷ rs) = append_assoc s (b',' ∷ r) _

pub add_options-join :
    (skip : Text → Bool) (s : Text) (o : List (Text × Text))
    → add_options skip (some s) o ≡ some (join b',' (s ∷ map render (printed skip o)))
unfolding add_options printed join
add_options-join skip s [] = refl
add_options-join skip s (e ∷ o) = elim (Bool-cases (skip e.0)) [
  | inl h ↦ rw (h, printed) (add_options-join skip s o)
  | inr h ↦
      rw (h, printed)
        (add_options-join skip (s ++ b',' ∷ render e) o
          ∙ ap some (join_behind s (render e) (map render (printed skip o))))
]

pub is_defined_of_Absent :
    (k : Text) (o : List (Text × Text))
    → Absent k o
    → text_mem k prototype_names ≡ false
    → is_defined k o ≡ false
unfolding is_defined
is_defined_of_Absent k o h n = ground (arith, has_own_of_Absent k o h, n)

module _ (step : List (Text × Text) → Text → Option (List (Text × Text)))
    (IsGood : Text × Text → Type 0)
    (assigns : (res : List (Text × Text)) (e : Text × Text)
      → IsGood e
      → Absent e.0 res
      → step res (render e) ≡ some (res ++ e ∷ [])) where
  -- Options under new and distinct keys are all assigned, in order.
  pub each-options :
      (res es : List (Text × Text))
      → All IsGood es
      → HasDistinctKeys es
      → All (λ e. Absent e.0 res) es
      → each step res (map render es) ≡ some (res ++ es)
  each-options res [] h d n = unfold each in ap some (sym (append-nil res))
  each-options res (e ∷ es) (g, h) (a, d) (n, ns) =
      each_step step res (render e) (map render es) (assigns res e g n)
      ∙ each-options (res ++ e ∷ []) es h d (new es a ns)
      ∙ ap some (append_assoc res (e ∷ []) es)
    where
      new :
          (fs : List (Text × Text))
          → Absent e.0 fs
          → All (λ f. Absent f.0 res) fs
          → All (λ f. Absent f.0 (res ++ e ∷ [])) fs
      new [] a ns = tt
      new (f ∷ fs) (ne, a) (n, ns) =
          (Absent-concat f.0 res e.0 e.1 n (λ q. ne (sym q)), new fs a ns)

  -- The text that stands in front of the printed options is read first, and gives `base`.
  pub each-leading :
      (init base : List (Text × Text)) (f : Text) (es : List (Text × Text))
      → step init f ≡ some base
      → Lacks b',' f
      → ((e : Text × Text) → IsGood e → Lacks b',' (render e))
      → All IsGood es
      → HasDistinctKeys es
      → All (λ e. Absent e.0 base) es
      → each step init (split b',' (join b',' (f ∷ map render es))) ≡ some (base ++ es)
  each-leading init base f es first l lacks h d n =
      ap (each step init)
        (split-join b',' f (map render es) l (All-map (Lacks b',') render lacks es h))
      ∙ each_step step init f (map render es) first
      ∙ each-options base es h d n

pub lookup-printed :
    (skip : Text → Bool) (k : Text) (o : List (Text × Text))
    → lookup k (printed skip o) ≡ (if skip k then none else lookup k o)
unfolding lookup printed
lookup-printed skip k [] = ground arith
lookup-printed skip k ((j, w) ∷ o) =
    ground (arith, text_eq_iff k j, λ (e : k ≡ j). ap skip e, lookup-printed skip k o)

pub All-printed {κ} :
    (P : Text × Text → Type κ) (skip : Text → Bool) (o : List (Text × Text))
    → All (λ e. (skip e.0 ≡ true) ⊎ P e) o
    → All P (printed skip o)
unfolding printed
All-printed P skip [] h = tt
All-printed P skip (e ∷ o) (inl s, h) = rw (s, printed) (All-printed P skip o h)
All-printed P skip (e ∷ o) (inr p, h) = elim (Bool-cases (skip e.0)) [
  | inl s ↦ rw (s, printed) (All-printed P skip o h)
  | inr s ↦ rw (s, printed) (p, All-printed P skip o h)
]

Absent-printed :
    (k : Text) (skip : Text → Bool) (o : List (Text × Text))
    → Absent k o
    → Absent k (printed skip o)
Absent-printed k skip o h = All-printed _ skip o (All-imp (λ e n. inr n) o h)

pub HasDistinctKeys-printed :
    (skip : Text → Bool) (o : List (Text × Text))
    → HasDistinctKeys o
    → HasDistinctKeys (printed skip o)
unfolding printed
HasDistinctKeys-printed skip [] h = tt
HasDistinctKeys-printed skip ((k, v) ∷ o) (a, d) = elim (Bool-cases (skip k)) [
  | inl s ↦ rw (s, printed) (HasDistinctKeys-printed skip o d)
  | inr s ↦ rw (s, printed) (Absent-printed k skip o a, HasDistinctKeys-printed skip o d)
]

-- A key that is skipped is among none of the printed entries.
pub Absent-printed_skipped :
    (k : Text) (skip : Text → Bool) (o : List (Text × Text))
    → skip k ≡ true
    → Absent k (printed skip o)
unfolding printed
Absent-printed_skipped k skip [] s = tt
Absent-printed_skipped k skip (e ∷ o) s = elim (Bool-cases (skip e.0)) [
  | inl h ↦ rw (h, printed) (Absent-printed_skipped k skip o s)
  | inr h ↦ rw (h, printed) (λ q. cc (ap skip q), Absent-printed_skipped k skip o s)
]
