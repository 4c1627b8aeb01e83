-- ===== src/Forms/Search/Relevance.antt =====
-- The relevance of a resource counts the matches of words and field values.
use pve_manager_electrified.Prelude.{
  ℕ, ◌+◌, ◌≤◌, ◌<◌, ◌≡◌, ◌↔◌, refl, sym, ap, ◌∙◌, Bool, true, some, List, [], ◌∷◌, arith,
  if◌then◌else◌, ltb, append-nil,
}
use pve_manager_electrified.Text.{Text, text_eq, nonempty, strip_prefix}
use pve_manager_electrified.Text.Equality.{text_eq_iff, strip_prefix-append}
use pve_manager_electrified.Utils.Controllers.{contains}
use pve_manager_electrified.Forms.Search.{
  Item, split_words, field_arr, match_words, match_fields, custom_filter,
}

-- How many of the words pass the test with a value.
pub count_words : (Text → Text → Bool) → Text → List Text → ℕ
count_words test value [] = 0
count_words test value (word ∷ words) =
    (if test value word then 1 else 0) + count_words test value words

-- How many pairs of a value that is not empty and a word pass the test.
pub count_pairs : (Text → Text → Bool) → List Text → List Text → ℕ
count_pairs test [] words = 0
count_pairs test (value ∷ values) words =
    (if nonempty value then count_words test value words else 0) + count_pairs test values words

abbrev pub is_part : Text → Text → Bool
is_part value word = contains word value

contains_refl : (s : Text) → contains s s ≡ true
unfolding contains
contains_refl [] = refl
contains_refl (c ∷ s) =
    let e : strip_prefix (c ∷ s) (c ∷ s) ≡ some [] =
      ap (strip_prefix (c ∷ s)) (sym (append-nil (c ∷ s))) ∙ strip_prefix-append (c ∷ s) [] in
    rw e refl

match_words_lem :
    (value : Text) (words : List Text) (match : ℕ)
    → match_words value words match
      ≡ match + count_words is_part value words + count_words text_eq value words
unfolding match_words count_words
match_words_lem value [] match = omega arith
match_words_lem value (word ∷ words) match =
    let same : text_eq value word ≡ true → contains word value ≡ true =
      λ e. rw ((text_eq_iff value word).0 e) (contains_refl word) in
    ground (
      arith,
      match_words_lem value words (match + 1 + 1),
      match_words_lem value words (match + 1),
      match_words_lem value words match,
      same,
    )

exact_le :
    (value : Text) (words : List Text)
    → count_words text_eq value words ≤ count_words is_part value words
unfolding count_words
exact_le value [] = omega arith
exact_le value (word ∷ words) =
    let same : text_eq value word ≡ true → contains word value ≡ true =
      λ e. rw ((text_eq_iff value word).0 e) (contains_refl word) in
    ground (arith, exact_le value words, same)

match_fields_lem :
    (values words : List Text) (match : ℕ)
    → match_fields values words match
      ≡ match + count_pairs is_part values words + count_pairs text_eq values words
unfolding match_fields count_pairs
match_fields_lem [] words match = omega arith
match_fields_lem (value ∷ values) words match = ground (
  arith,
  match_fields_lem values words match,
  match_fields_lem values words (match_words value words match),
  match_words_lem value words match,
)

pairs_le :
    (values words : List Text) → count_pairs text_eq values words ≤ count_pairs is_part values words
unfolding count_pairs
pairs_le [] words = omega arith
pairs_le (value ∷ values) words = ground (arith, pairs_le values words, exact_le value words)

positive_iff : (n p e : ℕ) → n ≡ 0 + p + e → e ≤ p → (ltb 0 n ≡ true) ↔ (0 < p)
positive_iff n p e q l = ground arith

-- With a filter that is not empty, the relevance is the number of pairs of a field value and a word
-- that is a part of it, and once more the number of those that are equal, which is at most twice the
-- first number; the resource is shown exactly when there is such a pair.
pub custom_filter_lem :
    (lower_case : Text → Text) (filter_val : Text) (item : Item)
    → nonempty filter_val ≡ true
    → (let parts = count_pairs is_part (field_arr lower_case item) (split_words filter_val) in
        ((custom_filter lower_case filter_val item).0
          ≡ parts + count_pairs text_eq (field_arr lower_case item) (split_words filter_val))
        × ((custom_filter lower_case filter_val item).0 ≤ parts + parts)
        × (((custom_filter lower_case filter_val item).1 ≡ true) ↔ (0 < parts)))
unfolding custom_filter
custom_filter_lem lower_case [] item h = cc
custom_filter_lem lower_case (c ∷ s) item h =
    let values = field_arr lower_case item in
    let words = split_words (c ∷ s) in
    let m = match_fields_lem values words 0 in
    let le = pairs_le values words in (omega arith, omega arith, positive_iff _ _ _ m le)
