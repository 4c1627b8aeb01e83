-- ===== src/Utils/Notes.antt =====
-- escapeNotesTemplate and unEscapeNotesTemplate of www/manager6/Utils.js.
use pve_manager_electrified.Prelude.{
  ℕ, ◌≡◌, refl, ap, sym, ◌∙◌, ==_iff, [], ◌∷◌, ◌++◌, ◌==◌, if◌then◌else◌, false, Bool-cases, inl,
  inr,
}
use pve_manager_electrified.Text.{Text}

abbrev backslash : ℕ
backslash = 92

-- What one match of `/(\\|[\n])/g` is replaced by; all else is copied.
escape_unit : ℕ → Text
escape_unit c =
    if c == backslash
    then backslash ∷ backslash ∷ []
    else if c == 10
    then backslash ∷ b'n' ∷ []
    else c ∷ []

unfoldable pub escape_notes_template : Text → Text
unfolding escape_unit
escape_notes_template [] = []
escape_notes_template (c ∷ s) = escape_unit c ++ escape_notes_template s

-- The matches of `/(\\\\|\\n)/g`, from the left.
unfoldable pub unescape_notes_template : Text → Text
unescape_notes_template [] = []
unescape_notes_template (c ∷ []) = c ∷ []
unescape_notes_template (c ∷ d ∷ s) =
    let behind = unescape_notes_template s in
    let copied = c ∷ unescape_notes_template (d ∷ s) in
    if c == backslash
    then if d == backslash then backslash ∷ behind else if d == b'n' then 10 ∷ behind else copied
    else copied

unescape-copy :
    (c : ℕ) (s : Text)
    → (c == backslash) ≡ false
    → unescape_notes_template (c ∷ s) ≡ c ∷ unescape_notes_template s
unfolding unescape_notes_template
unescape-copy c [] h = refl
unescape-copy c (d ∷ s) h = rw h

unescape-backslash :
    (s : Text)
    → unescape_notes_template (backslash ∷ backslash ∷ s) ≡ backslash ∷ unescape_notes_template s
unfolding unescape_notes_template
unescape-backslash s = refl

unescape-newline :
    (s : Text) → unescape_notes_template (backslash ∷ b'n' ∷ s) ≡ 10 ∷ unescape_notes_template s
unfolding unescape_notes_template
unescape-newline s = refl

unescape-escape_unit :
    (c : ℕ) (s : Text)
    → unescape_notes_template (escape_unit c ++ s) ≡ c ∷ unescape_notes_template s
unfolding escape_unit
unescape-escape_unit c s = elim (Bool-cases (c == backslash)) [
  | inl e ↦ rw e (
      unescape-backslash s
      ∙ ap (λ d. d ∷ unescape_notes_template s) (sym ((==_iff c backslash).0 e)))
  | inr e ↦ elim (Bool-cases (c == 10)) [
    | inl n ↦
        rw (e, n)
          (unescape-newline s ∙ ap (λ d. d ∷ unescape_notes_template s) (sym ((==_iff c 10).0 n)))
    | inr n ↦ rw (e, n) (unescape-copy c s e)
  ]
]

-- Unescaping what was escaped gives every text back.
pub unescape-escape_notes_template :
    (s : Text) → unescape_notes_template (escape_notes_template s) ≡ s
unfolding escape_notes_template
unescape-escape_notes_template [] = unfold unescape_notes_template in refl
unescape-escape_notes_template (c ∷ s) =
    unescape-escape_unit c (escape_notes_template s) ∙ ap (◌∷◌ c) (unescape-escape_notes_template s)
