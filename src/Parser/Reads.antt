-- ===== src/Parser/Reads.antt =====
-- Texts that a printer has written so far, and what the parser of the same format reads from them.
use pve_manager_electrified.Prelude.{
  ◌≡◌, sym, ap, ◌∙◌, Bool, true, Option, none, some, List, [], ◌∷◌, ◌++◌, All, All-append,
}
use pve_manager_electrified.Text.{Text, split, join, nonempty, add_field, plus_eq}
use pve_manager_electrified.Text.Split.{Lacks, Lacks-append, split-join, join-concat}
use pve_manager_electrified.Parser.{each, each_concat}

-- An option whose value passes the parser's test and holds no comma.
abbrev pub IsField : (Text → Bool) → Option Text → Type 0
IsField test none = Unit
IsField test (some v) = (test v ≡ true) × Lacks b',' v

module _ {ℓ} {S : Type ℓ} (step : S → Text → Option S) (init : S) where
  -- `text` is a list of parts joined by commas, from which the loop over `init` gives `s`.
  pub record Reads (s : S) (text : Option Text) : Type ℓ where
    pub head : Text
    pub tail : List Text
    pub spelled : text ≡ some (join b',' (head ∷ tail))
    pub head_lacks : Lacks b',' head
    pub tail_lacks : All (Lacks b',') tail
    pub read : each step init (head ∷ tail) ≡ some s

  pub Reads-part :
      (s s' : S) (text : Option Text) (p : Text)
      → Reads s text
      → Lacks b',' p
      → step s p ≡ some s'
      → Reads s' (plus_eq text (b',' ∷ p))
  Reads-part s s' text p r h e = record {
    head = r.head;
    tail = r.tail ++ p ∷ [];
    spelled =
        ap (λ t. plus_eq t (b',' ∷ p)) r.spelled ∙ ap some (sym (join-concat b',' r.head r.tail p));
    head_lacks = r.head_lacks;
    tail_lacks = All-append _ r.tail (p ∷ []) r.tail_lacks (h, tt);
    read = each_concat step init (r.head ∷ r.tail) p r.read e;
  }

  -- `if (field) { text += ',key=' + field; }` is read back as the setting of the field.
  pub Reads-add_field :
      (key : Text) (test : Text → Bool) (f : Option Text) (with_field : Option Text → S)
      (text : Option Text)
      → ((v : Text) → test v ≡ true → nonempty v ≡ true)
      → ((v : Text)
          → test v ≡ true
          → step (with_field none) (key ++ v) ≡ some (with_field (some v)))
      → Lacks b',' key
      → IsField test f
      → Reads (with_field none) text
      → Reads (with_field f) (add_field (b',' ∷ key) f text)
  Reads-add_field key test none with_field text full sets hk h r = r
  Reads-add_field key test (some []) with_field text full sets hk (h, l) r = cc (full [] h)
  Reads-add_field key test (some (c ∷ v)) with_field text full sets hk (h, l) r =
      Reads-part _ _ text (key ++ c ∷ v) r (Lacks-append b',' key (c ∷ v) hk l) (sets (c ∷ v) h)

  -- Reading the text that was written gives the object that it was written from.
  pub Reads-split :
      (s : S) (text : Text) → Reads s (some text) → each step init (split b',' text) ≡ some s
  Reads-split s text r =
      let e : text ≡ join b',' (r.head ∷ r.tail) = cc (r.spelled) in
      ap (λ t. each step init (split b',' t)) e
      ∙ ap (each step init) (split-join b',' r.head r.tail r.head_lacks r.tail_lacks)
      ∙ r.read
