-- ===== src/State/Tokens.antt =====
-- One item of a token: writing a value and reading it back.
use pve_manager_electrified.Prelude.{
  ℕ, ◌≡◌, refl, sym, ap, ◌∙◌, Bool, true, false, ◌&&◌, ◌||◌, Option, none, some, List, [], ◌∷◌,
  arith, Bool-cases, inl, inr, all, ◌==◌,
}
use pve_manager_electrified.Text.{Text, text_eq, text_mem, is_digit, is_digits, is_lower}
use pve_manager_electrified.Text.Equality.{text_eq_iff}
use pve_manager_electrified.Text.Split.{Lacks}
use pve_manager_electrified.Object.{lookup, prototype_names}
use pve_manager_electrified.Utils.Decimal.{show, is_digits-show}
use pve_manager_electrified.State.{
  comp_dict, expand, decode_text, decode_item, code_text, code_of, item_of_code, item_of_encoded,
}

-- What `encodeURIComponent` never escapes, among others.
unfoldable pub is_unreserved : ℕ → Bool
unfolding is_digit is_lower
is_unreserved c = is_lower c || is_digit c || c == b'-'

-- What the encoding and the decoding of the platform promise: decoding takes encoding back, small
-- letters, digits and `-` stay, and no colon is left.
pub record IsUri (encode_uri decode_uri : Text → Option Text) : Type 0 where
  pub inverse : (v e : Text) → encode_uri v ≡ some e → decode_uri e ≡ some v
  pub plain : (v : Text) → all is_unreserved v ≡ true → encode_uri v ≡ some v
  pub safe : (v e : Text) → encode_uri v ≡ some e → Lacks b':' e

-- A key and its number read as each other, and the key is never escaped.
is_coded : Text × ℕ → Bool
is_coded (k, h) = text_eq (expand (show h)) k && text_eq (expand k) k && all is_unreserved k

comp_dict_coded : all is_coded comp_dict ≡ true
unfolding is_coded expand is_unreserved show text_eq
comp_dict_coded = refl

is_coded-lookup :
    (e : Text) (h : ℕ) (dict : List (Text × ℕ))
    → all is_coded dict ≡ true
    → lookup e dict ≡ some h
    → is_coded (e, h) ≡ true
unfolding lookup
is_coded-lookup e h [] a q = cc
is_coded-lookup e h ((k, n) ∷ dict) a q = elim (Bool-cases (text_eq e k)) [
  | inl same ↦
      let number : n ≡ h = ground arith in
      let key : k ≡ e = sym ((text_eq_iff e k).0 same) in
      let first : is_coded (k, n) ≡ true = ground (arith, a) in cc
  | inr other ↦ is_coded-lookup e h dict (ground (arith, a)) (ground arith)
]

digits-Lacks-colon : (s : Text) → all is_digit s ≡ true → Lacks b':' s
unfolding is_digit
digits-Lacks-colon [] h = tt
digits-Lacks-colon (c ∷ s) h =
    let rest = digits-Lacks-colon s (ground (arith, h)) in ((λ e. ground (arith, h, e)), rest)

module _ (encode_uri decode_uri : Text → Option Text) (native : Text → Text)
    (uri : IsUri encode_uri decode_uri) where
  decode_item_of_digits :
      (s : Text) → is_digits s ≡ true → decode_item decode_uri s ≡ some (expand s)
  unfolding decode_item is_digits is_digit
  decode_item_of_digits [] h = cc
  decode_item_of_digits (c ∷ s) h = ground (arith, h)

  decode-injective : (v w e : Text) → encode_uri v ≡ some e → decode_uri e ≡ some w → v ≡ w
  decode-injective v w e p q = let r = uri.inverse v e p in cc

  empty_lem : (v : Text) → encode_uri v ≡ some [] → v ≡ []
  empty_lem v p = decode-injective v [] [] p (uri.inverse [] [] (uri.plain [] refl))

  -- A value that has a number.
  coded_lem :
      (v e : Text) (h : ℕ)
      → encode_uri v ≡ some e
      → lookup e comp_dict ≡ some h
      → (decode_item decode_uri (show h) ≡ some (expand v)) × Lacks b':' (show h)
  coded_lem v e h p q =
      let coded = is_coded-lookup e h comp_dict comp_dict_coded q in
      let plain : all is_unreserved e ≡ true = unfold is_coded in ground (arith, coded) in
      let short : text_eq (expand (show h)) e ≡ true = unfold is_coded in ground (arith, coded) in
      let long : text_eq (expand e) e ≡ true = unfold is_coded in ground (arith, coded) in
      let same : v ≡ e = decode-injective v e e p (uri.inverse e e (uri.plain e plain)) in
      let back : expand (show h) ≡ expand v =
        (text_eq_iff _ e).0 short ∙ sym ((text_eq_iff _ e).0 long) ∙ ap expand (sym same) in
      let digits = is_digits-show h in
      (
        decode_item_of_digits (show h) digits ∙ ap some back,
        digits-Lacks-colon (show h) (unfold is_digits in ground (arith, digits)),
      )

  -- A value that has none.
  uncoded_lem :
      (v e : Text) → encode_uri v ≡ some e → decode_item decode_uri (b'=' ∷ e) ≡ some (expand v)
  unfolding decode_item decode_text
  uncoded_lem v e p = rw (uri.inverse v e p) refl

  item_lem :
      (v : Text) (c : ℕ) (e : Text) (o : Option ℕ)
      → encode_uri v ≡ some (c ∷ e)
      → text_mem (c ∷ e) prototype_names ≡ false
      → lookup (c ∷ e) comp_dict ≡ o
      → (decode_item decode_uri (item_of_code (code_text native (c ∷ e) o) (c ∷ e))
          ≡ some (expand v))
        × Lacks b':' (item_of_code (code_text native (c ∷ e) o) (c ∷ e))
  unfolding item_of_code code_text
  item_lem v c e none p own q =
      rw own (uncoded_lem v (c ∷ e) p, ((λ f. ground (arith, f)), uri.safe v (c ∷ e) p))
  item_lem v c e (some h) p own q = coded_lem v (c ∷ e) h p q

  -- Reading the item of a value gives the value, or the key of the number that it writes; and no
  -- colon is in the item.
  pub item_of_encoded_lem :
      (v e : Text)
      → encode_uri v ≡ some e
      → text_mem e prototype_names ≡ false
      → (decode_item decode_uri (item_of_encoded encode_uri native e) ≡ some (expand v))
        × Lacks b':' (item_of_encoded encode_uri native e)
  unfolding item_of_encoded code_of
  item_of_encoded_lem v [] p own =
      (rw (empty_lem v p) (unfold decode_item expand text_eq show in refl), tt)
  item_of_encoded_lem v (c ∷ e) p own = item_lem v c e (lookup (c ∷ e) comp_dict) p own refl
