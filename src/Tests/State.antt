-- ===== src/Tests/State.antt =====
-- The tokens of the history: runs, and the theorems at an input.
use pve_manager_electrified.Prelude.{
  ◌||◌, ◌==◌, ap, ◌≡◌, ◌≢◌, ◌⊎◌, refl, true, Option, none, some, [], ◌∷◌, all, arith, if◌then◌else◌,
}
use pve_manager_electrified.Text.{Text, codes}
use pve_manager_electrified.Object.{lookup, put}
use pve_manager_electrified.State.{UiState, default_state, encode_token, expand}
use pve_manager_electrified.State.Tokens.{is_unreserved}
use pve_manager_electrified.State.Provider.{Provider, new_provider, set}
use pve_manager_electrified.State.Provider.History.{set_lem}

-- A codec for texts that need no escape.
plain_codec : Text → Option Text
plain_codec v = if all is_unreserved v then some v else none

abbrev native_text : Text → Text
native_text v = codes "function"

-- A text in quotes, with the quotes and backslashes in it escaped.
quoted : Text → Text
quoted [] = b'"' ∷ []
quoted (c ∷ v) = let rest = quoted v in if c == b'"' || c == 92 then 92 ∷ c ∷ rest else c ∷ rest

-- What `Ext.encode` writes for `undefined`, `null` and texts without control characters.
json : Option (Option Text) → Text
json none = codes "null"
json (some none) = codes "null"
json (some (some v)) = b'"' ∷ quoted v

quoted-injective : (v w : Text) → quoted v ≡ quoted w → v ≡ w
unfolding quoted
quoted-injective [] [] h = refl
quoted-injective [] (d ∷ w) h = ground (arith, h)
quoted-injective (c ∷ v) [] h = ground (arith, h)
quoted-injective (c ∷ v) (d ∷ w) h = ground (arith, h, quoted-injective v w)

json-injective : (a b : Option Text) → json (some a) ≡ json (some b) → a ≡ b
unfolding json
json-injective none none h = refl
json-injective none (some w) h = absurd (ground arith)
json-injective (some v) none h = absurd (ground arith)
json-injective (some v) (some w) h =
    let q : quoted v ≡ quoted w = cc in ap some (quoted-injective v w q)

abbrev with_storage : UiState
with_storage = put (codes "view") (some (codes "storage")) new_provider.ui_state

token_of_storage :
    encode_token plain_codec native_text with_storage ≡ some (codes "v1:2:18:4:::::::")
unfolding encode_token plain_codec is_unreserved put default_state
token_of_storage = refl

set_lem_example :
    (me' : Provider) × (set json plain_codec native_text
        (codes "view")
        (some (codes "storage"))
        true
        new_provider
      ≡ some me')
    × (lookup (codes "view") me'.ui_state ≡ some (some (codes "storage")))
    × ((j : Text) → j ≢ codes "view" → lookup j me'.ui_state ≡ lookup j new_provider.ui_state)
    × (((some (codes "server") ≡ some (codes "storage")) × (me'.history ≡ new_provider.history))
        ⊎ ((some (codes "server") ≢ some (codes "storage"))
            × (me'.history ≡ codes "v1:2:18:4:::::::" ∷ new_provider.history)))
set_lem_example =
    set_lem json plain_codec native_text (codes "view") (some (codes "server"))
      (some (codes "storage")) true new_provider (codes "v1:2:18:4:::::::") json-injective
      (unfold lookup in unfold default_state in refl) (λ e. cc) token_of_storage

-- The value `5` of a slot is read back as the key with that number.
number_lost : expand (codes "5") ≡ codes "summary"
unfolding expand
number_lost = refl
