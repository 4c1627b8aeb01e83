-- ===== src/State/Slots.antt =====
-- A whole token: encoding a state and decoding the token.
use pve_manager_electrified.Prelude.{
  ◌≡◌, ◌≢◌, refl, sym, ap, ◌∙◌, false, Option, some, List, [], ◌∷◌, ◌++◌, All, append_assoc,
  append-nil, arith,
}
use pve_manager_electrified.Text.{Text, text_mem, split}
use pve_manager_electrified.Text.Split.{Lacks, split-append, split_of_Lacks}
use pve_manager_electrified.Object.{lookup, prototype_names}
use pve_manager_electrified.State.{
  UiState, hslist, hprefix, expand, slot_text, decode_item, decode_slots, decode_token, encode_item,
  encode_slots, encode_token, item_of_encoded,
}
use pve_manager_electrified.State.Tokens.{IsUri, item_of_encoded_lem}

-- The items of a token, each behind its colon.
tail : List Text → Text
tail [] = []
tail (item ∷ items) = b':' ∷ item ++ tail items

split-tail :
    (p : Text) (items : List Text)
    → Lacks b':' p
    → All (Lacks b':') items
    → split b':' (p ++ tail items) ≡ p ∷ items
unfolding tail
split-tail p [] hp h = ap (split b':') (append-nil p) ∙ split_of_Lacks b':' p hp
split-tail p (item ∷ items) hp (hi, h) =
    split-append b':' p _ hp ∙ ap (◌∷◌ p) (split-tail item items hi h)

-- Each slot with the text of its value, or its default; a text that is the number of a key is that key.
unfoldable pub read_back : UiState → List (Text × Text) → UiState
read_back state [] = []
read_back state ((name, standard) ∷ slots) =
    (name, some (expand (slot_text (lookup name state) standard))) ∷ read_back state slots

-- The text of the slot can be encoded, and is no name that objects inherit.
abbrev pub IsEncodable : (Text → Option Text) → UiState → Text × Text → Type 0
IsEncodable encode_uri state (name, standard) =
    (e : Text) × (encode_uri (slot_text (lookup name state) standard) ≡ some e)
    × (text_mem e prototype_names ≡ false)

module _ (encode_uri decode_uri : Text → Option Text) (native : Text → Text) (state : UiState) where
  -- What encoding and decoding the slots give.
  record Outcome (slots : List (Text × Text)) : Type 0 where
    items : List Text
    written : (t : Text) → encode_slots encode_uri native state slots t ≡ some (t ++ tail items)
    lacks : All (Lacks b':') items
    read : decode_slots decode_uri slots items ≡ some (read_back state slots)

  encode_slots-cons :
      (name standard e : Text) (slots : List (Text × Text)) (t : Text)
      → encode_uri (slot_text (lookup name state) standard) ≡ some e
      → encode_slots encode_uri native state ((name, standard) ∷ slots) t
        ≡ encode_slots encode_uri native state slots
            (t ++ b':' ∷ item_of_encoded encode_uri native e)
  unfolding encode_slots encode_item
  encode_slots-cons name standard e slots t p = rw p refl

  decode_slots-cons :
      (name standard item value : Text) (slots : List (Text × Text)) (items : List Text)
      (out : UiState)
      → decode_item decode_uri item ≡ some value
      → decode_slots decode_uri slots items ≡ some out
      → decode_slots decode_uri ((name, standard) ∷ slots) (item ∷ items)
        ≡ some ((name, some value) ∷ out)
  unfolding decode_slots
  decode_slots-cons name standard item value slots items out p q = rw (p, q) refl

  slots_lem :
      (slots : List (Text × Text))
      → IsUri encode_uri decode_uri
      → All (IsEncodable encode_uri state) slots
      → Outcome slots
  unfolding tail read_back
  slots_lem [] uri h = record {
    items = [];
    written = λ t. unfold encode_slots in ap some (sym (append-nil t));
    lacks = tt;
    read = unfold decode_slots in refl;
  }
  slots_lem ((name, standard) ∷ slots) uri ((e, encodes, own), h) =
      let rest = slots_lem slots uri h in
      let item = item_of_encoded encode_uri native e in
      let lem =
        item_of_encoded_lem encode_uri decode_uri native uri
          (slot_text (lookup name state) standard) e encodes own in
      record {
        items = item ∷ rest.items;
        written = λ t.
            encode_slots-cons name standard e slots t encodes
            ∙ rest.written (t ++ b':' ∷ item)
            ∙ ap some (append_assoc t (b':' ∷ item) (tail rest.items));
        lacks = (lem.1, rest.lacks);
        read = decode_slots-cons name standard item _ slots rest.items _ lem.0 rest.read;
      }

decode_token-tail :
    (decode_uri : Text → Option Text) (items : List Text)
    → All (Lacks b':') items
    → decode_token decode_uri (some (hprefix ++ tail items)) ≡ decode_slots decode_uri hslist items
unfolding decode_token
decode_token-tail decode_uri items h =
    rw (split-tail hprefix items ((λ e. omega arith), ((λ e. omega arith), tt)) h) refl

pub decode-encode_token_filled :
    (encode_uri decode_uri : Text → Option Text) (native : Text → Text) (state : UiState)
    → IsUri encode_uri decode_uri
    → All (IsEncodable encode_uri state) hslist
    → (token : Text) × (encode_token encode_uri native state ≡ some token)
      × (decode_token decode_uri (some token) ≡ some (read_back state hslist))
      × (token ≢ [])
decode-encode_token_filled encode_uri decode_uri native state uri h =
    let lem = slots_lem encode_uri decode_uri native state hslist uri h in
    (
      hprefix ++ tail lem.items,
      unfold encode_token in lem.written hprefix,
      decode_token-tail decode_uri lem.items lem.lacks ∙ lem.read,
      λ e. cc,
    )
