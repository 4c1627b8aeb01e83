-- ===== src/State.antt =====
-- www/manager6/StateProvider.js: the part of the interface's state that is kept in the browser's
-- history, as a token such as `v1:0:18:4:::::::`. `encodeURIComponent` and `decodeURIComponent` are
-- the platform's, parameters that may throw (`none`); so are the text of what an object inherits,
-- and `Ext.encode`.
pub mod Tokens
pub mod Slots
pub mod Provider
use pve_manager_electrified.Prelude.{
  ℕ, Bool, true, false, not, Option, none, some, List, [], ◌∷◌, ◌++◌, ◌==◌, if◌then◌else◌, ◌>>=◌,
}
use pve_manager_electrified.Text.{Text, codes, text_eq, text_mem, split, nonempty}
use pve_manager_electrified.Object.{lookup, put, prototype_names}
use pve_manager_electrified.Utils.Decimal.{show}

-- The names of the slots with their defaults, in the order of notification.
abbrev pub hslist : List (Text × Text)
hslist =
    (codes "view", codes "server")
    ∷ (codes "rid", codes "root")
    ∷ (codes "ltab", codes "tasks")
    ∷ (codes "nodetab", [])
    ∷ (codes "storagetab", [])
    ∷ (codes "sdntab", [])
    ∷ (codes "pooltab", [])
    ∷ (codes "kvmtab", [])
    ∷ (codes "lxctab", [])
    ∷ (codes "dctab", [])
    ∷ []

abbrev pub hprefix : Text
hprefix = codes "v1"

abbrev pub comp_dict : List (Text × ℕ)
comp_dict =
    (codes "tfa", 54)
    ∷ (codes "sdn", 53)
    ∷ (codes "cloudinit", 52)
    ∷ (codes "replication", 51)
    ∷ (codes "system", 50)
    ∷ (codes "monitor", 49)
    ∷ (codes "ha-fencing", 48)
    ∷ (codes "ha-rules", 47)
    ∷ (codes "ha-resources", 46)
    ∷ (codes "ceph-log", 45)
    ∷ (codes "ceph-crushmap", 44)
    ∷ (codes "ceph-pools", 43)
    ∷ (codes "ceph-osdtree", 42)
    ∷ (codes "ceph-disklist", 41)
    ∷ (codes "ceph-monlist", 40)
    ∷ (codes "ceph-config", 39)
    ∷ (codes "ceph", 38)
    ∷ (codes "firewall-fwlog", 37)
    ∷ (codes "firewall-options", 36)
    ∷ (codes "firewall-ipset", 35)
    ∷ (codes "firewall-aliases", 34)
    ∷ (codes "firewall-sg", 33)
    ∷ (codes "firewall", 32)
    ∷ (codes "apt", 31)
    ∷ (codes "members", 30)
    ∷ (codes "snapshot", 29)
    ∷ (codes "ha", 28)
    ∷ (codes "support", 27)
    ∷ (codes "pools", 26)
    ∷ (codes "syslog", 25)
    ∷ (codes "ubc", 24)
    ∷ (codes "initlog", 23)
    ∷ (codes "openvz", 22)
    ∷ (codes "backup", 21)
    ∷ (codes "resources", 20)
    ∷ (codes "content", 19)
    ∷ (codes "root", 18)
    ∷ (codes "domains", 17)
    ∷ (codes "roles", 16)
    ∷ (codes "groups", 15)
    ∷ (codes "users", 14)
    ∷ (codes "time", 13)
    ∷ (codes "dns", 12)
    ∷ (codes "network", 11)
    ∷ (codes "services", 10)
    ∷ (codes "options", 9)
    ∷ (codes "console", 8)
    ∷ (codes "hardware", 7)
    ∷ (codes "permissions", 6)
    ∷ (codes "summary", 5)
    ∷ (codes "tasks", 4)
    ∷ (codes "clog", 3)
    ∷ (codes "storage", 2)
    ∷ (codes "folder", 1)
    ∷ (codes "server", 0)
    ∷ []

-- A value is a text or `null` (`none`); a name that is missing has the value `undefined`.
abbrev pub UiState : Type 0
UiState = List (Text × Option Text)

-- The texts of `hslist`, as a state.
unfoldable pub defaults_of : List (Text × Text) → UiState
defaults_of [] = []
defaults_of ((name, value) ∷ slots) = (name, some value) ∷ defaults_of slots

unfoldable pub default_state : UiState
unfolding defaults_of
default_state = defaults_of hslist

-- The first key whose number is written so.
unfoldable pub key_of_code : Text → List (Text × ℕ) → Option Text
unfolding text_eq show
key_of_code value [] = none
key_of_code value ((key, hash) ∷ dict) =
    if text_eq value (show hash) then some key else key_of_code value dict

abbrev pub or_value : Option Text → Text → Text
or_value none value = value
or_value (some key) value = key

-- What the loop over `compDict` makes of a value.
unfoldable pub expand : Text → Text
unfolding key_of_code
expand value = or_value (key_of_code value comp_dict) value

module _ (decode_uri : Text → Option Text) where
  decode_text : Text → Option Text
  decode_text value = do decoded ← decode_uri value; some (expand decoded)

  unfoldable pub decode_item : Text → Option Text
  unfolding decode_text expand
  decode_item [] = some []
  decode_item (c ∷ value) = if c == b'=' then decode_text value else some (expand (c ∷ value))

  -- A slot for which no item is left gets `undefined`.
  unfoldable pub decode_slots : List (Text × Text) → List Text → Option UiState
  unfolding decode_item
  decode_slots [] items = some []
  decode_slots (slot ∷ slots) [] = some []
  decode_slots ((name, standard) ∷ slots) (item ∷ items) = do
    value ← decode_item item
    state ← decode_slots slots items
    some ((name, some value) ∷ state)

  decode_parts : List Text → Option UiState
  unfolding default_state text_eq
  decode_parts [] = some default_state
  decode_parts (prefix ∷ items) =
      if text_eq prefix hprefix then decode_slots hslist items else some default_state

  unfoldable pub decode_token : Option Text → Option UiState
  unfolding decode_parts default_state split
  decode_token none = some default_state
  decode_token (some []) = some default_state
  decode_token (some (c ∷ token)) = decode_parts (split b':' (c ∷ token))

-- `compDict[value]` as a text, own or inherited.
code_text : (Text → Text) → Text → Option ℕ → Option Text
unfolding text_mem show
code_text native value (some hash) = some (show hash)
code_text native value none = if text_mem value prototype_names then some (native value) else none

unfoldable pub code_of : (Text → Text) → Text → Option Text
unfolding code_text lookup
code_of native value = code_text native value (lookup value comp_dict)

-- The value of a slot as a text; `null` is written so.
unfoldable pub slot_text : Option (Option Text) → Text → Text
slot_text none standard = standard
slot_text (some none) standard = codes "null"
slot_text (some (some value)) standard = value

item_of_code : Option Text → Text → Text
item_of_code none value = b'=' ∷ value
item_of_code (some code) value = code

module _ (encode_uri : Text → Option Text) (native : Text → Text) where
  unfoldable pub item_of_encoded : Text → Text
  unfolding item_of_code code_of
  item_of_encoded [] = []
  item_of_encoded (c ∷ value) = item_of_code (code_of native (c ∷ value)) (c ∷ value)

  -- What is added behind the colon.
  unfoldable pub encode_item : Text → Option Text
  unfolding item_of_encoded
  encode_item value = do encoded ← encode_uri value; some (item_of_encoded encoded)

  unfoldable pub encode_slots : UiState → List (Text × Text) → Text → Option Text
  unfolding encode_item slot_text lookup
  encode_slots state [] ctoken = some ctoken
  encode_slots state ((name, standard) ∷ slots) ctoken = do
    item ← encode_item (slot_text (lookup name state) standard)
    encode_slots state slots (ctoken ++ b':' ∷ item)

  unfoldable pub encode_token : UiState → Option Text
  unfolding encode_slots
  encode_token state = encode_slots state hslist hprefix
