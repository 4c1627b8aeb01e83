-- ===== src/State/Provider.antt =====
-- The methods of www/manager6/StateProvider.js on the provider's state. What Ext does is recorded:
-- the tokens that are added to the history, the events, and the calls of the parent class.
pub mod History
use pve_manager_electrified.Prelude.{
  ℕ, suc, Bool, true, false, not, ◌&&◌, Option, none, some, List, [], ◌∷◌, if◌then◌else◌, ◌>>=◌,
}
use pve_manager_electrified.Text.{Text, codes, text_eq}
use pve_manager_electrified.Object.{lookup, put}
use pve_manager_electrified.State.{UiState, hslist, default_state, decode_token, encode_token}

-- Newest first: `Ext.History.add`, `statechange`, and the names with which the parent is called.
-- `backs` counts the calls of `Ext.History.back`.
pub record Provider : Type 0 where
  pub ui_state : UiState
  pub history : List Text
  pub fired : List (Text × Option Text)
  pub parent_calls : List (Text × Option Text)
  pub backs : ℕ

-- `get` gives the value of a slot, what the parent gives, or the empty capabilities.
pub data Reading (D : Type 0) : Type 0 where
  slot : Option Text → Reading D
  stored : D → Reading D
  empty_caps : Reading D
  nothing : Reading D

abbrev pub new_provider : Provider
new_provider = record {
  ui_state = default_state;
  history = [];
  fired = [];
  parent_calls = [];
  backs = 0;
}

fire_if : Bool → Text → Option Text → Provider → Provider
fire_if true name value me = record me { fired = (name, value) ∷ me.fired }
fire_if false name value me = me

or_empty_caps : {D : Type 0} → Bool → Option D → Reading D
or_empty_caps caps (some d) = stored d
or_empty_caps true none = empty_caps
or_empty_caps false none = nothing

get_or : {D : Type 0} → Option (Option Text) → Reading D → Reading D
get_or none other = other
get_or (some value) other = slot value

unfoldable pub get : {D : Type 0} → (Text → Option D) → Text → Provider → Reading D
unfolding get_or or_empty_caps lookup text_eq
get parent_get name me =
    get_or (lookup name me.ui_state)
      (or_empty_caps (text_eq name (codes "GuiCap")) (parent_get name))

clear_slot : Option (Option Text) → Text → UiState → UiState
unfolding put
clear_slot none name state = state
clear_slot (some value) name state = put name none state

unfoldable pub clear : Text → Provider → Provider
unfolding clear_slot lookup
clear name me = record me {
  ui_state = clear_slot (lookup name me.ui_state) name me.ui_state;
  parent_calls = (name, none) ∷ me.parent_calls;
}

module _ (ext_encode : Option (Option Text) → Text) where
  -- Whether the value of the slot changes.
  unfoldable pub is_change : Text → Option Text → Provider → Bool
  unfolding text_eq lookup
  is_change name newvalue me =
      not (text_eq (ext_encode (some newvalue)) (ext_encode (lookup name me.ui_state)))

  write_slot : Text → Option Text → Bool → Provider → Provider
  unfolding put fire_if
  write_slot name newvalue fire me =
      fire_if fire name newvalue (record me { ui_state = put name newvalue me.ui_state })

  -- setHV, with the provider that it leaves behind and what it returns.
  unfoldable pub set_hv : Text → Option Text → Bool → Provider → Provider × Bool
  unfolding is_change write_slot
  set_hv name newvalue fire me =
      if is_change name newvalue me then (write_slot name newvalue fire me, true) else (me, false)

  set_if : Option (Option Text) → Text → Provider → Provider
  unfolding set_hv
  set_if none name me = me
  set_if (some value) name me = (set_hv name value true me).0

  unfoldable pub set_slots : UiState → List (Text × Text) → Provider → Provider
  unfolding set_if lookup
  set_slots newstate [] me = me
  set_slots newstate ((name, standard) ∷ slots) me =
      set_slots newstate slots (set_if (lookup name newstate) name me)

  module _ (decode_uri : Text → Option Text) where
    -- A token that cannot be decoded throws.
    unfoldable pub history_change_cb : Option Text → Provider → Option Provider
    unfolding set_slots decode_token
    history_change_cb none me = some (record me { backs = suc me.backs })
    history_change_cb (some []) me = some (record me { backs = suc me.backs })
    history_change_cb (some (c ∷ token)) me = do
      newstate ← decode_token decode_uri (some (c ∷ token))
      some (set_slots newstate hslist me)

  module _ (encode_uri : Text → Option Text) (native : Text → Text) where
    add_token : Provider → Option Provider
    unfolding encode_token
    add_token me = do
      htext ← encode_token encode_uri native me.ui_state
      some (record me { history = htext ∷ me.history })

    add_if : Provider × Bool → Option Provider
    unfolding add_token
    add_if (me, true) = add_token me
    add_if (me, false) = some me

    set_known : Option (Option Text) → Text → Option Text → Bool → Provider → Option Provider
    unfolding add_if set_hv
    set_known none name newvalue fire me =
        some (record me { parent_calls = (name, newvalue) ∷ me.parent_calls })
    set_known (some old) name newvalue fire me = add_if (set_hv name newvalue fire me)

    -- The value is `value ? value.value : null`.
    unfoldable pub set : Text → Option Text → Bool → Provider → Option Provider
    unfolding set_known lookup
    set name newvalue fire me = set_known (lookup name me.ui_state) name newvalue fire me

    start_with : (Text → Option Text) → Option Text → Option Provider
    unfolding add_token history_change_cb
    start_with decode_uri none = add_token new_provider
    start_with decode_uri (some []) = add_token new_provider
    start_with decode_uri (some (c ∷ token)) =
        history_change_cb decode_uri (some (c ∷ token)) new_provider

    -- The constructor, with `Ext.History.getToken()`.
    unfoldable pub start : (Text → Option Text) → Option Text → Option Provider
    unfolding start_with
    start decode_uri start_token = start_with decode_uri start_token
