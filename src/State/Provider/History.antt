-- ===== src/State/Provider/History.antt =====
-- The provider and its history: what `set` writes, and that reading a token back changes nothing.
use pve_manager_electrified.Prelude.{
  ◌≡◌, ◌≢◌, ◌⊎◌, refl, sym, ap, ◌∙◌, Bool, true, false, Option, none, some, ◌∷◌, arith, Bool-cases,
  inl, inr,
}
use pve_manager_electrified.Text.{Text, text_eq, text_mem}
use pve_manager_electrified.Text.Equality.{text_eq_refl, text_eq_iff}
use pve_manager_electrified.Object.{lookup, put, prototype_names, proto_setter}
use pve_manager_electrified.Object.Laws.{lookup-put}
use pve_manager_electrified.State.{UiState, expand, encode_token}
use pve_manager_electrified.State.Provider.{
  Provider, is_change, set_hv, set, write_slot, add_token, add_if, set_known, fire_if,
}

-- Every slot holds a text that can be encoded, and that is no number of a key.
abbrev pub IsSettled : (Text → Option Text) → UiState → Text × Text → Type 0
IsSettled encode_uri state (name, standard) =
    (v : Text) × (lookup name state ≡ some (some v))
    × (expand v ≡ v)
    × ((e : Text) × (encode_uri v ≡ some e) × (text_mem e prototype_names ≡ false))

module _ (ext_encode : Option (Option Text) → Text) (name : Text) (old value : Option Text)
    (fire : Bool) (me : Provider) (held : lookup name me.ui_state ≡ some old) where
  set_hv_unchanged : old ≡ value → set_hv ext_encode name value fire me ≡ (me, false)
  unfolding set_hv is_change
  set_hv_unchanged e = rw (held, e, text_eq_refl (ext_encode (some value))) refl

  -- The provider after a change.
  written : Provider
  written = write_slot ext_encode name value fire me

  set_hv_changed :
      text_eq (ext_encode (some value)) (ext_encode (some old)) ≡ false
      → set_hv ext_encode name value fire me ≡ (written, true)
  unfolding set_hv is_change written
  set_hv_changed differs = rw (held, differs) refl

  written-ui_state : written.ui_state ≡ put name value me.ui_state
  unfolding written write_slot fire_if
  written-ui_state = ground arith

  written-history : written.history ≡ me.history
  unfolding written write_slot fire_if
  written-history = ground arith

  module _ (encode_uri : Text → Option Text) (native : Text → Text) where
    known_lem :
        (o : Option (Option Text))
        → o ≡ some old
        → set_known ext_encode encode_uri native o name value fire me
          ≡ add_if ext_encode encode_uri native (set_hv ext_encode name value fire me)
    unfolding set_known
    known_lem none e = cc
    known_lem (some o) e = refl

    set_of_hv :
        set ext_encode encode_uri native name value fire me
        ≡ add_if ext_encode encode_uri native (set_hv ext_encode name value fire me)
    unfolding set
    set_of_hv = known_lem (lookup name me.ui_state) held

    add_token_lem :
        (token : Text)
        → encode_token encode_uri native (put name value me.ui_state) ≡ some token
        → add_token ext_encode encode_uri native written
          ≡ some (record written { history = token ∷ written.history })
    unfolding add_token
    add_token_lem token t = rw (written-ui_state, t) refl

-- `set` on a slot writes the value there and in no other slot; it adds the token of the new state to
-- the history if the value changes, and nothing if it is the old one, if `Ext.encode` writes texts and
-- `null` differently from one another (what it writes for `undefined` is free), the name has a
-- value in the state and is not `__proto__`, and the new state can be encoded.
pub set_lem :
    (ext_encode : Option (Option Text) → Text) (encode_uri : Text → Option Text)
    (native : Text → Text) (name : Text) (old value : Option Text) (fire : Bool) (me : Provider)
    (token : Text)
    → ((a b : Option Text) → ext_encode (some a) ≡ ext_encode (some b) → a ≡ b)
    → lookup name me.ui_state ≡ some old
    → name ≢ proto_setter
    → encode_token encode_uri native (put name value me.ui_state) ≡ some token
    → (me' : Provider) × (set ext_encode encode_uri native name value fire me ≡ some me')
      × (lookup name me'.ui_state ≡ some value)
      × ((j : Text) → j ≢ name → lookup j me'.ui_state ≡ lookup j me.ui_state)
      × (((old ≡ value) × (me'.history ≡ me.history))
          ⊎ ((old ≢ value) × (me'.history ≡ token ∷ me.history)))
unfolding add_if
set_lem ext_encode encode_uri native name old value fire me token injective e np t =
    let a = ext_encode (some value) in
    let b = ext_encode (some old) in
    elim (Bool-cases (text_eq a b)) [
      | inl same ↦
          let q : old ≡ value = sym (injective value old ((text_eq_iff a b).0 same)) in
          (
            me,
            set_of_hv ext_encode name old value fire me e encode_uri native
                ∙ ap (add_if ext_encode encode_uri native)
                    (set_hv_unchanged ext_encode name old value fire me e q),
            e ∙ ap some q,
            λ j n. refl,
            inl (q, refl),
          )
      | inr differs ↦
          let other : (j : Text) → j ≢ name → text_eq j name ≡ false =
            λ j n. ground (arith, text_eq_iff j name, n) in
          let after = written ext_encode name old value fire me e in
          let ui = written-ui_state ext_encode name old value fire me e in
          (
            record after { history = token ∷ after.history },
            set_of_hv ext_encode name old value fire me e encode_uri native
                ∙ ap (add_if ext_encode encode_uri native)
                    (set_hv_changed ext_encode name old value fire me e differs)
                ∙ (add_token_lem ext_encode name old value fire me e encode_uri native token t),
            rw ui (lookup-put name name value me.ui_state np ∙ rw (text_eq_refl name) refl),
            λ j n. rw ui (lookup-put name j value me.ui_state np ∙ rw (other j n) refl),
            inr (
              λ q. ground (arith, differs, text_eq_refl a, ap (λ o. ext_encode (some o)) q),
              ap (◌∷◌ token) (written-history ext_encode name old value fire me e),
            ),
          )
    ]
