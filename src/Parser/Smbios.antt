-- ===== src/Parser/Smbios.antt =====
-- parseQemuSmbios1 and printQemuSmbios1 of www/manager6/Parser.js: SMBIOS settings, whose values are
-- written in Base64. The codec is Ext JS's, a parameter.
use pve_manager_electrified.Prelude.{
  Bool, true, false, ◌||◌, ◌&&◌, not, Option, none, some, List, [], ◌∷◌, ◌++◌, if◌then◌else◌,
}
use pve_manager_electrified.Text.{Text, codes, text_eq, split, join, split_value, nonempty}
use pve_manager_electrified.Object.{lookup, put, entries}
use pve_manager_electrified.Parser.{render}
use pve_manager_electrified.Parser.LxcNetwork.{parse_boolean}

-- The callback of `value.split(',').reduce`; a value may be `undefined`.
unfoldable pub smbios_put :
    List (Text × Option Text) → Text × Option Text → List (Text × Option Text)
smbios_put acc (k, v) = put k v acc

unfoldable pub smbios_entries : List (Text × Option Text) → List Text → List (Text × Option Text)
unfolding smbios_put split_value
smbios_entries acc [] = acc
smbios_entries acc (p ∷ ps) = smbios_entries (smbios_put acc (split_value p)) ps

-- `res.base64` as a text, where it is one.
abbrev flat : Option (Option Text) → Option Text
flat none = none
flat (some v) = v

module _ (decode : Option Text → Option Text) where
  -- `if (k !== 'uuid') { res[k] = Ext.util.Base64.decode(v); }` for each entry.
  unfoldable pub decode_values : List (Text × Option Text) → List (Text × Option Text)
  unfolding text_eq
  decode_values [] = []
  decode_values ((k, v) ∷ o) =
      (k, if text_eq k (codes "uuid") then v else decode v) ∷ decode_values o

  unfoldable pub decode_if : Bool → List (Text × Option Text) → List (Text × Option Text)
  unfolding decode_values
  decode_if true res = decode_values res
  decode_if false res = res

  unfoldable pub parse_smbios1 : Text → List (Text × Option Text)
  unfolding smbios_entries decode_if lookup parse_boolean
  parse_smbios1 value =
      let res = smbios_entries [] (split b',' value) in
      decode_if (parse_boolean (flat (lookup (codes "base64") res)) false) res

module _ (encode : Text → Text) where
  -- The parts of the printed text; an empty value has none.
  unfoldable pub smbios_parts : List (Text × Text) → List Text
  unfolding text_eq
  smbios_parts [] = []
  smbios_parts ((k, v) ∷ o) =
      let rest = smbios_parts o in
      if nonempty v
      then render (k, if text_eq k (codes "uuid") then v else encode v) ∷ rest
      else rest

  -- Whether some value was encoded.
  unfoldable pub some_encoded : List (Text × Text) → Bool
  unfolding text_eq
  some_encoded [] = false
  some_encoded ((k, v) ∷ o) = (nonempty v && not (text_eq k (codes "uuid"))) || some_encoded o

  unfoldable pub print_smbios1 : List (Text × Text) → Text
  unfolding smbios_parts some_encoded
  print_smbios1 o =
      if some_encoded (entries o)
      then join b',' (smbios_parts (entries o)) ++ codes ",base64=1"
      else join b',' (smbios_parts (entries o))
