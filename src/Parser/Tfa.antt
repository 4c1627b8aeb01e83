-- ===== src/Parser/Tfa.antt =====
-- parseTfaConfig and parseTfaType of www/manager6/Parser.js: the second factor of a user.
use pve_manager_electrified.Prelude.{◌&&◌, all, Option, none, some, List, [], ◌∷◌, if◌then◌else◌}
use pve_manager_electrified.Text.{
  Text, codes, text_eq, split, split_pair, nonempty, strip_prefix, is_dot,
}
use pve_manager_electrified.Object.{put}

unfoldable pub tfa_entries : List (Text × Option Text) → List Text → List (Text × Option Text)
unfolding split_pair put
tfa_entries res [] = res
tfa_entries res (p ∷ ps) = tfa_entries (put (split_pair p).0 (split_pair p).1 res) ps

unfoldable pub parse_tfa_config : Text → List (Text × Option Text)
unfolding tfa_entries split
parse_tfa_config value = tfa_entries [] (split b',' value)

-- What parseTfaType returns: a name, or the number 1 for any other key.
pub data TfaType : Type 0 where
  named : Text → TfaType
  other : TfaType

-- `value.match(/^x!(.+)$/)`
match_type : Option Text → TfaType
match_type none = other
match_type (some t) = if nonempty t && all is_dot t then named t else other

unfoldable pub parse_tfa_type : Option Text → Option TfaType
unfolding text_eq strip_prefix match_type is_dot
parse_tfa_type none = none
parse_tfa_type (some []) = none
parse_tfa_type (some (c ∷ s)) =
    if text_eq (c ∷ s) (codes "x!oath")
    then some (named (codes "totp"))
    else some (match_type (strip_prefix (codes "x!") (c ∷ s)))
