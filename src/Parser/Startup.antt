-- ===== src/Parser/Startup.antt =====
-- parseStartup and printStartup of www/manager6/Parser.js: start order and delays of a guest.
pub mod RoundTrip
use pve_manager_electrified.Prelude.{
  Bool, true, false, Option, none, some, List, [], ◌∷◌, ◌++◌, if◌then◌else◌,
}
use pve_manager_electrified.Text.{Text, codes, split, join, is_blank, is_digits, capture, or_else}
use pve_manager_electrified.Parser.{each}

pub record Startup : Type 0 where
  pub order : Option Text
  pub up : Option Text
  pub down : Option Text

abbrev pub no_startup : Startup
no_startup = record { order = none; up = none; down = none }

set_order : Startup → Text → Startup
set_order s v = record s { order = some v }

set_up : Startup → Text → Startup
set_up s v = record s { up = some v }

set_down : Startup → Text → Startup
set_down s v = record s { down = some v }

-- A branch of the `else if` chain: what a match assigns, or the branches that follow.
abbrev assign_or : Option Text → (Text → Startup) → Option Startup → Option Startup
assign_or none set next = next
assign_or (some v) set next = some (set v)

-- A part that is not blank; `none` is a throw. The name `order` may be left out before `=`.
unfoldable pub startup_part : Startup → Text → Option Startup
unfolding capture set_order set_up set_down
startup_part s p =
    assign_or (or_else (capture (codes "order=") is_digits p) (capture (codes "=") is_digits p))
      (set_order s)
      (assign_or (capture (codes "up=") is_digits p) (set_up s)
        (assign_or (capture (codes "down=") is_digits p) (set_down s) none))

unfoldable pub startup_option : Startup → Text → Option Startup
unfolding is_blank startup_part
startup_option s p = if is_blank p then some s else startup_part s p

unfoldable pub parse_startup : Option Text → Option Startup
unfolding startup_option
parse_startup none = none
parse_startup (some value) = each startup_option no_startup (split b',' value)

-- `if (field !== undefined && field !== '') { arr.push(key + field); }`
unfoldable pub push_field : Text → Option Text → List Text
push_field key none = []
push_field key (some []) = []
push_field key (some (c ∷ v)) = (key ++ c ∷ v) ∷ []

unfoldable pub print_startup : Startup → Text
unfolding push_field
print_startup s = join b',' (
    push_field (codes "order=") s.order
    ++ (push_field (codes "up=") s.up ++ push_field (codes "down=") s.down))
