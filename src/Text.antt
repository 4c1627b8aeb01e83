-- ===== src/Text.antt =====
-- JavaScript strings as lists of UTF-16 code units, with the string methods and the character
-- classes of the regular expressions that the manager's parsers use (www/manager6/Parser.js).
pub mod Equality
pub mod Split
use Prim.Native.Char.{code}
use Prim.Native.String.{String}
use pve_manager_electrified.Prelude.{
  ℕ, ◌+◌, Bool, true, false, not, ◌&&◌, ◌||◌, Option, none, some, List, [], ◌∷◌, ◌++◌, leb, ltb,
  ◌==◌, if◌then◌else◌, all,
}

abbrev pub Text : Type 0
Text = List ℕ

-- The code units of a literal in ASCII.
abbrev pub codes : String → Text
codes String.[] = []
codes (String.◌∷◌ c s) = code c ∷ codes s

-- `a === b`
unfoldable pub text_eq : Text → Text → Bool
text_eq [] [] = true
text_eq (a ∷ s) (b ∷ t) = a == b && text_eq s t
text_eq _ _ = false

unfoldable pub text_mem : Text → List Text → Bool
unfolding text_eq
text_mem a [] = false
text_mem a (b ∷ bs) = text_eq a b || text_mem a bs

-- `value.split(sep)` for a separator of one code unit.
unfoldable pub cons_head : ℕ → List Text → List Text
cons_head c [] = (c ∷ []) ∷ []
cons_head c (p ∷ ps) = (c ∷ p) ∷ ps

unfoldable pub split : ℕ → Text → List Text
unfolding cons_head
split sep [] = [] ∷ []
split sep (c ∷ s) = let rest = split sep s in if c == sep then [] ∷ rest else cons_head c rest

-- `parts.join(sep)`
unfoldable pub join : ℕ → List Text → Text
join sep [] = []
join sep (p ∷ []) = p
join sep (p ∷ q ∷ ps) = p ++ (sep ∷ join sep (q ∷ ps))

-- `let [k, v] = property.split('=', 2)`: `v` ends at a second `=`.
pair_of : List Text → Text × Option Text
pair_of [] = ([], none)
pair_of (k ∷ []) = (k, none)
pair_of (k ∷ v ∷ _) = (k, some v)

unfoldable pub split_pair : Text → Text × Option Text
unfolding split pair_of
split_pair p = pair_of (split b'=' p)

-- The text before the first `sep` and, where there is one, all that follows it.
unfoldable pub cut : ℕ → Text → Text × Option Text
cut sep [] = ([], none)
cut sep (c ∷ s) = let rest = cut sep s in if c == sep then ([], some s) else (c ∷ rest.0, rest.1)

-- What follows a literal prefix, as a capture group behind it does.
unfoldable pub strip_prefix : Text → Text → Option Text
strip_prefix [] s = some s
strip_prefix (a ∷ p) [] = none
strip_prefix (a ∷ p) (b ∷ s) = if a == b then strip_prefix p s else none

-- `\d`
unfoldable pub is_digit : ℕ → Bool
is_digit c = leb b'0' c && leb c b'9'

-- `\s`: white space and line terminators of ECMAScript.
unfoldable pub is_space : ℕ → Bool
is_space c =
    (leb 9 c && leb c 13)
    || c == 32
    || c == 160
    || c == 0x1680
    || (leb 0x2000 c && leb c 0x200a)
    || c == 0x2028
    || c == 0x2029
    || c == 0x202f
    || c == 0x205f
    || c == 0x3000
    || c == 0xfeff

-- `.`: all but the line terminators.
unfoldable pub is_dot : ℕ → Bool
is_dot c = not (c == 10 || c == 13 || c == 0x2028 || c == 0x2029)

unfoldable pub is_lower : ℕ → Bool
is_lower c = leb b'a' c && leb c b'z'

-- `toLowerCase` on ASCII letters.
unfoldable pub lower : ℕ → ℕ
lower c = if leb b'A' c && leb c b'Z' then c + 32 else c

abbrev pub nonempty : Text → Bool
nonempty [] = false
nonempty (c ∷ s) = true

-- `!p || p.match(/^\s*$/)`
unfoldable pub is_blank : Text → Bool
unfolding is_space
is_blank p = all is_space p

-- `\S+` and `\d+`, anchored at both ends.
unfoldable pub is_word : Text → Bool
unfolding is_space
is_word p = nonempty p && all (λ c. not (is_space c)) p

unfoldable pub is_digits : Text → Bool
unfolding is_digit
is_digits p = nonempty p && all is_digit p

-- `[0-9a-f]` under the flag `i`.
unfoldable pub is_hex : ℕ → Bool
unfolding is_digit lower
is_hex c = is_digit c || (leb b'a' (lower c) && leb (lower c) b'f')

-- `p.match(/^key(test)$/)`: the group behind a literal prefix, where the whole of it fits.
capture_if : (Text → Bool) → Option Text → Option Text
capture_if test none = none
capture_if test (some v) = if test v then some v else none

unfoldable pub capture : Text → (Text → Bool) → Text → Option Text
unfolding strip_prefix capture_if
capture key test p = capture_if test (strip_prefix key p)

-- `s += t`, where `s` may still be `undefined`.
abbrev pub plus_eq : Option Text → Text → Option Text
plus_eq none t = some (codes "undefined" ++ t)
plus_eq (some s) t = some (s ++ t)

-- `if (field) { s += key + field; }`
abbrev pub add_field : Text → Option Text → Option Text → Option Text
add_field key none s = s
add_field key (some []) s = s
add_field key (some (c ∷ v)) s = plus_eq s (key ++ c ∷ v)

-- `a` when it is there, and `b` otherwise: an `else if` chain of matches.
abbrev pub or_else {ℓ} : {A : Type ℓ} → Option A → Option A → Option A
or_else none b = b
or_else (some a) b = some a

-- The longest prefix without line terminators.
unfoldable pub take_line : Text → Text
unfolding is_dot
take_line [] = []
take_line (c ∷ s) = let rest = take_line s in if is_dot c then c ∷ rest else []

-- `let [k, v] = s.split(/[=](.+)/)`: the match is at the first `=` that a character other than a
-- line terminator follows; `v` is the rest of its line, and `undefined` without a match.
unfoldable pub split_value : Text → Text × Option Text
unfolding take_line
split_value [] = ([], none)
split_value (c ∷ s) =
    let rest = split_value s in
    if c == b'=' && nonempty (take_line s) then ([], some (take_line s)) else (c ∷ rest.0, rest.1)
