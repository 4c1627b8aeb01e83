-- ===== src/Utils/Versions.antt =====
-- Versions in www/manager6/Utils.js: compare_ceph_versions, qemu_min_version, get_max_usb_count.
pub mod Comparing
pub mod Minimum
use pve_manager_electrified.Prelude.{
  ℕ, zero, suc, ◌+◌, ◌-◌, ◌*◌, Bool, true, false, not, ◌&&◌, ◌||◌, Option, none, some, List, [],
  ◌∷◌, ltb, ◌==◌, if◌then◌else◌,
}
use pve_manager_electrified.Text.{
  Text, codes, text_eq, split, strip_prefix, is_digit, is_digits, is_space,
}
use pve_manager_electrified.Object.{digits_value}

unfoldable pub digits_prefix : Text → Text
unfolding is_digit
digits_prefix [] = []
digits_prefix (c ∷ s) = let more = digits_prefix s in if is_digit c then c ∷ more else []

unfoldable pub behind_digits : Text → Text
unfolding is_digit
behind_digits [] = []
behind_digits (c ∷ s) = let more = behind_digits s in if is_digit c then more else c ∷ s

unfoldable pub skip_space : Text → Text
unfolding is_space
skip_space [] = []
skip_space (c ∷ s) = let more = skip_space s in if is_space c then more else c ∷ s

-- A sign and an absolute value.
abbrev pub Signed : Type 0
Signed = Bool × ℕ

-- Digits that may be followed by anything; none are `NaN`.
unfoldable pub unsigned : Bool → Text → Option Signed
unfolding digits_value
unsigned negative [] = none
unsigned negative (c ∷ s) = some (negative, digits_value 0 (c ∷ s))

unfoldable pub signed : Text → Option Signed
unfolding digits_prefix unsigned
signed [] = none
signed (c ∷ s) =
    if c == b'-'
    then unsigned true (digits_prefix s)
    else if c == b'+'
    then unsigned false (digits_prefix s)
    else unsigned false (digits_prefix (c ∷ s))

-- `parseInt(s, 10)`, with `none` for `NaN`.
unfoldable pub parse_int : Text → Option Signed
unfolding skip_space signed
parse_int s = signed (skip_space s)

-- The sign of what the comparison returns.
pub data Sign : Type 0 where
  less : Sign
  same : Sign
  greater : Sign
  not_a_number : Sign

abbrev pub sign_of : ℕ → ℕ → Sign
sign_of m n = if ltb m n then less else if ltb n m then greater else same

-- The sign of `a - b`.
unfoldable pub difference : Option Signed → Option Signed → Sign
difference none b = not_a_number
difference (some a) none = not_a_number
difference (some (false, m)) (some (false, n)) = sign_of m n
difference (some (true, m)) (some (true, n)) = sign_of n m
difference (some (true, m)) (some (false, n)) = if m + n == 0 then same else less
difference (some (false, m)) (some (true, n)) = if m + n == 0 then same else greater

-- A difference that is not 0 is returned, `NaN` too.
abbrev pub or_next : Sign → Sign → Sign
or_next same next = next
or_next less next = less
or_next greater next = greater
or_next not_a_number next = not_a_number

-- The loop on the parts that are left.
unfoldable pub compare_parts : List Text → List Text → Sign
unfolding difference parse_int
compare_parts [] [] = same
compare_parts [] (b ∷ qs) = less
compare_parts (a ∷ ps) [] = greater
compare_parts (a ∷ ps) (b ∷ qs) =
    let rest = compare_parts ps qs in or_next (difference (parse_int a) (parse_int b)) rest

-- A version is a text, or an array of its parts, each given by its text.
pub data Version : Type 0 where
  written : Text → Version
  array : List Text → Version

unfoldable pub parts_of : Version → List Text
unfolding split
parts_of (written s) = split b'.' s
parts_of (array ps) = ps

-- `a === b`; two arrays are two objects.
unfoldable pub identical : Version → Version → Bool
unfolding text_eq
identical (written s) (written t) = text_eq s t
identical (written s) (array qs) = false
identical (array ps) w = false

unfoldable pub compare_ceph_versions : Version → Version → Sign
unfolding identical parts_of compare_parts
compare_ceph_versions a b = if identical a b then same else compare_parts (parts_of a) (parts_of b)

-- `true` when what is left of the minimum is 0.
unfoldable pub all_zero : List ℕ → Bool
all_zero [] = true
all_zero (m ∷ ms) = (m == 0) && all_zero ms

-- Both loops, on numbers.
unfoldable pub qemu_min_version : List ℕ → List ℕ → Bool
unfolding all_zero
qemu_min_version [] ms = all_zero ms
qemu_min_version (v ∷ vs) [] = true
qemu_min_version (v ∷ vs) (m ∷ ms) =
    let rest = qemu_min_version vs ms in if ltb v m then false else rest

is_line_end : ℕ → Bool
is_line_end c = (c == 10) || (c == 13) || (c == 8232) || (c == 8233)

pair_if : Text → Text → Option (List ℕ)
unfolding digits_value
pair_if n [] = none
pair_if n (c ∷ m) = some (digits_value 0 n ∷ digits_value 0 (c ∷ m) ∷ [])

-- Digits alone, with the first number so far: the pattern gives the last digit to the second
-- group and the one before it to `.`.
give_back : ℕ → Text → Option (List ℕ)
give_back n [] = none
give_back n (a ∷ []) = none
give_back n (a ∷ b ∷ []) = some (n ∷ (b - b'0') ∷ [])
give_back n (a ∷ b ∷ c ∷ s) = give_back (n * 10 + (a - b'0')) (b ∷ c ∷ s)

or_else_pair : Option (List ℕ) → Option (List ℕ) → Option (List ℕ)
or_else_pair none next = next
or_else_pair (some r) next = some r

-- The two numbers of `(\d+).(\d+)`, where the digits are `c ∷ d` and `rest` follows.
numbers_at : Text → Text → Option (List ℕ)
unfolding pair_if is_line_end digits_prefix give_back or_else_pair
numbers_at [] rest = none
numbers_at (c ∷ d) [] = give_back (c - b'0') d
numbers_at (c ∷ d) (x ∷ rest) =
    or_else_pair (if is_line_end x then none else pair_if (c ∷ d) (digits_prefix rest))
      (give_back (c - b'0') d)

-- `/-(\d+).(\d+)/.exec(machine)`: the leftmost match.
unfoldable pub match_machine : Text → Option (List ℕ)
unfolding numbers_at or_else_pair digits_prefix behind_digits
match_machine [] = none
match_machine (c ∷ s) =
    let later = match_machine s in
    if c == b'-' then or_else_pair (numbers_at (digits_prefix s) (behind_digits s)) later else later

-- `!match || qemu_min_version(match, [7, 1])`
unfoldable pub machine_allows : Option (List ℕ) → Bool
unfolding qemu_min_version
machine_allows none = true
machine_allows (some v) = qemu_min_version v (7 ∷ 1 ∷ [])

above_seven : Option Text → Bool
unfolding is_digits digits_value
above_seven none = false
above_seven (some v) = is_digits v && ltb 7 (digits_value 0 v)

-- `ostype === 'l26'`, or `/^win(\d+)$/` with a number above 7.
unfoldable pub is_recent_os : Text → Bool
unfolding text_eq strip_prefix above_seven
is_recent_os ostype =
    text_eq ostype (codes "l26") || above_seven (strip_prefix (codes "win") ostype)

-- hardware_counts.usb and hardware_counts.usb_old
abbrev pub usb : ℕ
usb = 14

abbrev pub usb_old : ℕ
usb_old = 5

or_blank : Option Text → Text
or_blank none = []
or_blank (some s) = s

unfoldable pub get_max_usb_count : Option Text → Option Text → ℕ
unfolding machine_allows is_recent_os match_machine or_blank
get_max_usb_count none machine = usb_old
get_max_usb_count (some []) machine = usb_old
get_max_usb_count (some (c ∷ s)) machine =
    if machine_allows (match_machine (or_blank machine)) && is_recent_os (c ∷ s)
    then usb
    else usb_old
