-- ===== src/Parser/IpConfig.antt =====
-- parseIPConfig and printIPConfig of www/manager6/Parser.js: addresses and gateways for cloud-init.
pub mod RoundTrip
use pve_manager_electrified.Prelude.{
  Bool, true, false, ◌&&◌, Option, none, some, List, [], ◌∷◌, map, if◌then◌else◌,
}
use pve_manager_electrified.Text.{
  Text, codes, text_mem, split, join, cut, is_blank, is_word, nonempty,
}
use pve_manager_electrified.Object.{put, entries}
use pve_manager_electrified.Parser.{each, render}

abbrev pub ip_keys : List Text
ip_keys = codes "ip" ∷ codes "gw" ∷ codes "ip6" ∷ codes "gw6" ∷ []

-- A part that is not blank, cut at its first `=`, against `/^(ip|gw|ip6|gw6)=(\S+)$/`; `none` is a
-- throw.
unfoldable pub ip_part : List (Text × Text) → Text × Option Text → Option (List (Text × Text))
unfolding text_mem is_word
ip_part res (k, none) = none
ip_part res (k, some v) = if text_mem k ip_keys && is_word v then some (put k v res) else none

unfoldable pub ip_option : List (Text × Text) → Text → Option (List (Text × Text))
unfolding is_blank ip_part cut
ip_option res p = if is_blank p then some res else ip_part res (cut b'=' p)

unfoldable pub parse_ip_config : Option Text → Option Text → Option (List (Text × Text))
unfolding ip_option
parse_ip_config none value = none
parse_ip_config (some key) none = none
parse_ip_config (some key) (some value) =
    if nonempty key && nonempty value then each ip_option [] (split b',' value) else none

-- `Object.entries(cfg).filter(([k, v]) => v && k.match(…))`
unfoldable pub filter_ip : List (Text × Text) → List (Text × Text)
unfolding text_mem
filter_ip [] = []
filter_ip ((k, v) ∷ o) =
    let rest = filter_ip o in if nonempty v && text_mem k ip_keys then (k, v) ∷ rest else rest

unfoldable pub print_ip_config : List (Text × Text) → Text
unfolding filter_ip
print_ip_config cfg = join b',' (map render (filter_ip (entries cfg)))
