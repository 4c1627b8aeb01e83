-- ===== src/Parser/IpConfig/RoundTrip.antt =====
-- A printed IP configuration is read back.
use pve_manager_electrified.Prelude.{
  ◌≡◌, ◌⊎◌, Option, none, if◌then◌else◌, Bool, true, some, List, [], ◌∷◌, All, ◌&&◌, not, all, ◌||◌,
  ◌==◌,
}
use pve_manager_electrified.Text.{Text, codes, text_eq, is_blank, is_word, nonempty, text_mem}
use pve_manager_electrified.Text.Split.{Lacks}
use pve_manager_electrified.Object.{lookup, proto_setter}
use pve_manager_electrified.Object.Laws.{HasDistinctKeys, IsOrdinary}
use pve_manager_electrified.Parser.IpConfig.{ip_keys, parse_ip_config, filter_ip, print_ip_config}

-- An address or a gateway, with a word without commas.
pub record IsIpOption (e : Text × Text) : Type 0 where
  pub key : text_mem e.0 ip_keys ≡ true
  pub value : is_word e.1 ≡ true
  pub comma : Lacks b',' e.1

-- What the loop asks of a key.
is_good_key : Text → Bool
unfolding text_eq is_blank
is_good_key k =
    all (λ c. not (c == b',' || c == b'=')) k && not (is_blank k) && not (text_eq k proto_setter)

-- The value that an address or a gateway has, if it is not empty; other keys have none.
pub address_of : Text → Option Text → Option Text
address_of k none = none
address_of k (some []) = none
address_of k (some (c ∷ v)) =
    if text_eq k (codes "ip")
    then some (c ∷ v)
    else if text_eq k (codes "ip6")
    then some (c ∷ v)
    else if text_eq k (codes "gw")
    then some (c ∷ v)
    else if text_eq k (codes "gw6")
    then some (c ∷ v)
    else none

-- A value that is empty, or a word without commas.
abbrev pub HasFineValue : Text × Text → Type 0
HasFineValue e = ((e.1 ≡ []) ⊎ (is_word e.1 ≡ true)) × Lacks b',' e.1

-- The address of every key is that of the list that is left.
module _ (key : Text) (cfg : List (Text × Text)) (hk : nonempty key ≡ true)
    (ho : All IsOrdinary cfg)
    (reads : (k : Text) → lookup k (filter_ip cfg) ≡ address_of k (lookup k cfg))
    (h : All IsIpOption (filter_ip cfg)) (d : HasDistinctKeys (filter_ip cfg)) where
  abbrev Outcome : Type 0
  Outcome =
      ((parse_ip_config (some key) (some (print_ip_config cfg)) ≡ none)
        × ((k : Text) → address_of k (lookup k cfg) ≡ none))
      ⊎ ((out : List (Text × Text)) × (parse_ip_config (some key) (some (print_ip_config cfg))
            ≡ some out)
          × ((k : Text) → lookup k out ≡ address_of k (lookup k cfg)))
