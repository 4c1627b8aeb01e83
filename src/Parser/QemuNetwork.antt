-- ===== src/Parser/QemuNetwork.antt =====
-- parseQemuNetwork and printQemuNetwork of www/manager6/Parser.js: a network device of a virtual
-- machine, `model=MAC,bridge=…,…`. A field that is not set is `none`.
pub mod Step
pub mod Sound
pub mod RoundTrip
use pve_manager_electrified.Prelude.{
  ℕ, Bool, true, false, ◌&&◌, ◌||◌, Option, none, some, List, [], ◌∷◌, ◌++◌, map, all, length, ◌==◌,
  if◌then◌else◌,
}
use pve_manager_electrified.Text.{
  Text, codes, split, cut, text_mem, is_blank, is_word, is_digits, is_hex, lower, nonempty, capture,
  add_field, plus_eq,
}
use pve_manager_electrified.Parser.{each}

pub record QemuNet : Type 0 where
  pub model : Option Text
  pub macaddr : Option Text
  pub bridge : Option Text
  pub rate : Option Text
  pub tag : Option Text
  pub firewall : Option Text
  pub disconnect : Option Text
  pub queues : Option Text
  pub trunks : Option Text
  pub mtu : Option Text

abbrev pub no_net : QemuNet
no_net = record {
  model = none;
  macaddr = none;
  bridge = none;
  rate = none;
  tag = none;
  firewall = none;
  disconnect = none;
  queues = none;
  trunks = none;
  mtu = none;
}

-- The alternatives of the first regular expression.
abbrev pub models : List Text
models =
    codes "ne2k_pci"
    ∷ codes "e1000"
    ∷ codes "e1000e"
    ∷ codes "e1000-82540em"
    ∷ codes "e1000-82544gc"
    ∷ codes "e1000-82545em"
    ∷ codes "vmxnet3"
    ∷ codes "rtl8139"
    ∷ codes "pcnet"
    ∷ codes "virtio"
    ∷ codes "ne2k_isa"
    ∷ codes "i82551"
    ∷ codes "i82557b"
    ∷ codes "i82559er"
    ∷ []

-- `[0-9a-f]{2}`
unfoldable pub is_octet : Text → Bool
unfolding is_hex
is_octet (a ∷ b ∷ []) = is_hex a && is_hex b
is_octet _ = false

-- `[0-9a-f]{2}(:[0-9a-f]{2}){5}`
unfoldable pub is_mac : Text → Bool
unfolding is_octet split
is_mac s = (length (split b':' s) == 6) && all is_octet (split b':' s)

fraction_ok : Bool → Text × Option Text → Bool
unfolding is_digits
fraction_ok bare (a, none) = is_digits a
fraction_ok bare (a, some b) =
    (is_digits a || (bare && (if nonempty a then false else true))) && is_digits b

-- `\d+(\.\d+)?|\.\d+`
unfoldable pub is_rate : Text → Bool
unfolding fraction_ok cut
is_rate s = fraction_ok true (cut b'.' s)

-- `\d+(\.\d+)?`
unfoldable pub is_tag : Text → Bool
unfolding fraction_ok cut
is_tag s = fraction_ok false (cut b'.' s)

range_ok : Text × Option Text → Bool
unfolding is_digits
range_ok (a, none) = is_digits a
range_ok (a, some b) = is_digits a && is_digits b

-- `\d+(?:-\d+)?(?:;\d+(?:-\d+)?)*`
unfoldable pub is_trunks : Text → Bool
unfolding range_ok cut split
is_trunks s = all (λ r. range_ok (cut b'-' r)) (split b';' s)

abbrev pub Rule : Type 0
Rule = Text × (Text → Bool) × (Text → QemuNet → QemuNet)

-- The branches behind the first, in order.
abbrev pub rules : List Rule
rules =
    (codes "bridge=", is_word, λ v n. record n { bridge = some v })
    ∷ (codes "rate=", is_rate, λ v n. record n { rate = some v })
    ∷ (codes "tag=", is_tag, λ v n. record n { tag = some v })
    ∷ (codes "firewall=", is_digits, λ v n. record n { firewall = some v })
    ∷ (codes "link_down=", is_digits, λ v n. record n { disconnect = some v })
    ∷ (codes "queues=", is_digits, λ v n. record n { queues = some v })
    ∷ (codes "trunks=", is_trunks, λ v n. record n { trunks = some v })
    ∷ (codes "mtu=", is_digits, λ v n. record n { mtu = some v })
    ∷ []

assign_or : Option Text → (Text → QemuNet → QemuNet) → QemuNet → Option QemuNet → Option QemuNet
assign_or none set net next = next
assign_or (some v) set net next = some (set v net)

-- The `else if` chain; its end is `errors = true; return false`.
unfoldable pub try_rules : List Rule → QemuNet → Text → Option QemuNet
unfolding assign_or capture
try_rules [] net p = none
try_rules ((key, test, set) ∷ rs) net p =
    let next = try_rules rs net p in assign_or (capture key test p) set net next

-- The first branch: a known model in any case, alone or with a MAC address.
unfoldable pub is_model : Text × Option Text → Bool
unfolding text_mem is_mac lower
is_model (m, none) = text_mem (map lower m) models
is_model (m, some mac) = text_mem (map lower m) models && is_mac mac

unfoldable pub set_model : Text × Option Text → QemuNet → QemuNet
unfolding lower
set_model (m, none) net = record net { model = some (map lower m) }
set_model (m, some mac) net = record net { model = some (map lower m); macaddr = some mac }

unfoldable pub parse_option : QemuNet → Text → Option QemuNet
unfolding is_blank try_rules is_model set_model cut
parse_option net p =
    if is_blank p
    then some net
    else if is_model (cut b'=' p)
    then some (set_model (cut b'=' p) net)
    else try_rules rules net p

-- `if (errors || !res.model) { return undefined; }`; a model that is set is not empty.
need_model : Option QemuNet → Option QemuNet
need_model none = none
need_model (some net) = elim net.model [ none ↦ none | some m ↦ some net ]

abbrev pub given : Option Text → Bool
given none = false
given (some v) = nonempty v

-- `key` and `value` may be missing; `!(key && value)` asks that both are there and not empty.
unfoldable pub parse_qemu_network : Option Text → Option Text → Option QemuNet
unfolding parse_option need_model split each
parse_qemu_network key none = none
parse_qemu_network key (some value) =
    if given key && nonempty value
    then need_model (each parse_option no_net (split b',' value))
    else none

-- The fields that are printed inside `if (net.bridge)`.
unfoldable pub add_bridge : Option Text → Option Text → Option Text → Option Text → Option Text
add_bridge none tag firewall s = s
add_bridge (some []) tag firewall s = s
add_bridge (some (c ∷ v)) tag firewall s =
    add_field (codes ",firewall=") firewall
      (add_field (codes ",tag=") tag (plus_eq s (codes ",bridge=" ++ c ∷ v)))

unfoldable pub print_qemu_network : QemuNet → Option Text
unfolding add_bridge
print_qemu_network net =
    let start = add_field (codes "=") net.macaddr net.model in
    let bridged = add_bridge net.bridge net.tag net.firewall start in
    let rated = add_field (codes ",rate=") net.rate bridged in
    let queued = add_field (codes ",queues=") net.queues rated in
    let linked = add_field (codes ",link_down=") net.disconnect queued in
    let trunked = add_field (codes ",trunks=") net.trunks linked in
    add_field (codes ",mtu=") net.mtu trunked
