-- ===== src/Tests/QemuNetwork.antt =====
-- Network devices: runs, and the theorems at an input.
use pve_manager_electrified.Prelude.{◌≡◌, refl, some}
use pve_manager_electrified.Text.{Text, codes, is_word}
use pve_manager_electrified.Parser.QemuNetwork.{
  QemuNet, no_net, parse_qemu_network, print_qemu_network, is_tag,
}
use pve_manager_electrified.Parser.QemuNetwork.RoundTrip.{IsValid, parse-print_qemu_network}
use pve_manager_electrified.Parser.QemuNetwork.Sound.{
  parse_qemu_network-IsValid, reparse_qemu_network,
}

abbrev net0 : QemuNet
net0 = record no_net {
  model = some (codes "virtio");
  macaddr = some (codes "BC:24:11:00:00:01");
  bridge = some (codes "vmbr0");
  tag = some (codes "7");
}

parse_net0 :
    parse_qemu_network
      (some (codes "net0"))
      (some (codes "VirtIO=BC:24:11:00:00:01, ,tag=7,bridge=vmbr0"))
    ≡ some net0
unfolding parse_qemu_network is_tag is_word
parse_net0 = refl

print_net0 : print_qemu_network net0 ≡ some (codes "virtio=BC:24:11:00:00:01,bridge=vmbr0,tag=7")
unfolding print_qemu_network
print_net0 = refl

net0-IsValid : IsValid net0
net0-IsValid = parse_qemu_network-IsValid _ _ net0 parse_net0

parse_qemu_network-IsValid_example : IsValid net0
parse_qemu_network-IsValid_example =
    parse_qemu_network-IsValid (some (codes "net0"))
      (some (codes "VirtIO=BC:24:11:00:00:01, ,tag=7,bridge=vmbr0")) net0 parse_net0

parse-print_qemu_network_example :
    (text : Text) × (print_qemu_network net0 ≡ some text)
    × (parse_qemu_network (some (codes "net0")) (some text) ≡ some net0)
parse-print_qemu_network_example =
    parse-print_qemu_network (codes "net0") net0 refl net0-IsValid (λ e. cc)

reparse_qemu_network_example :
    (text : Text) × (print_qemu_network net0 ≡ some text)
    × (parse_qemu_network (some (codes "net1")) (some text) ≡ some net0)
reparse_qemu_network_example =
    reparse_qemu_network (some (codes "net0"))
      (some (codes "VirtIO=BC:24:11:00:00:01, ,tag=7,bridge=vmbr0")) (codes "net1") net0 parse_net0
      (λ e. cc) refl
