-- ===== src/Tests/Devices.antt =====
-- Start orders, addresses, container networks and processors: runs, and the theorems at an input.
use pve_manager_electrified.Prelude.{
  ◌≡◌, refl, none, some, List, [], ◌∷◌, All, arith, inl, inr, true,
}
use pve_manager_electrified.Text.{Text, codes, join}
use pve_manager_electrified.Object.{lookup}
use pve_manager_electrified.Object.Laws.{IsOrdinary}
use pve_manager_electrified.Parser.Startup.{Startup, parse_startup, print_startup}
use pve_manager_electrified.Parser.Startup.RoundTrip.{parse-print_startup}
use pve_manager_electrified.Parser.LxcNetwork.{
  Value, text, flag, parse_lxc_network, print_lxc_network,
}
use pve_manager_electrified.Parser.LxcNetwork.Printing.{
  IsLxcEntry, read_entries, parse-print_lxc_network,
}
use pve_manager_electrified.Parser.Cpu.{parse_qemu_cpu, print_qemu_cpu}
use pve_manager_electrified.Parser.Cpu.RoundTrip.{
  IsBare, IsCpuOption, parse-print_qemu_cpu, parse_qemu_cpu-twice,
}

abbrev first : Startup
first = record { order = some (codes "1"); up = none; down = some (codes "30") }

parse-print_startup_example : parse_startup (some (print_startup first)) ≡ some first
unfolding pve_manager_electrified.Text.is_digits
parse-print_startup_example = parse-print_startup first refl tt refl

abbrev addresses : List (Text × Text)
addresses =
    (codes "ip", codes "dhcp") ∷ (codes "note", codes "x") ∷ (codes "gw", codes "10.0.0.1") ∷ []

abbrev veth : Text × Value
veth = (codes "name", text (codes "eth0"))

abbrev more : List (Text × Value)
more = (codes "firewall", flag true) ∷ (codes "link_down", text (codes "1")) ∷ []

veth-entries : All IsLxcEntry (veth ∷ more)
unfolding pve_manager_electrified.Text.text_mem pve_manager_electrified.Text.is_word
    pve_manager_electrified.Text.is_digits
veth-entries = ((inl (refl, refl), ground arith), (refl, ((inr (refl, refl), ground arith), tt)))

veth-IsOrdinary : All IsOrdinary (veth ∷ more)
unfolding pve_manager_electrified.Object.is_index
veth-IsOrdinary = ground arith

parse-print_lxc_network_example :
    parse_lxc_network (some (print_lxc_network (veth ∷ more))) ≡ some (read_entries (veth ∷ more))
parse-print_lxc_network_example =
    parse-print_lxc_network veth more veth-entries veth-IsOrdinary (ground arith)

abbrev processor : List (Text × Text)
processor = (codes "flags", codes "+aes") ∷ (codes "cputype", codes "host") ∷ []

host-IsBare : IsBare (codes "host")
unfolding pve_manager_electrified.Text.is_blank
host-IsBare = record { filled = refl; comma = ground arith; equals = ground arith }

max-IsBare : IsBare (codes "max")
unfolding pve_manager_electrified.Text.is_blank
max-IsBare = record { filled = refl; comma = ground arith; equals = ground arith }

flags_option : IsCpuOption (codes "flags", codes "+aes")
unfolding pve_manager_electrified.Parser.Cpu.is_cpu_key pve_manager_electrified.Text.text_mem
    pve_manager_electrified.Text.is_word
flags_option = record { name = refl; own = refl; value = refl; comma = ground arith }

parse-print_qemu_cpu_example :
    (text : Text) × (print_qemu_cpu processor ≡ some text)
    × (out : List (Text × Text)) × (parse_qemu_cpu (some text) ≡ some out)
    × ((k : Text) → lookup k out ≡ lookup k processor)
unfolding lookup pve_manager_electrified.Parser.Cpu.is_cputype
parse-print_qemu_cpu_example =
    parse-print_qemu_cpu processor (codes "host") refl host-IsBare
      (inr flags_option, (inl refl, tt)) (ground arith)

parse_qemu_cpu-twice_example :
    parse_qemu_cpu (some (join b',' (codes "host" ∷ codes "max" ∷ [])))
    ≡ some ((codes "cputype", codes "max") ∷ [])
parse_qemu_cpu-twice_example =
    parse_qemu_cpu-twice (codes "host") (codes "max") host-IsBare max-IsBare
