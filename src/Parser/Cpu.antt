-- ===== src/Parser/Cpu.antt =====
-- parseQemuCpu and printQemuCpu of www/manager6/Parser.js: the processor of a virtual machine.
pub mod RoundTrip
use pve_manager_electrified.Prelude.{
  ℕ, Bool, true, false, ◌&&◌, ◌||◌, Option, none, some, List, [], ◌∷◌, ◌++◌, all, ◌==◌,
  if◌then◌else◌,
}
use pve_manager_electrified.Text.{
  Text, codes, text_eq, split, cut, is_blank, is_word, is_lower, nonempty,
}
use pve_manager_electrified.Object.{lookup, put, entries, has_own}
use pve_manager_electrified.Parser.{each}
use pve_manager_electrified.Parser.Options.{add_options}
use pve_manager_electrified.Parser.Drive.{assign_new}

-- `[a-z_-]+`
unfoldable pub is_cpu_key : Text → Bool
unfolding is_lower
is_cpu_key k = nonempty k && all (λ c. is_lower c || c == b'_' || c == b'-') k

-- A part that is not blank, cut at its first `=`; `none` is `errors = true; return false`. A part
-- without `=` is checked against `res.cpu` and assigned to `res.cputype`.
unfoldable pub cpu_part : List (Text × Text) → Text × Option Text → Option (List (Text × Text))
unfolding is_cpu_key is_word assign_new has_own
cpu_part res (p, none) =
    if has_own (codes "cpu") res then none else some (put (codes "cputype") p res)
cpu_part res (k, some v) = if is_cpu_key k && is_word v then assign_new k v res else none

unfoldable pub cpu_option : List (Text × Text) → Text → Option (List (Text × Text))
unfolding is_blank cpu_part cut
cpu_option res p = if is_blank p then some res else cpu_part res (cut b'=' p)

is_set : Option Text → Bool
is_set none = false
is_set (some v) = nonempty v

-- `if (errors || !res.cputype) { return undefined; }`
unfoldable pub need_cputype : Option (List (Text × Text)) → Option (List (Text × Text))
unfolding is_set lookup
need_cputype none = none
need_cputype (some res) = if is_set (lookup (codes "cputype") res) then some res else none

-- An empty value, or none, gives `{}`.
unfoldable pub parse_qemu_cpu : Option Text → Option (List (Text × Text))
unfolding cpu_option need_cputype
parse_qemu_cpu none = some []
parse_qemu_cpu (some []) = some []
parse_qemu_cpu (some (c ∷ s)) = need_cputype (each cpu_option [] (split b',' (c ∷ s)))

unfoldable pub is_cputype : Text → Bool
unfolding text_eq
is_cputype k = text_eq k (codes "cputype")

-- `cpustr + optstr`, where an empty or missing type stands for `kvm64` before options.
join_cpu : Option Text → Option Text → Option Text
join_cpu cpustr none = cpustr
join_cpu none (some []) = none
join_cpu none (some (c ∷ s)) = some (codes "kvm64" ++ c ∷ s)
join_cpu (some []) (some []) = none
join_cpu (some []) (some (c ∷ s)) = some (codes "kvm64" ++ c ∷ s)
join_cpu (some (d ∷ t)) (some s) = some (d ∷ t ++ s)

unfoldable pub print_qemu_cpu : List (Text × Text) → Option Text
unfolding add_options is_cputype join_cpu
print_qemu_cpu cpu =
    join_cpu (lookup (codes "cputype") cpu) (add_options is_cputype (some []) (entries cpu))
