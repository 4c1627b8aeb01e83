-- ===== src/Parser/QemuNetwork/Sound.antt =====
-- What parseQemuNetwork accepts is a valid device.
use mathlib.Core.Path.{subst}
use pve_manager_electrified.Prelude.{
  ◌≡◌, Bool, true, Option, none, some, List, [], ◌∷◌, arith, All, map, inl, inr, Bool-cases,
  Option-cases,
}
use pve_manager_electrified.Text.{
  Text, is_word, is_digits, text_mem, cut, nonempty, split, capture, strip_prefix, lower, is_blank,
}
use pve_manager_electrified.Text.Split.{
  Lacks, Lacks-split, Lacks-strip_prefix, Lacks-cut, LacksAfter,
}
use pve_manager_electrified.Parser.{each, each_inv}
use pve_manager_electrified.Parser.Reads.{IsField}
use pve_manager_electrified.Parser.QemuNetwork.{
  QemuNet, no_net, models, is_mac, is_rate, is_tag, is_trunks, parse_option, need_model,
  parse_qemu_network, print_qemu_network, Rule, rules, try_rules, is_model, set_model,
}
use pve_manager_electrified.Parser.QemuNetwork.Step.{model-Lacks}
use pve_manager_electrified.Parser.QemuNetwork.RoundTrip.{
  IsValid, HasBridgeForTag, parse-print_qemu_network,
}

abbrev is_known : Text → Bool
is_known m = text_mem m models

-- The fields set so far have the syntax of their option.
record IsSound (net : QemuNet) : Type 0 where
  model : IsField is_known net.model
  macaddr : IsField is_mac net.macaddr
  bridge : IsField is_word net.bridge
  rate : IsField is_rate net.rate
  tag : IsField is_tag net.tag
  firewall : IsField is_digits net.firewall
  disconnect : IsField is_digits net.disconnect
  queues : IsField is_digits net.queues
  trunks : IsField is_trunks net.trunks
  mtu : IsField is_digits net.mtu

abbrev KeepsSound : Rule → Type 0
KeepsSound rule =
    (net : QemuNet) (v : Text)
    → IsSound net
    → (rule.1 v ≡ true) × Lacks b',' v
    → IsSound (rule.2 v net)

capture_sound :
    (key : Text) (test : Text → Bool) (p v : Text)
    → capture key test p ≡ some v
    → Lacks b',' p
    → (test v ≡ true) × Lacks b',' v
unfolding capture
capture_sound key test p v e h = elim (Option-cases (strip_prefix key p)) [
  | inl q ↦ cc (rw (q, capture) at e)
  | inr (w, q) ↦
      let w≡v : w ≡ v = ground (arith, e, q) in
      (ground (arith, e, q), subst (Lacks b',') w≡v (Lacks-strip_prefix b',' key p w q h))
]

try_rules-IsSound :
    (rs : List Rule) (net : QemuNet) (p : Text) (net' : QemuNet)
    → All KeepsSound rs
    → IsSound net
    → Lacks b',' p
    → try_rules rs net p ≡ some net'
    → IsSound net'
unfolding try_rules
try_rules-IsSound [] net p net' keep s h e = cc
try_rules-IsSound ((key, test, set) ∷ rs) net p net' (keep, keeps) s h e =
    elim (Option-cases (capture key test p)) [
      | inl q ↦ try_rules-IsSound rs net p net' keeps s h (rw (q, try_rules) at e)
      | inr (v, q) ↦
          let e' = rw (q, try_rules) at e in
          let same : set v net ≡ net' = cc in
          subst IsSound same (keep net v s (capture_sound key test p v q h))
    ]

rules_sound : All KeepsSound rules
rules_sound = (
  λ net v s t. assumption,
  (
    λ net v s t. assumption,
    (
      λ net v s t. assumption,
      (
        λ net v s t. assumption,
        (
          λ net v s t. assumption,
          (λ net v s t. assumption, (λ net v s t. assumption, (λ net v s t. assumption, tt))),
        ),
      ),
    ),
  ),
)

set_model-IsSound :
    (net : QemuNet) (q : Text × Option Text)
    → is_model q ≡ true
    → LacksAfter b',' q.1
    → IsSound net
    → IsSound (set_model q net)
unfolding is_model set_model
set_model-IsSound net (m, none) h l s =
    let f : IsField is_known (some (map lower m)) = (h, (model-Lacks (map lower m) h).0) in
    assumption
set_model-IsSound net (m, some mac) h l s =
    let known : is_known (map lower m) ≡ true = ground (arith, h) in
    let f : IsField is_known (some (map lower m)) = (known, (model-Lacks (map lower m) known).0) in
    let g : IsField is_mac (some mac) = (ground (arith, h), l) in assumption

parse_option-IsSound :
    (net : QemuNet) (p : Text) (net' : QemuNet)
    → IsSound net
    → Lacks b',' p
    → parse_option net p ≡ some net'
    → IsSound net'
unfolding parse_option
parse_option-IsSound net p net' s h e = elim (Bool-cases (is_blank p)) [
  | inl blank ↦
      let e' = rw (blank, parse_option) at e in let same : net ≡ net' = cc in subst IsSound same s
  | inr filled ↦ elim (Bool-cases (is_model (cut b'=' p))) [
    | inl yes_model ↦
        let e' = rw (filled, parse_option, yes_model) at e in
        let same : set_model (cut b'=' p) net ≡ net' = cc in
        subst IsSound same (set_model-IsSound net _ yes_model (Lacks-cut b',' b'=' p h).1 s)
    | inr other ↦
        try_rules-IsSound rules net p net' rules_sound s h (rw (filled, parse_option, other) at e)
  ]
]

no_net-IsSound : IsSound no_net
no_net-IsSound = assumption tt

each-IsSound :
    (value : Text) (net : QemuNet)
    → each parse_option no_net (split b',' value) ≡ some net
    → IsSound net
each-IsSound value net e =
    each_inv IsSound (Lacks b',') parse_option parse_option-IsSound no_net (split b',' value) net
      no_net-IsSound (Lacks-split b',' value) e

need_model-eq-some :
    (r : Option QemuNet) (net : QemuNet)
    → need_model r ≡ some net
    → (r ≡ some net) × (m : Text) × (net.model ≡ some m)
unfolding need_model
need_model-eq-some none net e = cc
need_model-eq-some (some found) net e = elim (Option-cases found.model) [
  | inl q ↦ cc (rw (q, need_model) at e)
  | inr (m, q) ↦
      let e' = rw (q, need_model) at e in
      let same : found ≡ net = cc in (cc, m, subst (λ n. n.model ≡ some m) same q)
]

IsSound-IsValid : (net : QemuNet) (m : Text) → net.model ≡ some m → IsSound net → IsValid net
IsSound-IsValid net m e s =
    let f : IsField is_known (some m) = subst (IsField is_known) e s.model in
    record {
      name = m;
      named = e;
      known = f.0;
      macaddr = s.macaddr;
      bridge = s.bridge;
      rate = s.rate;
      tag = s.tag;
      firewall = s.firewall;
      disconnect = s.disconnect;
      queues = s.queues;
      trunks = s.trunks;
      mtu = s.mtu;
    }

parse_qemu_network-each :
    (key : Option Text) (value : Text) (net : QemuNet)
    → parse_qemu_network key (some value) ≡ some net
    → need_model (each parse_option no_net (split b',' value)) ≡ some net
unfolding parse_qemu_network
parse_qemu_network-each key value net e = ground (arith, e)

-- Every device that parseQemuNetwork returns is valid: its model is one of the known models in
-- small letters, and each option that is set has the syntax of its regular expression and no comma.
pub parse_qemu_network-IsValid :
    (key value : Option Text) (net : QemuNet)
    → parse_qemu_network key value ≡ some net
    → IsValid net
parse_qemu_network-IsValid key none net e =
    let e' : none ≡ some net = unfold parse_qemu_network in e in cc
parse_qemu_network-IsValid key (some value) net e =
    let (found, m, named) = need_model-eq-some _ net (parse_qemu_network-each key value net e) in
    IsSound-IsValid net m named (each-IsSound value net found)

-- What parseQemuNetwork returns for any key and value is printed to a text that it reads as the same
-- device, under every non-empty key, if a bridge is set or neither tag nor firewall is.
pub reparse_qemu_network :
    (key value : Option Text) (key' : Text) (net : QemuNet)
    → parse_qemu_network key value ≡ some net
    → HasBridgeForTag net
    → nonempty key' ≡ true
    → (text : Text) × (print_qemu_network net ≡ some text)
      × (parse_qemu_network (some key') (some text) ≡ some net)
reparse_qemu_network key value key' net e needs hk =
    parse-print_qemu_network key' net hk (parse_qemu_network-IsValid key value net e) needs
