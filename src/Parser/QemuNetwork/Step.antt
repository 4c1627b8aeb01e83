-- ===== src/Parser/QemuNetwork/Step.antt =====
-- What one part of the text does to the device that is being read.
use pve_manager_electrified.Prelude.{
  ◌≡◌, refl, Bool, true, false, some, [], ◌∷◌, ◌++◌, arith, map, not, all, ◌==◌, ◌||◌, ◌&&◌,
}
use pve_manager_electrified.Text.{
  Text, codes, is_word, is_digits, lower, text_mem, is_blank, text_eq, is_space,
}
use pve_manager_electrified.Text.Equality.{text_eq_iff, all-text_mem}
use pve_manager_electrified.Text.Split.{Lacks, is_blank-append, cut-append, cut_of_Lacks}
use pve_manager_electrified.Parser.QemuNetwork.{
  QemuNet, models, is_mac, is_rate, is_tag, is_trunks, parse_option,
}

module _ (net : QemuNet) (v : Text) where
  pub parse_option-bridge :
      is_word v ≡ true
      → parse_option net (codes "bridge=" ++ v) ≡ some (record net { bridge = some v })
  unfolding parse_option
  parse_option-bridge h = rw h

  pub parse_option-rate :
      is_rate v ≡ true → parse_option net (codes "rate=" ++ v) ≡ some (record net { rate = some v })
  unfolding parse_option
  parse_option-rate h = rw h

  pub parse_option-tag :
      is_tag v ≡ true → parse_option net (codes "tag=" ++ v) ≡ some (record net { tag = some v })
  unfolding parse_option
  parse_option-tag h = rw h

  pub parse_option-firewall :
      is_digits v ≡ true
      → parse_option net (codes "firewall=" ++ v) ≡ some (record net { firewall = some v })
  unfolding parse_option
  parse_option-firewall h = rw h

  pub parse_option-link_down :
      is_digits v ≡ true
      → parse_option net (codes "link_down=" ++ v) ≡ some (record net { disconnect = some v })
  unfolding parse_option
  parse_option-link_down h = rw h

  pub parse_option-queues :
      is_digits v ≡ true
      → parse_option net (codes "queues=" ++ v) ≡ some (record net { queues = some v })
  unfolding parse_option
  parse_option-queues h = rw h

  pub parse_option-trunks :
      is_trunks v ≡ true
      → parse_option net (codes "trunks=" ++ v) ≡ some (record net { trunks = some v })
  unfolding parse_option
  parse_option-trunks h = rw h

  pub parse_option-mtu :
      is_digits v ≡ true → parse_option net (codes "mtu=" ++ v) ≡ some (record net { mtu = some v })
  unfolding parse_option
  parse_option-mtu h = rw h

-- What the parser asks of a model's name: small letters, no separators, not blank.
is_plain_name : Text → Bool
unfolding text_eq is_blank lower
is_plain_name m =
    all (λ c. not (c == b',' || c == b'=')) m && text_eq (map lower m) m && not (is_blank m)

models-plain : (m : Text) → text_mem m models ≡ true → is_plain_name m ≡ true
unfolding is_plain_name
models-plain m h = all-text_mem is_plain_name m models refl h

all-Lacks :
    (m : Text) → all (λ c. not (c == b',' || c == b'=')) m ≡ true → Lacks b',' m × Lacks b'=' m
all-Lacks [] h = (tt, tt)
all-Lacks (c ∷ m) h =
    let rest : Lacks b',' m × Lacks b'=' m = all-Lacks m (ground arith) in
    ((ground arith, rest.0), (ground arith, rest.1))

module _ (m : Text) (known : text_mem m models ≡ true) where
  plain : is_plain_name m ≡ true
  plain = models-plain m known

  pub model-Lacks : Lacks b',' m × Lacks b'=' m
  model-Lacks = all-Lacks m (unfold is_plain_name in ground (arith, plain))

  model_lower : map lower m ≡ m
  model_lower = (text_eq_iff (map lower m) m).0 (unfold is_plain_name in ground (arith, plain))

  model-not_space : all is_space m ≡ false
  unfolding is_plain_name is_blank
  model-not_space = ground (arith, plain)

  known_lower : text_mem (map lower m) models ≡ true
  known_lower = rw model_lower known

  pub parse_option-model :
      (net : QemuNet) → parse_option net m ≡ some (record net { model = some m })
  unfolding parse_option
  parse_option-model net =
      rw (model-not_space, cut_of_Lacks b'=' m model-Lacks.1, known_lower, model_lower)

  pub parse_option-model_mac :
      (net : QemuNet) (mac : Text)
      → is_mac mac ≡ true
      → parse_option net (m ++ b'=' ∷ mac)
        ≡ some (record net { model = some m; macaddr = some mac })
  unfolding parse_option is_blank
  parse_option-model_mac net mac h = rw (
    is_blank-append m (b'=' ∷ mac) model-not_space,
    cut-append b'=' m mac model-Lacks.1,
    known_lower,
    h,
    model_lower,
  )
