-- ===== src/Parser/QemuNetwork/RoundTrip.antt =====
-- A printed network device is read back.
use mathlib.Core.Path.{subst, sym}
use mathlib.Core.Logic.{◌≢◌}
use pve_manager_electrified.Prelude.{◌≡◌, refl, ap, true, Option, none, some, [], ◌∷◌, ◌++◌, arith}
use pve_manager_electrified.Text.{
  Text, codes, is_word, is_digits, text_mem, nonempty, add_field, split, join,
}
use pve_manager_electrified.Text.Split.{Lacks-append}
use pve_manager_electrified.Parser.{each}
use pve_manager_electrified.Parser.Reads.{IsField, Reads, Reads-add_field, Reads-split}
use pve_manager_electrified.Parser.QemuNetwork.{
  QemuNet, no_net, models, is_mac, is_rate, is_tag, is_trunks, parse_option, need_model,
  parse_qemu_network, add_bridge, print_qemu_network,
}
use pve_manager_electrified.Parser.QemuNetwork.Step.{
  parse_option-bridge, parse_option-rate, parse_option-tag, parse_option-firewall,
  parse_option-link_down, parse_option-queues, parse_option-trunks, parse_option-mtu, model-Lacks,
  parse_option-model, parse_option-model_mac,
}

-- A device whose model is known and whose other fields, where set, have the syntax of their option
-- and hold no comma.
pub record IsValid (net : QemuNet) : Type 0 where
  pub name : Text
  pub named : net.model ≡ some name
  pub known : text_mem name models ≡ true
  pub macaddr : IsField is_mac net.macaddr
  pub bridge : IsField is_word net.bridge
  pub rate : IsField is_rate net.rate
  pub tag : IsField is_tag net.tag
  pub firewall : IsField is_digits net.firewall
  pub disconnect : IsField is_digits net.disconnect
  pub queues : IsField is_digits net.queues
  pub trunks : IsField is_trunks net.trunks
  pub mtu : IsField is_digits net.mtu

-- `tag` and `firewall` are printed only behind a bridge.
abbrev pub HasBridgeForTag : QemuNet → Type 0
HasBridgeForTag net = net.bridge ≡ none → (net.tag ≡ none) × (net.firewall ≡ none)

abbrev ReadsNet : QemuNet → Option Text → Type 0
ReadsNet = Reads parse_option no_net

word-nonempty : (v : Text) → is_word v ≡ true → nonempty v ≡ true
unfolding is_word
word-nonempty [] h = h
word-nonempty (c ∷ v) h = refl

digits-nonempty : (v : Text) → is_digits v ≡ true → nonempty v ≡ true
unfolding is_digits
digits-nonempty [] h = h
digits-nonempty (c ∷ v) h = refl

rate-nonempty : (v : Text) → is_rate v ≡ true → nonempty v ≡ true
unfolding is_rate
rate-nonempty [] h = h
rate-nonempty (c ∷ v) h = refl

tag-nonempty : (v : Text) → is_tag v ≡ true → nonempty v ≡ true
unfolding is_tag
tag-nonempty [] h = h
tag-nonempty (c ∷ v) h = refl

trunks-nonempty : (v : Text) → is_trunks v ≡ true → nonempty v ≡ true
unfolding is_trunks
trunks-nonempty [] h = h
trunks-nonempty (c ∷ v) h = refl

mac-nonempty : (v : Text) → is_mac v ≡ true → nonempty v ≡ true
unfolding is_mac
mac-nonempty [] h = h
mac-nonempty (c ∷ v) h = refl

module _ (m : Text) (known : text_mem m models ≡ true) where
  reads_start :
      (mac : Option Text)
      → IsField is_mac mac
      → ReadsNet
          (record no_net { model = some m; macaddr = mac })
          (add_field (codes "=") mac (some m))
  unfolding each join
  reads_start none h = record {
    head = m;
    tail = [];
    spelled = refl;
    head_lacks = (model-Lacks m known).0;
    tail_lacks = tt;
    read = rw (parse_option-model m known no_net, each);
  }
  reads_start (some []) (h, l) = cc (mac-nonempty [] h)
  reads_start (some (c ∷ mac)) (h, l) = record {
    head = m ++ b'=' ∷ c ∷ mac;
    tail = [];
    spelled = refl;
    head_lacks = Lacks-append b',' m _ (model-Lacks m known).0 (omega arith, l);
    tail_lacks = tt;
    read = rw (parse_option-model_mac m known no_net (c ∷ mac) h, each);
  }

  module _ (mac : Option Text) (hmac : IsField is_mac mac) where
    -- The device so far, with the fields of the bridge.
    bridged : Option Text → Option Text → Option Text → QemuNet
    bridged b t f = record no_net {
      model = some m;
      macaddr = mac;
      bridge = b;
      tag = t;
      firewall = f;
    }

    reads_bridged :
        (b t f : Option Text)
        → IsField is_word b
        → IsField is_tag t
        → IsField is_digits f
        → (b ≡ none → (t ≡ none) × (f ≡ none))
        → ReadsNet (bridged b t f) (add_bridge b t f (add_field (codes "=") mac (some m)))
    unfolding bridged add_bridge
    reads_bridged none t f hb ht hf needs =
        let (no_tag, no_firewall) = needs refl in rw (no_tag, no_firewall) (reads_start mac hmac)
    reads_bridged (some []) t f (h, l) ht hf needs = cc (word-nonempty [] h)
    reads_bridged (some (c ∷ v)) t f hb ht hf needs =
        Reads-add_field _ _ (codes "firewall=") is_digits f (bridged (some (c ∷ v)) t) _
          digits-nonempty (parse_option-firewall _) (omega arith) hf
          (Reads-add_field _ _ (codes "tag=") is_tag t (λ s. bridged (some (c ∷ v)) s none) _
            tag-nonempty (parse_option-tag _) (omega arith) ht
            (Reads-add_field _ _ (codes "bridge=") is_word (some (c ∷ v)) (λ s. bridged s none none)
              _ word-nonempty (parse_option-bridge _) (omega arith) hb (reads_start mac hmac)))

  reads_device :
      (mac b t f r q d k u : Option Text)
      → IsValid (record {
        model = some m;
        macaddr = mac;
        bridge = b;
        rate = r;
        tag = t;
        firewall = f;
        disconnect = d;
        queues = q;
        trunks = k;
        mtu = u;
      })
      → (b ≡ none → (t ≡ none) × (f ≡ none))
      → ReadsNet
          (record {
            model = some m;
            macaddr = mac;
            bridge = b;
            rate = r;
            tag = t;
            firewall = f;
            disconnect = d;
            queues = q;
            trunks = k;
            mtu = u;
          })
          (print_qemu_network (record {
            model = some m;
            macaddr = mac;
            bridge = b;
            rate = r;
            tag = t;
            firewall = f;
            disconnect = d;
            queues = q;
            trunks = k;
            mtu = u;
          }))
  unfolding print_qemu_network bridged
  reads_device mac b t f r q d k u v needs =
      let base = bridged mac v.macaddr b t f in
      let s1 =
        Reads-add_field _ _ (codes "rate=") is_rate r (λ s. record base { rate = s }) _
          rate-nonempty (parse_option-rate _) (omega arith) v.rate
          (reads_bridged mac v.macaddr b t f v.bridge v.tag v.firewall needs) in
      let s2 =
        Reads-add_field _ _ (codes "queues=") is_digits q
          (λ s. record base { rate = r; queues = s }) _ digits-nonempty (parse_option-queues _)
          (omega arith) v.queues s1 in
      let s3 =
        Reads-add_field _ _ (codes "link_down=") is_digits d
          (λ s. record base { rate = r; queues = q; disconnect = s }) _ digits-nonempty
          (parse_option-link_down _) (omega arith) v.disconnect s2 in
      let s4 =
        Reads-add_field _ _ (codes "trunks=") is_trunks k
          (λ s. record base { rate = r; queues = q; disconnect = d; trunks = s }) _ trunks-nonempty
          (parse_option-trunks _) (omega arith) v.trunks s3 in
      Reads-add_field _ _ (codes "mtu=") is_digits u
        (λ s. record base { rate = r; queues = q; disconnect = d; trunks = k; mtu = s }) _
        digits-nonempty (parse_option-mtu _) (omega arith) v.mtu s4

reads_net :
    (net : QemuNet) → IsValid net → HasBridgeForTag net → ReadsNet net (print_qemu_network net)
reads_net net v needs =
    subst (λ n. IsValid n → HasBridgeForTag n → ReadsNet n (print_qemu_network n))
      (ap (λ m. record net { model = m }) (sym v.named))
      (reads_device v.name v.known net.macaddr net.bridge net.tag net.firewall net.rate net.queues
        net.disconnect net.trunks net.mtu)
      v needs

-- The empty text gives no model.
each-nonempty :
    (text : Text) (net : QemuNet)
    → each parse_option no_net (split b',' text) ≡ some net
    → net.model ≢ none
    → nonempty text ≡ true
unfolding each split parse_option
each-nonempty [] net e h = absurd (h (ground arith))
each-nonempty (c ∷ text) net e h = refl

parse-each :
    (key text : Text) (net : QemuNet)
    → nonempty key ≡ true
    → each parse_option no_net (split b',' text) ≡ some net
    → net.model ≢ none
    → parse_qemu_network (some key) (some text) ≡ some net
unfolding parse_qemu_network
parse-each key text net hk e h = ground (arith, hk, each-nonempty text net e h, ap need_model e)

-- A valid device is printed to a text from which parseQemuNetwork gives it back, if its tag and
-- firewall are set only together with a bridge, for every non-empty key.
pub parse-print_qemu_network :
    (key : Text) (net : QemuNet)
    → nonempty key ≡ true
    → IsValid net
    → HasBridgeForTag net
    → (text : Text) × (print_qemu_network net ≡ some text)
      × (parse_qemu_network (some key) (some text) ≡ some net)
parse-print_qemu_network key net hk v needs =
    let r = reads_net net v needs in
    let text = join b',' (r.head ∷ r.tail) in
    let e : each parse_option no_net (split b',' text) ≡ some net =
      Reads-split parse_option no_net net text (subst (ReadsNet net) r.spelled r) in
    (text, r.spelled, parse-each key text net hk e (λ q. cc (v.named)))
