-- ===== src/Utils/Slots.antt =====
-- The numbered slots of a guest's configuration in www/manager6/Utils.js: the counts of each bus,
-- the walks forEachBus, forEachLxcMP and forEachLxcDev, and the searches nextFreeDisk and
-- nextFreeLxcMP. A callback is a function on a state that also says whether it ends the walk.
pub mod Search
use pve_manager_electrified.Prelude.{
  ℕ, zero, suc, ◌+◌, Bool, true, false, not, ◌||◌, Option, none, some, List, [], ◌∷◌, ◌++◌, all,
  ◌==◌, if◌then◌else◌,
}
use pve_manager_electrified.Text.{Text, codes, text_mem}
use pve_manager_electrified.Object.{lookup, is_defined, prototype_names}
use pve_manager_electrified.Utils.Decimal.{show}

-- diskControllerMaxIDs
abbrev pub max_ids : List (Text × ℕ)
max_ids =
    (codes "ide", 4)
    ∷ (codes "sata", 6)
    ∷ (codes "scsi", 31)
    ∷ (codes "virtio", 16)
    ∷ (codes "unused", 256)
    ∷ []

-- lxc_mp_counts
abbrev pub lxc_mp_counts : List (Text × ℕ)
lxc_mp_counts = (codes "mp", 256) ∷ (codes "unused", 256) ∷ []

abbrev pub lxc_dev_count : ℕ
lxc_dev_count = 256

-- A bound that is missing stops a loop at once.
abbrev pub or_zero : Option ℕ → ℕ
or_zero none = 0
or_zero (some n) = n

unfoldable pub count_of : List (Text × ℕ) → Text → ℕ
unfolding lookup
count_of counts k = or_zero (lookup k counts)

-- The `confid` of a slot.
unfoldable pub confid : Text → ℕ → Text
unfolding show
confid controller i = controller ++ show i

-- `let cont = func(…); if (!cont && cont !== undefined) { return; }`: the callback's new state, and
-- whether it returned a falsy value other than `undefined`.
abbrev pub Callback : Type 0 → Type 0 → Type 0
Callback S X = S → X → S × Bool

module _ {S X : Type 0} (func : Callback S X) where
  -- A loop over a list, and whether a call ended the whole walk.
  unfoldable pub walk : S → List X → S × Bool
  walk s [] = (s, false)
  walk s (x ∷ xs) =
      let rest = walk (func s x).0 xs in if (func s x).1 then ((func s x).0, true) else rest

-- `for (let j = i; j < i + n; j++)`
unfoldable pub count_up : ℕ → ℕ → List ℕ
count_up i zero = []
count_up i (suc n) = i ∷ count_up (suc i) n

unfoldable pub bus_slots : Text → List ℕ → List (Text × ℕ)
bus_slots bus [] = []
bus_slots bus (j ∷ js) = (bus, j) ∷ bus_slots bus js

unfoldable pub all_slots : List (Text × ℕ) → List Text → List (Text × ℕ)
unfolding count_of count_up bus_slots
all_slots counts [] = []
all_slots counts (b ∷ bs) = bus_slots b (count_up 0 (count_of counts b)) ++ all_slots counts bs

-- `types` is undefined, an array of busses, or a single bus.
pub data Types : Type 0 where
  every : Types
  array : List Text → Types
  single : Text → Types

unfoldable pub busses_of : Types → List Text
busses_of every = codes "ide" ∷ codes "sata" ∷ codes "scsi" ∷ codes "virtio" ∷ codes "unused" ∷ []
busses_of (array bs) = bs
busses_of (single b) = b ∷ []

-- A count that is not 0, or what every object inherits, is truthy.
unfoldable pub is_bus : Text → Bool
unfolding count_of text_mem
is_bus b = not (count_of max_ids b == 0) || text_mem b prototype_names

-- An invalid bus throws (`none`) before any call.
unfoldable pub for_each_bus : {S : Type 0} → Callback S (Text × ℕ) → Types → S → Option S
unfolding walk all_slots busses_of is_bus
for_each_bus func types s =
    if all is_bus (busses_of types)
    then some (walk func s (all_slots max_ids (busses_of types))).0
    else none

unfoldable pub for_each_lxc_mp : {S : Type 0} → Callback S (Text × ℕ) → Bool → S → S
unfolding walk bus_slots count_up
for_each_lxc_mp func include_unused s =
    (walk func s (
      bus_slots (codes "mp") (count_up 0 256)
      ++ (if include_unused then bus_slots (codes "unused") (count_up 0 256) else []))).0

unfoldable pub for_each_lxc_dev : {S : Type 0} → Callback S ℕ → S → S
unfolding walk count_up
for_each_lxc_dev func s = (walk func s (count_up 0 lxc_dev_count)).0

pub record Slot : Type 0 where
  pub controller : Text
  pub id : ℕ
  pub confid : Text

abbrev pub Config : Type 0
Config = List (Text × Text)

-- `for (let i = …) { if (!Ext.isDefined(config[confid])) { return …; } }` with `n` rounds left.
unfoldable pub find_id : Text → Config → ℕ → ℕ → Option ℕ
unfolding is_defined confid
find_id controller config i zero = none
find_id controller config i (suc n) =
    let rest = find_id controller config (suc i) n in
    if is_defined (confid controller i) config then rest else some i

-- The slot that a search found, or what follows.
found_or : Text → Option ℕ → Option Slot → Option Slot
unfolding confid
found_or controller none next = next
found_or controller (some i) next =
    some (record { controller = controller; id = i; confid = confid controller i })

unfoldable pub next_free_disk : List Text → Config → Option Slot
unfolding find_id count_of found_or
next_free_disk [] config = none
next_free_disk (c ∷ cs) config =
    let rest = next_free_disk cs config in found_or c (find_id c config 0 (count_of max_ids c)) rest

unfoldable pub next_free_lxc_mp : Text → Config → Option Slot
unfolding find_id count_of found_or
next_free_lxc_mp kind config =
    found_or kind (find_id kind config 0 (count_of lxc_mp_counts kind)) none
