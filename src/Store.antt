-- ===== src/Store.antt =====
-- www/manager6/data/ResourceStore.js: the resources of the cluster, and what the views ask of them.
-- `_fix_nameHints` of the application is a parameter, the hints by guest number.
pub mod Cache
pub mod Search
use pve_manager_electrified.Prelude.{
  ℕ, zero, suc, ◌+◌, Bool, true, false, not, ◌&&◌, ◌||◌, Option, none, some, List, [], ◌∷◌, ◌++◌,
  ltb, ◌==◌, get_elem?, if◌then◌else◌, ◌>>=◌,
}
use pve_manager_electrified.Text.{Text, codes, text_eq, text_mem, nonempty}
use pve_manager_electrified.Object.{lookup, put, prototype_names}
use pve_manager_electrified.Utils.Decimal.{show}
use pve_manager_electrified.Utils.Versions.{Signed, parse_int}

-- The fields of a record that are read here; one that is missing is `none`. `other` holds the texts
-- of the fields that resources are named by (`info[info.type]`).
pub record Resource : Type 0 where
  pub kind : Text
  pub id : Text
  pub vmid : Option ℕ
  pub name : Option Text
  pub node : Option Text
  pub shared : Option Bool
  pub uptime : Option ℕ
  pub other : List (Text × Text)

module _ (test : Resource → Bool) where
  -- `findExact`: the index of the first record that passes, counted from `i`.
  unfoldable pub find_exact : List Resource → ℕ → Option ℕ
  find_exact [] i = none
  find_exact (r ∷ rs) i = if test r then some i else find_exact rs (suc i)

abbrev pub equal_vmid : Option Signed → Option ℕ → Bool
equal_vmid none v = false
equal_vmid (some a) none = false
equal_vmid (some (true, m)) (some n) = m + n == 0
equal_vmid (some (false, m)) (some n) = m == n

-- `findExact('vmid', parseInt(vmid, 10))`
unfoldable pub index_of_vmid : Text → List Resource → Option ℕ
unfolding find_exact parse_int
index_of_vmid vmid rs = find_exact (λ r. equal_vmid (parse_int vmid) r.vmid) rs 0

is_found : Option ℕ → Bool
is_found none = false
is_found (some i) = true

unfoldable pub find_vmid : Text → List Resource → Bool
unfolding is_found index_of_vmid
find_vmid vmid rs = is_found (index_of_vmid vmid rs)

unfoldable pub get_nodes : List Resource → List Resource
unfolding text_eq
get_nodes [] = []
get_nodes (r ∷ rs) =
    let rest = get_nodes rs in if text_eq r.kind (codes "node") then r ∷ rest else rest

-- `getAt`, with `none` for an index that was not found.
unfoldable pub get_at : Option ℕ → List Resource → Option Resource
get_at none rs = none
get_at (some i) rs = get_elem? rs i

unfoldable pub index_of_id : Text → List Resource → Option ℕ
unfolding find_exact text_eq
index_of_id id rs = find_exact (λ r. text_eq r.id id) rs 0

-- The record of a node, without the cache.
unfoldable pub node_record : Text → List Resource → Option Resource
unfolding get_at index_of_id
node_record id rs = get_at (index_of_id (codes "node/" ++ id) rs) rs

shared_of : Option Resource → Option Bool
shared_of none = none
shared_of (some r) = r.shared

unfoldable pub storage_is_shared : Text → List Resource → Option Bool
unfolding shared_of get_at index_of_id
storage_is_shared storage_path rs = shared_of (get_at (index_of_id storage_path rs) rs)

-- The node of a guest, which may be missing; a guest that is not there makes the call throw.
data_node : Option Resource → Option (Option Text)
data_node none = none
data_node (some r) = some r.node

unfoldable pub guest_node : Text → List Resource → Option (Option Text)
unfolding data_node get_at index_of_vmid
guest_node vmid rs = data_node (get_at (index_of_vmid vmid rs) rs)

pub name_or_empty : Option Text → Text
name_or_empty none = []
name_or_empty (some name) = name

name_of_record : Option Resource → Text
unfolding name_or_empty
name_of_record none = codes "-"
name_of_record (some r) = name_or_empty r.name

unfoldable pub guest_name : Text → List Resource → Text
unfolding name_of_record get_at index_of_vmid
guest_name vmid rs = name_of_record (get_at (index_of_vmid vmid rs) rs)

-- The store with its cache of node records. `loading` says that a load has begun and not ended.
pub record Store : Type 0 where
  pub records : List Resource
  pub node_cache : List (Text × Resource)
  pub loading : Bool

-- What `nodeCache[id]` is when it is truthy: a record, or a property that all objects inherit.
pub data Cached : Type 0 where
  own : Resource → Cached
  inherited : Cached

cache_found : Text → Option Resource → Store → Store × Option Cached
unfolding put
cache_found id none me = (me, none)
cache_found id (some r) me = (record me { node_cache = put id r me.node_cache }, some (own r))

cached_or : Text → Option Resource → Store → Store × Option Cached
unfolding cache_found node_record text_mem
cached_or id (some r) me = (me, some (own r))
cached_or id none me =
    if text_mem id prototype_names
    then (me, some inherited)
    else cache_found id (node_record id me.records) me

-- getNodeById: an entry that is truthy is returned, any other is looked up and stored.
unfoldable pub get_node_by_id : Text → Store → Store × Option Cached
unfolding cached_or lookup
get_node_by_id id me = cached_or id (lookup id me.node_cache) me

unfoldable pub clear_cache : Store → Store
clear_cache me = record me { node_cache = [] }

-- `Ext.isNumeric(info.uptime) && info.uptime > 0`
unfoldable pub is_running : Resource → Bool
is_running info = elim info.uptime [ none ↦ false | some n ↦ ltb 0 n ]

is_guest_kind : Text → Bool
unfolding text_eq
is_guest_kind kind = text_eq kind (codes "qemu") || text_eq kind (codes "lxc")

in_brackets : Option Text → Text
in_brackets none = []
in_brackets (some []) = []
in_brackets (some (c ∷ s)) = codes " (" ++ (c ∷ s) ++ codes ")"

-- The name of a guest, or the hint for it.
name_part : Option Text → Bool → Option Text → Text
unfolding in_brackets
name_part (some (c ∷ s)) guest hint = in_brackets (some (c ∷ s))
name_part other true hint = in_brackets hint
name_part other false hint = []

or_id : Option Text → Text → Text
or_id none id = id
or_id (some []) id = id
or_id (some (c ∷ s)) id = c ∷ s

described : (ℕ → Option Text) → Option ℕ → Resource → Text
unfolding name_part in_brackets or_id is_guest_kind lookup text_eq show
described hints (some (suc n)) info =
    show (suc n) ++ name_part info.name (is_guest_kind info.kind) (hints (suc n))
described hints other info =
    or_id (lookup info.kind info.other) info.id
    ++ (if text_eq info.kind (codes "node") then [] else in_brackets info.node)

-- The convert function of the field `text`.
unfoldable pub convert_text : (ℕ → Option Text) → Text → Resource → Text
unfolding described
convert_text hints [] info = described hints info.vmid info
convert_text hints (c ∷ value) info = c ∷ value

hinted : Option ℕ → (ℕ → Option Text) → Text
unfolding name_or_empty
hinted none hints = []
hinted (some n) hints = name_or_empty (hints n)

-- The convert function of the field `name`.
unfoldable pub convert_name : (ℕ → Option Text) → Text → Resource → Text
unfolding is_guest_kind hinted
convert_name hints [] info = if is_guest_kind info.kind then hinted info.vmid hints else []
convert_name hints (c ∷ value) info = c ∷ value
