-- ===== src/Tests/Store.antt =====
-- The resource store: runs, and the theorems at an input.
use pve_manager_electrified.Prelude.{
  ℕ, ◌≡◌, ◌⊎◌, refl, true, false, Option, none, some, List, [], ◌∷◌,
}
use pve_manager_electrified.Text.{Text, codes}
use pve_manager_electrified.Store.{
  Resource, Store, find_vmid, guest_node, guest_name, name_or_empty, own, get_node_by_id,
  clear_cache,
}
use pve_manager_electrified.Store.Cache.{
  begin_load, end_load, ask, Reach, here, next, Answers, get_node_by_id-Reach,
}
use pve_manager_electrified.Store.Search.{first_such, has_vmid, guest_lem}

abbrev resource : Text → Text → Option ℕ → Option Text → Resource
resource kind id vmid name = record {
  kind = kind;
  id = id;
  vmid = vmid;
  name = name;
  node = some (codes "pve1");
  shared = none;
  uptime = none;
  other = [];
}

abbrev cluster : List Resource
cluster =
    resource (codes "node") (codes "node/pve1") none none
    ∷ resource (codes "qemu") (codes "qemu/100") (some 100) (some (codes "web"))
    ∷ resource (codes "lxc") (codes "lxc/101") (some 101) none
    ∷ []

abbrev fresh : List Resource → Store
fresh rs = record { records = rs; node_cache = []; loading = false }

abbrev old_record : Resource
old_record = resource (codes "node") (codes "node/pve1") none (some (codes "old"))

abbrev new_record : Resource
new_record = resource (codes "node") (codes "node/pve1") none (some (codes "new"))

-- A load begins, the old record is asked for, and the load ends with a new one.
abbrev began : Store
began = record (clear_cache (fresh (old_record ∷ []))) { loading = true }

abbrev asked : Store
asked = (get_node_by_id (codes "pve1") began).0

abbrev ended : Store
ended = record asked { records = new_record ∷ []; loading = false }

ended_loading : asked.loading ≡ true
unfolding get_node_by_id clear_cache
ended_loading = refl

ended_reached : Reach (fresh (old_record ∷ [])) [] ended ((codes "pve1", old_record ∷ []) ∷ [])
unfolding clear_cache
ended_reached =
    next (next (next here (begin_load _ _)) (ask began _ (codes "pve1")))
      (end_load asked _ (new_record ∷ []) ended_loading)

get_node_by_id-Reach_example :
    Answers
      (codes "pve1")
      ended
      ((codes "pve1", old_record ∷ []) ∷ [])
      (get_node_by_id (codes "pve1") ended).1
get_node_by_id-Reach_example =
    get_node_by_id-Reach (old_record ∷ []) ended ((codes "pve1", old_record ∷ []) ∷ [])
      (codes "pve1") ended_reached

-- The record of before the load is still answered behind it.
stale_run : (get_node_by_id (codes "pve1") ended).1 ≡ some (own old_record)
unfolding get_node_by_id clear_cache
stale_run = refl

guest_lem_example :
    ((first_such (has_vmid (codes "101")) cluster ≡ none)
      × (find_vmid (codes "101") cluster ≡ false)
      × (guest_node (codes "101") cluster ≡ none)
      × (guest_name (codes "101") cluster ≡ codes "-"))
    ⊎ ((r : Resource) × (first_such (has_vmid (codes "101")) cluster ≡ some r)
        × (find_vmid (codes "101") cluster ≡ true)
        × (guest_node (codes "101") cluster ≡ some r.node)
        × (guest_name (codes "101") cluster ≡ name_or_empty r.name))
guest_lem_example = guest_lem (codes "101") cluster
