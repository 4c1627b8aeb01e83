-- ===== src/PermPath.antt =====
-- www/manager6/data/PermPathStore.js: the paths that are offered where a permission is granted. The
-- store's sort is Ext's, a parameter; a resource is its fields, each as the text that it adds.
pub mod Offered
use pve_manager_electrified.Prelude.{
  Bool, true, false, Option, none, some, List, [], ◌∷◌, ◌++◌, if◌then◌else◌,
}
use pve_manager_electrified.Text.{Text, codes, text_eq, text_mem}

-- The `value` of each record that the store starts with.
abbrev pub static_paths : List Text
static_paths =
    codes "/"
    ∷ codes "/access"
    ∷ codes "/access/groups"
    ∷ codes "/access/realm"
    ∷ codes "/mapping"
    ∷ codes "/mapping/hwrng"
    ∷ codes "/mapping/notifications"
    ∷ codes "/mapping/pci"
    ∷ codes "/mapping/usb"
    ∷ codes "/nodes"
    ∷ codes "/pool"
    ∷ codes "/sdn/fabrics"
    ∷ codes "/sdn/zones"
    ∷ codes "/storage"
    ∷ codes "/vms"
    ∷ []

-- `record.get`
abbrev pub Resource : Type 0
Resource = Text → Text

-- The `switch`; a resource of another type has no path.
unfoldable pub path_of : Resource → Option Text
unfolding text_eq
path_of get =
    let type = get (codes "type") in
    if text_eq type (codes "node")
    then some (codes "/nodes/" ++ get (codes "text"))
    else if text_eq type (codes "network")
    then some (codes "/sdn/" ++ get (codes "network-type") ++ codes "s/" ++ get (codes "network"))
    else if text_eq type (codes "qemu")
    then some (codes "/vms/" ++ get (codes "vmid"))
    else if text_eq type (codes "lxc")
    then some (codes "/vms/" ++ get (codes "vmid"))
    else if text_eq type (codes "sdn")
    then some (codes "/sdn/zones/" ++ get (codes "sdn"))
    else if text_eq type (codes "storage")
    then some (codes "/storage/" ++ get (codes "storage"))
    else if text_eq type (codes "pool")
    then some (codes "/pool/" ++ get (codes "pool"))
    else none

-- `if (path !== undefined && !donePaths[path]) { me.add(…); donePaths[path] = 1; }`, where the second
-- list holds the paths that are done, which are those that were added.
unfoldable pub add_path : Option Text → List Text → List Text
unfolding text_mem
add_path none done = done
add_path (some path) done = if text_mem path done then done else done ++ (path ∷ [])

unfoldable pub add_paths : List Resource → List Text → List Text
unfolding add_path path_of
add_paths [] done = done
add_paths (r ∷ resources) done = add_paths resources (add_path (path_of r) done)

unfoldable pub perm_paths : (List Text → List Text) → List Resource → List Text
unfolding add_paths
perm_paths sort resources = sort (static_paths ++ add_paths resources [])
