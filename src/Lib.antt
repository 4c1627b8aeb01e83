-- ===== src/Lib.antt =====
-- The web interface of pve-manager: the texts in which it keeps the configuration of guests, and the
-- helpers with which it works on them.
--
-- The interface (www/manager6) reads a guest's configuration from the API as texts such as
-- `virtio=BC:24:11:00:00:01,bridge=vmbr0`, edits it as an object, and writes a text back. Parser.js
-- has a parser and a printer for each kind of text, which the hardware views, the edit windows and
-- the wizards call; Utils.js has the helpers that look for a free slot for a new disk, keep the
-- list of ACME domains, and escape the notes of a backup; tree/ResourceTree.js keeps the nodes of
-- the resource tree sorted and grouped. data/ResourceStore.js holds the resources that the tree and
-- the search (form/GlobalSearchField.js) show, UIOptions.js the settings that the tree reads, and
-- StateProvider.js the selection that the browser's history keeps; qemu/BootOrderEdit.js,
-- form/VMCPUFlagSelector.js and tree/SnapshotTree.js turn texts and lists into grids and trees.
-- What a view saves is what a parser gave it, so the question that runs through this library is
-- what is kept when a value is printed and parsed again.
--
-- Which file is about which part:
--   Text           texts as lists of UTF-16 code units, with the regular expressions that Parser.js
--                  uses written as functions (`\S+` is is_word, `\d+` is_digits, `^\s*$` is_blank);
--                  `split(',')` is split, `split('=', 2)` split_pair, `split(/[=](.+)/)` split_value
--   Object         JavaScript objects used as maps: insertion order, indices first, `__proto__`, and
--                  the names that every object inherits, which `Ext.isDefined(res[k])` sees
--   Parser         `Ext.Array.each` and `forEach` with a throw, as a fold that may fail (each)
--   Parser/PropertyString   parsePropertyString, printPropertyString, filterPropertyStringList
--   Parser/QemuNetwork      parseQemuNetwork, printQemuNetwork
--   Parser/Drive            parseQemuDrive, printQemuDrive
--   Parser/MountPoint       parseLxcMountPoint, printLxcMountPoint
--   Parser/LxcNetwork       parseBoolean, parseLxcNetwork, printLxcNetwork
--   Parser/IpConfig, Parser/Startup, Parser/Cpu, Parser/Smbios, Parser/Tfa
--                           the parser and the printer of the same name
--   Parser/Acme             printACME, parseACME, parseACMEPluginData; add_domain_to_acme and
--                           remove_domain_from_acme of Utils.js
--   Utils/Slots    diskControllerMaxIDs, forEachBus, forEachLxcMP, forEachLxcDev, nextFreeDisk,
--                  nextFreeLxcMP (Utils.js)
--   Utils/Notes    escapeNotesTemplate, unEscapeNotesTemplate (Utils.js)
--   Utils/Versions compare_ceph_versions, qemu_min_version, get_max_usb_count (Utils.js)
--   Utils/Controllers       the defaults of qemu/OSDefaults.js and sortByPreviousUsage (Utils.js)
--   Utils/Fields   delete_if_default, propertyStringSet (Utils.js)
--   Utils/Rendering         guest systems, icons, start orders and features as they are shown
--                           (Utils.js)
--   Utils/Decimal  the decimal digits of a number, as `toString` writes them
--   Tree           getTypeOrder, nodeSortFn, findInsertIndex and the end of addChildSorted
--                  (tree/ResourceTree.js)
--   Tree/Grouping  addChildSorted with nested pools, and groupChild, on the whole tree
--   State          the history token of StateProvider.js; State/Provider its methods
--   Snapshots      the loops of reload, the order of snapshots, and compactTree
--                  (tree/SnapshotTree.js)
--   Store          the lookups, the cache and the converted fields of data/ResourceStore.js
--   Forms/BootOrder         qemu/BootOrderEdit.js: the order of the devices to boot from
--   Forms/CpuFlags          form/VMCPUFlagSelector.js: the processor flags of a guest
--   Forms/Search            form/GlobalSearchField.js: what the search shows, with its relevance
--   UiOptions      the tags, their colours and the settings of UIOptions.js
--   PermPath       the constructor of data/PermPathStore.js
--   Tests          runs at fixed inputs, and each theorem at one
-- A file's child modules hold its lemmas and theorems.
--
-- A call that returns `undefined` is `none`; one that throws is `none` too where nothing else is, and
-- `throws` of an outcome where the two differ (parseQemuDrive). A field that is missing is `none`.
-- Numbers in texts stay texts, as in the source.
--
-- Fuel: find_insert_index takes the length of the children and one more, which is enough because
-- each call leaves a shorter range. Decimal digits take the number and one more. add_child_sorted
-- takes more than the length of the pool's text, since the pool above is a shorter text.
--
-- Parameters: `localeCompare` of the platform (Tree, Snapshots), `toLowerCase` of the platform
-- (Forms/Search), `gettext` (Utils/Rendering), `encodeURIComponent` and `decodeURIComponent` of the
-- platform and `Ext.encode` (State), `findChild` of an Ext tree and the texts of groups
-- (Tree/Grouping), the name hints of the application (Store), the Base64 codec of Ext
-- (Parser/Smbios), and the sort of an Ext store (PermPath). The platform's array sort is written as
-- an insertion sort, which is stable as it is.
--
-- Not modelled: the views themselves (grids, windows, forms), which call ExtJS; updateTree of the
-- resource tree, which compares the store with the tree; parseSSHKey, whose pattern backtracks; the
-- rendering of HTML; the API requests; the Perl server; the Node.js server and its TypeScript
-- client.
pub mod Prelude
pub mod Text
pub mod Object
pub mod Parser
pub mod Utils
pub mod Tree
pub mod PermPath
pub mod State
pub mod Snapshots
pub mod Store
mod Tests
pub mod Forms
pub mod UiOptions
