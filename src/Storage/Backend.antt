-- ===== src/Storage/Backend.antt =====
-- The configuration of the storage backends and what mcvirt/storage/base.py reads from it. Each node
-- has its own copy of the configuration. A method of a backend is a function of the id of the backend.

use mcvirt.Base.{
  String, Bool, true, false, not, ◌&&◌, ◌||◌, Option, none, some, List, [], ◌∷◌, ◌==◌,
  if◌then◌else◌,
}
use mcvirt.Base.Lists.{contains}
use mcvirt.Base.Dict.{Dict, keys}
use mcvirt.Base.Exec.{err, Exec, pure, gets, reads, guard, ◌>>=◌, ◌>>◌}
use mcvirt.Exceptions.{
  Exception, type_error, unsuitable_node, storage_backend_not_available_on_node,
}
use mcvirt.Auth.Groups.{item}
use mcvirt.Auth.Permission.{Request, Method, assert_permission}

-- The entry of a node: `none` without the key 'location', `some none` where that is None.
pub record NodeConfig : Type 0 where
  pub location : Option (Option String)

pub record Backend : Type 0 where
  pub name : String
  pub storage_type : String
  pub shared : Bool
  pub nodes : Dict NodeConfig
  -- the default location
  pub location : Option String

-- A hard drive: its storage backend, and whether it is a DRBD drive.
pub record Disk : Type 0 where
  pub storage_backend : String
  pub is_drbd : Bool

pub record Machine : Type 0 where
  pub hard_drives : List Disk
  pub available_nodes : Option (List String)

-- The nodes of a cluster, seen from one of them. `K` is the state of their disks.
pub record Storage (K : Type 0) : Type 0 where
  pub hostname : String
  pub request : Request
  -- the request that a call of a remote node makes there
  pub peer_request : Request
  pub is_cluster_master : Bool
  -- what cluster.get_nodes() answers on the cluster master
  pub remote_nodes : List String
  -- MCVirtConfig of each node
  pub backends : String → Dict Backend
  pub machines : Dict Machine
  pub kernel : K

abbrev pub StorageMethod : Type 0 → Type 0 → Type 0
StorageMethod K A = Exec Exception (Storage K) A

-- The test of a location in a condition: None and the empty text are false.
unfoldable pub truthy : Option String → Bool
truthy none = false
truthy (some location) = not (location == "")

-- The location in the entry of a node, if there is one that counts, and the default one otherwise.
unfoldable pub location_of : NodeConfig → Option String → Bool → Option String
unfolding truthy
location_of entry default return_default = elim entry.location [
  | none ↦ default
  | some own ↦ if truthy own && not return_default then own else default
]

-- hard_drive.storage_backend == self, for the drives of one machine
unfoldable pub uses : String → List Disk → Bool
uses id [] = false
uses id (disk ∷ disks) = if disk.storage_backend == id then true else uses id disks

unfoldable pub used_by : String → Dict Machine → Bool
unfolding uses
used_by id [] = false
used_by id ((_, machine) ∷ machines) =
    if uses id machine.hard_drives then true else used_by id machines

module _ {K : Type 0} where
  -- A call of another object of the node.
  unfoldable pub call : {A : Type 0} → Method A → StorageMethod K A
  call method s = let (result, q) = method s.request in (result, record s { request = q })

  -- The configuration on the node itself.
  abbrev pub local_backends : Storage K → Dict Backend
  local_backends s = s.backends s.hostname

  unfoldable pub assert_manage : StorageMethod K (Unit {0})
  unfolding call assert_permission
  assert_manage = call (assert_permission "MANAGE_STORAGE_BACKEND" none false)

  -- Base.get_config
  unfoldable pub get_backend : String → StorageMethod K Backend
  unfolding assert_manage item
  get_backend id = do assert_manage; reads (λ s. item (local_backends s) id)

  -- The properties `shared` and `nodes`.
  unfoldable pub is_shared : String → StorageMethod K Bool
  unfolding get_backend
  is_shared id = do config ← get_backend id; pure config.shared

  unfoldable pub get_backend_nodes : String → StorageMethod K (List String)
  unfolding get_backend keys
  get_backend_nodes id = do config ← get_backend id; pure (keys config.nodes)

  unfoldable pub is_static_backend : String → StorageMethod K Bool
  unfolding is_shared
  is_static_backend id = do shared ← is_shared id; pure (not shared)

  unfoldable pub is_drbd_suitable : String → StorageMethod K Bool
  unfolding is_shared
  is_drbd_suitable id = do shared ← is_shared id; pure (not shared)

  unfoldable pub get_location : String → Option String → Bool → StorageMethod K (Option String)
  unfolding get_backend_nodes get_backend location_of item
  get_location id at return_default = do
    local ← gets (λ s. s.hostname)
    node_name ← pure (elim at [ none ↦ local | some given ↦ given ])
    nodes ← get_backend_nodes id
    guard (contains nodes node_name) unsuitable_node
    config ← get_backend id
    node_config ← reads (λ _. item config.nodes node_name)
    pure (location_of node_config config.location return_default)

  unfoldable pub available_on_node : String → Option String → Bool → StorageMethod K Bool
  unfolding get_backend_nodes
  available_on_node id at raise_on_err = do
    local ← gets (λ s. s.hostname)
    node_name ← pure (elim at [ none ↦ local | some given ↦ given ])
    nodes ← get_backend_nodes id
    guard (contains nodes node_name || not raise_on_err) storage_backend_not_available_on_node
    pure (contains nodes node_name)

  -- The node is passed on to get_all_vm_ids, which ignores it.
  unfoldable pub backend_in_use : String → Option String → StorageMethod K Bool
  unfolding used_by
  backend_in_use id at = gets (λ s. used_by id s.machines)

  -- disk.is_static(): a DRBD drive is, and another one where its backend is.
  unfoldable pub has_static_disk : List Disk → StorageMethod K Bool
  unfolding is_static_backend
  has_static_disk [] = pure false
  has_static_disk (disk ∷ disks) =
      let rest = has_static_disk disks in
      do
        static ← (if disk.is_drbd then pure true else is_static_backend disk.storage_backend)
        others ← rest
        pure (static || others)

  -- VirtualMachine.is_static
  unfoldable pub is_static_machine : Machine → StorageMethod K Bool
  unfolding has_static_disk
  is_static_machine machine = do
    static ← has_static_disk machine.hard_drives
    pure (static || (elim machine.available_nodes [ none ↦ false | some _ ↦ true ]))

  -- node_name in virtual_machine.get_available_nodes(), of a static machine
  unfoldable pub mem_available : String → Machine → StorageMethod K Bool
  mem_available node_name machine = elim machine.available_nodes [
    | none ↦ λ s. (err type_error, s)
    | some nodes ↦ pure (contains nodes node_name)
  ]
