-- ===== src/Storage/Nodes.antt =====
-- The operations of `Base` in mcvirt/storage/base.py. How an exposed method is rolled back where it
-- fails on one of its nodes is the subject of Rpc.Function.
pub mod Removal
use mcvirt.Base.{
  String, Bool, true, false, not, ◌&&◌, Option, none, some, List, [], ◌∷◌, if◌then◌else◌,
}
use mcvirt.Base.Lists.{contains}
use mcvirt.Base.Dict.{Dict, insert, delete}
use mcvirt.Base.Exec.{Result, ok, err, pure, modify, gets, reads, guard, ◌>>=◌, ◌>>◌}
use mcvirt.Exceptions.{
  Exception, index_error, invalid_storage_configuration, node_already_configured,
  node_not_configured, storage_backend_in_use, no_configuration_change,
  node_used_by_static_virtual_machine, cannot_unshare_in_use, external_storage_command,
  volume_does_not_exist,
}
use mcvirt.Auth.Groups.{item}
use mcvirt.Storage.Backend.{
  StorageMethod, Backend, NodeConfig, Machine, local_backends, assert_manage, is_shared,
  get_backend_nodes, truthy, get_location, available_on_node, uses, backend_in_use,
  is_static_machine, mem_available,
}
use mcvirt.Storage.Volume.{
  StorageClass, Node, class_of, class_pre_check, id_volume_name, create_volume, delete_volume,
  ensure_volume_exists,
}
use mcvirt.Storage.Cluster.{
  check_on_node, on_nodes, on_cluster, set_local, update_backend, on_remotes,
}

-- shared == other
unfoldable pub same_flag : Bool → Bool → Bool
same_flag true b = b
same_flag false b = not b

-- update_location_config
unfoldable pub with_location : Option String → Option String → Backend → Result Exception Backend
unfolding item
with_location new_location none config = ok (record config { location = new_location })
with_location new_location (some node) config = elim (item config.nodes node) [
  | err e ↦ err e
  | ok _ ↦
      ok (record config {
        nodes = insert node (record { location = some new_location }) config.nodes;
      })
]

unfoldable pub without_node : String → Backend → Result Exception Backend
unfolding item
without_node node_name config = elim (item config.nodes node_name) [
  | err e ↦ err e
  | ok _ ↦ ok (record config { nodes = delete node_name config.nodes })
]

-- [get_hostname()] if that is among the nodes, else [self.nodes[0]]
unfoldable pub single_node : String → List String → Result Exception (List String)
single_node local nodes =
    if contains nodes local
    then ok (local ∷ [])
    else (elim nodes [ [] ↦ err index_error | node ∷ _ ↦ ok (node ∷ []) ])

-- except VolumeDoesNotExistError: raise ExternalStorageCommandErrorException
unfoldable pub verified : Result Exception (Unit {0}) → Result Exception (Unit {0})
verified (err volume_does_not_exist) = err external_storage_command
verified result = result

is_some : Option String → Bool
is_some none = false
is_some (some _) = true

module _ {K : Type 0} where
  set_local_location : String → Option String → Option String → StorageMethod K (Unit {0})
  unfolding assert_manage update_backend with_location
  set_local_location id new_location node = do
    assert_manage
    update_backend id (with_location new_location node)

  unfoldable pub set_location : String → Option String → Option String → StorageMethod K (Unit {0})
  unfolding set_local_location on_remotes
  set_location id new_location node = do
    set_local_location id new_location node
    on_remotes (set_local_location id new_location node)

  set_local_shared : String → Bool → StorageMethod K (Unit {0})
  unfolding assert_manage is_shared same_flag backend_in_use update_backend
  set_local_shared id shared = do
    assert_manage
    before ← is_shared id
    guard (not (same_flag before shared)) no_configuration_change
    now ← is_shared id
    used ← backend_in_use id none
    guard (not (now && used)) cannot_unshare_in_use
    update_backend id (λ config. ok (record config { shared = shared }))

  unfoldable pub set_shared : String → Bool → StorageMethod K (Unit {0})
  unfolding set_local_shared on_remotes
  set_shared id shared = do set_local_shared id shared; on_remotes (set_local_shared id shared)

  unfoldable pub add_node_to_config : String → String → NodeConfig → StorageMethod K (Unit {0})
  unfolding update_backend
  add_node_to_config id node_name config = update_backend id (λ storage_config.
      ok (record storage_config { nodes = insert node_name config storage_config.nodes }))

  unfoldable pub remove_node_from_config : String → String → StorageMethod K (Unit {0})
  unfolding update_backend without_node
  remove_node_from_config id node_name = update_backend id (without_node node_name)

  -- One round of the loop over the machines: the three tests of its condition, in order.
  unfoldable pub ensure_not_static : String → String → Machine → StorageMethod K (Unit {0})
  unfolding uses is_static_machine mem_available
  ensure_not_static id node_name machine =
      if uses id machine.hard_drives
      then (do
        static ← is_static_machine machine
        if static
            then (do
              available ← mem_available node_name machine
              guard (not available) node_used_by_static_virtual_machine)
            else pure tt)
      else pure tt

  unfoldable pub ensure_none_static : String → String → Dict Machine → StorageMethod K (Unit {0})
  unfolding ensure_not_static
  ensure_none_static id node_name [] = pure tt
  ensure_none_static id node_name ((_, machine) ∷ machines) =
      let rest = ensure_none_static id node_name machines in
      do ensure_not_static id node_name machine; rest

  unfoldable pub ensure_can_remove_node : String → String → StorageMethod K (Unit {0})
  unfolding available_on_node backend_in_use ensure_none_static
  ensure_can_remove_node id node_name = do
    available ← available_on_node id (some node_name) false
    guard available node_not_configured
    used ← backend_in_use id (some node_name)
    guard (not used) storage_backend_in_use
    machines ← gets (λ s. s.machines)
    ensure_none_static id node_name machines

  unfoldable pub id_volume_nodes : String → Option (List String) → StorageMethod K (List String)
  unfolding is_shared get_backend_nodes single_node
  id_volume_nodes id (some nodes) = pure nodes
  id_volume_nodes id none = do
    shared ← is_shared id
    nodes ← get_backend_nodes id
    local ← gets (λ s. s.hostname)
    reads (λ _. if shared then single_node local nodes else ok nodes)

module _ {K : Type 0} (n : Node K) where
  -- ExternalStorageCommandErrorException is caught and raised again with another message.
  unfoldable pub create_id_volume : String → Option (List String) → StorageMethod K (Unit {0})
  unfolding class_of assert_manage id_volume_nodes on_nodes create_volume ensure_volume_exists
      verified
  create_id_volume id given = do
    class ← class_of n id
    assert_manage
    nodes ← id_volume_nodes id given
    on_nodes (create_volume n class id (id_volume_name class id) 1048576) nodes
    all_nodes ← get_backend_nodes id
    λ s.
        let (result, t) =
          on_nodes (ensure_volume_exists n class id (id_volume_name class id)) all_nodes s in
        (verified result, t)

  unfoldable pub delete_id_volume : String → Option (List String) → StorageMethod K (Unit {0})
  unfolding class_of assert_manage id_volume_nodes on_nodes delete_volume
  delete_id_volume id given = do
    class ← class_of n id
    assert_manage
    nodes ← id_volume_nodes id given
    on_nodes (delete_volume n class id (id_volume_name class id) false) nodes

  -- storage_factory.node_pre_check of the class
  unfoldable pub node_pre_check : StorageClass → Option String → StorageMethod K (Unit {0})
  unfolding assert_manage class_pre_check
  node_pre_check class location = do assert_manage; class_pre_check n class location

  -- The location that is checked: the given one, or the default one of the backend.
  unfoldable pub new_node_location : String → Option String → StorageMethod K (Option String)
  unfolding truthy get_location
  new_node_location id custom_location =
      if truthy custom_location then pure custom_location else get_location id none true

  unfoldable pub add_node : String → String → Option String → StorageMethod K (Unit {0})
  unfolding assert_manage new_node_location is_some get_backend_nodes node_pre_check check_on_node
      on_cluster add_node_to_config is_shared create_id_volume
  add_node id node_name custom_location = do
    assert_manage
    location ← new_node_location id custom_location
    guard (is_some location) invalid_storage_configuration
    nodes ← get_backend_nodes id
    guard (not (contains nodes node_name)) node_already_configured
    class ← class_of n id
    check_on_node (node_pre_check class location) node_name
    on_cluster (add_node_to_config id node_name (record { location = some custom_location }))
    shared ← is_shared id
    if shared then pure tt else create_id_volume id (some (node_name ∷ []))

  unfoldable pub remove_node : String → String → StorageMethod K (Unit {0})
  unfolding assert_manage ensure_can_remove_node is_shared delete_id_volume on_cluster
      remove_node_from_config
  remove_node id node_name = do
    assert_manage
    ensure_can_remove_node id node_name
    shared ← is_shared id
    (if shared then pure tt else delete_id_volume id (some (node_name ∷ [])))
    on_cluster (remove_node_from_config id node_name)

  remove_backend_config : String → StorageMethod K (Unit {0})
  unfolding item set_local
  remove_backend_config id = do
    config ← reads (λ s. item (local_backends s) id)
    modify (λ s. set_local (delete id (local_backends s)) s)

  unfoldable pub delete_backend : String → StorageMethod K (Unit {0})
  unfolding assert_manage backend_in_use delete_id_volume on_cluster remove_backend_config
  delete_backend id = do
    assert_manage
    used ← backend_in_use id none
    guard (not used) storage_backend_in_use
    delete_id_volume id none
    on_cluster (remove_backend_config id)
