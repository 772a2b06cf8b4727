-- ===== src/Storage/Cluster.antt =====
-- How a method of mcvirt/storage/base.py reaches the nodes of a cluster, all of which can be reached:
-- `run_remote_command`, the `nodes` of an exposed method, and `update_config`.
pub mod Update
pub mod Spread
pub mod Everywhere
use mcvirt.Base.{String, false, List, [], ◌∷◌, ◌++◌, ◌==◌, if◌then◌else◌}
use mcvirt.Base.Lists.{contains}
use mcvirt.Base.Dict.{Dict, insert}
use mcvirt.Base.Exec.{Result, pure, modify, gets, reads, guard, ◌>>=◌, ◌>>◌}
use mcvirt.Exceptions.{Exception, cluster_not_initialised, node_does_not_exist}
use mcvirt.Storage.Backend.{Storage, StorageMethod, Backend, local_backends, get_backend}

module _ {K : Type 0} where
  -- A method of an object on another node, which is not the cluster master.
  unfoldable pub with_node : {A : Type 0} → String → StorageMethod K A → StorageMethod K A
  with_node node method s =
      let (result, there) =
        method
          (record s { hostname = node; request = s.peer_request; is_cluster_master = false }) in
      (
        result,
        record s { peer_request = there.request; backends = there.backends; kernel = there.kernel },
      )

  -- run_remote_command on one node
  unfoldable pub on_remote : String → StorageMethod K (Unit {0}) → StorageMethod K (Unit {0})
  unfolding with_node
  on_remote node method = do
    master ← gets (λ s. s.is_cluster_master)
    guard master cluster_not_initialised
    nodes ← gets (λ s. s.remote_nodes)
    guard (contains nodes node) node_does_not_exist
    with_node node method

  -- A check on one node, which may be this one.
  unfoldable pub check_on_node : StorageMethod K (Unit {0}) → String → StorageMethod K (Unit {0})
  unfolding on_remote
  check_on_node method node = do
    local ← gets (λ s. s.hostname)
    if node == local then method else on_remote node method

  -- The loop of Function.run over the nodes, which skips the local one.
  unfoldable pub on_others : StorageMethod K (Unit {0}) → List String → StorageMethod K (Unit {0})
  unfolding on_remote
  on_others method [] = pure tt
  on_others method (node ∷ nodes) =
      let rest = on_others method nodes in
      do
        local ← gets (λ s. s.hostname)
        (if node == local then pure tt else on_remote node method)
        rest

  -- An exposed method with `nodes`: the local node first, if it is among them.
  unfoldable pub on_nodes : StorageMethod K (Unit {0}) → List String → StorageMethod K (Unit {0})
  unfolding on_others
  on_nodes method nodes = do
    local ← gets (λ s. s.hostname)
    (if contains nodes local then method else pure tt)
    on_others method nodes

  -- run_remote_command on a list of nodes
  unfoldable pub each_remote_node :
      StorageMethod K (Unit {0}) → List String → StorageMethod K (Unit {0})
  unfolding on_remote
  each_remote_node method [] = pure tt
  each_remote_node method (node ∷ nodes) =
      let rest = each_remote_node method nodes in do on_remote node method; rest

  -- cluster.get_nodes(include_local=True)
  unfoldable pub get_nodes : Storage K → List String
  get_nodes s = if s.is_cluster_master then s.remote_nodes ++ (s.hostname ∷ []) else s.hostname ∷ []

  unfoldable pub on_cluster : StorageMethod K (Unit {0}) → StorageMethod K (Unit {0})
  unfolding on_nodes get_nodes
  on_cluster method = do nodes ← gets get_nodes; on_nodes method nodes

  unfoldable pub set_local : Dict Backend → Storage K → Storage K
  set_local backends s = record s {
    backends = λ node. if node == s.hostname then backends else s.backends node;
  }

  -- update_config of one backend, whose reason reads the name of the backend
  unfoldable pub update_backend :
      String → (Backend → Result Exception Backend) → StorageMethod K (Unit {0})
  unfolding get_backend set_local
  update_backend id f = do
    config ← get_backend id
    changed ← reads (λ _. f config)
    modify (λ s. set_local (insert id changed (local_backends s)) s)

  -- On the remote nodes, if this is the cluster master.
  unfoldable pub on_remotes : StorageMethod K (Unit {0}) → StorageMethod K (Unit {0})
  unfolding each_remote_node
  on_remotes method = do
    master ← gets (λ s. s.is_cluster_master)
    nodes ← gets (λ s. s.remote_nodes)
    if master then each_remote_node method nodes else pure tt
