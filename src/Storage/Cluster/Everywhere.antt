-- ===== src/Storage/Cluster/Everywhere.antt =====
-- What the configurations of the nodes of a cluster hold once a node was added to a storage backend, or
-- removed from it: `add_node_to_config` and `remove_node_from_config` of mcvirt/storage/base.py.
use mcvirt.Base.{
  String, true, false, some, [], ◌∷◌, ◌==◌, ◌≡◌, refl, ap, subst, ◌∙◌, if◌then◌else◌, inl, inr,
  Bool-cases, eq_refl,
}
use mcvirt.Base.Lists.{contains}
use mcvirt.Base.Dict.{Dict, lookup, insert, delete, keys, lookup-insert}
use mcvirt.Base.Exec.{Result, ok, err, ok_injective}
use mcvirt.Exceptions.{Exception}
use mcvirt.Auth.Groups.{item}
use mcvirt.Storage.Backend.{Storage, Backend, NodeConfig}
use mcvirt.Storage.Cluster.{on_cluster, get_nodes}
use mcvirt.Storage.Cluster.Spread.{on_cluster-Everywhere}
use mcvirt.Storage.Nodes.{add_node_to_config, without_node, remove_node_from_config}

delete-keys : {V : Type 0} (k : String) (d : Dict V) → contains (keys (delete k d)) k ≡ false
unfolding delete keys contains
delete-keys k [] = refl
delete-keys k ((j, v) ∷ d) = elim (Bool-cases (j == k)) [
  | inl same ↦ rw same (delete-keys k d)
  | inr other ↦ rw (other, other) (delete-keys k d)
]

entry_deleted :
    (r : Result Exception NodeConfig) (node_name : String) (config changed : Backend)
    → (elim r [
      | err e ↦ err e
      | ok _ ↦ ok (record config { nodes = delete node_name config.nodes })
    ])
      ≡ Result.ok changed
    → contains (keys changed.nodes) node_name ≡ false
entry_deleted (err e) node_name config changed same = cc
entry_deleted (ok entry) node_name config changed same =
    subst (λ (b : Backend). contains (keys b.nodes) node_name ≡ false) (ok_injective same)
      (delete-keys node_name config.nodes)

without_node-keys :
    (node_name : String) (config changed : Backend)
    → without_node node_name config ≡ ok changed
    → contains (keys changed.nodes) node_name ≡ false
unfolding without_node
without_node-keys node_name config changed =
    entry_deleted (item config.nodes node_name) node_name config changed

added-lookup :
    (node_name : String) (entry : NodeConfig) (config changed : Backend)
    → Path
        (Result Exception Backend)
        (ok (record config { nodes = insert node_name entry config.nodes }))
        (ok changed)
    → lookup node_name changed.nodes ≡ some entry
added-lookup node_name entry config changed same =
    subst (λ (b : Backend). lookup node_name b.nodes ≡ some entry) (ok_injective same)
      (lookup-insert node_name node_name entry config.nodes
        ∙ ap (λ t. if t then some entry else lookup node_name config.nodes) (eq_refl node_name))

module _ (id node_name : String) where
  -- A configuration does not list the node for the backend.
  abbrev pub Lacks : Dict Backend → Type 0
  Lacks backends =
      (config : Backend)
      → lookup id backends ≡ some config
      → contains (keys config.nodes) node_name ≡ false

  -- A configuration has the entry of the node for the backend.
  abbrev pub Lists : NodeConfig → Dict Backend → Type 0
  Lists entry backends =
      (config : Backend)
      → lookup id backends ≡ some config
      → lookup node_name config.nodes ≡ some entry

  module _ {K : Type 0} where
    -- When the removal of a node from the configuration of a backend has returned on the nodes of
    -- the cluster, the configuration of none of them lists that node for the backend.
    pub on_cluster-Lacks :
        (s : Storage K) (x : String)
        → (on_cluster (remove_node_from_config id node_name) s).0 ≡ ok tt
        → contains (get_nodes s) x ≡ true
        → Lacks ((on_cluster (remove_node_from_config id node_name) s).1.backends x)
    unfolding remove_node_from_config
    on_cluster-Lacks =
        on_cluster-Everywhere id (without_node node_name)
          (λ config. contains (keys config.nodes) node_name ≡ false) (without_node-keys node_name)

    -- When the addition of a node to the configuration of a backend has returned on the nodes of
    -- the cluster, the configuration of each of them that has the backend gives the new node the
    -- entry that was added.
    pub on_cluster-Lists :
        (entry : NodeConfig) (s : Storage K) (x : String)
        → (on_cluster (add_node_to_config id node_name entry) s).0 ≡ ok tt
        → contains (get_nodes s) x ≡ true
        → Lists entry ((on_cluster (add_node_to_config id node_name entry) s).1.backends x)
    unfolding add_node_to_config
    on_cluster-Lists entry =
        on_cluster-Everywhere id
          (λ config. ok (record config { nodes = insert node_name entry config.nodes }))
          (λ config. lookup node_name config.nodes ≡ some entry) (added-lookup node_name entry)
