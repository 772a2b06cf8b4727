-- ===== src/Storage/Nodes/Removal.antt =====
-- When a node can be removed from a storage backend, and what this leaves.
use mcvirt.Base.{
  String, false, not, some, [], ◌∷◌, ◌≡◌, refl, arith, if◌then◌else◌, inl, inr, Bool-cases,
}
use mcvirt.Base.Lists.{contains}
use mcvirt.Base.Dict.{Dict, lookup, keys}
use mcvirt.Base.Exec.{ok, err}
use mcvirt.Exceptions.{node_not_configured, storage_backend_in_use}
use mcvirt.Storage.Backend.{
  Storage, Backend, Machine, local_backends, assert_manage, available_on_node, uses, used_by,
  backend_in_use,
}
use mcvirt.Storage.Nodes.{ensure_not_static, ensure_none_static, ensure_can_remove_node}
use mcvirt.Storage.Factory.Matches.{get_backend_nodes_lem}

-- Where no machine uses the backend, the loop over the machines finds nothing.
ensure_none_static-unused :
    {K : Type 0} (id node_name : String) (machines : Dict Machine) (s : Storage K)
    → used_by id machines ≡ false
    → ensure_none_static id node_name machines s ≡ (ok tt, s)
unfolding ensure_none_static ensure_not_static used_by
ensure_none_static-unused id node_name [] s unused = refl
ensure_none_static-unused id node_name ((j, m) ∷ machines) s unused =
    elim (Bool-cases (uses id m.hard_drives)) [
      | inl used ↦ absurd (ground arith)
      | inr free ↦ rw free (ensure_none_static-unused id node_name machines s (ground arith))
    ]

-- For a request that may manage storage and has been checked, and a backend in the configuration of
-- the node: the check before a node is removed raises NodeNotConfiguredInStorageBackend where the
-- node is not listed, and else StorageBackendInUse where any machine uses the backend, on whichever
-- node, and returns otherwise; it changes nothing.
pub ensure_can_remove_node_lem :
    {K : Type 0} (s : Storage K) (id node_name : String) (config : Backend)
    → assert_manage s ≡ (ok tt, s)
    → lookup id (local_backends s) ≡ some config
    → ensure_can_remove_node id node_name s ≡ (
      (if not (contains (keys config.nodes) node_name)
          then err node_not_configured
          else (if used_by id s.machines then err storage_backend_in_use else ok tt)),
      s,
    )
unfolding ensure_can_remove_node available_on_node backend_in_use
ensure_can_remove_node_lem s id node_name config granted found =
    rw (get_backend_nodes_lem s id config granted found)
      (elim (Bool-cases (contains (keys config.nodes) node_name)) [
        | inr absent ↦ rw absent refl
        | inl present ↦ elim (Bool-cases (used_by id s.machines)) [
          | inl used ↦ rw (present, used) refl
          | inr unused ↦
              rw (present, unused) (ensure_none_static-unused id node_name s.machines s unused)
        ]
      ])
