-- ===== src/Drbd/Roles.antt =====
-- The roles of the two nodes of a DRBD resource, the mode with two primaries, and the steps around an
-- online migration, of mcvirt/virtual_machine/hard_drive/drbd.py.
pub mod Safety
pub mod Migration
use mcvirt.Base.{
  ℕ, zero, suc, String, Bool, true, false, not, ◌&&◌, ◌||◌, Option, none, some, List, [], ◌∷◌,
  if◌then◌else◌,
}
use mcvirt.Base.Lists.{contains, remove}
use mcvirt.Base.Exec.{Result, ok, err, Exec, pure, raise, modify, gets, reads, guard, ◌>>=◌, ◌>>◌}
use mcvirt.Exceptions.{Exception, drbd_state, value_error}
use mcvirt.Drbd.States.{
  ConnectionState, RoleState, DiskState, primary, secondary, unknown, up_to_date, connected,
  is_role, is_disk, is_connection, connection_value, connection_connected, mem_state,
}
use mcvirt.Drbd.Resource.{
  Drbdadm, Resource, DrbdMethod, connect, allow_two_primaries, disallow_two_primaries, to_primary,
  with_peer, run_on_remotes, for_cluster_user, execute, get_connection_state, get_disk_state,
  get_role, sleep, check_drbd_status, drbd_set_secondary,
}

-- l.remove(x), a ValueError where x is not in the list
unfoldable pub without_local : {K : Type 0} → DrbdMethod K (List String)
without_local r =
    if contains r.nodes r.hostname
    then (ok (remove r.nodes r.hostname), r)
    else (err value_error, r)

module _ {K : Type 0} (d : Drbdadm K) where
  unfoldable pub drbd_connect : DrbdMethod K (Unit {0})
  unfolding get_connection_state execute mem_state
  drbd_connect = do
    connection ← get_connection_state d
    if mem_state connection_value connection connection_connected
        then pure tt
        else execute d connect

  -- The condition on the role of the peer reads `DrbdRoleState.UNKNOWN and ignore_drbd`, of which the
  -- first part is always true.
  unfoldable pub drbd_set_primary : Bool → DrbdMethod K (Unit {0})
  unfolding get_role check_drbd_status execute is_role
  drbd_set_primary allow_two = do
    (local_role, remote_role) ← get_role d
    status ← check_drbd_status d
    ignore ← gets (λ r. r.ignore_drbd)
    guard (not (is_role local_role unknown || is_role remote_role unknown && not ignore)) drbd_state
    guard (not (not allow_two && not (is_role remote_role secondary) && not ignore)) drbd_state
    execute d to_primary

  -- The part of `_setTwoPrimariesConfig` for the node itself.
  unfoldable pub set_two_primaries_local : Bool → DrbdMethod K (Unit {0})
  unfolding get_role check_drbd_status execute is_role
  set_two_primaries_local true = do status ← check_drbd_status d; execute d allow_two_primaries
  set_two_primaries_local false = do
    (local_role, remote_role) ← get_role d
    guard (not (is_role local_role unknown || is_role remote_role unknown)) drbd_state
    guard (not (is_role local_role primary && is_role remote_role primary)) drbd_state
    execute d disallow_two_primaries

  -- On a remote node, which is no cluster master, the exposed method does the node's own part only.
  unfoldable pub set_two_primaries_config : Bool → DrbdMethod K (Unit {0})
  unfolding set_two_primaries_local without_local run_on_remotes for_cluster_user
  set_two_primaries_config allow = do
    set_two_primaries_local allow
    master ← gets (λ r. r.is_cluster_master)
    if master
        then (do
          remote_nodes ← without_local
          run_on_remotes (for_cluster_user (set_two_primaries_local allow)) remote_nodes)
        else pure tt

  unfoldable pub pre_migration_checks : DrbdMethod K (Unit {0})
  unfolding check_drbd_status get_disk_state get_role get_connection_state is_disk is_role
      is_connection
  pre_migration_checks = do
    status ← check_drbd_status d
    (local_disk, remote_disk) ← get_disk_state d
    (local_role, remote_role) ← get_role d
    connection ← get_connection_state d
    guard
        (is_disk local_disk up_to_date
          && is_disk remote_disk up_to_date
          && is_connection connection connected
          && is_role local_role primary
          && is_role remote_role secondary)
        drbd_state

  unfoldable pub pre_online_migration : String → DrbdMethod K (Unit {0})
  unfolding set_two_primaries_config with_peer for_cluster_user drbd_set_primary
  pre_online_migration destination_node = do
    set_two_primaries_config true
    with_peer destination_node (for_cluster_user (drbd_set_primary true))

  -- The loop that waits for the role of secondary, for a number of rounds.
  unfoldable pub await_secondary : ℕ → DrbdMethod K (Unit {0})
  unfolding get_role is_role sleep
  await_secondary zero = pure tt
  await_secondary (suc rounds) =
      let rest = await_secondary rounds in
      do
        (local_role, remote_role) ← get_role d
        if is_role local_role secondary then pure tt else (sleep d >> rest)

  -- range(1, 3) has two rounds.
  unfoldable pub post_online_migration : DrbdMethod K (Unit {0})
  unfolding drbd_set_secondary await_secondary set_two_primaries_config
  post_online_migration = do drbd_set_secondary d; await_secondary 2; set_two_primaries_config false
