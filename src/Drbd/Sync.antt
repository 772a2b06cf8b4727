-- ===== src/Drbd/Sync.antt =====
-- Verification and resynchronisation of a DRBD resource, of
-- mcvirt/virtual_machine/hard_drive/drbd.py. A loop that polls the state of the connection has as many
-- polls as its fuel; `false` and `none` mean that it would go on.
pub mod Polling
pub mod Running
pub mod Verification
pub mod Resynchronisation
use mcvirt.Base.{
  ℕ, zero, suc, String, Bool, true, false, not, ◌&&◌, ◌||◌, Option, none, some, List, [], ◌∷◌, ◌==◌,
  if◌then◌else◌,
}
use mcvirt.Base.Lists.{contains}
use mcvirt.Base.Exec.{Result, ok, err, Exec, pure, raise, modify, gets, reads, guard, ◌>>=◌, ◌>>◌}
use mcvirt.Exceptions.{
  Exception, attribute_error, index_error, drbd_state, drbd_volume_not_in_sync, invalid_nodes,
  too_many_parameters, argument_parser, vm_not_registered, inaccessible_node,
  cluster_not_initialised,
}
use mcvirt.Drbd.States.{ConnectionState, connected, verify_s, sync_source, is_connection}
use mcvirt.Drbd.Resource.{
  Command, verify, invalidate_remote, Drbdadm, Resource, DrbdMethod, with_peer,
  assert_drive_permission, set_sync_state, execute, get_connection_state, sleep,
}

-- A method of the remote object on a node. A node that is not there while the cluster is ignored is
-- None, which has no attributes.
unfoldable pub on_connected_node : {K A : Type 0} → DrbdMethod K A → String → DrbdMethod K A
unfolding with_peer
on_connected_node method node r =
    if not r.is_cluster_master
    then (err cluster_not_initialised, r)
    else (if contains r.inaccessible node
        then (err (if r.cluster_disabled then attribute_error else inaccessible_node), r)
        else with_peer node method r)

-- The same on self.nodes[0].
unfoldable pub on_first_of : {K A : Type 0} → List String → DrbdMethod K A → DrbdMethod K A
unfolding on_connected_node
on_first_of [] method = raise index_error
on_first_of (node ∷ _) method = on_connected_node method node

unfoldable pub on_first_node : {K A : Type 0} → DrbdMethod K A → DrbdMethod K A
unfolding on_first_of
on_first_node method r = on_first_of r.nodes method r

-- What `verify` returns: the sync state that the configuration holds.
unfoldable pub in_sync_result : {K : Type 0} → DrbdMethod K (Option Bool)
in_sync_result = do
  sync_state ← gets (λ r. r.sync_state)
  guard sync_state drbd_volume_not_in_sync
  pure (some true)

-- except Exception: self.setSyncState(False)
unfoldable pub after_verification :
    {K : Type 0} → Result Exception Bool → DrbdMethod K (Option Bool)
unfolding in_sync_result set_sync_state
after_verification (err e) = do set_sync_state false; in_sync_result
after_verification (ok true) = in_sync_result
after_verification (ok false) = pure none

-- The node that is the source of a resynchronisation.
unfoldable pub determine_source :
    {K : Type 0} → Option String → Bool → Resource K → Result Exception String
determine_source (some node) auto_determine r =
    if contains r.nodes node
    then (if auto_determine then err too_many_parameters else ok node)
    else err invalid_nodes
determine_source none auto_determine r =
    if auto_determine
    then (elim r.vm [
      | none ↦ err attribute_error
      | some _ ↦ elim r.vm_node [ none ↦ err vm_not_registered | some node ↦ ok node ]
    ])
    else err argument_parser

module _ {K : Type 0} (d : Drbdadm K) where
  -- Polls the connection until it passes a test.
  unfoldable pub poll_until : ℕ → (ConnectionState → Bool) → DrbdMethod K Bool
  unfolding get_connection_state sleep
  poll_until zero test = pure false
  poll_until (suc fuel) test =
      let rest = poll_until fuel test in
      do
        connection ← get_connection_state d
        if test connection then pure true else (sleep d >> rest)

  -- The two loops: until a state is there, and until it is gone.
  unfoldable pub poll_through : ℕ → ConnectionState → DrbdMethod K Bool
  unfolding poll_until is_connection
  poll_through fuel state = do
    started ← poll_until fuel (λ c. is_connection c state)
    if started then poll_until fuel (λ c. not (is_connection c state)) else pure false

  verify_here : ℕ → DrbdMethod K (Option Bool)
  unfolding get_connection_state is_connection set_sync_state execute poll_through
      after_verification
  verify_here fuel = do
    connection ← get_connection_state d
    guard (is_connection connection connected) drbd_state
    set_sync_state true
    λ r.
        let (result, s) = (execute d verify >> poll_through fuel verify_s) r in
        after_verification result s

  unfoldable pub verify_drive : ℕ → DrbdMethod K (Option Bool)
  unfolding assert_drive_permission verify_here on_first_node
  verify_drive fuel = do
    assert_drive_permission "MANAGE_DRBD"
    local ← gets (λ r. contains r.nodes r.hostname)
    if local
        then verify_here fuel
        else on_first_node (assert_drive_permission "MANAGE_DRBD" >> verify_here fuel)

  -- `self._cluster_disable`, which the branch for another source reads, is no attribute.
  resync_from : ℕ → Bool → DrbdMethod K Bool
  unfolding execute poll_through
  resync_from fuel true = do execute d invalidate_remote; poll_through fuel sync_source
  resync_from fuel false = raise attribute_error

  resync_here : ℕ → Option String → Bool → DrbdMethod K Bool
  unfolding determine_source get_connection_state is_connection resync_from
  resync_here fuel source_node auto_determine = do
    source ← reads (determine_source source_node auto_determine)
    connection ← get_connection_state d
    guard (is_connection connection connected) drbd_state
    hostname ← gets (λ r. r.hostname)
    resync_from fuel (source == hostname)

  unfoldable pub resync : ℕ → Option String → Bool → DrbdMethod K Bool
  unfolding assert_drive_permission resync_here on_first_node
  resync fuel source_node auto_determine = do
    assert_drive_permission "MANAGE_DRBD"
    local ← gets (λ r. contains r.nodes r.hostname)
    if local
        then resync_here fuel source_node auto_determine
        else on_first_node
            (assert_drive_permission "MANAGE_DRBD" >> resync_here fuel source_node auto_determine)
