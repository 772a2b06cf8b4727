-- ===== src/Drbd/Resource.antt =====
-- A DRBD resource as one node sees it: the commands, queries and checks of
-- mcvirt/virtual_machine/hard_drive/drbd.py. DRBD itself is the parameter `Drbdadm`, on a state `K` that
-- both nodes of the resource share. The configuration of the hard drive is the same on all nodes, so
-- it stands once, and its nodes are nodes of the cluster.
pub mod Checks
pub mod Frame
use mcvirt.Base.{
  String, Bool, true, false, not, ◌&&◌, ◌||◌, Option, none, some, List, [], ◌∷◌, if◌then◌else◌,
}
use mcvirt.Base.Lists.{contains}
use mcvirt.Base.Exec.{Result, ok, err, Exec, pure, raise, modify, gets, reads, guard, ◌>>=◌, ◌>>◌}
use mcvirt.Exceptions.{
  Exception, drbd_state, drbd_volume_not_in_sync, mcvirt_command, inaccessible_node,
  cluster_not_initialised,
}
use mcvirt.Auth.Users.{cluster_user}
use mcvirt.Auth.Permission.{Request, Method, assert_permission, assert_user_type}
use mcvirt.Drbd.States.{
  ConnectionState, RoleState, DiskState, connection_value, disk_value, mem_state, decode_connection,
  decode_roles, decode_disks, connection_ok, connection_warning, disk_ok, disk_warning,
}

-- The subcommands of drbdadm.
pub data Command : Type 0 where
  cstate dstate role : Command
  up down connect disconnect resize create_md verify invalidate_remote : Command
  allow_two_primaries disallow_two_primaries to_primary to_secondary overwrite_peer : Command

-- `run` is System.runCommand of a command on a node: its output, or MCVirtCommandException.
-- `wait` is what five seconds bring, and whether DRBD calls its out-of-sync hook meanwhile, which runs
-- `setSyncState(False)`.
pub record Drbdadm (K : Type 0) : Type 0 where
  pub run : String → Command → K → Result Exception String × K
  pub wait : K → K × Bool

pub record Resource (K : Type 0) : Type 0 where
  pub hostname : String
  pub request : Request
  -- the request that a call of a remote node makes there
  pub peer_request : Request
  pub is_cluster_master : Bool
  pub cluster_disabled : Bool
  pub ignore_drbd : Bool
  -- the nodes that cannot be connected to
  pub inaccessible : List String
  pub nodes : List String
  pub sync_state : Bool
  -- the virtual machine that the drive is attached to, and the node that this is registered on
  pub vm : Option String
  pub vm_node : Option String
  pub kernel : K

abbrev pub DrbdMethod : Type 0 → Type 0 → Type 0
DrbdMethod K A = Exec Exception (Resource K) A

module _ {K : Type 0} where
  -- A call of another object of the node.
  unfoldable pub ask : {A : Type 0} → Method A → DrbdMethod K A
  ask method r = let (result, q) = method r.request in (result, record r { request = q })

  -- A method of the remote object of the hard drive on a node, to which there is a connection.
  unfoldable pub with_peer : {A : Type 0} → String → DrbdMethod K A → DrbdMethod K A
  with_peer node method r =
      let (result, there) =
        method
          (record r { hostname = node; request = r.peer_request; is_cluster_master = false }) in
      (
        result,
        record r {
          peer_request = there.request;
          nodes = there.nodes;
          sync_state = there.sync_state;
          kernel = there.kernel;
        },
      )

  -- The callback of run_on_remotes on one node, with get_remote_node before it.
  unfoldable pub on_remote_node : DrbdMethod K (Unit {0}) → String → DrbdMethod K (Unit {0})
  unfolding with_peer
  on_remote_node method node r =
      if not r.is_cluster_master
      then (err cluster_not_initialised, r)
      else (if contains r.inaccessible node
          then guard r.cluster_disabled inaccessible_node r
          else with_peer node method r)

  unfoldable pub run_on_remotes : DrbdMethod K (Unit {0}) → List String → DrbdMethod K (Unit {0})
  unfolding on_remote_node
  run_on_remotes method [] = pure tt
  run_on_remotes method (node ∷ nodes) =
      let rest = run_on_remotes method nodes in do on_remote_node method node; rest

  -- self.po__get_registered_object('auth').assert_permission(permission, self.get_virtual_machine())
  unfoldable pub assert_drive_permission : String → DrbdMethod K (Unit {0})
  unfolding ask assert_permission
  assert_drive_permission permission r = ask (assert_permission permission r.vm false) r

  -- A method that is exposed to other nodes of the cluster only.
  unfoldable pub for_cluster_user : DrbdMethod K (Unit {0}) → DrbdMethod K (Unit {0})
  unfolding ask assert_user_type
  for_cluster_user method = ask (assert_user_type (cluster_user ∷ []) false) >> method

  -- A check of one state: a bad one is only accepted with ignore_drbd, if it is among the warnings.
  unfoldable pub check_state_type :
      {S : Type 0} → (S → String) → List S → List S → S → DrbdMethod K (Unit {0})
  unfolding mem_state
  check_state_type value states warnings state r =
      if mem_state value state states
      then (ok tt, r)
      else (if mem_state value state warnings
          then guard r.ignore_drbd drbd_state r
          else (err drbd_state, r))

  unfoldable pub ensure_in_sync : DrbdMethod K (Unit {0})
  ensure_in_sync r = guard (r.sync_state || r.ignore_drbd) drbd_volume_not_in_sync r

  -- update_config of the sync state, on all nodes
  unfoldable pub set_sync_state : Bool → DrbdMethod K (Unit {0})
  unfolding assert_drive_permission ask assert_user_type
  set_sync_state sync_state = do
    assert_drive_permission "SET_SYNC_STATE"
    ask (assert_user_type (cluster_user ∷ []) true)
    modify (λ r. record r { sync_state = sync_state })

module _ {K : Type 0} (d : Drbdadm K) where
  unfoldable pub run_command : Command → DrbdMethod K String
  run_command command r =
      let (result, kernel) = d.run r.hostname command r.kernel in
      (result, record r { kernel = kernel })

  -- A command whose output is not read.
  unfoldable pub execute : Command → DrbdMethod K (Unit {0})
  unfolding run_command
  execute command = do stdout ← run_command command; pure tt

  unfoldable pub get_connection_state : DrbdMethod K ConnectionState
  unfolding run_command decode_connection
  get_connection_state = do stdout ← run_command cstate; reads (λ _. decode_connection stdout)

  unfoldable pub get_disk_state : DrbdMethod K (DiskState × DiskState)
  unfolding run_command decode_disks
  get_disk_state = do stdout ← run_command dstate; reads (λ _. decode_disks stdout)

  unfoldable pub get_role : DrbdMethod K (RoleState × RoleState)
  unfolding run_command decode_roles
  get_role = do stdout ← run_command role; reads (λ _. decode_roles stdout)

  -- time.sleep(5)
  unfoldable pub sleep : DrbdMethod K (Unit {0})
  sleep r =
      let (kernel, hook) = d.wait r.kernel in
      (ok tt, record r { kernel = kernel; sync_state = r.sync_state && not hook })

  unfoldable pub check_drbd_status :
      DrbdMethod K ((DiskState × DiskState) × ConnectionState × (RoleState × RoleState))
  unfolding get_disk_state get_connection_state get_role check_state_type ensure_in_sync
  check_drbd_status = do
    (local_disk, remote_disk) ← get_disk_state
    check_state_type disk_value disk_ok disk_warning local_disk
    connection ← get_connection_state
    check_state_type connection_value connection_ok connection_warning connection
    (local_role, remote_role) ← get_role
    ensure_in_sync
    pure ((local_disk, remote_disk), connection, (local_role, remote_role))

  -- A command that is tried once more, five seconds after it has failed.
  unfoldable pub retried : Result Exception (Unit {0}) → Command → DrbdMethod K (Unit {0})
  unfolding execute sleep
  retried (ok _) command = pure tt
  retried (err mcvirt_command) command = do sleep; execute command
  retried (err e) command = raise e

  unfoldable pub drbd_set_secondary : DrbdMethod K (Unit {0})
  unfolding execute retried
  drbd_set_secondary r = let (result, r') = execute to_secondary r in retried result to_secondary r'

  unfoldable pub drbd_down : DrbdMethod K (Unit {0})
  unfolding execute retried
  drbd_down r = let (result, r') = execute down r in retried result down r'

  unfoldable pub drbd_up : DrbdMethod K (Unit {0})
  unfolding execute
  drbd_up = execute up

  unfoldable pub drbd_overwrite_peer : DrbdMethod K (Unit {0})
  unfolding execute
  drbd_overwrite_peer = execute overwrite_peer

  unfoldable pub initialise_meta_data : DrbdMethod K (Unit {0})
  unfolding execute
  initialise_meta_data = execute create_md

  unfoldable pub drbd_resize : DrbdMethod K (Unit {0})
  unfolding execute
  drbd_resize = execute resize

  unfoldable pub drbd_disconnect : DrbdMethod K (Unit {0})
  unfolding execute
  drbd_disconnect = execute disconnect
