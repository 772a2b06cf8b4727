-- ===== src/Drbd/Tests.antt =====
-- A concrete resource on the nodes a and b, and an account of DRBD that meets its documented behaviour.
use Prim.Native.String.{◌++◌ as ◌+++◌}
use mcvirt.Base.{
  ℕ, zero, suc, ◌≤◌, ◌<◌, ◌+◌, ◌*◌, ◌/◌, ◌%◌, String, Bool, true, false, not, ◌==◌, ◌≡◌, ◌↔◌, none,
  some, List, [], ◌∷◌, refl, sym, arith, if◌then◌else◌, inl, inr, Bool-cases, nat_eq,
}
use mcvirt.Base.Lists.{contains, remove}
use mcvirt.Base.Dict.{Dict}
use mcvirt.Base.Exec.{Result, ok, ok_injective}
use mcvirt.Exceptions.{Exception}
use mcvirt.Auth.Permission.{Request}
use mcvirt.Drbd.States.{
  ConnectionState, RoleState, DiskState, stand_alone, connected, verify_s, sync_source, primary,
  secondary, unknown, up_to_date, connection_value, role_value, disk_value, decode_connection,
  decode_roles, decode_disks, is_role, is_connection, mem_state, disk_ok, connection_ok,
}
use mcvirt.Drbd.Resource.{
  Command, cstate, dstate, role, to_primary, to_secondary, allow_two_primaries,
  disallow_two_primaries, invalidate_remote, verify, Drbdadm, Resource, get_role, check_drbd_status,
  get_connection_state, assert_drive_permission,
}
use mcvirt.Drbd.Roles.{drbd_set_primary, post_online_migration}
use mcvirt.Drbd.Roles.Safety.{drbd_set_primary_strict}
use mcvirt.Drbd.Roles.Migration.{
  seen_role, IsDrbd, IsSingle, IsPair, post_online_migration-IsSingle,
}
use mcvirt.Drbd.Sync.{verify_drive, resync, poll_through}
use mcvirt.Drbd.Sync.Polling.{verify_missed, after, FirstPasses}
use mcvirt.Drbd.Sync.Verification.{Verifies, verify_drive_decides}
use mcvirt.Drbd.Sync.Resynchronisation.{Resyncs, resync_decides}
use mcvirt.Drbd.Allocation.{
  DriveNumbers, Drives, get_drbd_port, get_available_drbd_port, get_used_drbd_ports,
  calculate_meta_data_size, initial_port, rounds, mem_number,
}
use mcvirt.Drbd.Allocation.Fresh.{
  taken, get_available_drbd_port_first, calculate_meta_data_size_short,
}
use mcvirt.Drbd.Allocation.Invariant.{HasDistinctPorts, get_drbd_port-HasDistinctPorts}

record Kernel : Type 0 where
  role_a : RoleState
  role_b : RoleState
  two_a : Bool
  two_b : Bool
  -- what the connection is now, and after each five seconds, before it is connected again
  connections : List ConnectionState

abbrev peer : String → String
peer node = if node == "a" then "b" else "a"

abbrev role_of : String → Kernel → RoleState
role_of node k = if node == "a" then k.role_a else k.role_b

abbrev allows_two : String → Kernel → Bool
allows_two node k = if node == "a" then k.two_a else k.two_b

abbrev set_role : String → RoleState → Kernel → Kernel
set_role node state k =
    if node == "a" then record k { role_a = state } else record k { role_b = state }

abbrev set_two : String → Bool → Kernel → Kernel
set_two node allow k =
    if node == "a" then record k { two_a = allow } else record k { two_b = allow }

abbrev current : List ConnectionState → ConnectionState
current [] = connected
current (c ∷ _) = c

abbrev rest_of : List ConnectionState → List ConnectionState
rest_of [] = []
rest_of (_ ∷ rest) = rest

-- Only a node that stands alone is not connected to its peer.
abbrev is_connected : String → Kernel → Bool
is_connected node k = not (is_connection (current k.connections) stand_alone)

run_concrete : String → Command → Kernel → Result Exception String × Kernel
run_concrete node cstate k = (ok (connection_value (current k.connections) +++ "\n"), k)
run_concrete node dstate k = (ok "UpToDate/UpToDate\n", k)
run_concrete node role k = (
  ok (
      role_value (role_of node k)
      +++ "/"
      +++ role_value (seen_role (is_connected node k) (role_of (peer node) k))
      +++ "\n"),
  k,
)
run_concrete node to_primary k = (ok "", set_role node primary k)
run_concrete node to_secondary k = (ok "", set_role node secondary k)
run_concrete node allow_two_primaries k = (ok "", set_two node true k)
run_concrete node disallow_two_primaries k = (ok "", set_two node false k)
run_concrete node invalidate_remote k = (ok "", record k { connections = sync_source ∷ [] })
run_concrete node verify k = (ok "", record k { connections = verify_s ∷ verify_s ∷ [] })
run_concrete node _ k = (ok "", k)

abbrev concrete : Drbdadm Kernel
concrete = record {
  run = run_concrete;
  wait = λ k. (record k { connections = rest_of k.connections }, false);
}

set_two-other :
    (node other : String) (allow : Bool) (k : Kernel)
    → role_of other (set_two node allow k) ≡ role_of other k
set_two-other node other allow k = elim (Bool-cases (node == "a")) [
  | inl a ↦ rw a refl
  | inr b ↦ rw b refl
]

set_two-same :
    (node : String) (allow : Bool) (k : Kernel) → allows_two node (set_two node allow k) ≡ allow
set_two-same node allow k = elim (Bool-cases (node == "a")) [
  | inl a ↦ rw a refl
  | inr b ↦ rw b refl
]

set_two-false :
    (node other : String) (k : Kernel)
    → allows_two other k ≡ false
    → allows_two other (set_two node false k) ≡ false
set_two-false node other k off = ground arith

concrete-IsDrbd : IsDrbd concrete peer role_of allows_two is_connected
unfolding run_concrete
concrete-IsDrbd = record {
  reports = λ node out k printed. sym (ok_injective printed);
  query_roles = λ node other k. refl;
  query_option = λ node other k. refl;
  option_roles = λ node other k. set_two-other node other false k;
  disallows = λ node out k printed. set_two-same node false k;
  stays_disallowed = λ node other k off. set_two-false node other k off;
}

-- A request of the daemon itself.
abbrev internal : Request
internal = record {
  startup_period = false;
  internal_request = true;
  elevated_permissions = none;
  permission_asserted = some false;
  session_id = none;
  proxy_user = none;
  user_sessions = [];
  config = record {
    superusers = [];
    users = [];
    groups = [];
    virtual_machines = [];
    ldap_usernames = [];
  };
}

abbrev migrating : Kernel
migrating = record {
  role_a = primary;
  role_b = primary;
  two_a = true;
  two_b = true;
  connections = [];
}

-- The resource as node a sees it.
abbrev on_a : Kernel → Resource Kernel
on_a k = record {
  hostname = "a";
  request = internal;
  peer_request = internal;
  is_cluster_master = true;
  cluster_disabled = false;
  ignore_drbd = false;
  inaccessible = [];
  nodes = "a" ∷ "b" ∷ [];
  sync_state = true;
  vm = some "vm1";
  vm_node = some "a";
  kernel = k;
}

abbrev idle : Kernel
idle = record {
  role_a = secondary;
  role_b = secondary;
  two_a = false;
  two_b = false;
  connections = [];
}

set_primary_done : (drbd_set_primary concrete false (on_a idle)).0 ≡ ok tt
unfolding drbd_set_primary run_concrete get_role check_drbd_status decode_roles decode_disks
    decode_connection role_value is_connection
set_primary_done = refl

set_primary_example :
    (local_role : RoleState) × ((get_role concrete (on_a idle)).0 ≡ ok (local_role, secondary))
    × (is_role local_role unknown ≡ false)
    × ((status : (DiskState × DiskState) × ConnectionState × (RoleState × RoleState))
        × ((check_drbd_status concrete (get_role concrete (on_a idle)).1).0 ≡ ok status)
        × (mem_state disk_value status.0.0 disk_ok ≡ true)
        × (mem_state connection_value status.1 connection_ok ≡ true))
    × ((on_a idle).sync_state ≡ true)
set_primary_example = drbd_set_primary_strict concrete (on_a idle) refl set_primary_done

abbrev peer_primary : Resource Kernel
peer_primary = record (on_a (record idle { role_b = primary })) { ignore_drbd = true }

abbrev good_status : (DiskState × DiskState) × ConnectionState × (RoleState × RoleState)
good_status = ((up_to_date, up_to_date), connected, (secondary, primary))

peer_primary_roles : (get_role concrete peer_primary).0 ≡ ok (secondary, primary)
unfolding get_role run_concrete decode_roles role_value is_connection
peer_primary_roles = refl

peer_primary_status :
    (check_drbd_status concrete (get_role concrete peer_primary).1).0 ≡ ok good_status
unfolding check_drbd_status get_role run_concrete decode_roles decode_disks decode_connection
    role_value is_connection
peer_primary_status = refl

a_b-IsPair : IsPair concrete-IsDrbd (on_a migrating) "b"
unfolding contains
a_b-IsPair = (refl, refl, refl, refl)

post_done : (post_online_migration concrete (on_a migrating)).0 ≡ ok tt
unfolding post_online_migration run_concrete get_role decode_roles role_value contains remove
    is_connection
post_done = refl

post_online_migration-IsSingle_example :
    IsSingle concrete-IsDrbd "a" "b" (post_online_migration concrete (on_a migrating)).1.kernel
post_online_migration-IsSingle_example =
    post_online_migration-IsSingle concrete-IsDrbd (on_a migrating) "b" a_b-IsPair post_done

verify_returned : (verify_drive concrete 4 (on_a idle)).0 ≡ ok (some true)
unfolding verify_drive run_concrete contains
verify_returned = refl

abbrev granted : Resource Kernel
granted = (assert_drive_permission "MANAGE_DRBD" (on_a idle)).1

verified_example :
    ((verify_drive concrete 4 (on_a idle)).0 ≡ ok (some true)) ↔ Verifies concrete 4 granted
verified_example =
    verify_drive_decides concrete 4 (on_a idle) (unfold contains in refl)
      (unfold assert_drive_permission in refl)

idle_Verifies : Verifies concrete 4 granted
idle_Verifies =
    (verify_drive_decides concrete 4 (on_a idle) (unfold contains in refl)
        (unfold assert_drive_permission in refl)).0
      verify_returned

resync_done : (resync concrete 3 (some "a") false (on_a idle)).0 ≡ ok true
unfolding resync run_concrete contains
resync_done = refl

resync_example :
    ((resync concrete 3 (some "a") false (on_a idle)).0 ≡ ok true)
    ↔ Resyncs concrete 3 (some "a") false granted
resync_example =
    resync_decides concrete 3 (some "a") false (on_a idle) (unfold contains in refl)
      (unfold assert_drive_permission in refl)

idle_Resyncs : Resyncs concrete 3 (some "a") false granted
idle_Resyncs =
    (resync_decides concrete 3 (some "a") false (on_a idle) (unfold contains in refl)
        (unfold assert_drive_permission in refl)).0
      resync_done

-- The connection while a verification runs, which the third poll reports.
abbrev verifying : Resource Kernel
verifying = on_a (record idle { connections = connected ∷ connected ∷ verify_s ∷ [] })

two_before :
    (m : ℕ)
    → m < 2
    → (c : ConnectionState) × ((get_connection_state concrete (after concrete m verifying)).0
        ≡ ok c)
      × (is_connection c verify_s ≡ false)
unfolding after get_connection_state run_concrete decode_connection is_connection
two_before zero below = (connected, refl, refl)
two_before (suc zero) below = (connected, refl, refl)
two_before (suc (suc m)) below = absurd (omega arith)

abbrev started : Resource Kernel
started = on_a (record idle { connections = verify_s ∷ [] })

one_before :
    (m : ℕ)
    → m < 1
    → (c : ConnectionState) × ((get_connection_state concrete (after concrete m started)).0 ≡ ok c)
      × (not (is_connection c verify_s) ≡ false)
unfolding after get_connection_state run_concrete decode_connection is_connection
one_before zero below = (verify_s, refl, refl)
one_before (suc m) below = absurd (omega arith)

polls_verify : FirstPasses concrete (λ c. is_connection c verify_s) 2 verifying
unfolding after get_connection_state run_concrete decode_connection is_connection
polls_verify = (two_before, (verify_s, refl, refl))

polls_end :
    FirstPasses concrete
      (λ c. not (is_connection c verify_s))
      1
      (get_connection_state concrete (after concrete 2 verifying)).1
unfolding after get_connection_state run_concrete decode_connection is_connection
polls_end = (one_before, (connected, refl, refl))

always_connected :
    (n : ℕ) → (get_connection_state concrete (after concrete n (on_a idle))).0 ≡ ok connected
unfolding after get_connection_state run_concrete decode_connection
always_connected zero = refl
always_connected (suc n) = always_connected n

missed_example : (poll_through concrete 9 verify_s (on_a idle)).0 ≡ ok false
missed_example = verify_missed concrete 9 (on_a idle) always_connected

abbrev some_drives : Dict DriveNumbers
some_drives =
    ("d1", record { drbd_port = some 7789; drbd_minor = some 1 })
    ∷ ("d2", record { drbd_port = none; drbd_minor = none })
    ∷ []

port_example :
    (port : ℕ) × (get_available_drbd_port some_drives (7790 ∷ []) ≡ some port)
    × (initial_port ≤ port)
    × (taken port (get_used_drbd_ports some_drives) (7790 ∷ []) ≡ false)
    × ((n : ℕ)
        → initial_port ≤ n
        → n < port
        → taken n (get_used_drbd_ports some_drives) (7790 ∷ []) ≡ true)
    × (port < initial_port + rounds (get_used_drbd_ports some_drives) (7790 ∷ []))
port_example = get_available_drbd_port_first some_drives (7790 ∷ [])

port_is_7791 : get_available_drbd_port some_drives (7790 ∷ []) ≡ some 7791
unfolding get_available_drbd_port
port_is_7791 = refl

abbrev allocating : Drives
allocating = record { request = internal; drives = some_drives }

some_distinct : HasDistinctPorts allocating
unfolding get_used_drbd_ports
some_distinct = (unfold mem_number in refl, tt)

ports_example : HasDistinctPorts (get_drbd_port "d2" (7790 ∷ []) true allocating).1
ports_example = get_drbd_port-HasDistinctPorts "d2" (7790 ∷ []) true allocating some_distinct

meta_example :
    ((300000 + 262143) / 262144 * 8 + 72) * 512
    ≡ calculate_meta_data_size 300000 512 + (if nat_eq (300000 % 262144) 0 then 0 else 8 * 512)
meta_example = calculate_meta_data_size_short 300000 512
