-- ===== src/VirtualMachine/Tests.antt =====
-- A concrete machine, which runs on the node `a`, and a request of the daemon itself there.
use mcvirt.Base.{true, false, some, none, [], ◌≡◌, refl}
use mcvirt.Base.Exec.{ok}
use mcvirt.Auth.Users.{Config}
use mcvirt.Auth.Permission.{
  Request, check_permission, check_user_type, set_permission_asserted, assert_permission,
  has_permission_asserted,
}
use mcvirt.VirtualMachine.{
  Host, unlocked, call, assert_vm_permission, is_registered_locally, is_registered, get_power_state,
  is_running, call_domain, dispatch, stop, same_lock, change_lock_state, lock_of, set_lock_state,
  wrapped, is_node,
}
use mcvirt.VirtualMachine.Power.{IsOff, stop_stops}
use mcvirt.VirtualMachine.Protection.{MayModify}

abbrev empty_config : Config
empty_config = record {
  superusers = [];
  users = [];
  groups = [];
  virtual_machines = [];
  ldap_usernames = [];
}

abbrev internal : Request
internal = record {
  startup_period = false;
  internal_request = true;
  elevated_permissions = none;
  permission_asserted = some false;
  session_id = none;
  proxy_user = none;
  user_sessions = [];
  config = empty_config;
}

abbrev machine : Host
machine = record {
  hostname = "a";
  request = internal;
  remote_request = internal;
  cluster_disabled = false;
  is_cluster_master = true;
  vm = record {
    name = "vm1";
    node = some "a";
    lock = unlocked;
    delete_protection = false;
    domain_running = true;
  };
}

machine-MayModify : MayModify machine
unfolding check_permission check_user_type
machine-MayModify = record {
  granted = refl;
  from_cluster = true;
  type_checked = refl;
  before = false;
  recorded = refl;
}

stopped_first : (stop (ok tt, false) machine).0 ≡ ok tt
unfolding stop assert_vm_permission call assert_permission check_permission set_permission_asserted
    has_permission_asserted dispatch is_registered_locally is_node call_domain get_power_state
    is_registered is_running wrapped
stopped_first = refl

stop_example : IsOff (stop (ok tt, false) machine).1
stop_example = stop_stops (ok tt, false) machine (λ _. refl) stopped_first

locked_first : (set_lock_state 1 machine).0 ≡ ok tt
unfolding set_lock_state lock_of change_lock_state assert_vm_permission call assert_permission
    check_permission set_permission_asserted has_permission_asserted same_lock
locked_first = refl
