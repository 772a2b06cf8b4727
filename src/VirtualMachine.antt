-- ===== src/VirtualMachine.antt =====
-- The lock, the delete protection, and the operations on a running machine, of
-- mcvirt/virtual_machine/virtual_machine.py. The configuration of a virtual machine is the same on all
-- nodes, so it stands once. A call of libvirt is a parameter: what it comes back with.
pub mod Protection
pub mod Power
pub mod Registration
pub mod Migration
mod Tests
use mcvirt.Base.{
  ℕ, zero, suc, String, Bool, true, false, not, ◌&&◌, ◌||◌, Option, none, some, [], ◌∷◌, nat_eq,
  ◌==◌, if◌then◌else◌,
}
use mcvirt.Base.Text.{reverse}
use mcvirt.Base.Exec.{Result, ok, err, Exec, pure, raise, modify, gets, reads, guard, ◌>>=◌, ◌>>◌}
use mcvirt.Exceptions.{
  Exception, vm_already_stopped, vm_registered_elsewhere, virtual_machine_lock, libvirt_error,
  delete_protection_already_enabled, delete_protection_not_enabled, invalid_confirmation_code,
  mcvirt_type_error,
}
use mcvirt.Auth.Users.{cluster_user}
use mcvirt.Auth.Permission.{Request, Method, assert_permission, assert_user_type}

pub data LockState : Type 0 where
  unlocked locked : LockState

pub data PowerState : Type 0 where
  stopped running unknown : PowerState

-- The configuration of the virtual machine, and whether libvirt reports the domain as running.
pub record Vm : Type 0 where
  pub name : String
  pub node : Option String
  pub lock : LockState
  pub delete_protection : Bool
  pub domain_running : Bool

-- A request on one node, and the virtual machine.
pub record Host : Type 0 where
  pub hostname : String
  pub request : Request
  -- the request that a call of the machine's node makes there
  pub remote_request : Request
  pub cluster_disabled : Bool
  pub is_cluster_master : Bool
  pub vm : Vm

abbrev pub VmMethod : Type 0 → Type 0
VmMethod A = Exec Exception Host A

-- A call of another object of the node.
unfoldable pub call : {A : Type 0} → Method A → VmMethod A
call method h = let (result, r) = method h.request in (result, record h { request = r })

unfoldable pub set_vm : (Vm → Vm) → Host → Host
set_vm f h = record h { vm = f h.vm }

-- self.po__get_registered_object('auth').assert_permission(permission, self)
unfoldable pub assert_vm_permission : String → VmMethod (Unit {0})
unfolding call assert_permission
assert_vm_permission permission h = call (assert_permission permission (some h.vm.name) false) h

is_node : Option String → String → Bool
is_node none hostname = false
is_node (some node) hostname = node == hostname

unfoldable pub is_registered_locally : Host → Bool
unfolding is_node
is_registered_locally h = is_node h.vm.node h.hostname

unfoldable pub is_registered : Host → Bool
is_registered h = elim h.vm.node [ none ↦ false | some _ ↦ true ]

unfoldable pub is_registered_remotely : Host → Bool
unfolding is_registered_locally is_registered
is_registered_remotely h = not (is_registered_locally h || not (is_registered h))

unfoldable pub get_power_state : Host → PowerState
unfolding is_registered
get_power_state h =
    if is_registered h then (if h.vm.domain_running then running else stopped) else unknown

unfoldable pub is_running : PowerState → Bool
is_running running = true
is_running _ = false

unfoldable pub is_locked : LockState → Bool
is_locked locked = true
is_locked unlocked = false

unfoldable pub ensure_unlocked : VmMethod (Unit {0})
unfolding is_locked
ensure_unlocked h = guard (not (is_locked h.vm.lock)) virtual_machine_lock h

unfoldable pub same_lock : LockState → LockState → Bool
same_lock unlocked unlocked = true
same_lock locked locked = true
same_lock _ _ = false

-- _set_lock_state
unfoldable pub change_lock_state : LockState → VmMethod (Unit {0})
unfolding assert_vm_permission same_lock set_vm
change_lock_state lock_status = do
  assert_vm_permission "SET_VM_LOCK"
  current ← gets (λ h. h.vm.lock)
  guard (not (same_lock current lock_status)) virtual_machine_lock
  modify (set_vm (λ vm. record vm { lock = lock_status }))

-- LockStates(value), whose ValueError for other numbers the caller turns into an MCVirtTypeError.
unfoldable pub lock_of : ℕ → Result Exception LockState
lock_of value =
    if nat_eq value 0
    then ok unlocked
    else (if nat_eq value 1 then ok locked else err mcvirt_type_error)

-- set_lock_state of a natural number.
unfoldable pub set_lock_state : ℕ → VmMethod (Unit {0})
unfolding lock_of change_lock_state
set_lock_state value = do lock_status ← reads (λ _. lock_of value); change_lock_state lock_status

-- update_vm_config of one key, on all nodes, without the undo argument that it records.
unfoldable pub update_vm_config : (Vm → Vm) → VmMethod (Unit {0})
unfolding call assert_user_type set_vm
update_vm_config change = do
  call (assert_user_type (cluster_user ∷ []) true)
  modify (set_vm change)

unfoldable pub enable_delete_protection : VmMethod (Unit {0})
unfolding assert_vm_permission update_vm_config
enable_delete_protection = do
  assert_vm_permission "MODIFY_VM"
  protected ← gets (λ h. h.vm.delete_protection)
  guard (not protected) delete_protection_already_enabled
  update_vm_config (λ vm. record vm { delete_protection = true })

unfoldable pub disable_delete_protection : String → VmMethod (Unit {0})
unfolding assert_vm_permission update_vm_config reverse
disable_delete_protection confirmation = do
  assert_vm_permission "MODIFY_VM"
  name ← gets (λ h. h.vm.name)
  guard (confirmation == reverse name) invalid_confirmation_code
  protected ← gets (λ h. h.vm.delete_protection)
  guard protected delete_protection_not_enabled
  update_vm_config (λ vm. record vm { delete_protection = false })

-- A call of libvirt on a running domain: what it comes back with, and whether the domain then runs.
abbrev pub DomainCall : Type 0
DomainCall = Result Exception (Unit {0}) × Bool

-- except Exception: raise LibvirtException
wrapped : Result Exception (Unit {0}) → Result Exception (Unit {0})
wrapped (ok _) = ok tt
wrapped (err _) = err libvirt_error

-- The part of an operation for a machine that is registered on the node.
unfoldable pub call_domain : DomainCall → VmMethod (Unit {0})
unfolding wrapped get_power_state is_running set_vm
call_domain domain h =
    if is_running (get_power_state h)
    then (wrapped domain.0, set_vm (λ vm. record vm { domain_running = domain.1 }) h)
    else (err vm_already_stopped, h)

-- A method of the virtual machine on the node that it is registered on, where a request of its own
-- runs.
unfoldable pub on_node : VmMethod (Unit {0}) → VmMethod (Unit {0})
on_node method h = elim h.vm.node [
  | none ↦ (err vm_registered_elsewhere, h)
  | some node ↦
      let (result, there) = method (record h { hostname = node; request = h.remote_request }) in
      (result, record h { remote_request = there.request; vm = there.vm })
]

-- The branches on where the machine is registered. On its node the method goes through its checks
-- again, and finds the machine registered locally.
unfoldable pub dispatch : (Host → Bool) → VmMethod (Unit {0}) → DomainCall → VmMethod (Unit {0})
unfolding is_registered_locally is_registered_remotely call_domain on_node
dispatch forwards checks domain h =
    if is_registered_locally h
    then call_domain domain h
    else (if forwards h && is_registered_remotely h
        then on_node (checks >> call_domain domain) h
        else (err vm_registered_elsewhere, h))

-- `destroy` of libvirt. After a remote stop the source also compares the version of the applied
-- configuration, which does nothing for a machine that is registered elsewhere.
unfoldable pub stop : DomainCall → VmMethod (Unit {0})
unfolding dispatch assert_vm_permission
stop destroy = do
  assert_vm_permission "CHANGE_VM_POWER_STATE"
  dispatch (λ h. not h.cluster_disabled) (assert_vm_permission "CHANGE_VM_POWER_STATE") destroy

-- `shutdown` of libvirt, which asks the guest to stop.
unfoldable pub shutdown : DomainCall → VmMethod (Unit {0})
unfolding dispatch assert_vm_permission
shutdown acpi_shutdown = do
  assert_vm_permission "CHANGE_VM_POWER_STATE"
  dispatch (λ h. not h.cluster_disabled) (assert_vm_permission "CHANGE_VM_POWER_STATE")
      acpi_shutdown

reset_checks : VmMethod (Unit {0})
unfolding assert_vm_permission ensure_unlocked
reset_checks = assert_vm_permission "CHANGE_VM_POWER_STATE" >> ensure_unlocked

unfoldable pub reset : DomainCall → VmMethod (Unit {0})
unfolding dispatch reset_checks
reset domain_reset = reset_checks >> dispatch (λ h. h.is_cluster_master) reset_checks domain_reset
