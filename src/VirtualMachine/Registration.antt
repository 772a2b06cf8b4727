-- ===== src/VirtualMachine/Registration.antt =====
-- The registration of a virtual machine with libvirt, of mcvirt/virtual_machine/virtual_machine.py. What
-- libvirt, the hard drives and the networks of the machine do is the interface `Services`, on a state
-- `K` of the nodes. The configuration of the machine is the same on all nodes, so it stands once.
use mcvirt.Base.{String, Bool, true, Option, none, some, List, [], ◌∷◌, ◌==◌, if◌then◌else◌}
use mcvirt.Base.Lists.{contains}
use mcvirt.Base.Exec.{Result, ok, err, Exec, pure, gets, guard, ◌>>=◌, ◌>>◌}
use mcvirt.Exceptions.{
  Exception, unsuitable_node, vm_registered_elsewhere, vm_not_registered, vm_already_registered,
  libvirt_error, not_registered_with_libvirt,
}
use mcvirt.Auth.Users.{cluster_user}
use mcvirt.Auth.Permission.{assert_user_type}
use mcvirt.VirtualMachine.{
  Host, VmMethod, call, is_registered_locally, ensure_unlocked, update_vm_config,
  assert_vm_permission,
}

-- The operations of the virtual machine's parts on a node.
pub record Services (K : Type 0) : Type 0 where
  -- activateDisk and deactivateDisk of each hard drive
  pub activate_disks : String → K → Result Exception (Unit {0}) × K
  pub deactivate_disks : String → K → Result Exception (Unit {0}) × K
  -- libvirt's defineXML of the domain, undefine of it, and the update of its
  -- processor, with the check of the user
  pub define : String → K → Result Exception (Unit {0}) × K
  pub undefine : String → K → Result Exception (Unit {0}) × K
  pub apply_cpu_flags : String → K → Result Exception (Unit {0}) × K
  -- whether the name of the machine is among getAllVmNames of a node, and the domain runs there,
  -- which may raise, as where a remote node does not answer
  pub defined : String → K → Result Exception Bool
  pub active : String → K → Result Exception Bool
  -- get_remote_node and the connections to it
  pub connect : String → K → Result Exception (Unit {0})
  -- preMigrationChecks of each hard drive, and whether the networks of the machine are on a node
  pub pre_migration_checks : K → Result Exception (Unit {0}) × K
  pub has_networks : String → K → Result Exception Bool
  -- preOnlineMigrationChecks of the disk drive; preOnlineMigration of each hard drive, and the look-up
  -- of the domain
  pub has_iso : String → K → Result Exception (Unit {0})
  pub pre_online_migration : String → K → Result Exception (Unit {0}) × K
  -- migrate3 from a node to another one
  pub migrate : String → String → K → Result Exception Bool × K
  -- postOnlineMigration and _checkDrbdStatus of each hard drive
  pub post_online_migration : String → K → Result Exception (Unit {0}) × K
  -- drbdSetSecondary, on a node, of a hard drive
  pub set_secondary : (node disk : String) → K → Result Exception (Unit {0}) × K
  -- _setTwoPrimariesConfig(allow=False) and setSyncState(False), on a node, of a hard drive
  pub reset_disk : (node disk : String) → K → Result Exception (Unit {0}) × K
  -- a start of the machine on a node, and what five seconds bring
  pub start : String → K → Result Exception (Unit {0}) × K
  pub wait : K → K

pub record Site (K : Type 0) : Type 0 where
  pub host : Host
  -- get_available_nodes()
  pub available_nodes : List String
  -- get_hard_drive_objects()
  pub disks : List String
  pub kernel : K

abbrev pub SiteMethod : Type 0 → Type 0 → Type 0
SiteMethod K A = Exec Exception (Site K) A

-- The node is free for a registration: the machine is on none, or on this one.
unfoldable pub may_register : Option String → String → Bool
may_register none node = true
may_register (some current) node = current == node

-- A domain that libvirt does not know counts as removed.
unfoldable pub undefined_result : Result Exception (Unit {0}) → Result Exception (Unit {0})
undefined_result (ok done) = ok done
undefined_result (err not_registered_with_libvirt) = ok tt
undefined_result (err _) = err libvirt_error

module _ {K : Type 0} where
  unfoldable pub on_host : {A : Type 0} → VmMethod A → SiteMethod K A
  on_host method s = let (result, h) = method s.host in (result, record s { host = h })

  unfoldable pub act : {A : Type 0} → (K → Result Exception A × K) → SiteMethod K A
  act operation s = let (result, k) = operation s.kernel in (result, record s { kernel = k })

  -- An exposed method on one node, which may be this one.
  unfoldable pub at_node : String → SiteMethod K (Unit {0}) → SiteMethod K (Unit {0})
  at_node node method s =
      if node == s.host.hostname
      then method s
      else (let (result, t) = method (record s {
        host = record s.host { hostname = node; request = s.host.remote_request };
      }) in
          (
            result,
            record s {
              host = record s.host { remote_request = t.host.request; vm = t.host.vm };
              kernel = t.kernel;
            },
          ))

  unfoldable pub set_node : Option String → SiteMethod K (Unit {0})
  unfolding on_host update_vm_config
  set_node node = on_host (update_vm_config (λ vm. record vm { node = node }))

  unfoldable pub ensure_registered_locally : SiteMethod K (Unit {0})
  unfolding is_registered_locally
  ensure_registered_locally s = guard (is_registered_locally s.host) vm_registered_elsewhere s

module _ {K : Type 0} (v : Services K) where
  -- except Exception: raise LibvirtException
  unfoldable pub define_domain : SiteMethod K (Unit {0})
  unfolding act
  define_domain s = elim (act (v.define s.host.hostname) s).0 [
    | ok done ↦ (ok done, (act (v.define s.host.hostname) s).1)
    | err _ ↦ (err libvirt_error, (act (v.define s.host.hostname) s).1)
  ]

  unfoldable pub register_on_node : SiteMethod K (Unit {0})
  unfolding on_host call assert_user_type act define_domain
  register_on_node = do
    on_host (call (assert_user_type (cluster_user ∷ []) true))
    host ← gets (λ s. s.host.hostname)
    act (v.activate_disks host)
    define_domain

  -- The node itself is looked up among the available ones, whichever node is registered on.
  unfoldable pub register_machine : Bool → String → SiteMethod K (Unit {0})
  unfolding may_register on_host ensure_unlocked at_node register_on_node set_node act
  register_machine mark node = do
    current_node ← gets (λ s. s.host.vm.node)
    guard (may_register current_node node) vm_already_registered
    local ← gets (λ s. s.host.hostname)
    nodes ← gets (λ s. s.available_nodes)
    guard (contains nodes local) unsuitable_node
    on_host ensure_unlocked
    at_node node register_on_node
    (if mark then set_node (some node) else pure tt)
    at_node node (λ s. act (v.apply_cpu_flags s.host.hostname) s)

  unfoldable pub register : Option String → SiteMethod K (Unit {0})
  unfolding on_host assert_vm_permission register_machine
  register node = do
    on_host (assert_vm_permission "SET_VM_NODE")
    local ← gets (λ s. s.host.hostname)
    register_machine true (elim node [ none ↦ local | some given ↦ given ])

  unfoldable pub unregister_on_node : SiteMethod K (Unit {0})
  unfolding act undefined_result
  unregister_on_node = do
    host ← gets (λ s. s.host.hostname)
    (λ s. let (result, t) = act (v.undefine host) s in (undefined_result result, t))
    act (v.deactivate_disks host)

  unfoldable pub unregister_from : Option String → SiteMethod K (Unit {0})
  unfolding at_node unregister_on_node
  unregister_from none s = (err vm_not_registered, s)
  unregister_from (some node) s = at_node node unregister_on_node s

  unfoldable pub unregister_machine : SiteMethod K (Unit {0})
  unfolding on_host ensure_unlocked unregister_from set_node
  unregister_machine = do
    on_host ensure_unlocked
    node ← gets (λ s. s.host.vm.node)
    unregister_from node
    set_node none

  unfoldable pub unregister : SiteMethod K (Unit {0})
  unfolding on_host assert_vm_permission unregister_machine
  unregister = do on_host (assert_vm_permission "SET_VM_NODE"); unregister_machine
