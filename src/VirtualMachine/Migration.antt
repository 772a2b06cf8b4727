-- ===== src/VirtualMachine/Migration.antt =====
-- The offline and the online migration of a virtual machine, of
-- mcvirt/virtual_machine/virtual_machine.py.
pub mod Steps
pub mod Recovery
pub mod Offline
mod Tests
use mcvirt.Base.{
  ℕ, zero, suc, String, Bool, true, false, not, Option, none, some, List, [], ◌∷◌, if◌then◌else◌,
}
use mcvirt.Base.Lists.{contains}
use mcvirt.Base.Exec.{Result, ok, err, and_then, pure, raise, gets, reads, guard, ◌>>=◌, ◌>>◌}
use mcvirt.Exceptions.{
  Exception, unsuitable_node, vm_already_registered, vm_not_registered, vm_is_running,
  vm_is_stopped, migration_failure,
}
use mcvirt.VirtualMachine.{ensure_unlocked, assert_vm_permission, is_registered}
use mcvirt.VirtualMachine.Registration.{
  Services, Site, SiteMethod, on_host, act, set_node, ensure_registered_locally, register_machine,
  unregister_machine,
}

-- for disk_object in self.get_hard_drive_objects()
unfoldable pub each_disk :
    {K : Type 0} → (String → SiteMethod K (Unit {0})) → List String → SiteMethod K (Unit {0})
each_disk body [] = pure tt
each_disk body (disk ∷ disks) = do body disk; each_disk body disks

module _ {K : Type 0} (v : Services K) where
  -- _get_power_state() is PowerStates.RUNNING: libvirt is asked on the node that the machine is on.
  unfoldable pub powered_on : Site K → Result Exception Bool
  powered_on s = elim s.host.vm.node [ none ↦ ok false | some node ↦ v.active node s.kernel ]

  -- cluster.get_remote_node
  unfoldable pub connect_to : String → SiteMethod K (Unit {0})
  connect_to node = reads (λ s. v.connect node s.kernel)

  unfoldable pub pre_migration : String → SiteMethod K (Unit {0})
  unfolding connect_to act
  pre_migration destination = do
    nodes ← gets (λ s. s.available_nodes)
    guard (contains nodes destination) unsuitable_node
    connect_to destination
    act v.pre_migration_checks
    networks ← reads (λ s. v.has_networks destination s.kernel)
    guard networks unsuitable_node

  unfoldable pub pre_online_checks : String → SiteMethod K (Unit {0})
  unfolding powered_on
  pre_online_checks destination = do
    reads (λ s. v.has_iso destination s.kernel)
    running ← reads powered_on
    guard running vm_is_stopped

  -- The loop that waits for the machine to be off, for a number of rounds: whether it is.
  unfoldable pub await_off : ℕ → Bool → SiteMethod K Bool
  unfolding powered_on
  await_off zero wait_for_vm_shutdown = pure false
  await_off (suc fuel) wait_for_vm_shutdown =
      let rest = await_off fuel wait_for_vm_shutdown in
      do
        running ← reads powered_on
        if running
            then (guard wait_for_vm_shutdown vm_is_running
                >> (λ s. rest (record s { kernel = v.wait s.kernel })))
            else pure true

  -- What follows the wait.
  unfoldable pub move_registration : String → Bool → SiteMethod K (Unit {0})
  unfolding unregister_machine connect_to register_machine act
  move_registration destination start_after_migration = do
    unregister_machine v
    connect_to destination
    register_machine v true destination
    if start_after_migration then act (v.start destination) else pure tt

  -- `false` where the machine was not off in the rounds that the fuel allows.
  unfoldable pub offline_migrate : ℕ → String → Bool → Bool → SiteMethod K Bool
  unfolding on_host assert_vm_permission ensure_registered_locally ensure_unlocked pre_migration
      await_off move_registration
  offline_migrate fuel destination start_after_migration wait_for_vm_shutdown = do
    nodes ← gets (λ s. s.available_nodes)
    guard (contains nodes destination) unsuitable_node
    on_host (assert_vm_permission "MIGRATE_VM")
    ensure_registered_locally
    on_host ensure_unlocked
    pre_migration destination
    off ← await_off fuel wait_for_vm_shutdown
    if off then (move_registration destination start_after_migration >> pure true) else pure false

  -- The body of the `try`.
  unfoldable pub migrate_domain : String → SiteMethod K (Unit {0})
  unfolding connect_to act set_node
  migrate_domain destination = do
    connect_to destination
    act (v.pre_online_migration destination)
    local ← gets (λ s. s.host.hostname)
    set_node none
    status ← act (v.migrate local destination)
    guard status migration_failure
    act (v.post_online_migration local)
    set_node (some destination)

  -- sleep(10)
  unfoldable pub sleep_ten : SiteMethod K (Unit {0})
  sleep_ten s = (ok tt, record s { kernel = v.wait (v.wait s.kernel) })

  -- A node whose libvirt has the machine: each disk is demoted elsewhere, and the machine is
  -- registered on the node.
  unfoldable pub recover_on : (String → SiteMethod K (Unit {0})) → String → SiteMethod K (Unit {0})
  unfolding each_disk set_node
  recover_on demote node = do
    here ← reads (λ s. v.defined node s.kernel)
    disks ← gets (λ s. s.disks)
    if here then (each_disk demote disks >> set_node (some node)) else pure tt

  -- The handler of the `except`, before it raises again.
  unfoldable pub recover : String → SiteMethod K (Unit {0})
  unfolding sleep_ten recover_on each_disk act
  recover destination = do
    local ← gets (λ s. s.host.hostname)
    sleep_ten
    recover_on (λ disk. act (v.set_secondary destination disk)) local
    recover_on (λ disk. sleep_ten >> act (v.set_secondary local disk)) destination
    disks ← gets (λ s. s.disks)
    each_disk (λ disk. act (v.reset_disk local disk)) disks

  unfoldable pub handled : String → Result Exception (Unit {0}) → SiteMethod K (Unit {0})
  unfolding recover
  handled destination (ok done) = pure tt
  handled destination (err e) = do recover destination; raise e

  -- The checks at the end.
  unfoldable pub post_checks : String → SiteMethod K (Unit {0})
  unfolding powered_on
  post_checks destination = do
    local ← gets (λ s. s.host.hostname)
    here ← reads (λ s. v.defined local s.kernel)
    guard (not here) vm_already_registered
    there ← reads (λ s. v.defined destination s.kernel)
    guard there vm_not_registered
    running ← reads powered_on
    guard running vm_is_stopped

  -- The migration after its checks.
  unfoldable pub guarded_migration : String → SiteMethod K (Unit {0})
  unfolding migrate_domain handled
  guarded_migration destination s =
      let (result, t) = migrate_domain destination s in handled destination result t

  unfoldable pub online_migrate : String → SiteMethod K (Unit {0})
  unfolding on_host assert_vm_permission ensure_registered_locally ensure_unlocked pre_migration
      pre_online_checks connect_to guarded_migration post_checks
  online_migrate destination = do
    on_host (assert_vm_permission "MIGRATE_VM")
    nodes ← gets (λ s. s.available_nodes)
    guard (contains nodes destination) unsuitable_node
    ensure_registered_locally
    on_host ensure_unlocked
    pre_migration destination
    pre_online_checks destination
    connect_to destination
    guarded_migration destination
    post_checks destination
