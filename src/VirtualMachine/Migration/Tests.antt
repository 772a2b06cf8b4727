-- ===== src/VirtualMachine/Migration/Tests.antt =====
-- Two nodes with a machine that runs on the first one, on which each property of a migration applies.
use mcvirt.Base.{
  ℕ, zero, suc, ◌<◌, String, Bool, true, false, none, some, List, [], ◌∷◌, ◌≡◌, refl, sym, arith,
  if◌then◌else◌,
}
use mcvirt.Base.Lists.{contains, remove}
use mcvirt.Base.Exec.{Result, ok, err, ok_injective}
use mcvirt.Exceptions.{Exception, libvirt_error}
use mcvirt.Auth.Permission.{Request}
use mcvirt.VirtualMachine.{unlocked}
use mcvirt.VirtualMachine.Registration.{Services, Site}
use mcvirt.VirtualMachine.Migration.{
  powered_on, await_off, offline_migrate, migrate_domain, recover, guarded_migration,
  online_migrate,
}
use mcvirt.VirtualMachine.Migration.Recovery.{
  KeepsDomains, guarded_migration-recover, IsMigrated, online_migrate-IsMigrated,
}
use mcvirt.VirtualMachine.Migration.Offline.{after, await_off_finishes, offline_migrate-node}

-- The nodes that libvirt has the domain on, and runs it on; a migration of libvirt may fail.
record Kernel : Type 0 where
  defined_on : List String
  active_on : List String
  breaks : Bool

abbrev done : Kernel → Result Exception (Unit {0}) × Kernel
done k = (ok tt, k)

abbrev has : String → Kernel → Bool
has node k = contains k.defined_on node

abbrev services : Services Kernel
services = record {
  activate_disks = λ _ k. done k;
  deactivate_disks = λ _ k. done k;
  define = λ node k. done (record k { defined_on = node ∷ k.defined_on });
  undefine = λ node k. done (record k { defined_on = remove k.defined_on node });
  apply_cpu_flags = λ _ k. done k;
  defined = λ node k. ok (has node k);
  active = λ node k. ok (contains k.active_on node);
  connect = λ _ _. ok tt;
  pre_migration_checks = λ k. done k;
  has_networks = λ _ _. ok true;
  has_iso = λ _ _. ok tt;
  pre_online_migration = λ _ k. done k;
  migrate = λ _ destination k.
      if k.breaks
      then (err libvirt_error, k)
      else (ok true, record k { defined_on = destination ∷ []; active_on = destination ∷ [] });
  post_online_migration = λ _ k. done k;
  set_secondary = λ _ _ k. done k;
  reset_disk = λ _ _ k. done k;
  start = λ node k. done (record k { active_on = node ∷ [] });
  wait = λ k. record k { active_on = [] };
}

services-KeepsDomains : KeepsDomains services has
services-KeepsDomains = record {
  reports = λ node b k answer. sym (ok_injective answer);
  secondary = λ node disk other k. refl;
}

abbrev internal : Request
internal = record {
  startup_period = false;
  internal_request = true;
  elevated_permissions = none;
  permission_asserted = some false;
  session_id = none;
  proxy_user = none;
  user_sessions = [];
  config = record {
    superusers = [];
    users = [];
    groups = [];
    virtual_machines = [];
    ldap_usernames = [];
  };
}

abbrev site : Bool → Site Kernel
site breaks = record {
  host = record {
    hostname = "a";
    request = internal;
    remote_request = internal;
    cluster_disabled = false;
    is_cluster_master = true;
    vm = record {
      name = "vm1";
      node = some "a";
      lock = unlocked;
      delete_protection = false;
      domain_running = true;
    };
  };
  available_nodes = "a" ∷ "b" ∷ [];
  disks = "hda" ∷ "hdb" ∷ [];
  kernel = record { defined_on = "a" ∷ []; active_on = "a" ∷ []; breaks = breaks };
}

migration_fails : (migrate_domain services "b" (site true)).0 ≡ err libvirt_error
unfolding migrate_domain
migration_fails = refl

recovery_returns : (recover services "b" (migrate_domain services "b" (site true)).1).0 ≡ ok tt
unfolding migrate_domain recover contains
recovery_returns = refl

recovered_example :
    ((guarded_migration services "b" (site true)).0 ≡ err libvirt_error)
    × ((guarded_migration services "b" (site true)).1.host.vm.node ≡ some "a")
unfolding migrate_domain contains
recovered_example =
    guarded_migration-recover services-KeepsDomains "b" (site true) libvirt_error migration_fails
      recovery_returns

online_returns : (online_migrate services "b" (site false)).0 ≡ ok tt
unfolding online_migrate contains
online_returns = refl

online_example : IsMigrated services "b" (online_migrate services "b" (site false)).1
online_example = online_migrate-IsMigrated services "b" (site false) online_returns

offline_returns : (offline_migrate services 2 "b" true true (site false)).0 ≡ ok true
unfolding offline_migrate contains
offline_returns = refl

offline_example : (offline_migrate services 2 "b" true true (site false)).1.host.vm.node ≡ some "b"
offline_example = offline_migrate-node services 2 "b" true true (site false) offline_returns

is_on : (m : ℕ) → m < 1 → powered_on services (after services m (site false)) ≡ ok true
unfolding powered_on after contains
is_on zero below = refl
is_on (suc m) below = absurd (omega arith)

waiting_example : await_off services 2 true (site false) ≡ (ok true, after services 1 (site false))
unfolding powered_on after contains
waiting_example = await_off_finishes services 1 2 (site false) (omega arith) is_on refl
