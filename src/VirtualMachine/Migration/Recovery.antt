-- ===== src/VirtualMachine/Migration/Recovery.antt =====
-- Where a virtual machine is registered after an online migration, and after one that failed.
use mcvirt.Base.{
  String, Bool, not, subst, true, false, none, some, ◌≡◌, refl, sym, ap, ◌∙◌, if◌then◌else◌, inl,
  inr, Bool-cases, arith,
}
use mcvirt.Base.Exec.{
  Result, ok, err, and_then, raise, guard, and_then-eq_ok, and_then_returns, and_then_after,
  and_then_follow, guard_passes, ◌>>◌,
}
use mcvirt.Exceptions.{Exception, vm_is_stopped}
use mcvirt.VirtualMachine.{ensure_unlocked, assert_vm_permission}
use mcvirt.VirtualMachine.Registration.{
  Services, Site, SiteMethod, on_host, act, set_node, ensure_registered_locally,
}
use mcvirt.VirtualMachine.Migration.{
  powered_on, connect_to, pre_migration, pre_online_checks, migrate_domain, sleep_ten, recover_on,
  recover, handled, post_checks, guarded_migration, online_migrate,
}
use mcvirt.VirtualMachine.Migration.Steps.{
  set_node_lem, each_disk-holds, recover_if, recover_if-node, recover_if-domains,
}

-- `has` tells which nodes have the machine's domain: libvirt reports it where it answers, and to demote
-- a hard drive in DRBD changes nothing of it.
pub record KeepsDomains {K : Type 0} (v : Services K) (has : String → K → Bool) : Type 0 where
  pub reports : (node : String) (b : Bool) (k : K) → v.defined node k ≡ ok b → b ≡ has node k
  pub secondary :
      (node disk other : String) (k : K) → has other (v.set_secondary node disk k).1 ≡ has other k

module _ {K : Type 0} {v : Services K} {has : String → K → Bool} (laws : KeepsDomains v has) where
  -- An attempt to recover on a node that returns has heard of libvirt whether it has the machine.
  recover_on_lem :
      (demote : String → SiteMethod K (Unit {0})) (node : String) (s : Site K)
      → (recover_on v demote node s).0 ≡ ok tt
      → recover_on v demote node s ≡ recover_if (has node s.kernel) demote node s
  unfolding recover_on
  recover_on_lem demote node s done =
      let (here, (read, _)) = and_then_returns (v.defined node s.kernel, s) _ tt done in
      let heard : v.defined node s.kernel ≡ ok here = ap (λ r. r.0) read in
      and_then-eq_ok (v.defined node s.kernel, s) _ here heard
      ∙ ap (λ b. recover_if b demote node s) (laws.reports node here s.kernel heard)

  recover_on-node :
      (demote : String → SiteMethod K (Unit {0})) (node : String) (s : Site K)
      → (recover_on v demote node s).0 ≡ ok tt
      → (recover_on v demote node s).1.host.vm.node
        ≡ (if has node s.kernel then some node else s.host.vm.node)
  recover_on-node demote node s done =
      let same = recover_on_lem demote node s done in
      ap (λ r. r.1.host.vm.node) same
      ∙ recover_if-node (has node s.kernel) demote node s (sym (ap (λ r. r.0) same) ∙ done)

  recover_on-domains :
      (demote : String → SiteMethod K (Unit {0})) (node : String) (s : Site K)
      → ((disk n : String) (t : Site K) → has n (demote disk t).1.kernel ≡ has n t.kernel)
      → (recover_on v demote node s).0 ≡ ok tt
      → (n : String) → has n (recover_on v demote node s).1.kernel ≡ has n s.kernel
  recover_on-domains demote node s keeps done n =
      let same = recover_on_lem demote node s done in
      ap (λ r. has n r.1.kernel) same
      ∙ recover_if-domains has (has node s.kernel) demote node s keeps
          (sym (ap (λ r. r.0) same) ∙ done) n

  -- When the handler of a failed migration returns, libvirt answers truly which nodes have the
  -- machine, and demoting hard drives changes nothing of it, then the machine is registered on the
  -- destination if libvirt has it there once the first ten seconds are over, else on this node if
  -- libvirt has it here then, and else as before.
  pub recover_lem :
      (destination : String) (s : Site K)
      → (recover v destination s).0 ≡ ok tt
      → let k = v.wait (v.wait s.kernel) in
        (recover v destination s).1.host.vm.node ≡ (
          if has destination k
          then some destination
          else (if has s.host.hostname k then some s.host.hostname else s.host.vm.node))
  unfolding recover sleep_ten act
  recover_lem destination s done =
      let local = s.host.hostname in
      let remote_demote = (λ (disk : String). act (v.set_secondary destination disk)) in
      let local_demote = (λ (disk : String). sleep_ten v >> act (v.set_secondary local disk)) in
      let s0 = (sleep_ten v s).1 in
      let (u1, (ran1, rest1)) = and_then_returns (recover_on v remote_demote local s0) _ tt done in
      let s1 = (recover_on v remote_demote local s0).1 in
      let (u2, (ran2, rest2)) =
        and_then_returns (recover_on v local_demote destination s1) _ tt rest1 in
      let s2 = (recover_on v local_demote destination s1).1 in
      let returned1 = ap (λ r. r.0) ran1 in
      let domains =
        recover_on-domains remote_demote local s0
          (λ disk n t. laws.secondary destination disk n t.kernel) returned1 in
      ap (λ r. r.1.host.vm.node)
        (and_then-eq_ok (recover_on v remote_demote local s0) _ tt returned1
          ∙ and_then-eq_ok (recover_on v local_demote destination s1) _ tt (ap (λ r. r.0) ran2))
      ∙ each_disk-holds (λ (t : Site K). t.host.vm.node ≡ s2.host.vm.node)
          (λ (disk : String). act (v.reset_disk local disk)) (λ _ _ same. same) s2.disks s2 refl
      ∙ recover_on-node local_demote destination s1 (ap (λ r. r.0) ran2)
      ∙ ap (λ b. if b then some destination else s1.host.vm.node) (domains destination)
      ∙ ap (λ n. if has destination s0.kernel then some destination else n)
          (recover_on-node remote_demote local s0 returned1)

  -- If the migration proper raises an exception and the steps of its handler succeed, libvirt
  -- answers truly which nodes have the machine where it answers, and demoting hard drives changes
  -- nothing of it, then the exception is raised again, and the machine is registered on the
  -- destination if libvirt has it there once ten seconds have passed since the failure, else on
  -- this node if libvirt has it here then, and else as the failed migration left it.
  pub guarded_migration-recover :
      (destination : String) (s : Site K) (e : Exception)
      → (migrate_domain v destination s).0 ≡ err e
      → (recover v destination (migrate_domain v destination s).1).0 ≡ ok tt
      → let t = (migrate_domain v destination s).1 in
        let k = v.wait (v.wait t.kernel) in
        ((guarded_migration v destination s).0 ≡ err e)
        × ((guarded_migration v destination s).1.host.vm.node ≡ (
            if has destination k
            then some destination
            else (if has t.host.hostname k then some t.host.hostname else t.host.vm.node)))
  unfolding guarded_migration handled
  guarded_migration-recover destination s e failed recovered =
      let t = (migrate_domain v destination s).1 in
      let whole =
        ap (λ r. handled v destination r t) failed
        ∙ and_then-eq_ok (recover v destination t) (λ _. raise e) tt recovered in
      (ap (λ r. r.0) whole, ap (λ r. r.1.host.vm.node) whole ∙ recover_lem destination t recovered)

module _ {K : Type 0} (v : Services K) where
  -- The `try` that returns ends with the registration on the destination.
  migrate_domain-node :
      (destination : String) (s : Site K)
      → (migrate_domain v destination s).0 ≡ ok tt
      → (migrate_domain v destination s).1.host.vm.node ≡ some destination
  unfolding migrate_domain
  migrate_domain-node destination s =
      let Q = (λ (t : Site K). t.host.vm.node ≡ some destination) in
      and_then_after Q (connect_to v destination s) _ tt (λ _ s1.
        and_then_after Q (act (v.pre_online_migration destination) s1) _ tt (λ _ s2.
          and_then_after Q (set_node none s2) _ tt (λ _ s3.
            and_then_after Q (act (v.migrate s2.host.hostname destination) s3) _ tt (λ status s4.
              and_then_after Q (guard status _ s4) _ tt (λ _ s5.
                and_then_after Q (act (v.post_online_migration s2.host.hostname) s5) _ tt
                  (λ _ s6 done. (set_node_lem (some destination) s6 done).0))))))

  -- A handler that raises again does not return.
  raised :
      {P : Type 0} (r : Result Exception (Unit {0}) × Site K) (e : Exception)
      → (and_then r (λ _. raise {A = Unit {0}} e)).0 ≡ ok tt
      → P
  raised (ok u, s) e = λ same. cc
  raised (err x, s) e = λ same. cc

  returned :
      (destination : String) (r : Result Exception (Unit {0})) (t : Site K)
      → (r ≡ ok tt → t.host.vm.node ≡ some destination)
      → (handled v destination r t).0 ≡ ok tt
      → (handled v destination r t).1.host.vm.node ≡ some destination
  unfolding handled
  returned destination (ok u) t node done = node refl
  returned destination (err e) t node done = raised (recover v destination t) e done

  -- The machine is on a node: in its configuration and as libvirt reports it.
  abbrev pub IsMigrated : String → Site K → Type 0
  IsMigrated destination t =
      (t.host.vm.node ≡ some destination)
      × (v.defined t.host.hostname t.kernel ≡ ok false)
      × (v.defined destination t.kernel ≡ ok true)
      × (v.active destination t.kernel ≡ ok true)

  powered_on_lem :
      (destination : String) (t : Site K)
      → t.host.vm.node ≡ some destination
      → powered_on v t ≡ v.active destination t.kernel
  unfolding powered_on
  powered_on_lem destination t node =
      ap (λ o. elim o [ none ↦ ok false | some n ↦ v.active n t.kernel ]) node

  -- An answer that a check lets pass.
  answered :
      (f : Bool → Bool) (a : Result Exception Bool) (e : Exception) (rest : SiteMethod K (Unit {0}))
      (t : Site K)
      → (and_then (a, t) (λ b. guard (f b) e >> rest)).0 ≡ ok tt
      → ((b : Bool) × (a ≡ ok b) × (f b ≡ true))
        × (and_then (a, t) (λ b. guard (f b) e >> rest) ≡ rest t)
  answered f (err x) e rest t = λ done. cc
  answered f (ok b) e rest t = elim (Bool-cases (f b)) [
    | inl passes ↦ rw passes (λ done. ((b, refl, passes), refl))
    | inr stops ↦ rw stops (λ done. cc)
  ]

  post_checks-IsMigrated :
      (destination : String) (t : Site K)
      → t.host.vm.node ≡ some destination
      → (post_checks v destination t).0 ≡ ok tt
      → IsMigrated destination (post_checks v destination t).1
  unfolding post_checks
  post_checks-IsMigrated destination t node done =
      let k = t.kernel in
      let ((here, answer1, none_here), same1) =
        answered not (v.defined t.host.hostname k) _ _ t done in
      let ((there, answer2, is_there), same2) =
        answered (λ b. b) (v.defined destination k) _ _ t (sym (ap (λ r. r.0) same1) ∙ done) in
      let (running, (ran, last)) =
        and_then_returns (powered_on v t, t) (λ b. guard b vm_is_stopped) tt
          (sym (ap (λ r. r.0) (same1 ∙ same2)) ∙ done) in
      let answer3 = ap (λ r. r.0) ran in
      let is_running = guard_passes running vm_is_stopped t last in
      let same3 =
        and_then-eq_ok (powered_on v t, t) (λ b. guard b vm_is_stopped) running answer3
        ∙ ap (λ b. guard b vm_is_stopped t) is_running in
      subst (IsMigrated destination) (sym (ap (λ r. r.1) (same1 ∙ same2 ∙ same3))) (
        node,
        answer1 ∙ ap ok (ground (arith, none_here)),
        answer2 ∙ ap ok is_there,
        sym (powered_on_lem destination t node) ∙ answer3 ∙ ap ok is_running,
      )

  -- When an online migration returns, the machine is registered on the destination, libvirt has it
  -- there, running, and does not have it on this node.
  pub online_migrate-IsMigrated :
      (destination : String) (s : Site K)
      → (online_migrate v destination s).0 ≡ ok tt
      → IsMigrated destination (online_migrate v destination s).1
  unfolding online_migrate guarded_migration
  online_migrate-IsMigrated destination s =
      let Q = IsMigrated destination in
      and_then_after Q (on_host (assert_vm_permission "MIGRATE_VM") s) _ tt (λ _ s1.
        and_then_after Q (guard _ _ s1) _ tt (λ _ s2.
          and_then_after Q (ensure_registered_locally s2) _ tt (λ _ s3.
            and_then_after Q (on_host ensure_unlocked s3) _ tt (λ _ s4.
              and_then_after Q (pre_migration v destination s4) _ tt (λ _ s5.
                and_then_after Q (pre_online_checks v destination s5) _ tt (λ _ s6.
                  and_then_after Q (connect_to v destination s6) _ tt (λ _ s7.
                    and_then_follow Q (guarded_migration v destination s7) _ tt (λ _ ran.
                      post_checks-IsMigrated destination (guarded_migration v destination s7).1 (
                        returned destination (migrate_domain v destination s7).0
                          (migrate_domain v destination s7).1 (migrate_domain-node destination s7)
                          ran)))))))))
