-- ===== src/VirtualMachine/Migration/Offline.antt =====
-- Where a virtual machine is registered after an offline migration, and when its wait ends.
use mcvirt.Base.{
  ℕ, zero, suc, ◌<◌, String, Bool, true, false, some, ◌==◌, ◌≡◌, refl, ◌∙◌, if◌then◌else◌, inl, inr,
  Bool-cases, arith,
}
use mcvirt.Base.Exec.{Result, ok, pure, guard, ◌>>◌, and_then_after, and_then_follow}
use mcvirt.Exceptions.{Exception}
use mcvirt.VirtualMachine.{ensure_unlocked, assert_vm_permission}
use mcvirt.VirtualMachine.Registration.{
  Services, Site, on_host, act, set_node, at_node, ensure_registered_locally, register_machine,
  unregister_machine, register_on_node, may_register,
}
use mcvirt.VirtualMachine.Migration.{
  powered_on, connect_to, pre_migration, await_off, move_registration, offline_migrate,
}
use mcvirt.VirtualMachine.Migration.Steps.{set_node_lem}

module _ {K : Type 0} (v : Services K) where
  -- The site after a number of waits.
  unfoldable pub after : ℕ → Site K → Site K
  after zero s = s
  after (suc n) s = after n (record s { kernel = v.wait s.kernel })

  -- If libvirt answers that the machine runs before each of `n` waits, and that it does not run
  -- after them, the loop that waits for it to shut down ends with all fuel beyond `n`, after
  -- exactly these waits.
  pub await_off_finishes :
      (n fuel : ℕ) (s : Site K)
      → n < fuel
      → ((m : ℕ) → m < n → powered_on v (after m s) ≡ ok true)
      → powered_on v (after n s) ≡ ok false
      → await_off v fuel true s ≡ (ok true, after n s)
  unfolding await_off after
  await_off_finishes n zero s enough on off = absurd (omega arith)
  await_off_finishes zero (suc fuel) s enough on off = rw off refl
  await_off_finishes (suc n) (suc fuel) s enough on off = rw (on zero (omega arith)) (
      await_off_finishes n fuel (record s { kernel = v.wait s.kernel }) (omega arith)
        (λ m below. on (suc m) (omega arith)) off)

  -- A step on a node's kernel keeps the registration.
  at_node-act :
      (operation : String → K → Result Exception (Unit {0}) × K) (node : String) (s : Site K)
      → (at_node node (λ t. act (operation t.host.hostname) t) s).1.host.vm.node ≡ s.host.vm.node
  unfolding at_node act
  at_node-act operation node s = elim (Bool-cases (node == s.host.hostname)) [
    | inl here ↦ rw here refl
    | inr there ↦ rw there refl
  ]

  register_machine-node :
      (node : String) (s : Site K)
      → (register_machine v true node s).0 ≡ ok tt
      → (register_machine v true node s).1.host.vm.node ≡ some node
  unfolding register_machine
  register_machine-node node s =
      let Q = (λ (t : Site K). t.host.vm.node ≡ some node) in
      and_then_after Q (guard (may_register s.host.vm.node node) _ s) _ tt (λ _ s1.
        and_then_after Q (guard _ _ s1) _ tt (λ _ s2.
          and_then_after Q (on_host ensure_unlocked s2) _ tt (λ _ s3.
            and_then_after Q (at_node node (register_on_node v) s3) _ tt (λ _ s4.
              and_then_follow Q (set_node (some node) s4) _ tt (λ _ ran done.
                at_node-act v.apply_cpu_flags node (set_node (some node) s4).1
                ∙ (set_node_lem (some node) s4 ran).0)))))

  started :
      (destination : String) (start : Bool) (t : Site K)
      → t.host.vm.node ≡ some destination
      → ((if start then act (v.start destination) else pure tt) t).1.host.vm.node ≡ some destination
  unfolding act
  started destination true t node = node
  started destination false t node = node

  move_registration-node :
      (destination : String) (start : Bool) (s : Site K)
      → (move_registration v destination start s).0 ≡ ok tt
      → (move_registration v destination start s).1.host.vm.node ≡ some destination
  unfolding move_registration act
  move_registration-node destination start s =
      let Q = (λ (t : Site K). t.host.vm.node ≡ some destination) in
      and_then_after Q (unregister_machine v s) _ tt (λ _ s1.
        and_then_after Q (connect_to v destination s1) _ tt (λ _ s2.
          and_then_follow Q (register_machine v true destination s2) _ tt (λ _ ran. λ done.
            started destination start (register_machine v true destination s2).1
              (register_machine-node destination s2 ran))))

  off_or_not :
      (destination : String) (start off : Bool) (s : Site K)
      → ((if off then (move_registration v destination start >> pure true) else pure false) s).0
        ≡ ok true
      → ((if off then (move_registration v destination start >> pure true) else pure false)
          s).1.host.vm.node
        ≡ some destination
  off_or_not destination start false s = λ done. cc
  off_or_not destination start true s =
      and_then_follow (λ (t : Site K). t.host.vm.node ≡ some destination)
        (move_registration v destination start s) (λ _. pure true) true
        (λ _ ran done. move_registration-node destination start s ran)

  -- When an offline migration has waited for the machine to be off and returns, for any fuel, the
  -- machine is registered on the destination.
  pub offline_migrate-node :
      (fuel : ℕ) (destination : String) (start wait : Bool) (s : Site K)
      → (offline_migrate v fuel destination start wait s).0 ≡ ok true
      → (offline_migrate v fuel destination start wait s).1.host.vm.node ≡ some destination
  unfolding offline_migrate
  offline_migrate-node fuel destination start wait s =
      let Q = (λ (t : Site K). t.host.vm.node ≡ some destination) in
      and_then_after Q (guard _ _ s) _ true (λ _ s1.
        and_then_after Q (on_host (assert_vm_permission "MIGRATE_VM") s1) _ true (λ _ s2.
          and_then_after Q (ensure_registered_locally s2) _ true (λ _ s3.
            and_then_after Q (on_host ensure_unlocked s3) _ true (λ _ s4.
              and_then_after Q (pre_migration v destination s4) _ true (λ _ s5.
                and_then_after Q (await_off v fuel wait s5) _ true
                  (λ off s6. off_or_not destination start off s6))))))
