-- ===== src/VirtualMachine/Power.antt =====
-- Stopping and resetting a virtual machine.
use mcvirt.Base.{
  String, Bool, true, false, not, ◌&&◌, ◌≢◌, ◌≡◌, refl, inl, inr, Bool-cases, Option-cases,
}
use mcvirt.Base.Exec.{Result, ok, err, and_then, ◌>>◌, and_then_after, guard}
use mcvirt.Exceptions.{Exception, virtual_machine_lock}
use mcvirt.VirtualMachine.{
  Host, VmMethod, DomainCall, is_registered_locally, is_registered_remotely, get_power_state,
  is_running, call_domain, set_vm, wrapped, on_node, dispatch, assert_vm_permission, stop, reset,
  reset_checks, is_locked, ensure_unlocked, call, locked, same_lock, change_lock_state,
  set_lock_state, lock_of,
}

-- What a method leaves: the domain is off.
abbrev pub IsOff : Host → Type 0
IsOff h = h.vm.domain_running ≡ false

-- A call that, whenever it returns, leaves the domain off.
abbrev pub Destroys : DomainCall → Type 0
Destroys domain = domain.0 ≡ ok tt → domain.1 ≡ false

wrapped_ok : (r : Result Exception (Unit {0})) → wrapped r ≡ ok tt → r ≡ ok tt
unfolding wrapped
wrapped_ok (ok _) e = refl
wrapped_ok (err x) e = cc

call_domain-IsOff :
    (domain : DomainCall) (h : Host)
    → Destroys domain
    → (call_domain domain h).0 ≡ ok tt
    → IsOff (call_domain domain h).1
unfolding call_domain set_vm
call_domain-IsOff domain h destroys = elim (Bool-cases (is_running (get_power_state h))) [
  | inl on ↦ rw (on, call_domain) (λ done. destroys (wrapped_ok domain.0 done))
  | inr off ↦ rw (off, call_domain) (λ done. absurd (cc done))
]

-- A method that leaves the domain off whenever it returns.
abbrev TurnsOff : VmMethod (Unit {0}) → Type 0
TurnsOff method = (h : Host) → (method h).0 ≡ ok tt → IsOff (method h).1

on_node-TurnsOff : (method : VmMethod (Unit {0})) → TurnsOff method → TurnsOff (on_node method)
unfolding on_node
on_node-TurnsOff method off h = elim (Option-cases h.vm.node) [
  | inl missing ↦ rw (missing, on_node) (λ done. absurd (cc done))
  | inr (node, found) ↦
      rw (found, on_node) (off (record h { hostname = node; request = h.remote_request }))
]

then-TurnsOff :
    (checks method : VmMethod (Unit {0})) → TurnsOff method → TurnsOff (checks >> method)
then-TurnsOff checks method off h = and_then_after IsOff (checks h) (λ _. method) tt (λ _. off)

dispatch-TurnsOff :
    (forwards : Host → Bool) (checks : VmMethod (Unit {0})) (domain : DomainCall)
    → Destroys domain
    → TurnsOff (dispatch forwards checks domain)
unfolding dispatch
dispatch-TurnsOff forwards checks domain destroys h = elim (Bool-cases (is_registered_locally h)) [
  | inl here ↦ rw (here, dispatch) (call_domain-IsOff domain h destroys)
  | inr elsewhere ↦ elim (Bool-cases (forwards h && is_registered_remotely h)) [
    | inl remote ↦
        rw (remote, elsewhere, dispatch)
          (on_node-TurnsOff (checks >> call_domain domain)
            (then-TurnsOff checks (call_domain domain)
              (λ there. call_domain-IsOff domain there destroys))
            h)
    | inr nowhere ↦ rw (nowhere, elsewhere, dispatch) (λ done. absurd (cc done))
  ]
]

-- When `stop` returns, the domain is off, wherever in the cluster the machine is registered, if
-- libvirt's `destroy` leaves it off whenever it returns.
pub stop_stops :
    (destroy : DomainCall) (h : Host)
    → Destroys destroy
    → (stop destroy h).0 ≡ ok tt
    → IsOff (stop destroy h).1
unfolding stop
stop_stops destroy h destroys =
    then-TurnsOff (assert_vm_permission "CHANGE_VM_POWER_STATE")
      (dispatch (λ h. not h.cluster_disabled) (assert_vm_permission "CHANGE_VM_POWER_STATE")
        destroy)
      (dispatch-TurnsOff (λ h. not h.cluster_disabled)
        (assert_vm_permission "CHANGE_VM_POWER_STATE") destroy destroys)
      h

assert_vm_permission-vm :
    (permission : String) (h : Host) → (assert_vm_permission permission h).1.vm ≡ h.vm
unfolding assert_vm_permission call
assert_vm_permission-vm permission h = refl

refused_checks :
    (asserted : Result Exception (Unit {0}) × Host) (k : VmMethod (Unit {0}))
    → is_locked asserted.1.vm.lock ≡ true
    → ((and_then (and_then asserted (λ _. ensure_unlocked)) (λ _. k)).0 ≢ ok tt)
      × ((and_then (and_then asserted (λ _. ensure_unlocked)) (λ _. k)).1.vm ≡ asserted.1.vm)
unfolding ensure_unlocked
refused_checks (ok _, h) k locked_ =
    rw (locked_, ensure_unlocked) ((λ done. absurd (cc done)), refl)
refused_checks (err e, h) k locked_ = ((λ done. absurd (cc done)), refl)

reset_locked :
    (domain_reset : DomainCall) (h : Host)
    → is_locked h.vm.lock ≡ true
    → ((reset domain_reset h).0 ≢ ok tt) × ((reset domain_reset h).1.vm ≡ h.vm)
unfolding reset reset_checks assert_vm_permission call
reset_locked domain_reset h locked_ =
    refused_checks (assert_vm_permission "CHANGE_VM_POWER_STATE" h)
      (dispatch (λ h. h.is_cluster_master) reset_checks domain_reset) locked_

change_lock-IsLocked :
    (h : Host)
    → (change_lock_state locked h).0 ≡ ok tt
    → is_locked (change_lock_state locked h).1.vm.lock ≡ true
unfolding change_lock_state set_vm is_locked
change_lock-IsLocked h =
    let IsLocked = (λ (s : Host). is_locked s.vm.lock ≡ true) in
    and_then_after IsLocked (assert_vm_permission "SET_VM_LOCK" h) _ tt (λ _ s.
      and_then_after IsLocked (guard (not (same_lock s.vm.lock locked)) virtual_machine_lock s) _ tt
        (λ _ s _. refl))

-- Once `set_lock_state` has locked a machine, `reset` does not return, whoever asks and whatever libvirt
-- would answer, and nothing of the machine changes.
pub reset_after_lock :
    (domain_reset : DomainCall) (h : Host)
    → (set_lock_state 1 h).0 ≡ ok tt
    → ((reset domain_reset (set_lock_state 1 h).1).0 ≢ ok tt)
      × ((reset domain_reset (set_lock_state 1 h).1).1.vm ≡ (set_lock_state 1 h).1.vm)
unfolding set_lock_state lock_of
reset_after_lock domain_reset h done =
    reset_locked domain_reset (change_lock_state locked h).1 (change_lock-IsLocked h done)
