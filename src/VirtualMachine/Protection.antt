-- ===== src/VirtualMachine/Protection.antt =====
-- The delete protection of a virtual machine.
use mcvirt.Base.{
  String, Bool, true, false, ◌||◌, ◌==◌, ◌≢◌, Option, List, some, none, [], ◌∷◌, ◌≡◌, refl, sym, ap,
  ◌∙◌, arith, eq_refl,
}
use mcvirt.Base.Text.{reverse}
use mcvirt.Base.Exec.{Result, ok, err, and_then, gets, guard, ◌>>◌, ◌>>=◌}
use mcvirt.Exceptions.{Exception}
use mcvirt.Auth.Users.{UserType, cluster_user}
use mcvirt.Auth.Permission.{
  Request, check_permission, assert_user_type, check_user_type, has_permission_asserted,
  set_permission_asserted, is_superuser, get_proxy_user_object, get_current_user_object,
  is_elevated,
}
use mcvirt.Auth.Permission.Checks.{assert_permission_outcome}
use mcvirt.VirtualMachine.{
  Vm, Host, VmMethod, call, set_vm, assert_vm_permission, update_vm_config,
  enable_delete_protection, disable_delete_protection,
}

confirmation_checked :
    (asserted : Result Exception (Unit {0}) × Host) (confirmation : String) (e : Exception)
    (k : VmMethod (Unit {0}))
    → (confirmation == reverse asserted.1.vm.name) ≡ false
    → ((and_then asserted
          (λ _. gets (λ h. h.vm.name) >>= λ name. guard (confirmation == reverse name) e >> k)).0
        ≢ ok tt)
      × ((and_then asserted (λ _.
            gets (λ h. h.vm.name) >>= λ name. guard (confirmation == reverse name) e >> k)).1.vm
          ≡ asserted.1.vm)
confirmation_checked (ok _, h) confirmation e k wrong =
    simp wrong ((λ done. absurd (cc done)), refl)
confirmation_checked (err x, h) confirmation e k wrong = ((λ done. absurd (cc done)), refl)

-- Delete protection stays on unless the caller confirms with the name of the machine reversed: with any
-- other text `disable_delete_protection` does not return, and nothing of the machine changes.
pub disable_unconfirmed :
    (confirmation : String) (h : Host)
    → (confirmation == reverse h.vm.name) ≡ false
    → ((disable_delete_protection confirmation h).0 ≢ ok tt)
      × ((disable_delete_protection confirmation h).1.vm ≡ h.vm)
unfolding disable_delete_protection assert_vm_permission call
disable_unconfirmed confirmation h wrong =
    confirmation_checked (assert_vm_permission "MODIFY_VM" h) confirmation _ _ wrong

set_twice :
    (r : Request) → set_permission_asserted (set_permission_asserted r) ≡ set_permission_asserted r
unfolding set_permission_asserted
set_twice r = twice r.permission_asserted
  where
    twice :
        (o : Option Bool)
        → set_permission_asserted (set_permission_asserted (record r { permission_asserted = o }))
          ≡ set_permission_asserted (record r { permission_asserted = o })
    twice none = refl
    twice (some b) = refl

check_permission-asserted :
    (permission : String) (vm : Option String) (r : Request)
    → check_permission permission vm none (set_permission_asserted r)
      ≡ check_permission permission vm none r
unfolding check_permission is_superuser check_user_type get_proxy_user_object
    get_current_user_object is_elevated set_permission_asserted
check_permission-asserted permission vm r = refl

check_user_type-asserted :
    (types : List UserType) (r : Request)
    → check_user_type types (set_permission_asserted r) ≡ check_user_type types r
unfolding check_user_type get_current_user_object set_permission_asserted
check_user_type-asserted types r = refl

-- The request may modify the machine, and its context records that it has passed a check.
pub record MayModify (h : Host) : Type 0 where
  pub granted : check_permission "MODIFY_VM" (some h.vm.name) none h.request ≡ ok true
  pub from_cluster : Bool
  pub type_checked : check_user_type (cluster_user ∷ []) h.request ≡ ok from_cluster
  pub before : Bool
  pub recorded : h.request.permission_asserted ≡ some before

-- The host once a check has been passed.
abbrev pub marked : Host → Host
marked h = record h { request = set_permission_asserted h.request }

module _ (h : Host) (may : MayModify h) where
  marked_asserted : has_permission_asserted (set_permission_asserted h.request) ≡ true
  unfolding has_permission_asserted set_permission_asserted
  marked_asserted = rw may.recorded refl

  assert_type :
      assert_user_type (cluster_user ∷ []) true (set_permission_asserted h.request)
      ≡ (ok tt, set_permission_asserted h.request)
  unfolding assert_user_type
  assert_type =
      let any : (may.from_cluster || true) ≡ true = ground arith in
      simp (
        check_user_type-asserted (cluster_user ∷ []) h.request,
        may.type_checked,
        marked_asserted,
        any,
      )

  assert_first : assert_vm_permission "MODIFY_VM" h ≡ (ok tt, marked h)
  unfolding assert_vm_permission call
  assert_first =
      simp (assert_permission_outcome "MODIFY_VM" (some h.vm.name) false true h.request may.granted)

  update_lem :
      (change : Vm → Vm) (vm : Vm)
      → update_vm_config change (record (marked h) { vm = vm })
        ≡ (ok tt, record (marked h) { vm = change vm })
  unfolding update_vm_config call set_vm
  update_lem change vm = simp assert_type

  abbrev protected : Host
  protected = record (marked h) { vm = record h.vm { delete_protection = true } }

  enable_lem : h.vm.delete_protection ≡ false → enable_delete_protection h ≡ (ok tt, protected)
  unfolding enable_delete_protection
  enable_lem off =
      simp (assert_first, off, update_lem (λ vm. record vm { delete_protection = true }) h.vm)

  assert_again : assert_vm_permission "MODIFY_VM" protected ≡ (ok tt, protected)
  unfolding assert_vm_permission call
  assert_again = simp (
    assert_permission_outcome "MODIFY_VM" (some h.vm.name) false true
        (set_permission_asserted h.request)
        (check_permission-asserted "MODIFY_VM" (some h.vm.name) h.request ∙ may.granted),
    set_twice h.request,
  )

  disable_lem :
      disable_delete_protection (reverse h.vm.name) protected
      ≡ (ok tt, record (marked h) { vm = record h.vm { delete_protection = false } })
  unfolding disable_delete_protection
  disable_lem = simp (
    assert_again,
    eq_refl (reverse h.vm.name),
    update_lem (λ vm. record vm { delete_protection = false }) protected.vm,
  )

  -- Enabling the delete protection of a machine that has none, and then disabling it with the
  -- reversed name, both succeed for a request that may modify the machine and whose context records
  -- checks, and leave the machine as it was; the request is then marked as having passed a check.
  pub enable-disable :
      h.vm.delete_protection ≡ false
      → (enable_delete_protection >> disable_delete_protection (reverse h.vm.name)) h
        ≡ (ok tt, marked h)
  enable-disable off =
      simp (enable_lem off, disable_lem)
        (ap (λ b. (ok tt, record (marked h) { vm = record h.vm { delete_protection = b } }))
          (sym off))
