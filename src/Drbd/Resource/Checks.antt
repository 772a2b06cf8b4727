-- ===== src/Drbd/Resource/Checks.antt =====
-- What a query and the check of a DRBD resource leave and require.
use mcvirt.Base.{
  String, Bool, true, false, ◌||◌, List, ◌≡◌, refl, sym, ap, subst, ◌∙◌, arith, inl, inr,
  Bool-cases,
}
use mcvirt.Base.Exec.{
  Result, ok, err, and_then, pure, reads, guard, and_then_returns, guard_passes, ok_injective,
}
use mcvirt.Exceptions.{Exception, drbd_state, drbd_volume_not_in_sync}
use mcvirt.Drbd.States.{
  ConnectionState, RoleState, DiskState, connection_value, disk_value, mem_state, decode_connection,
  decode_roles, decode_disks, connection_ok, connection_warning, disk_ok, disk_warning,
}
use mcvirt.Drbd.Resource.{
  Command, cstate, dstate, role, Drbdadm, Resource, DrbdMethod, execute, run_command,
  get_connection_state, get_disk_state, get_role, check_state_type, ensure_in_sync,
  check_drbd_status,
}

module _ {K : Type 0} where
  read_keeps :
      {A : Type 0} (answer : Result Exception String) (r : Resource K)
      (decode : String → Result Exception A)
      → (and_then (answer, r) (λ stdout. reads (λ _. decode stdout))).1 ≡ r
  read_keeps (ok stdout) r decode = refl
  read_keeps (err e) r decode = refl

  ignored_keeps :
      (answer : Result Exception String) (r : Resource K)
      → (and_then (answer, r) (λ _. pure tt)).1 ≡ r
  ignored_keeps (ok stdout) r = refl
  ignored_keeps (err e) r = refl

  check_state_type-refused :
      {S : Type 0} (value : S → String) (states warnings : List S) (state : S) (r : Resource K)
      → r.ignore_drbd ≡ false
      → mem_state value state states ≡ false
      → (check_state_type value states warnings state r).0 ≡ err drbd_state
  unfolding check_state_type
  check_state_type-refused value states warnings state r strict bad =
      elim (Bool-cases (mem_state value state warnings)) [
        | inl warned ↦ simp (bad, warned, strict)
        | inr worse ↦ simp (bad, worse)
      ]

  check_state_type-strict :
      {S : Type 0} (value : S → String) (states warnings : List S) (state : S) (r : Resource K)
      → r.ignore_drbd ≡ false
      → (check_state_type value states warnings state r).0 ≡ ok tt
      → (mem_state value state states ≡ true)
        × ((check_state_type value states warnings state r).1 ≡ r)
  unfolding check_state_type
  check_state_type-strict value states warnings state r strict passed =
      elim (Bool-cases (mem_state value state states)) [
        | inl good ↦ (good, simp good)
        | inr bad ↦
            let e : err drbd_state ≡ ok tt =
              sym (check_state_type-refused value states warnings state r strict bad) ∙ passed in
            cc
      ]

module _ {K : Type 0} (d : Drbdadm K) (r : Resource K) where
  -- The resource once a query has run.
  abbrev pub queried : Command → Resource K
  queried command = record r { kernel = (d.run r.hostname command r.kernel).1 }

  pub get_role-state : (get_role d r).1 ≡ queried role
  unfolding get_role run_command
  get_role-state = read_keeps (d.run r.hostname role r.kernel).0 (queried role) decode_roles

  pub get_disk_state-state : (get_disk_state d r).1 ≡ queried dstate
  unfolding get_disk_state run_command
  get_disk_state-state =
      read_keeps (d.run r.hostname dstate r.kernel).0 (queried dstate) decode_disks

  pub get_connection_state-state : (get_connection_state d r).1 ≡ queried cstate
  unfolding get_connection_state run_command
  get_connection_state-state =
      read_keeps (d.run r.hostname cstate r.kernel).0 (queried cstate) decode_connection

  pub execute-state : (command : Command) → (execute d command r).1 ≡ queried command
  unfolding execute run_command
  execute-state command = ignored_keeps (d.run r.hostname command r.kernel).0 (queried command)

  -- A command that returns has run without an error.
  pub execute-ran :
      (command : Command)
      → (execute d command r).0 ≡ ok tt
      → (out : String) × ((d.run r.hostname command r.kernel).0 ≡ ok out)
  unfolding execute run_command
  execute-ran command done =
      let (out, (ran, _)) = and_then_returns (run_command d command r) _ tt done in
      (out, ap (λ a. a.0) ran)

-- The part of the resource that decides whether a check is strict.
abbrev pub flags : {K : Type 0} → Resource K → Bool × Bool
flags r = (r.ignore_drbd, r.sync_state)

pub ensure_in_sync-strict :
    {K : Type 0} (r s : Resource K)
    → flags s ≡ flags r
    → r.ignore_drbd ≡ false
    → (ensure_in_sync s).0 ≡ ok tt
    → r.sync_state ≡ true
unfolding ensure_in_sync
ensure_in_sync-strict r s same strict passed =
    let either = guard_passes (s.sync_state || s.ignore_drbd) drbd_volume_not_in_sync s passed in
    ground (arith, ap (λ f. f.0) same, ap (λ f. f.1) same)

-- A check that passes, with DRBD not ignored, has found the disk, the connection and the last
-- verification in order.
pub check_drbd_status-strict :
    {K : Type 0} (d : Drbdadm K) (r : Resource K)
    (status : (DiskState × DiskState) × ConnectionState × (RoleState × RoleState))
    → r.ignore_drbd ≡ false
    → (check_drbd_status d r).0 ≡ ok status
    → (mem_state disk_value status.0.0 disk_ok ≡ true)
      × (mem_state connection_value status.1 connection_ok ≡ true)
      × (r.sync_state ≡ true)
unfolding check_drbd_status
check_drbd_status-strict d r status strict passed =
    let (disks, (found_disks, p1)) = and_then_returns (get_disk_state d r) _ status passed in
    let s1 = (get_disk_state d r).1 in
    let f1 = ap flags (get_disk_state-state d r) in
    let checked = check_state_type disk_value disk_ok disk_warning disks.0 s1 in
    let (_, (found1, p2)) = and_then_returns checked _ status p1 in
    let (good_disk, same1) =
      check_state_type-strict disk_value disk_ok disk_warning disks.0 s1 (ap (λ f. f.0) f1 ∙ strict)
        (ap (λ a. a.0) found1) in
    let s2 = checked.1 in
    let (connection, (found_connection, p3)) =
      and_then_returns (get_connection_state d s2) _ status p2 in
    let s3 = (get_connection_state d s2).1 in
    let f3 = ap flags (get_connection_state-state d s2) ∙ ap flags same1 ∙ f1 in
    let checked' =
      check_state_type connection_value connection_ok connection_warning connection s3 in
    let (_, (found2, p4)) = and_then_returns checked' _ status p3 in
    let (good_connection, same3) =
      check_state_type-strict connection_value connection_ok connection_warning connection s3
        (ap (λ f. f.0) f3 ∙ strict) (ap (λ a. a.0) found2) in
    let s4 = checked'.1 in
    let (roles, (found_roles, p5)) = and_then_returns (get_role d s4) _ status p4 in
    let s5 = (get_role d s4).1 in
    let f5 = ap flags (get_role-state d s4) ∙ ap flags same3 ∙ f3 in
    let (_, (found3, p6)) = and_then_returns (ensure_in_sync s5) _ status p5 in
    let in_sync = ensure_in_sync-strict r s5 f5 strict (ap (λ a. a.0) found3) in
    subst
      (λ (st : (DiskState × DiskState) × ConnectionState × (RoleState × RoleState)).
        (mem_state disk_value st.0.0 disk_ok ≡ true)
        × (mem_state connection_value st.1 connection_ok ≡ true)
        × (r.sync_state ≡ true))
      (ok_injective p6) (good_disk, good_connection, in_sync)

-- A method that leaves the flags alone.
abbrev pub KeepsFlags : {K A : Type 0} → DrbdMethod K A → Type 0
KeepsFlags {K} method = (r : Resource K) → flags (method r).1 ≡ flags r

module _ {K : Type 0} where
  pub then-KeepsFlags :
      {A B : Type 0} (answer : Result Exception A × Resource K) (s : Resource K)
      (f : A → DrbdMethod K B)
      → flags answer.1 ≡ flags s
      → ((a : A) → KeepsFlags (f a))
      → flags (and_then answer f).1 ≡ flags s
  then-KeepsFlags (ok a, r) s f same keeps = keeps a r ∙ same
  then-KeepsFlags (err e, r) s f same keeps = same

  guard-KeepsFlags : (b : Bool) (e : Exception) → KeepsFlags {K = K} (guard b e)
  guard-KeepsFlags true e r = refl
  guard-KeepsFlags false e r = refl

  check_state_type-KeepsFlags :
      {S : Type 0} (value : S → String) (states warnings : List S) (state : S)
      → KeepsFlags {K = K} (check_state_type value states warnings state)
  unfolding check_state_type
  check_state_type-KeepsFlags value states warnings state r =
      elim (Bool-cases (mem_state value state states)) [
        | inl good ↦ simp good
        | inr bad ↦ elim (Bool-cases (mem_state value state warnings)) [
          | inl warned ↦ simp (bad, warned) (guard-KeepsFlags r.ignore_drbd drbd_state r)
          | inr worse ↦ simp (bad, worse)
        ]
      ]

  pub check_drbd_status-KeepsFlags : (d : Drbdadm K) → KeepsFlags (check_drbd_status d)
  unfolding check_drbd_status ensure_in_sync
  check_drbd_status-KeepsFlags d r =
      then-KeepsFlags (get_disk_state d r) r _ (ap flags (get_disk_state-state d r)) (λ disks s1.
        then-KeepsFlags _ s1 _
          (check_state_type-KeepsFlags disk_value disk_ok disk_warning disks.0 s1)
          (λ _ s2.
            then-KeepsFlags (get_connection_state d s2) s2 _
              (ap flags (get_connection_state-state d s2))
              (λ connection s3.
                then-KeepsFlags _ s3 _
                  (check_state_type-KeepsFlags connection_value connection_ok connection_warning
                    connection s3)
                  (λ _ s4.
                    then-KeepsFlags (get_role d s4) s4 _ (ap flags (get_role-state d s4))
                      (λ roles s5.
                        then-KeepsFlags _ s5 _
                          (guard-KeepsFlags (s5.sync_state || s5.ignore_drbd)
                            drbd_volume_not_in_sync s5)
                          (λ _ s6. refl))))))
