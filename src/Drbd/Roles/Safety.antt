-- ===== src/Drbd/Roles/Safety.antt =====
-- When a node makes itself primary.
use mcvirt.Base.{Bool, true, false, not, ◌&&◌, ◌||◌, ◌≡◌, refl, sym, ap, ◌∙◌}
use mcvirt.Base.Exec.{ok, guard, ◌>>◌, and_then_returns, and_then-eq_ok}
use mcvirt.Exceptions.{drbd_state}
use mcvirt.Drbd.States.{
  ConnectionState, RoleState, DiskState, primary, secondary, unknown, is_role, connection_value,
  disk_value, mem_state, connection_ok, disk_ok,
}
use mcvirt.Drbd.Resource.{
  Drbdadm, Resource, DrbdMethod, to_primary, execute, get_role, check_drbd_status,
}
use mcvirt.Drbd.Resource.Checks.{
  flags, get_role-state, check_drbd_status-strict, check_drbd_status-KeepsFlags,
}
use mcvirt.Drbd.Roles.{drbd_set_primary}

is_secondary : (s : RoleState) → is_role s secondary ≡ true → s ≡ secondary
unfolding is_role
is_secondary secondary same = refl
is_secondary primary same = cc
is_secondary unknown same = cc

-- Both guards on the roles pass.
guards_pass :
    {K : Type 0} (local_unknown remote_unknown remote_secondary ignore : Bool)
    (k : DrbdMethod K (Unit {0})) (s : Resource K)
    → ignore ≡ false
    → ((guard (not (local_unknown || remote_unknown && not ignore)) drbd_state
          >> (guard (not (not false && not remote_secondary && not ignore)) drbd_state >> k))
        s).0
      ≡ ok tt
    → (local_unknown ≡ false) × (remote_secondary ≡ true)
guards_pass true remote_unknown remote_secondary ignore k s strict passed = cc
guards_pass false true remote_secondary true k s strict passed = cc
guards_pass false true remote_secondary false k s strict passed = cc
guards_pass false false true ignore k s strict passed = (refl, refl)
guards_pass false false false true k s strict passed = cc
guards_pass false false false false k s strict passed = cc

-- Unless DRBD states are ignored, a node that makes itself primary, with two primaries not allowed,
-- was told by DRBD right before that its own role is known and its peer is secondary, and that its
-- disk and its connection are in states that MCVirt accepts, and the resource was recorded as in
-- sync.
pub drbd_set_primary_strict :
    {K : Type 0} (d : Drbdadm K) (r : Resource K)
    → r.ignore_drbd ≡ false
    → (drbd_set_primary d false r).0 ≡ ok tt
    → (local_role : RoleState) × ((get_role d r).0 ≡ ok (local_role, secondary))
      × (is_role local_role unknown ≡ false)
      × ((status : (DiskState × DiskState) × ConnectionState × (RoleState × RoleState))
          × ((check_drbd_status d (get_role d r).1).0 ≡ ok status)
          × (mem_state disk_value status.0.0 disk_ok ≡ true)
          × (mem_state connection_value status.1 connection_ok ≡ true))
      × (r.sync_state ≡ true)
unfolding drbd_set_primary
drbd_set_primary_strict d r strict done =
    let (roles, (found_roles, p1)) = and_then_returns (get_role d r) _ tt done in
    let s1 = (get_role d r).1 in
    let f1 = ap flags (get_role-state d r) in
    let (status, (found_status, p2)) = and_then_returns (check_drbd_status d s1) _ tt p1 in
    let s2 = (check_drbd_status d s1).1 in
    let f2 = check_drbd_status-KeepsFlags d s1 ∙ f1 in
    let (known, peer) =
      guards_pass _ _ _ s2.ignore_drbd (execute d to_primary) s2 (ap (λ f. f.0) f2 ∙ strict) p2 in
    let (good_disk, good_connection, in_sync) =
      check_drbd_status-strict d s1 status (ap (λ f. f.0) f1 ∙ strict)
        (ap (λ a. a.0) found_status) in
    (
      roles.0,
      ap (λ a. a.0) found_roles ∙ ap (λ m. ok (roles.0, m)) (is_secondary roles.1 peer),
      known,
      (status, ap (λ a. a.0) found_status, good_disk, good_connection),
      sym (ap (λ f. f.1) f1) ∙ in_sync,
    )

guards_ignored :
    {K : Type 0} (k : DrbdMethod K (Unit {0})) (s : Resource K)
    → s.ignore_drbd ≡ true
    → (guard
            (not (is_role secondary unknown || is_role primary unknown && not s.ignore_drbd))
            drbd_state
          >> (guard
                (not (not false && not (is_role primary secondary) && not s.ignore_drbd))
                drbd_state
              >> k))
        s
      ≡ k s
unfolding is_role
guards_ignored k s ignores = simp ignores

-- Where DRBD states are ignored, a secondary node whose peer is primary, and whose status passes
-- the check, runs the command that makes it primary too, although two primaries were not allowed.
pub drbd_set_primary_ignoring :
    {K : Type 0} (d : Drbdadm K) (r : Resource K)
    (status : (DiskState × DiskState) × ConnectionState × (RoleState × RoleState))
    → r.ignore_drbd ≡ true
    → (get_role d r).0 ≡ ok (secondary, primary)
    → (check_drbd_status d (get_role d r).1).0 ≡ ok status
    → drbd_set_primary d false r ≡ execute d to_primary (check_drbd_status d (get_role d r).1).1
unfolding drbd_set_primary
drbd_set_primary_ignoring d r status ignores roles passes =
    let s2 = (check_drbd_status d (get_role d r).1).1 in
    and_then-eq_ok (get_role d r) _ (secondary, primary) roles
    ∙ and_then-eq_ok (check_drbd_status d (get_role d r).1) _ status passes
    ∙ guards_ignored (execute d to_primary) s2 (
        ap (λ f. f.0)
          (check_drbd_status-KeepsFlags d (get_role d r).1 ∙ ap flags (get_role-state d r))
        ∙ ignores)
