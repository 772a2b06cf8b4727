-- ===== src/Drbd/Roles/Migration.antt =====
-- What the steps around an online migration leave, under the documented behaviour of DRBD.
use Prim.Native.String.{◌++◌ as ◌+++◌}
use mcvirt.Base.{
  ℕ, zero, suc, String, Bool, true, false, not, ◌&&◌, ◌||◌, [], ◌∷◌, ◌≡◌, refl, sym, ap, subst, ◌∙◌,
  if◌then◌else◌, eq_refl,
}
use mcvirt.Base.Lists.{contains, remove}
use mcvirt.Base.Exec.{
  Result, ok, guard, pure, ◌>>◌, ◌>>=◌, and_then_returns, and_then_follow, ok_injective,
  and_then-eq_ok,
}
use mcvirt.Exceptions.{Exception, drbd_state}
use mcvirt.Auth.Users.{cluster_user}
use mcvirt.Auth.Permission.{assert_user_type}
use mcvirt.Drbd.States.{RoleState, primary, secondary, unknown, is_role, role_value, decode_roles}
use mcvirt.Drbd.States.Decoding.{decode_roles-value}
use mcvirt.Drbd.Resource.{
  role, disallow_two_primaries, Drbdadm, Resource, DrbdMethod, sleep, drbd_set_secondary, execute,
  get_role, run_command, with_peer, on_remote_node, run_on_remotes, for_cluster_user, ask,
}
use mcvirt.Drbd.Resource.Frame.{
  ChangesKernel, then-ChangesKernel, sleep-ChangesKernel, get_role-ChangesKernel,
  drbd_set_secondary-ChangesKernel,
}
use mcvirt.Drbd.Resource.Checks.{queried, get_role-state, execute-state, execute-ran}
use mcvirt.Drbd.Roles.{
  set_two_primaries_local, set_two_primaries_config, post_online_migration, without_local,
  await_secondary,
}

-- The role of the peer that a node reports.
abbrev pub seen_role : Bool → RoleState → RoleState
seen_role true state = state
seen_role false state = unknown

-- What DRBD documents of a resource on two nodes, whose roles nobody else changes: a query prints the
-- role of the node and that of its peer, or `Unknown` for the peer while the node is not connected to
-- it, and the network option for two primaries is set by its command alone and changes no role.
pub record IsDrbd {K : Type 0} (d : Drbdadm K) (peer : String → String)
    (role_of : String → K → RoleState) (allows_two is_connected : String → K → Bool) : Type 0 where
  pub reports :
      (node out : String) (k : K)
      → (d.run node role k).0 ≡ ok out
      → out
        ≡ role_value (role_of node k)
          +++ "/"
          +++ role_value (seen_role (is_connected node k) (role_of (peer node) k))
          +++ "\n"
  pub query_roles :
      (node other : String) (k : K) → role_of other (d.run node role k).1 ≡ role_of other k
  pub query_option :
      (node other : String) (k : K) → allows_two other (d.run node role k).1 ≡ allows_two other k
  pub option_roles :
      (node other : String) (k : K)
      → role_of other (d.run node disallow_two_primaries k).1 ≡ role_of other k
  pub disallows :
      (node out : String) (k : K)
      → (d.run node disallow_two_primaries k).0 ≡ ok out
      → allows_two node (d.run node disallow_two_primaries k).1 ≡ false
  pub stays_disallowed :
      (node other : String) (k : K)
      → allows_two other k ≡ false
      → allows_two other (d.run node disallow_two_primaries k).1 ≡ false

-- One of the two nodes is primary at most.
abbrev pub OnePrimary : RoleState → RoleState → Type 0
OnePrimary a b = (is_role a primary && is_role b primary) ≡ false

OnePrimary-same : {a a' b b' : RoleState} → a' ≡ a → b' ≡ b → OnePrimary a b → OnePrimary a' b'
OnePrimary-same {a} {a'} {b} {b'} same_a same_b one =
    ap (λ x. is_role x primary && is_role b' primary) same_a
    ∙ ap (λ y. is_role a primary && is_role y primary) same_b
    ∙ one

-- The guards before the mode is disabled.
guards_pass :
    {K : Type 0} (some_unknown both_primary : Bool) (k : DrbdMethod K (Unit {0})) (s : Resource K)
    → ((guard (not some_unknown) drbd_state >> (guard (not both_primary) drbd_state >> k)) s).0
      ≡ ok tt
    → (some_unknown ≡ false)
      × (both_primary ≡ false)
      × ((guard (not some_unknown) drbd_state >> (guard (not both_primary) drbd_state >> k)) s
          ≡ k s)
guards_pass true both_primary k s passed = cc
guards_pass false true k s passed = cc
guards_pass false false k s passed = (refl, refl, refl)

-- A node that reports no unknown role is connected to its peer, so the reported roles are the roles.
reported_roles :
    (sees : Bool) (a b : RoleState)
    → (is_role a unknown || is_role (seen_role sees b) unknown) ≡ false
    → OnePrimary a (seen_role sees b)
    → OnePrimary a b
unfolding is_role role_value
reported_roles true a b known one = one
reported_roles false primary b known one = cc
reported_roles false secondary b known one = one
reported_roles false unknown b known one = one

module _ {K : Type 0} {d : Drbdadm K} {peer : String → String} {role_of : String → K → RoleState}
    {allows_two is_connected : String → K → Bool}
    (laws : IsDrbd d peer role_of allows_two is_connected) where
  abbrev seen_peer : Resource K → RoleState
  seen_peer r = seen_role (is_connected r.hostname r.kernel) (role_of (peer r.hostname) r.kernel)

  get_role-reports :
      (r : Resource K) (roles : RoleState × RoleState)
      → (get_role d r).0 ≡ ok roles
      → roles ≡ (role_of r.hostname r.kernel, seen_peer r)
  unfolding get_role run_command
  get_role-reports r roles found =
      let (out, (ran, decoded)) = and_then_returns (run_command d role r) _ roles found in
      ok_injective (
        sym decoded
        ∙ ap decode_roles (laws.reports r.hostname out r.kernel (ap (λ a. a.0) ran))
        ∙ decode_roles-value (role_of r.hostname r.kernel) (seen_peer r))

  -- The node's own part of disabling the mode, which returns only where not both are primary.
  disallowed :
      (r : Resource K)
      → (set_two_primaries_local d false r).0 ≡ ok tt
      → ((set_two_primaries_local d false r).1
          ≡ queried d (queried d r role) disallow_two_primaries)
        × (allows_two r.hostname (set_two_primaries_local d false r).1.kernel ≡ false)
        × OnePrimary (role_of r.hostname r.kernel) (role_of (peer r.hostname) r.kernel)
  unfolding set_two_primaries_local
  disallowed r done =
      let (roles, (found, p1)) = and_then_returns (get_role d r) _ tt done in
      let s1 = (get_role d r).1 in
      let (known, one, ran) =
        guards_pass (is_role roles.0 unknown || is_role roles.1 unknown)
          (is_role roles.0 primary && is_role roles.1 primary) (execute d disallow_two_primaries) s1
          p1 in
      let whole = and_then-eq_ok (get_role d r) _ roles (ap (λ a. a.0) found) ∙ ran in
      let final = ap (λ a. a.1) whole ∙ execute-state d s1 disallow_two_primaries in
      let there = final ∙ ap (λ s. queried d s disallow_two_primaries) (get_role-state d r) in
      let (out, succeeded) =
        execute-ran d s1 disallow_two_primaries (sym (ap (λ a. a.0) whole) ∙ done) in
      let host = ap (λ (s : Resource K). s.hostname) (get_role-state d r) in
      (
        there,
        ap (λ (s : Resource K). allows_two r.hostname s.kernel) final
            ∙ subst
                (λ h. allows_two h (d.run s1.hostname disallow_two_primaries s1.kernel).1 ≡ false)
                host (laws.disallows s1.hostname out s1.kernel succeeded),
        subst
            (λ (p : RoleState × RoleState).
              (is_role p.0 unknown || is_role p.1 unknown) ≡ false
              → OnePrimary p.0 p.1
              → OnePrimary (role_of r.hostname r.kernel) (role_of (peer r.hostname) r.kernel))
            (sym (get_role-reports r roles (ap (λ a. a.0) found)))
            (reported_roles (is_connected r.hostname r.kernel) (role_of r.hostname r.kernel)
              (role_of (peer r.hostname) r.kernel))
            known one,
      )

  -- What disabling the mode on one node does to the two of them.
  abbrev Disallows : String → K → K → Type 0
  Disallows node before after =
      (allows_two node after ≡ false)
      × ((other : String) → allows_two other before ≡ false → allows_two other after ≡ false)
      × ((other : String) → role_of other after ≡ role_of other before)

  local-Disallows :
      (r : Resource K)
      → (set_two_primaries_local d false r).0 ≡ ok tt
      → Disallows r.hostname r.kernel (set_two_primaries_local d false r).1.kernel
  local-Disallows r done =
      let (final, off, one) = disallowed r done in
      let k = ap (λ (s : Resource K). s.kernel) final in
      let asked = (d.run r.hostname role r.kernel).1 in
      (
        off,
        (λ other before.
            ap (allows_two other) k
            ∙ laws.stays_disallowed r.hostname other asked
                (laws.query_option r.hostname other r.kernel ∙ before)),
        (λ other.
            ap (role_of other) k
            ∙ laws.option_roles r.hostname other asked
            ∙ laws.query_roles r.hostname other r.kernel),
      )

  peer-Disallows :
      (node : String) (r : Resource K)
      → (with_peer node (for_cluster_user (set_two_primaries_local d false)) r).0 ≡ ok tt
      → Disallows node r.kernel
          (with_peer node (for_cluster_user (set_two_primaries_local d false)) r).1.kernel
  unfolding with_peer for_cluster_user ask
  peer-Disallows node r =
      let there = record r {
        hostname = node;
        request = r.peer_request;
        is_cluster_master = false;
      } in
      and_then_follow (λ (s : Resource K). Disallows node r.kernel s.kernel)
        (ask (assert_user_type (cluster_user ∷ []) false) there) _ tt
        (λ _ _. local-Disallows (ask (assert_user_type (cluster_user ∷ []) false) there).1)

  on_remote_node-reached :
      (method : DrbdMethod K (Unit {0})) (node : String) (r : Resource K)
      → r.is_cluster_master ≡ true
      → contains r.inaccessible node ≡ false
      → on_remote_node method node r ≡ with_peer node method r
  unfolding on_remote_node
  on_remote_node-reached method node r master reached = simp (master, reached)

  remote-Disallows :
      (node : String) (r : Resource K)
      → r.is_cluster_master ≡ true
      → contains r.inaccessible node ≡ false
      → (run_on_remotes (for_cluster_user (set_two_primaries_local d false)) (node ∷ []) r).0
        ≡ ok tt
      → Disallows node r.kernel
          (run_on_remotes
            (for_cluster_user (set_two_primaries_local d false))
            (node ∷ [])
            r).1.kernel
  unfolding run_on_remotes
  remote-Disallows node r master reached =
      let method = for_cluster_user (set_two_primaries_local d false) in
      and_then_follow (λ (s : Resource K). Disallows node r.kernel s.kernel)
        (on_remote_node method node r) _ tt
        (λ _ ran _.
          subst
            (λ (x : Result Exception (Unit {0}) × Resource K).
              x.0 ≡ ok tt → Disallows node r.kernel x.1.kernel)
            (sym (on_remote_node-reached method node r master reached)) (peer-Disallows node r) ran)

  -- The other one of the two nodes is reachable from the cluster master.
  abbrev pub IsPair : Resource K → String → Type 0
  IsPair r other =
      (r.nodes ≡ r.hostname ∷ other ∷ [])
      × (r.is_cluster_master ≡ true)
      × (contains r.inaccessible other ≡ false)
      × (peer r.hostname ≡ other)

  -- No node may be primary beside the other one, and they are not both primary.
  abbrev pub IsSingle : String → String → K → Type 0
  IsSingle host other k =
      (allows_two host k ≡ false)
      × (allows_two other k ≡ false)
      × OnePrimary (role_of host k) (role_of other k)

  without_local-pair :
      (r : Resource K) (other : String) → IsPair r other → without_local r ≡ (ok (other ∷ []), r)
  unfolding without_local contains remove
  without_local-pair r other pair = simp (pair.0, eq_refl r.hostname)

  abbrev on_others : DrbdMethod K (Unit {0})
  on_others = without_local >>= run_on_remotes (for_cluster_user (set_two_primaries_local d false))

  remote_part :
      (r : Resource K) (other : String)
      → IsPair r other
      → allows_two r.hostname r.kernel ≡ false
      → OnePrimary (role_of r.hostname r.kernel) (role_of other r.kernel)
      → (on_others r).0 ≡ ok tt
      → IsSingle r.hostname other (on_others r).1.kernel
  remote_part r other pair off one = rw (without_local-pair r other pair) (λ done.
      let (off_other, keeps, roles) = remote-Disallows other r pair.1 pair.2 done in
      (keeps r.hostname off, off_other, OnePrimary-same (roles r.hostname) (roles other) one))

  master_part :
      (r : Resource K) (other : String)
      → IsPair r other
      → allows_two r.hostname r.kernel ≡ false
      → OnePrimary (role_of r.hostname r.kernel) (role_of other r.kernel)
      → ((if r.is_cluster_master then on_others else pure tt) r).0 ≡ ok tt
      → IsSingle r.hostname other ((if r.is_cluster_master then on_others else pure tt) r).1.kernel
  master_part r other pair off one =
      subst
        (λ b.
          ((if b then on_others else pure tt) r).0 ≡ ok tt
          → IsSingle r.hostname other ((if b then on_others else pure tt) r).1.kernel)
        (sym pair.1) (remote_part r other pair off one)

  set_two_primaries_config_lem :
      (r : Resource K) (other : String)
      → IsPair r other
      → (set_two_primaries_config d false r).0 ≡ ok tt
      → IsSingle r.hostname other (set_two_primaries_config d false r).1.kernel
  unfolding set_two_primaries_config
  set_two_primaries_config_lem r other pair =
      and_then_follow (λ (s : Resource K). IsSingle r.hostname other s.kernel)
        (set_two_primaries_local d false r) _ tt
        (λ _ done1.
          let (final, off, one) = disallowed r done1 in
          let (_, _, roles) = local-Disallows r done1 in
          subst
            (λ (s : Resource K).
              allows_two r.hostname s.kernel ≡ false
              → OnePrimary (role_of r.hostname s.kernel) (role_of other s.kernel)
              → ((if s.is_cluster_master then on_others else pure tt) s).0 ≡ ok tt
              → IsSingle r.hostname other
                  ((if s.is_cluster_master then on_others else pure tt) s).1.kernel)
            (sym final)
            (master_part (queried d (queried d r role) disallow_two_primaries) other pair) off
            (OnePrimary-same (roles r.hostname)
              (roles other ∙ ap (λ n. role_of n r.kernel) (sym pair.3)) one))

  await_round :
      (is_there : Bool) (rest : DrbdMethod K (Unit {0}))
      → ChangesKernel rest
      → ChangesKernel (if is_there then pure tt else (sleep d >> rest))
  await_round true rest keeps s = (s.kernel, s.sync_state, refl)
  await_round false rest keeps s =
      then-ChangesKernel (sleep d s) s (λ _. rest) (sleep-ChangesKernel d s) (λ _. keeps)

  await_secondary-ChangesKernel : (rounds : ℕ) → ChangesKernel (await_secondary d rounds)
  unfolding await_secondary
  await_secondary-ChangesKernel zero r = (r.kernel, r.sync_state, refl)
  await_secondary-ChangesKernel (suc rounds) r =
      then-ChangesKernel (get_role d r) r _ (get_role-ChangesKernel d r) (λ roles.
        await_round (is_role roles.0 secondary) (await_secondary d rounds)
          (await_secondary-ChangesKernel rounds))

  then_state :
      (s r : Resource K)
      → (k : K) × (b : Bool) × (s ≡ record r { kernel = k; sync_state = b })
      → (method : DrbdMethod K (Unit {0})) → ChangesKernel method
      → (k : K) × (b : Bool) × ((method s).1 ≡ record r { kernel = k; sync_state = b })
  then_state s r (k, b, same) method keeps =
      let (k', b', after) = keeps s in
      (k', b', after ∙ ap (λ (t : Resource K). record t { kernel = k'; sync_state = b' }) same)

  await_and_disable :
      (r s : Resource K) (other : String)
      → IsPair r other
      → (k : K) × (b : Bool) × (s ≡ record r { kernel = k; sync_state = b })
      → (set_two_primaries_config d false s).0 ≡ ok tt
      → IsSingle r.hostname other (set_two_primaries_config d false s).1.kernel
  await_and_disable r s other pair (k, b, same) =
      subst
        (λ (t : Resource K).
          (set_two_primaries_config d false t).0 ≡ ok tt
          → IsSingle r.hostname other (set_two_primaries_config d false t).1.kernel)
        (sym same)
        (set_two_primaries_config_lem (record r { kernel = k; sync_state = b }) other pair)

  -- On the cluster master, with a resource on this node and one other that can be reached, and DRBD
  -- as it is documented: when the step after an online migration returns, neither node allows two
  -- primaries any more, and at most one of the two is primary.
  pub post_online_migration-IsSingle :
      (r : Resource K) (other : String)
      → IsPair r other
      → (post_online_migration d r).0 ≡ ok tt
      → IsSingle r.hostname other (post_online_migration d r).1.kernel
  unfolding post_online_migration
  post_online_migration-IsSingle r other pair =
      let Q = (λ (s : Resource K). IsSingle r.hostname other s.kernel) in
      and_then_follow Q (drbd_set_secondary d r) _ tt (λ _ _.
        and_then_follow Q (await_secondary d 2 (drbd_set_secondary d r).1) _ tt (λ _ _.
          await_and_disable r (await_secondary d 2 (drbd_set_secondary d r).1).1 other pair (
            then_state (drbd_set_secondary d r).1 r (drbd_set_secondary-ChangesKernel d r)
              (await_secondary d 2) (await_secondary-ChangesKernel 2))))
