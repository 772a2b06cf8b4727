-- ===== src/Drbd/Sync/Verification.antt =====
-- What `verify` of mcvirt/virtual_machine/hard_drive/drbd.py takes to succeed.
use mcvirt.Base.{
  ℕ, ◌↔◌, Bool, true, false, ◌≡◌, refl, Option, some, [], ◌∷◌, sym, ap, ◌∙◌, inl, inr, Bool-cases,
}
use mcvirt.Base.Lists.{contains}
use mcvirt.Base.Exec.{
  Result, ok, err, ◌>>◌, and_then-eq_ok, and_then_returns, and_then_after, guard_follow,
  and_then_follow,
}
use mcvirt.Exceptions.{Exception, drbd_volume_not_in_sync, drbd_state}
use mcvirt.Auth.Users.{cluster_user}
use mcvirt.Auth.Permission.{assert_user_type}
use mcvirt.Drbd.States.{connected, verify_s, is_connection}
use mcvirt.Drbd.Resource.{
  Drbdadm, Resource, execute, verify, assert_drive_permission, ask, set_sync_state,
  get_connection_state,
}
use mcvirt.Drbd.Sync.{in_sync_result, after_verification, poll_through, verify_here, verify_drive}
use mcvirt.Drbd.Sync.Running.{Runs, final, commanded, Runs-ends, Runs-starts}

module _ {K : Type 0} where
  in_sync : (s : Resource K) → s.sync_state ≡ true → in_sync_result s ≡ (ok (some true), s)
  unfolding in_sync_result
  in_sync s good = simp good

  not_in_sync :
      (s : Resource K) → s.sync_state ≡ false → in_sync_result s ≡ (err drbd_volume_not_in_sync, s)
  unfolding in_sync_result
  not_in_sync s bad = simp bad

  in_sync_returned :
      (s : Resource K) (b : Bool)
      → (in_sync_result s).0 ≡ ok (some b)
      → (s.sync_state ≡ true) × ((in_sync_result s).1 ≡ s)
  in_sync_returned s b returned = elim (Bool-cases s.sync_state) [
    | inl good ↦ (good, ap (λ a. a.1) (in_sync s good))
    | inr bad ↦
        let e : err drbd_volume_not_in_sync ≡ ok (some b) =
          sym (ap (λ (a : Result Exception (Option Bool) × Resource K). a.0) (not_in_sync s bad))
          ∙ returned in
        cc
  ]

  set_sync_state_lem :
      (b : Bool) (s : Resource K)
      → (set_sync_state b s).0 ≡ ok tt
      → (set_sync_state b s).1.sync_state ≡ b
  unfolding set_sync_state
  set_sync_state_lem b s =
      let Q = (λ (t : Resource K). t.sync_state ≡ b) in
      and_then_after Q (assert_drive_permission "SET_SYNC_STATE" s) _ tt (λ _ s1.
        and_then_after Q (ask (assert_user_type (cluster_user ∷ []) true) s1) _ tt
          (λ _ s2 done. refl))

  -- The end of a verification returns a value only where the polls ended without an exception, and
  -- nothing has marked the resource as out of sync.
  after_verification_returned :
      (result : Result Exception Bool) (s : Resource K) (b : Bool)
      → (after_verification result s).0 ≡ ok (some b)
      → (result ≡ ok true) × (s.sync_state ≡ true) × ((after_verification result s).1 ≡ s)
  unfolding after_verification
  after_verification_returned (ok true) s b returned =
      let (good, same) = in_sync_returned s b returned in (refl, good, same)
  after_verification_returned (ok false) s b returned = cc
  after_verification_returned (err e) s b returned =
      let (u, (marked, rest)) =
        and_then_returns (set_sync_state false s) (λ _. in_sync_result) (some b) returned in
      let out_of_sync = set_sync_state_lem false s (ap (λ a. a.0) marked) in
      let in_sync_still = (in_sync_returned (set_sync_state false s).1 b rest).0 in
      let e : true ≡ false = sym in_sync_still ∙ out_of_sync in cc

module _ {K : Type 0} (d : Drbdadm K) where
  -- The resource before `drbdadm verify` runs.
  abbrev pub marked_in_sync : Resource K → Resource K
  marked_in_sync s = (set_sync_state true (get_connection_state d s).1).1

  -- What a verification on a node with the drive takes to succeed.
  abbrev pub Verifies : ℕ → Resource K → Type 0
  Verifies fuel s =
      ((set_sync_state true (get_connection_state d s).1).0 ≡ ok tt)
      × (run : Runs d verify verify_s fuel s (marked_in_sync s)) × ((final d run).sync_state ≡ true)

  verify_here-Verifies :
      (fuel : ℕ) (s : Resource K) → (verify_here d fuel s).0 ≡ ok (some true) → Verifies fuel s
  unfolding verify_here
  verify_here-Verifies fuel s =
      let Q = (λ (_ : Resource K). Verifies fuel s) in
      let s1 = (get_connection_state d s).1 in
      and_then_follow Q (get_connection_state d s) _ (some true) (λ answer reported.
        guard_follow Q (is_connection answer connected) drbd_state s1 _ (some true) (λ is_connected.
          and_then_follow Q (set_sync_state true s1) _ (some true) (λ _ marked done.
            let t = marked_in_sync s in
            let polls = (execute d verify >> poll_through d fuel verify_s) t in
            let (ended, in_sync_still, same) =
              after_verification_returned polls.0 polls.1 true done in
            let run = commanded d verify verify_s fuel answer s t reported is_connected ended in
            (
              marked,
              run,
              ap (λ a. a.1.sync_state) (sym (Runs-ends d verify verify_s fuel s t run))
                  ∙ in_sync_still,
            ))))

  Verifies-verify_here :
      (fuel : ℕ) (s : Resource K) → Verifies fuel s → (verify_here d fuel s).0 ≡ ok (some true)
  unfolding verify_here after_verification
  Verifies-verify_here fuel s (marked, run, good) =
      ap (λ a. a.0)
        (Runs-starts d verify verify_s fuel s (marked_in_sync s) _ run
          ∙ and_then-eq_ok (set_sync_state true (get_connection_state d s).1) _ tt marked
          ∙ ap (λ (p : Result Exception Bool × Resource K). after_verification p.0 p.1)
              (Runs-ends d verify verify_s fuel s (marked_in_sync s) run)
          ∙ in_sync (final d run) good)

  -- On a node that has the drive, with the permission to manage DRBD, a verification returns True
  -- within its fuel exactly if the connection is reported as Connected, the resource can be marked
  -- as in sync, `drbdadm verify` then runs without an error, the polls see the state VerifyS come
  -- and go within the fuel, and the resource that the last of these polls leaves is still recorded
  -- as in sync.
  pub verify_drive_decides :
      (fuel : ℕ) (r : Resource K)
      → contains r.nodes r.hostname ≡ true
      → (assert_drive_permission "MANAGE_DRBD" r).0 ≡ ok tt
      → ((verify_drive d fuel r).0 ≡ ok (some true))
        ↔ Verifies fuel (assert_drive_permission "MANAGE_DRBD" r).1
  unfolding verify_drive assert_drive_permission ask
  verify_drive_decides fuel r local granted =
      let s = (assert_drive_permission "MANAGE_DRBD" r).1 in
      let here : verify_drive d fuel r ≡ verify_here d fuel s =
        and_then-eq_ok (assert_drive_permission "MANAGE_DRBD" r) _ tt granted ∙ rw local refl in
      (
        (λ done. verify_here-Verifies fuel s (ap (λ a. a.0) (sym here) ∙ done)),
        (λ verifies. ap (λ a. a.0) here ∙ Verifies-verify_here fuel s verifies),
      )
