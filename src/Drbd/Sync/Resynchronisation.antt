-- ===== src/Drbd/Sync/Resynchronisation.antt =====
-- What `resync` of mcvirt/virtual_machine/hard_drive/drbd.py takes to succeed.
use mcvirt.Base.{
  ℕ, ◌↔◌, eq_refl, String, Bool, true, false, ◌==◌, ◌≡◌, refl, eq_iff, Option, sym, ap, ◌∙◌,
}
use mcvirt.Base.Lists.{contains}
use mcvirt.Base.Exec.{ok, and_then-eq_ok, guard_follow, and_then_follow}
use mcvirt.Exceptions.{drbd_state}
use mcvirt.Drbd.States.{ConnectionState, connected, sync_source, is_connection}
use mcvirt.Drbd.Resource.{
  invalidate_remote, Drbdadm, Resource, assert_drive_permission, ask, get_connection_state,
}
use mcvirt.Drbd.Resource.Checks.{get_connection_state-state}
use mcvirt.Drbd.Sync.{resync, resync_here, resync_from, determine_source}
use mcvirt.Drbd.Sync.Running.{Runs, commanded, Runs-ends, Runs-starts}

module _ {K : Type 0} (d : Drbdadm K) where
  -- What a resynchronisation on a node with the drive takes to succeed.
  abbrev pub Resyncs : ℕ → Option String → Bool → Resource K → Type 0
  Resyncs fuel source_node auto_determine s =
      (determine_source source_node auto_determine s ≡ ok s.hostname)
      × Runs d invalidate_remote sync_source fuel s (get_connection_state d s).1

  resync_from-Runs :
      (fuel : ℕ) (is_source : Bool) (answer : ConnectionState) (s t : Resource K)
      → (get_connection_state d s).0 ≡ ok answer
      → is_connection answer connected ≡ true
      → (resync_from d fuel is_source t).0 ≡ ok true
      → (is_source ≡ true) × Runs d invalidate_remote sync_source fuel s t
  unfolding resync_from
  resync_from-Runs fuel true answer s t reported is_connected done =
      (refl, commanded d invalidate_remote sync_source fuel answer s t reported is_connected done)
  resync_from-Runs fuel false answer s t reported is_connected done = cc

  resync_here-Resyncs :
      (fuel : ℕ) (source_node : Option String) (auto_determine : Bool) (s : Resource K)
      → (resync_here d fuel source_node auto_determine s).0 ≡ ok true
      → Resyncs fuel source_node auto_determine s
  unfolding resync_here
  resync_here-Resyncs fuel source_node auto_determine s =
      let Q = (λ (_ : Resource K). Resyncs fuel source_node auto_determine s) in
      let s1 = (get_connection_state d s).1 in
      and_then_follow Q (determine_source source_node auto_determine s, s) _ true
        (λ source chosen. and_then_follow Q (get_connection_state d s) _ true (λ answer reported.
          guard_follow Q (is_connection answer connected) drbd_state s1 _ true (λ is_connected done.
            let (here, run) =
              resync_from-Runs fuel (source == s1.hostname) answer s s1 reported is_connected
                done in
            (
              chosen
                  ∙ ap ok (
                      (eq_iff source s1.hostname).0 here
                      ∙ ap (λ (t : Resource K). t.hostname) (get_connection_state-state d s)),
              run,
            ))))

  Resyncs-resync_here :
      (fuel : ℕ) (source_node : Option String) (auto_determine : Bool) (s : Resource K)
      → Resyncs fuel source_node auto_determine s
      → (resync_here d fuel source_node auto_determine s).0 ≡ ok true
  unfolding resync_here resync_from
  Resyncs-resync_here fuel source_node auto_determine s (chosen, run) =
      let s1 = (get_connection_state d s).1 in
      let here : s.hostname == s1.hostname ≡ true =
        ap (λ (t : Resource K). s.hostname == t.hostname) (get_connection_state-state d s)
        ∙ eq_refl s.hostname in
      ap (λ a. a.0)
        (and_then-eq_ok (determine_source source_node auto_determine s, s) _ s.hostname chosen
          ∙ Runs-starts d invalidate_remote sync_source fuel s s1 _ run
          ∙ ap (λ b. resync_from d fuel b s1) here
          ∙ Runs-ends d invalidate_remote sync_source fuel s s1 run)

  -- On a node that has the drive, with the permission to manage DRBD, a resynchronisation returns
  -- within its fuel exactly if the source that is determined is this very node, the connection is
  -- reported as Connected, `drbdadm invalidate-remote` then runs without an error, and the polls
  -- see the state SyncSource come and go within the fuel.
  pub resync_decides :
      (fuel : ℕ) (source_node : Option String) (auto_determine : Bool) (r : Resource K)
      → contains r.nodes r.hostname ≡ true
      → (assert_drive_permission "MANAGE_DRBD" r).0 ≡ ok tt
      → ((resync d fuel source_node auto_determine r).0 ≡ ok true)
        ↔ Resyncs fuel source_node auto_determine (assert_drive_permission "MANAGE_DRBD" r).1
  unfolding resync assert_drive_permission ask
  resync_decides fuel source_node auto_determine r local granted =
      let s = (assert_drive_permission "MANAGE_DRBD" r).1 in
      let here : resync d fuel source_node auto_determine r
          ≡ resync_here d fuel source_node auto_determine s =
        and_then-eq_ok (assert_drive_permission "MANAGE_DRBD" r) _ tt granted ∙ rw local refl in
      (
        (λ done.
            resync_here-Resyncs fuel source_node auto_determine s
              (ap (λ a. a.0) (sym here) ∙ done)),
        (λ resyncs.
            ap (λ a. a.0) here ∙ Resyncs-resync_here fuel source_node auto_determine s resyncs),
      )
