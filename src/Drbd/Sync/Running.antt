-- ===== src/Drbd/Sync/Running.antt =====
-- What it takes that a command of DRBD is run and waited for: the common part of `verify` and `resync`
-- of mcvirt/virtual_machine/hard_drive/drbd.py.
use mcvirt.Base.{ℕ, ◌<◌, true, ◌≡◌, ap, ◌∙◌}
use mcvirt.Base.Exec.{ok, ◌>>◌, ◌>>=◌, guard, and_then-eq_ok, and_then_returns}
use mcvirt.Exceptions.{drbd_state}
use mcvirt.Drbd.States.{ConnectionState, connected, is_connection}
use mcvirt.Drbd.Resource.{Command, Drbdadm, DrbdMethod, Resource, execute, get_connection_state}
use mcvirt.Drbd.Sync.{poll_through}
use mcvirt.Drbd.Sync.Polling.{PassesThrough, last_poll, poll_through_passed, poll_through_finishes}

module _ {K : Type 0} (d : Drbdadm K) where
  -- The command runs on a connected resource, and within the fuel the polls that follow see the
  -- connection go into a state and leave it; `s` is the resource before the connection is looked at,
  -- and `t` the one before the command.
  pub record Runs (command : Command) (state : ConnectionState) (fuel : ℕ) (s t : Resource K)
      : Type 0 where
    pub connection : ConnectionState
    pub reported : (get_connection_state d s).0 ≡ ok connection
    pub is_connected : is_connection connection connected ≡ true
    pub ran : (execute d command t).0 ≡ ok tt
    -- the numbers of polls, but for the last ones, that see another state, and this state
    pub before : ℕ
    pub during : ℕ
    pub enough_before : before < fuel
    pub enough_during : during < fuel
    pub passes : PassesThrough d state before during (execute d command t).1

  -- The resource that the last poll leaves.
  abbrev pub final :
      {command : Command} {state : ConnectionState} {fuel : ℕ} {s t : Resource K}
      → Runs command state fuel s t
      → Resource K
  final {command} {t} run = last_poll d run.before run.during (execute d command t).1

  pub commanded :
      (command : Command) (state : ConnectionState) (fuel : ℕ) (connection : ConnectionState)
      (s t : Resource K)
      → (get_connection_state d s).0 ≡ ok connection
      → is_connection connection connected ≡ true
      → ((execute d command >> poll_through d fuel state) t).0 ≡ ok true
      → Runs command state fuel s t
  commanded command state fuel connection s t reported is_connected done =
      let (u, (ran, polled)) =
        and_then_returns (execute d command t) (λ _. poll_through d fuel state) true done in
      let (before, during, enough_before, enough_during, passes) =
        poll_through_passed d state fuel (execute d command t).1 polled in
      record {
        connection = connection;
        reported = reported;
        is_connected = is_connected;
        ran = ap (λ a. a.0) ran;
        before = before;
        during = during;
        enough_before = enough_before;
        enough_during = enough_during;
        passes = passes;
      }

  pub Runs-ends :
      (command : Command) (state : ConnectionState) (fuel : ℕ) (s t : Resource K)
      (run : Runs command state fuel s t)
      → (execute d command >> poll_through d fuel state) t ≡ (ok true, final run)
  Runs-ends command state fuel s t run =
      and_then-eq_ok (execute d command t) (λ _. poll_through d fuel state) tt run.ran
      ∙ poll_through_finishes d state run.before run.during fuel (execute d command t).1
          run.enough_before run.enough_during run.passes

  pub Runs-starts :
      {A : Type 0} (command : Command) (state : ConnectionState) (fuel : ℕ) (s t : Resource K)
      (rest : DrbdMethod K A)
      → Runs command state fuel s t
      → (get_connection_state d >>= λ c. guard (is_connection c connected) drbd_state >> rest) s
        ≡ rest (get_connection_state d s).1
  Runs-starts command state fuel s t rest run =
      and_then-eq_ok (get_connection_state d s) _ run.connection run.reported
      ∙ ap (λ b. (guard b drbd_state >> rest) (get_connection_state d s).1) run.is_connected
