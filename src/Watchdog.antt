-- ===== src/Watchdog.antt =====
-- The class Watchdog of mcvirt/thread/watchdog.py, the timer that resets a virtual machine whose agent stops
-- answering. What a run sees of the machine is an argument of the run; its log messages are left out.
pub mod Resets
mod Tests
use mcvirt.Base.{
  ℕ, ◌+◌, String, Bool, true, false, not, ◌&&◌, ◌||◌, Option, none, some, List, [], ◌∷◌, ◌==◌, leb,
  if◌then◌else◌,
}
use mcvirt.Base.Exec.{Result, ok, err, Exec, pure, modify, ◌>>=◌, ◌>>◌}
use mcvirt.Exceptions.{Exception}

-- WATCHDOG_STATES
pub data WatchdogState : Type 0 where
  initialising startup active waiting_resp failing failed not_suitable : WatchdogState

-- The watchdog, the flag INTERNAL_REQUEST of its thread's context, and how often it has called
-- `virtual_machine.reset`.
pub record Watchdog : Type 0 where
  pub state : WatchdogState
  pub fail_count : ℕ
  pub internal_request : Bool
  pub resets : ℕ

-- What the virtual machine answers in one run. `agent` is an exception where there is no connection
-- to the agent; the answer to the ping is `none` where `wait_lock` raises. `reset` is what
-- `virtual_machine.reset` comes back with.
pub record Observation : Type 0 where
  pub is_watchdog_enabled : Bool
  pub is_registered_locally : Bool
  pub is_running : Bool
  pub agent : Result Exception (Option String)
  pub reset_fail_count : ℕ
  pub reset : Result Exception (Unit {0})

-- Watchdog.__init__
unfoldable pub new_watchdog : Watchdog
new_watchdog = record { state = initialising; fail_count = 0; internal_request = false; resets = 0 }

unfoldable pub set_state : WatchdogState → Watchdog → Watchdog
set_state new_state w = record w { state = new_state }

-- The property `interval`, of the two that the virtual machine has.
unfoldable pub interval : ℕ → ℕ → Watchdog → ℕ
interval boot_wait watchdog_interval w = elim w.state [
  | startup ↦ boot_wait
  | _ ↦ watchdog_interval
]

unfoldable pub is_suitable : Observation → Bool
is_suitable o = o.is_watchdog_enabled && o.is_registered_locally && o.is_running

awaiting : WatchdogState → WatchdogState
awaiting active = waiting_resp
awaiting failing = waiting_resp
awaiting state = state

-- if self.state in [ACTIVE, FAILING]: set_state(WAITING_RESP)
unfoldable pub await_response : Watchdog → Watchdog
unfolding set_state awaiting
await_response w = set_state (awaiting w.state) w

unfoldable pub is_pong : Option String → Bool
is_pong none = false
is_pong (some resp) = resp == "pong"

-- virtual_machine.reset()
unfoldable pub call_reset : Observation → Exec Exception Watchdog (Unit {0})
call_reset o w = (o.reset, record w { resets = w.resets + 1 })

-- The branch of a missing response.
unfoldable pub fail : Observation → Exec Exception Watchdog (Unit {0})
unfolding set_state call_reset
fail o w =
    let failed_once = set_state failing (record w { fail_count = w.fail_count + 1 }) in
    if leb o.reset_fail_count (w.fail_count + 1)
    then (call_reset o >> modify (set_state startup))
        (set_state failed (record failed_once { fail_count = 0 }))
    else (ok tt, failed_once)

-- The branches on the agent's connection and on its response.
unfoldable pub check_response :
    Observation → Result Exception (Option String) → Exec Exception Watchdog (Unit {0})
unfolding is_pong fail set_state
check_response o (err e) w = (err e, w)
check_response o (ok resp) w =
    if is_pong resp then (ok tt, set_state active (record w { fail_count = 0 })) else fail o w

-- `run` once the flag is set, for a machine that is suitable or not.
unfoldable pub checked_run : Bool → Observation → Exec Exception Watchdog (Unit {0})
unfolding await_response check_response set_state
checked_run false o w = (ok tt, set_state not_suitable w)
checked_run true o w =
    (check_response o o.agent >> modify (λ v. record v { internal_request = false }))
      (await_response w)

unfoldable pub run : Observation → Exec Exception Watchdog (Unit {0})
unfolding checked_run is_suitable
run o w = checked_run (is_suitable o) o (record w { internal_request = true })

-- RepeatTimer.repeat_run, of mcvirt/thread/repeat_timer.py, of a timer that is not cancelled: an
-- exception of the run is logged.
unfoldable pub repeat_run : Observation → Watchdog → Watchdog
unfolding run
repeat_run o w = (run o w).1

-- The runs of the timer thread, in order.
unfoldable pub run_all : List Observation → Watchdog → Watchdog
run_all [] w = w
run_all (o ∷ os) w = run_all os (repeat_run o w)
