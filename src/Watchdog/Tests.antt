-- ===== src/Watchdog/Tests.antt =====
-- Concrete runs of a watchdog whose limit is two failures.
use mcvirt.Base.{true, false, none, some, [], ◌∷◌, ◌≡◌, refl, arith}
use mcvirt.Base.Exec.{ok}
use mcvirt.Watchdog.{Watchdog, Observation, active, is_suitable, is_pong, run_all}
use mcvirt.Watchdog.Resets.{IsFailing, restarted, failures_reach_limit}

abbrev silent : Observation
silent = record {
  is_watchdog_enabled = true;
  is_registered_locally = true;
  is_running = true;
  agent = ok none;
  reset_fail_count = 2;
  reset = ok tt;
}

abbrev answering : Observation
answering = record silent { agent = ok (some "pong") }

abbrev watching : Watchdog
watching = record { state = active; fail_count = 0; internal_request = false; resets = 0 }

silent-IsFailing : IsFailing 2 silent
unfolding is_suitable is_pong
silent-IsFailing = record {
  suitable = refl;
  response = none;
  reached = refl;
  missing = refl;
  limit = refl;
  reset_returns = refl;
}

reach_limit_example : run_all (silent ∷ silent ∷ []) watching ≡ restarted watching
reach_limit_example =
    failures_reach_limit 2 (silent ∷ silent ∷ []) watching
      (silent-IsFailing, (silent-IsFailing, tt)) (omega arith) refl
