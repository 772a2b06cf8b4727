-- ===== src/Watchdog/Resets.antt =====
-- When the watchdog resets a virtual machine.
use mcvirt.Base.{
  ℕ, ◌+◌, ◌<◌, String, Bool, true, false, Option, List, [], ◌∷◌, ◌≡◌, refl, ap, arith, leb,
  if◌then◌else◌, inl, inr, Bool-cases,
}
use mcvirt.Base.Lists.{All, length}
use mcvirt.Base.Exec.{Result, ok, err, and_then, modify, Result-cases}
use mcvirt.Exceptions.{Exception}
use mcvirt.Watchdog.{
  Watchdog, Observation, startup, failing, set_state, checked_run, is_suitable, await_response,
  is_pong, call_reset, fail, check_response, repeat_run, run, run_all,
}

-- A run in which the machine is suitable, its agent can be reached and does not answer `pong`.
pub record IsFailing (n : ℕ) (o : Observation) : Type 0 where
  pub suitable : is_suitable o ≡ true
  pub response : Option String
  pub reached : o.agent ≡ ok response
  pub missing : is_pong response ≡ false
  pub limit : o.reset_fail_count ≡ n
  pub reset_returns : o.reset ≡ ok tt

-- The watchdog after a failing run, below the limit and at it.
abbrev pub counted : Watchdog → Watchdog
counted w = record {
  state = failing;
  fail_count = w.fail_count + 1;
  internal_request = false;
  resets = w.resets;
}

abbrev pub restarted : Watchdog → Watchdog
restarted w = record {
  state = startup;
  fail_count = 0;
  internal_request = false;
  resets = w.resets + 1;
}

repeat_run_if :
    (suitable : Bool) (o : Observation) (w : Watchdog)
    → is_suitable o ≡ suitable
    → repeat_run o w ≡ (checked_run suitable o (record w { internal_request = true })).1
unfolding repeat_run run
repeat_run_if suitable o w e =
    ap (λ b. (checked_run b o (record w { internal_request = true })).1) e

repeat_run_failing :
    (n : ℕ) (o : Observation) (w : Watchdog)
    → IsFailing n o
    → repeat_run o w ≡ (if leb n (w.fail_count + 1) then restarted w else counted w)
unfolding checked_run check_response fail call_reset set_state await_response
repeat_run_failing n o w f =
    simp (repeat_run_if true o w f.suitable, f.reached, f.missing, f.limit)
      (elim (Bool-cases (leb n (w.fail_count + 1))) [
        | inl reached ↦ simp (reached, f.reset_returns)
        | inr below ↦ simp below
      ])

-- If in each run the machine is suitable, its agent is reached but does not answer the ping, and a
-- reset would return, and the failures in a row, those before included, are fewer than the limit,
-- the machine is not reset, and each failure is counted.
pub failures_below_limit :
    (n : ℕ) (os : List Observation) (w : Watchdog)
    → All (IsFailing n) os
    → w.fail_count + length os < n
    → ((run_all os w).resets ≡ w.resets) × ((run_all os w).fail_count ≡ w.fail_count + length os)
unfolding run_all
failures_below_limit n [] w fails below = (refl, omega arith)
failures_below_limit n (o ∷ os) w (first, fails) below =
    let step = repeat_run_failing n o w first in
    let still : leb n (w.fail_count + 1) ≡ false = ground (arith, below) in
    simp (step, still)
      (let rest = failures_below_limit n os (counted w) fails (omega (arith, below)) in
        (rest.0, omega (arith, rest.1)))

-- If in each run the machine is suitable, its agent is reached but does not answer the ping, and a
-- reset returns, then the run that reaches the limit resets the machine, once, and the count starts
-- again: from a watchdog with fewer failures than the limit, after exactly as many runs as are
-- missing.
pub failures_reach_limit :
    (n : ℕ) (os : List Observation) (w : Watchdog)
    → All (IsFailing n) os
    → w.fail_count < n
    → w.fail_count + length os ≡ n
    → run_all os w ≡ restarted w
unfolding run_all
failures_reach_limit n [] w fails before reach = ground (arith, before, reach)
failures_reach_limit n (o ∷ []) w (first, fails) before reach =
    let limit : leb n (w.fail_count + 1) ≡ true = ground (arith, reach) in
    simp (repeat_run_failing n o w first, limit)
failures_reach_limit n (o ∷ p ∷ os) w (first, fails) before reach =
    let still : leb n (w.fail_count + 1) ≡ false = ground (arith, reach) in
    simp (repeat_run_failing n o w first, still)
      (failures_reach_limit n (p ∷ os) (counted w) fails (omega (arith, reach))
        (omega (arith, reach)))

fail-fail_count :
    (n : ℕ) (o : Observation) (w : Watchdog)
    → o.reset_fail_count ≡ n
    → w.fail_count < n
    → (fail o w).1.fail_count < n
unfolding fail call_reset set_state
fail-fail_count n o w limit below = elim (Bool-cases (leb o.reset_fail_count (w.fail_count + 1))) [
  | inl reached ↦
      rw (reached, fail)
        (elim (Result-cases o.reset) [
          | inl (_, returns) ↦ rw returns (omega (arith, below))
          | inr (_, raises) ↦ rw raises (omega (arith, below))
        ])
  | inr still ↦ rw (still, fail) (ground (arith, limit, still))
]

response-fail_count :
    (n : ℕ) (o : Observation) (agent : Result Exception (Option String)) (w : Watchdog)
    → o.reset_fail_count ≡ n
    → w.fail_count < n
    → (check_response o agent w).1.fail_count < n
unfolding check_response set_state
response-fail_count n o (err e) w limit below = below
response-fail_count n o (ok resp) w limit below = elim (Bool-cases (is_pong resp)) [
  | inl pong ↦ rw (pong, check_response) (omega (arith, below))
  | inr missing ↦ rw (missing, check_response) (fail-fail_count n o w limit below)
]

flag-fail_count :
    (n : ℕ) (r : Result Exception (Unit {0}) × Watchdog)
    → r.1.fail_count < n
    → (and_then r (λ _. modify (λ v. record v { internal_request = false }))).1.fail_count < n
flag-fail_count n (ok _, w) below = below
flag-fail_count n (err e, w) below = below

repeat_run-fail_count :
    (n : ℕ) (o : Observation) (w : Watchdog)
    → o.reset_fail_count ≡ n
    → w.fail_count < n
    → (repeat_run o w).fail_count < n
unfolding checked_run await_response set_state
repeat_run-fail_count n o w limit below = elim (Bool-cases (is_suitable o)) [
  | inr unfit ↦ rw (repeat_run_if false o w unfit) below
  | inl fit ↦
      let waiting = await_response (record w { internal_request = true }) in
      rw (repeat_run_if true o w fit) (
        flag-fail_count n (check_response o o.agent waiting)
          (response-fail_count n o o.agent waiting limit below))
]

-- Whatever the machine, its agent and its reset do, a watchdog with fewer failures than the limit
-- has fewer after any runs, if the limit stays the same.
pub fail_count_below_limit :
    (n : ℕ) (os : List Observation) (w : Watchdog)
    → All (λ o. o.reset_fail_count ≡ n) os
    → w.fail_count < n
    → (run_all os w).fail_count < n
unfolding run_all
fail_count_below_limit n [] w limits below = below
fail_count_below_limit n (o ∷ os) w (limit, limits) below =
    fail_count_below_limit n os (repeat_run o w) limits (repeat_run-fail_count n o w limit below)
