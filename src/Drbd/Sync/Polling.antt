-- ===== src/Drbd/Sync/Polling.antt =====
-- When the loops that poll the connection of a DRBD resource end.
use mcvirt.Base.{
  ℕ, zero, suc, ◌<◌, Bool, true, false, not, ◌≡◌, refl, sym, ap, ◌∙◌, arith, inl, inr, Bool-cases,
  if◌then◌else◌,
}
use mcvirt.Base.Exec.{Result, ok, pure, and_then-eq_ok, and_then_returns}
use mcvirt.Exceptions.{Exception}
use mcvirt.Drbd.States.{ConnectionState, connected, verify_s, is_connection}
use mcvirt.Drbd.Resource.{Drbdadm, Resource, get_connection_state, sleep}
use mcvirt.Drbd.Sync.{poll_until, poll_through}

module _ {K : Type 0} (d : Drbdadm K) where
  -- The resource after a number of polls, each followed by five seconds.
  unfoldable pub after : ℕ → Resource K → Resource K
  unfolding get_connection_state sleep
  after zero r = r
  after (suc n) r = after n (sleep d (get_connection_state d r).1).1

  -- What the poll reports that follows a number of others.
  abbrev pub Reports : ℕ → Resource K → ConnectionState → Type 0
  Reports n r c = (get_connection_state d (after n r)).0 ≡ ok c

  -- The first poll whose answer passes a test is that after `n` others.
  abbrev pub FirstPasses : (ConnectionState → Bool) → ℕ → Resource K → Type 0
  FirstPasses test n r =
      ((m : ℕ) → m < n → (c : ConnectionState) × Reports m r c × (test c ≡ false))
      × ((c : ConnectionState) × Reports n r c × (test c ≡ true))

  poll_here :
      (test : ConnectionState → Bool) (fuel : ℕ) (r : Resource K) (c : ConnectionState)
      → Reports zero r c
      → test c ≡ true
      → poll_until d (suc fuel) test r ≡ (ok true, (get_connection_state d r).1)
  unfolding poll_until after
  poll_here test fuel r c reports passes =
      and_then-eq_ok (get_connection_state d r) _ c reports ∙ rw passes

  poll_on :
      (test : ConnectionState → Bool) (fuel : ℕ) (r : Resource K) (c : ConnectionState)
      → Reports zero r c
      → test c ≡ false
      → poll_until d (suc fuel) test r ≡ poll_until d fuel test (after (suc zero) r)
  unfolding poll_until after sleep
  poll_on test fuel r c reports fails =
      and_then-eq_ok (get_connection_state d r) _ c reports ∙ rw fails

  pub poll_until_finishes :
      (test : ConnectionState → Bool) (n fuel : ℕ) (r : Resource K)
      → n < fuel
      → FirstPasses test n r
      → poll_until d fuel test r ≡ (ok true, (get_connection_state d (after n r)).1)
  unfolding after
  poll_until_finishes test n zero r enough first = absurd (omega arith)
  poll_until_finishes test zero (suc fuel) r enough first =
      poll_here test fuel r first.1.0 first.1.1 first.1.2
  poll_until_finishes test (suc n) (suc fuel) r enough first =
      let (c, reports, fails) = first.0 zero (omega arith) in
      poll_on test fuel r c reports fails
      ∙ poll_until_finishes test n fuel (after (suc zero) r) (omega arith)
          ((λ m below. first.0 (suc m) (omega arith)), first.1)

  pub poll_until_never :
      (test : ConnectionState → Bool) (fuel : ℕ) (r : Resource K)
      → ((n : ℕ) → (c : ConnectionState) × Reports n r c × (test c ≡ false))
      → (poll_until d fuel test r).0 ≡ ok false
  unfolding after poll_until
  poll_until_never test zero r never = refl
  poll_until_never test (suc fuel) r never =
      let (c, reports, fails) = never zero in
      ap (λ a. a.0) (poll_on test fuel r c reports fails)
      ∙ poll_until_never test fuel (after (suc zero) r) (λ n. never (suc n))

  -- The polls report a state first after `n` others, and another one first after `m` more.
  abbrev pub PassesThrough : ConnectionState → ℕ → ℕ → Resource K → Type 0
  PassesThrough state n m r =
      FirstPasses (λ c. is_connection c state) n r
      × FirstPasses (λ c. not (is_connection c state)) m (get_connection_state d (after n r)).1

  -- The resource after these polls.
  abbrev pub last_poll : ℕ → ℕ → Resource K → Resource K
  last_poll n m r = (get_connection_state d (after m (get_connection_state d (after n r)).1)).1

  -- If the polls report a state first after `n` others, and after that another state first after
  -- `m` more, then the two loops end, for all fuel beyond both numbers.
  pub poll_through_finishes :
      (state : ConnectionState) (n m fuel : ℕ) (r : Resource K)
      → n < fuel
      → m < fuel
      → PassesThrough state n m r
      → poll_through d fuel state r ≡ (ok true, last_poll n m r)
  unfolding poll_through
  poll_through_finishes state n m fuel r enough enough' passes =
      let test_end = (λ (c : ConnectionState). not (is_connection c state)) in
      let first = poll_until_finishes (λ c. is_connection c state) n fuel r enough passes.0 in
      and_then-eq_ok (poll_until d fuel (λ c. is_connection c state) r) _ true (ap (λ a. a.0) first)
      ∙ ap (λ (a : Result Exception Bool × Resource K). poll_until d fuel test_end a.1) first
      ∙ poll_until_finishes test_end m fuel (get_connection_state d (after n r)).1 enough' passes.1

  before_later :
      (test : ConnectionState → Bool) (n : ℕ) (r : Resource K)
      → (c : ConnectionState) × Reports zero r c × (test c ≡ false)
      → FirstPasses test n (after (suc zero) r)
      → (m : ℕ) → m < suc n
      → (c : ConnectionState) × Reports m r c × (test c ≡ false)
  unfolding after
  before_later test n r now later zero below = now
  before_later test n r now later (suc m) below = later.0 m (omega arith)

  -- A loop that has ended was let go by the first poll that passed.
  poll_until_passed :
      (test : ConnectionState → Bool) (fuel : ℕ) (r : Resource K)
      → (poll_until d fuel test r).0 ≡ ok true
      → (n : ℕ) × (n < fuel) × FirstPasses test n r
  unfolding poll_until after
  poll_until_passed test zero r = λ done. cc
  poll_until_passed test (suc fuel) r = λ done.
      let (c, (ran, rest)) = and_then_returns (get_connection_state d r) _ true done in
      let reports = ap (λ a. a.0) ran in
      elim (Bool-cases (test c)) [
        | inl passes ↦
            (zero, omega arith, ((λ m below. absurd (omega arith)), (c, reports, passes)))
        | inr fails ↦
            let (n, below, later) =
              poll_until_passed test fuel (after (suc zero) r)
                (sym (ap (λ a. a.0) (poll_on test fuel r c reports fails)) ∙ done) in
            (suc n, omega arith, (before_later test n r (c, reports, fails) later, later.1))
      ]

  started_loop :
      (state : ConnectionState) (fuel : ℕ) (started : Bool) (t : Resource K)
      → ((if started then poll_until d fuel (λ c. not (is_connection c state)) else pure false) t).0
        ≡ ok true
      → (started ≡ true) × ((poll_until d fuel (λ c. not (is_connection c state)) t).0 ≡ ok true)
  started_loop state fuel false t = λ done. cc
  started_loop state fuel true t = λ done. (refl, done)

  -- Two loops that have ended have seen the state come and go.
  pub poll_through_passed :
      (state : ConnectionState) (fuel : ℕ) (r : Resource K)
      → (poll_through d fuel state r).0 ≡ ok true
      → (n : ℕ) × (m : ℕ) × (n < fuel) × (m < fuel) × PassesThrough state n m r
  unfolding poll_through
  poll_through_passed state fuel r done =
      let test = (λ (c : ConnectionState). is_connection c state) in
      let test_end = (λ (c : ConnectionState). not (is_connection c state)) in
      let (started, (ran, rest)) = and_then_returns (poll_until d fuel test r) _ true done in
      let (is_started, ended) = started_loop state fuel started (poll_until d fuel test r).1 rest in
      let (n, enough, starts) =
        poll_until_passed test fuel r (ap (λ a. a.0) ran ∙ ap ok is_started) in
      let first = poll_until_finishes test n fuel r enough starts in
      let (m, enough', ends) =
        poll_until_passed test_end fuel (get_connection_state d (after n r)).1 (
          ap (λ (a : Result Exception Bool × Resource K). (poll_until d fuel test_end a.1).0)
            (sym first)
          ∙ ended) in
      (n, m, enough, enough', (starts, ends))

  -- If every poll reports a connection in the state Connected, as when a verification ends before
  -- the first poll, the loops that wait for the verification do not end, for any fuel.
  pub verify_missed :
      (fuel : ℕ) (r : Resource K)
      → ((n : ℕ) → Reports n r connected)
      → (poll_through d fuel verify_s r).0 ≡ ok false
  unfolding poll_through
  verify_missed fuel r reports =
      ap (λ a. a.0)
        (and_then-eq_ok (poll_until d fuel (λ c. is_connection c verify_s) r) _ false (
          poll_until_never (λ c. is_connection c verify_s) fuel r
            (λ n. (connected, reports n, unfold is_connection in refl))))
