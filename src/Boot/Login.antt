-- ===== src/Boot/Login.antt =====
-- How the boot login ends, with its calls of Login and the failures that it records.
use tundler.Base.{
  ℕ, zero, suc, ◌+◌, ◌%◌, ◌^◌, ◌<◌, ◌≡◌, ◌⊎◌, inl, inr, List, arith, ltb, if◌then◌else◌,
}
use tundler.State.{logging_in, set_state, record_auth_failure}
use tundler.System.{Host, System, cancelled, Result, ok, err, Done}
use tundler.Connect.Retry.Trace.{Call, logins, silent, traced}
use tundler.Boot.{
  Run, returned, out_of_fuel, Attempt, returns, retries, login_attempt, attempts, proceed,
  login_initial_with_retry,
}

-- A measure of an outage: each attempt that is retried lowers it.
abbrev pub Lowers : {W : Type 0} → (System W → ℕ) → System W → Result Attempt × System W → Type 0
Lowers m s (ok retries, s') = m s' < m s
Lowers m s (ok (returns r), s') = Unit
Lowers m s (err e, s') = Unit

module _ {W : Type 0} (h : Host W) (backoff : ℕ → W → ℕ × W) where
  -- A counter of 64 bits after so many steps.
  abbrev raised : ℕ → ℕ → ℕ
  raised k n = if ltb 0 k then (n + k) % 2 ^ 64 else n

  -- From `s` to `s'`, so many logins were made, and so many recorded as failures.
  abbrev Counted : ℕ → ℕ → System (W × List Call) → System (W × List Call) → Type 0
  Counted n k s s' =
      (logins s'.world.1 ≡ logins s.world.1 + n)
      × (s'.tracker.auth_failures_total ≡ raised k s.tracker.auth_failures_total)

  -- One attempt.
  abbrev AttemptEnds : System (W × List Call) → Result Attempt × System (W × List Call) → Type 0
  AttemptEnds s (ok retries, s') = Counted 1 1 s s'
  AttemptEnds s (ok (returns (ok u)), s') = (s'.tracker.state ≡ logging_in) × Counted 1 0 s s'
  AttemptEnds s (ok (returns (err e)), s') =
      (e ≡ cancelled) × (s'.tracker.state ≡ logging_in) × (Counted 1 0 s s' ⊎ Counted 1 1 s s')
  AttemptEnds s (err e, s') = ⊥

  login_attempt_ends :
      (n : ℕ) (s : System (W × List Call))
      → AttemptEnds s (login_attempt (traced h) (λ k. silent (backoff k)) n s)
  unfolding login_attempt set_state record_auth_failure
  login_attempt_ends n s = ground arith

  -- The loop, whose attempts before `n` are over.
  abbrev pub LoginEnds : ℕ → System (W × List Call) → Run × System (W × List Call) → Type 0
  LoginEnds n s (returned (ok u) m, s') =
      (s'.tracker.state ≡ logging_in) × ((k : ℕ) × (m ≡ n + k) × Counted (k + 1) k s s')
  LoginEnds n s (returned (err e) m, s') =
      (e ≡ cancelled)
      × (s'.tracker.state ≡ logging_in)
      × ((k : ℕ) × (m ≡ n + k) × (Counted (k + 1) k s s' ⊎ Counted (k + 1) (k + 1) s s'))
  LoginEnds n s (out_of_fuel, s') = ⊥

  one_more :
      (k n : ℕ) (s s' t : System (W × List Call))
      → Counted 1 1 s s'
      → Counted n k s' t
      → Counted (n + 1) (k + 1) s t
  one_more k n s s' t c l = ground (arith, c, l)

  retried :
      (n : ℕ) (s s' : System (W × List Call)) (r : Run × System (W × List Call))
      → Counted 1 1 s s'
      → LoginEnds (n + 1) s' r
      → LoginEnds n s r
  retried n s s' (returned (ok u) m, t) c (st, (k, e, l)) =
      (st, (k + 1, omega arith, one_more k (k + 1) s s' t c l))
  retried n s s' (returned (err x) m, t) c (same, st, (k, e, inl l)) =
      (same, st, (k + 1, omega arith, inl (one_more k (k + 1) s s' t c l)))
  retried n s s' (returned (err x) m, t) c (same, st, (k, e, inr l)) =
      (same, st, (k + 1, omega arith, inr (one_more (k + 1) (k + 1) s s' t c l)))
  retried n s s' (out_of_fuel, t) c l = l

  stopped :
      (n : ℕ) (s : System (W × List Call)) (r : Result Done) (s' : System (W × List Call))
      → AttemptEnds s (ok (returns r), s')
      → LoginEnds n s (returned r n, s')
  stopped n s (ok u) s' (st, c) = (st, (0, omega arith, c))
  stopped n s (err e) s' (same, st, inl c) = (same, st, (0, omega arith, inl c))
  stopped n s (err e) s' (same, st, inr c) = (same, st, (0, omega arith, inr c))

  module _ (m : System (W × List Call) → ℕ) where
    abbrev Body : ℕ → System (W × List Call) → Result Attempt × System (W × List Call)
    Body = login_attempt (traced h) (λ k. silent (backoff k))

    proceed-LoginEnds :
        (k : System (W × List Call) → Run × System (W × List Call)) (n : ℕ)
        (s : System (W × List Call)) (a : Result Attempt × System (W × List Call))
        → AttemptEnds s a
        → Lowers m s a
        → ((s' : System (W × List Call)) → m s' < m s → LoginEnds (n + 1) s' (k s'))
        → LoginEnds n s (proceed k n a)
    proceed-LoginEnds k n s (ok (returns r), s') e l f = stopped n s r s' e
    proceed-LoginEnds k n s (ok retries, s') e l f = retried n s s' (k s') e (f s' l)
    proceed-LoginEnds k n s (err x, s') e l f = elim e [ ]

    attempts-LoginEnds :
        (fuel n : ℕ) (s : System (W × List Call))
        → ((n : ℕ) (s : System (W × List Call)) → Lowers m s (Body n s))
        → m s < fuel
        → LoginEnds n s (attempts Body fuel n s)
    unfolding attempts
    attempts-LoginEnds zero n s o f = absurd (omega arith)
    attempts-LoginEnds (suc fuel) n s o f =
        proceed-LoginEnds (attempts Body fuel (n + 1)) n s (Body n s) (login_attempt_ends n s)
          (o n s) (λ s' l. attempts-LoginEnds fuel (n + 1) s' o (omega arith))

    -- If a measure of the outage goes down with each attempt that is retried, then fuel above the
    -- measure is enough for the boot login to return: nil after a login that succeeded, or the
    -- error of the context, in each case in the state LoggingIn. Each attempt called Login once, and
    -- each that failed is counted in the tracker, modulo 2 ^ 64, but for the last if the context was done by then.
    pub login_initial_returns :
        (fuel : ℕ) (s : System (W × List Call))
        → ((n : ℕ) (s : System (W × List Call)) → Lowers m s (Body n s))
        → m s < fuel
        → LoginEnds 1 s (login_initial_with_retry (traced h) (λ k. silent (backoff k)) fuel s)
    unfolding login_initial_with_retry
    login_initial_returns fuel s o f = attempts-LoginEnds fuel 1 s o f
