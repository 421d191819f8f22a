-- ===== src/Boot.antt =====
-- cmd/tundler-tunnel/connect.go, the two loops of the boot: `loginInitialWithRetry` and
-- `connectInitialWithRetry`. They have no bound; a run has fuel for its rounds.
pub mod Login
pub mod Tunnel
use tundler.Base.{
  ℕ, zero, suc, ◌+◌, Bool, true, false, Text, Option, none, some, List, [], ◌∷◌, if◌then◌else◌,
}
use tundler.State.{logging_in, record_auth_failure}
use tundler.System.{
  Host, System, Error, cancelled, Result, ok, err, Done, Action, pure, ◌>>=◌, ◌>>◌, attempt, call,
  tracked, set,
}
use tundler.Connect.{connect_tunnel}

-- How a run of a loop ends: with what it returned and the attempts made, or without fuel.
pub data Run : Type 0 where
  returned : Result Done → ℕ → Run
  out_of_fuel : Run

-- What an attempt leads to.
pub data Attempt : Type 0 where
  returns : Result Done → Attempt
  retries : Attempt

module _ {W : Type 0} (h : Host W) (backoff : ℕ → W → ℕ × W) where
  -- `select` between the context and the timer of the backoff.
  abbrev back_off : ℕ → Action W Attempt
  back_off n = do
    d ← call (backoff n)
    stopped ← call (h.wait d)
    pure (if stopped then returns (err cancelled) else retries)

  -- A login attempt.
  unfoldable pub login_attempt : ℕ → Action W Attempt
  login_attempt n = do
    set h logging_in
    e ← call h.provider.login
    elim e [
      | none ↦ pure (returns (ok tt))
      | some reason ↦ (do
        stopped ← call h.cancelled
        if stopped
            then pure (returns (err cancelled))
            else do now ← call h.clock; tracked (record_auth_failure reason now); back_off n)
    ]

  -- A connect attempt.
  unfoldable pub connect_attempt : List Text → Text → ℕ → Action W Attempt
  connect_attempt excluded baseline n = do
    r ← attempt (connect_tunnel h excluded baseline)
    elim r [
      | ok u ↦ pure (returns (ok tt))
      | err e ↦ (do
        stopped ← call h.cancelled
        if stopped then pure (returns (err cancelled)) else back_off n)
    ]

module _ {W : Type 0} where
  abbrev pub proceed : (System W → Run × System W) → ℕ → Result Attempt × System W → Run × System W
  proceed k n (ok (returns r), s) = (returned r n, s)
  proceed k n (ok retries, s) = k s
  proceed k n (err e, s) = (returned (err e) n, s)

  -- The loop over attempts, from attempt `n` on.
  pub attempts : (ℕ → Action W Attempt) → ℕ → ℕ → System W → Run × System W
  attempts body zero n s = (out_of_fuel, s)
  attempts body (suc fuel) n s = proceed (attempts body fuel (n + 1)) n (body n s)

module _ {W : Type 0} (h : Host W) (backoff : ℕ → W → ℕ × W) where
  -- `loginInitialWithRetry`
  pub login_initial_with_retry : ℕ → System W → Run × System W
  login_initial_with_retry fuel = attempts (login_attempt h backoff) fuel 1

  -- `connectInitialWithRetry`
  pub connect_initial_with_retry : List Text → Text → ℕ → System W → Run × System W
  connect_initial_with_retry excluded baseline fuel =
      attempts (connect_attempt h backoff excluded baseline) fuel 1
