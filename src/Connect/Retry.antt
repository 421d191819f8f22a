-- ===== src/Connect/Retry.antt =====
-- cmd/tundler-tunnel/connect.go, `connectWithRetry`: the connect of a rotation.
pub mod Trace
pub mod Iteration
pub mod Distinct
pub mod Outcome
use tundler.Base.{
  ℕ, zero, suc, ◌+◌, Text, Bool, true, false, not, List, [], ◌∷◌, ◌++◌, ltb, if◌then◌else◌,
}
use tundler.Timing.{retry_backoff}
use tundler.State.{connecting, ready}
use tundler.System.{
  Host, System, Error, rotation_exhausted, Result, ok, err, Done, Action, pure, raise, ◌>>=◌, ◌>>◌,
  attempt, call, set, tunnel_up,
}
use tundler.Connect.{exit_ip_or_probe, ensure_logged_in, choose, check_contract}

-- What an iteration of the loop leads to: the return of nil, the next iteration with the locations
-- that have failed, or the return of an error.
pub data Next : Type 0 where
  done : Next
  again : List Text → Next
  stop : Error → Next

abbrev pub follow : {W : Type 0} → (List Text → Action W Done) → Next → Action W Done
follow k done = pure tt
follow k (again failed) = k failed
follow k (stop e) = raise e

module _ {W : Type 0} (h : Host W) where
  -- The part of an iteration that follows the choice of a location.
  pub try_location : Text → List Text → Text → Action W Next
  try_location baseline failed location = do
    status ← call (h.provider.connect location)
    if not status.connected then pure (again (failed ++ location ∷ [])) else do
      observed ← attempt (check_contract h baseline)
      elim observed [
        | err e ↦ pure (again (failed ++ location ∷ []))
        | ok ip ↦ (do tunnel_up h location (exit_ip_or_probe status.ip ip); set h ready; pure done)
      ]

  -- The choice among the locations that are not excluded and have not failed.
  pub try_some : List Text → Text → List Text → Action W Next
  try_some excluded baseline failed = do
    available ← call h.provider.locations
    picked ← attempt (choose h available (excluded ++ failed))
    elim picked [ err e ↦ pure (stop e) | ok location ↦ try_location baseline failed location ]

  -- An iteration, up to the sleep.
  pub retry_attempt : List Text → Text → List Text → Action W Next
  retry_attempt excluded baseline failed = do
    set h connecting
    login ← attempt (ensure_logged_in h)
    elim login [ err e ↦ pure (again failed) | ok u ↦ try_some excluded baseline failed ]

  -- `if attempt < maxAttempts { sleep(retryBackoff(attempt)) }`
  abbrev pub pause : ℕ → ℕ → Action W Done
  pause n max_attempts s = (
    ok tt,
    if ltb n max_attempts then record s { world = h.sleep (retry_backoff n) s.world } else s,
  )

  -- The loop, by the iterations that are left; `n` is the attempt.
  pub retry_loop : ℕ → ℕ → ℕ → List Text → Text → List Text → Action W Done
  retry_loop zero n max_attempts excluded baseline failed = raise rotation_exhausted
  retry_loop (suc left) n max_attempts excluded baseline failed = do
    next ← retry_attempt excluded baseline failed
    follow
        (λ failed'.
          pause n max_attempts >> retry_loop left (n + 1) max_attempts excluded baseline failed')
        next

  -- `connectWithRetry`
  pub connect_with_retry : List Text → ℕ → Text → Action W Done
  connect_with_retry excluded max_attempts baseline =
      retry_loop max_attempts 1 max_attempts excluded baseline []
