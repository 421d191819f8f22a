-- ===== src/Connect.antt =====
-- cmd/tundler-tunnel/connect.go: the login check, the connect of the boot and of the watchdog, the
-- retrying connect of a rotation, and the two boot loops.
pub mod Tunnel
pub mod Retry
pub mod Relogin
use tundler.Base.{
  ℕ, zero, suc, ◌+◌, ◌-◌, ◌/◌, Text, Bool, true, false, not, Option, none, some, List, [], ◌∷◌,
  ◌++◌, ltb, ◌==◌, text_eq, length, if◌then◌else◌,
}
use tundler.Timing.{second, retry_backoff}
use tundler.State.{connecting, ready, logging_in, record_auth_failure}
use tundler.Location.{pick_location, allowed_locations, exclude_set}
use tundler.Provider.{Status}
use tundler.Egress.{verify_exit_ip_differs}
use tundler.System.{
  Host, System, Error, relogin_throttled, relogin_in_progress, no_allowed_locations, exit_ip_leak,
  rotation_exhausted, cancelled, login_failed, not_connected, Result, ok, err, Done, Action, pure,
  raise, ◌>>=◌, ◌>>◌, attempt, call, raise_some, tracked, get, set, tunnel_up,
}

abbrev pub relogin_throttle_sec : ℕ
relogin_throttle_sec = 60

-- `exitIPOrProbe`
unfoldable pub exit_ip_or_probe : Text → Text → Text
exit_ip_or_probe reported observed = if text_eq reported [] then observed else reported

module _ {W : Type 0} (h : Host W) where
  -- `lastReloginUnix.CompareAndSwap(last, now)`
  abbrev compare_and_swap : ℕ → ℕ → Action W Bool
  compare_and_swap last now s =
      if s.last_relogin_unix == last
      then (ok true, record s { last_relogin_unix = now })
      else (ok false, s)

  -- `ensureLoggedIn`. The clock is past the epoch, so the difference is tested as a sum.
  unfoldable pub ensure_logged_in : Action W Done
  ensure_logged_in = do
    logged_in ← call h.provider.logged_in
    if logged_in then pure tt else do
      t ← call h.clock
      let now = t / second
      last ← get (λ s. s.last_relogin_unix)
      if ltb now (last + relogin_throttle_sec) then raise relogin_throttled else do
        swapped ← compare_and_swap last now
        if not swapped
            then raise relogin_in_progress
            else do e ← call h.provider.login; raise_some login_failed e

  -- `pickLocation`, with the random number of the world
  unfoldable pub choose : List Text → List Text → Action W Text
  choose available excluded s =
      let allowed = allowed_locations (exclude_set excluded) available in
      elim (pick_location (λ n. (h.pick n s.world).0) available excluded) [
        | none ↦ (err no_allowed_locations, s)
        | some x ↦ (ok x, record s { world = (h.pick (length allowed) s.world).1 })
      ]

  -- `verifyExitIPDiffers`, over the process's dialer
  abbrev verify : Text → Action W (Option Text)
  verify baseline s =
      let (observed, w) = verify_exit_ip_differs h.http_get s.contract_dialer baseline s.world in
      (ok observed, record s { world = w })

  -- What follows a successful Connect: the contract, with a Disconnect where it is broken, whose
  -- own error is ignored.
  pub check_contract : Text → Action W Text
  check_contract baseline = do
    observed ← verify baseline
    elim observed [
      | none ↦ (do e ← call h.provider.disconnect; raise exit_ip_leak)
      | some ip ↦ pure ip
    ]

  -- `connectTunnel`
  unfoldable pub connect_tunnel : List Text → Text → Action W Done
  connect_tunnel excluded baseline = do
    set h connecting
    ensure_logged_in
    available ← call h.provider.locations
    location ← choose available excluded
    status ← call (h.provider.connect location)
    if not status.connected then raise (not_connected location) else do
      observed ← check_contract baseline
      tunnel_up h location (exit_ip_or_probe status.ip observed)
      set h ready
