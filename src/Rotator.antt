-- ===== src/Rotator.antt =====
-- cmd/tundler-tunnel/rotator.go: one rotation, and the loop of the scheduled rotations. The wait of
-- the loop is a list of what ends it, one entry for each time: the timer, or the context.
pub mod Ends
pub mod Schedule
pub mod Leak
use tundler.Base.{
  ℕ, zero, suc, ◌+◌, ◌-◌, ◌*◌, ◌<◌, Text, Bool, true, false, not, ◌||◌, ◌&&◌, Option, none, some,
  List, [], ◌∷◌, ltb, leb, if◌then◌else◌,
}
use tundler.Timing.{second, pick_rotation_interval}
use tundler.State.{
  State, draining, rotating, failed, is_ready, is_failed, success, failure, Outcome,
  record_rotation, record_next_rotation,
}
use tundler.System.{
  Host, System, Error, Result, ok, err, Done, Action, pure, ◌>>=◌, ◌>>◌, attempt, call, tracked,
  get, set,
}
use tundler.Connect.Retry.{connect_with_retry}
use tundler.Drain.{DrainController}

abbrev pub drain_wait_timeout : ℕ
drain_wait_timeout = 30 * second

module _ {W : Type 0} (h : Host W) where
  -- Both steps of a drain; their errors are only logged.
  pub drain_proxy : Option (DrainController W) → Action W Done
  drain_proxy none = pure tt
  drain_proxy (some d) = do
    e ← attempt d.trigger_graceful_drain
    e' ← attempt (d.wait_for_active_connections_to_drain drain_wait_timeout)
    pure tt

  -- A rotation up to the call of Disconnect.
  pub before_disconnect : Option (DrainController W) → Action W Done
  before_disconnect drain = do set h draining; drain_proxy drain; set h rotating

  -- The record of a rotation that began at `started`.
  abbrev conclude : Text → Text → Outcome → ℕ → Action W Done
  conclude previous new outcome started = do
    t ← call h.clock
    now ← call h.clock
    tracked (record_rotation previous new outcome (t - started) now)

  -- The end of a rotation, after the connect.
  pub after_connect : Text → ℕ → Result Done → Action W Done
  after_connect previous started (err e) = do conclude previous [] failure started; set h failed
  after_connect previous started (ok u) = do
    new ← get (λ s. s.tracker.current_exit_ip)
    conclude previous new success started

  -- A rotation from a state that it may start in.
  pub rotate : List Text → ℕ → Option (DrainController W) → Text → Action W Done
  rotate excluded max_attempts drain baseline = do
    started ← call h.clock
    previous ← get (λ s. s.tracker.current_exit_ip)
    before_disconnect drain
    e ← call h.provider.disconnect
    r ← attempt (connect_with_retry h excluded max_attempts baseline)
    after_connect previous started r

  -- `rotateIfReadyWithDeps`
  pub rotate_if_ready : List Text → ℕ → Option (DrainController W) → Text → Action W Done
  rotate_if_ready excluded max_attempts drain baseline s =
      elim (is_ready s.tracker.state || is_failed s.tracker.state) [
        | true ↦ rotate excluded max_attempts drain baseline s
        | false ↦ (ok tt, s)
      ]
