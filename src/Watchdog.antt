-- ===== src/Watchdog.antt =====
-- cmd/tundler-tunnel/main.go, `runWatchdog`: one tick, and the loop on a list of ticks. Before each
-- tick the other goroutines do what they do; that is a function of the tick.
pub mod Ticks
pub mod Backoff
pub mod Repeats
use tundler.Base.{
  ℕ, ◌*◌, Text, Bool, true, false, not, ◌||◌, ◌&&◌, Option, none, some, List, [], ◌∷◌, ltb,
  if◌then◌else◌,
}
use tundler.Timing.{second}
use tundler.State.{State, failed, is_ready, is_failed}
use tundler.Proxy.{Server, recent_tunnel_health, TunnelHealth}
use tundler.Proxy.Health.{tunnel_looks_healthy}
use tundler.System.{
  Host, System, Error, Result, ok, err, Done, Action, pure, ◌>>=◌, ◌>>◌, attempt, call, get, set,
}
use tundler.Connect.{connect_tunnel}

abbrev pub watchdog_min_backoff : ℕ
watchdog_min_backoff = 5 * second

abbrev pub watchdog_max_backoff : ℕ
watchdog_max_backoff = 60 * second

-- The backoff after a failed attempt.
pub next_backoff : ℕ → ℕ
next_backoff backoff =
    if ltb backoff watchdog_max_backoff
    then (let double = backoff * 2 in
        if ltb watchdog_max_backoff double then watchdog_max_backoff else double)
    else backoff

-- What a tick leads to: the next tick with a backoff, or the return because the context is done.
pub data Tick : Type 0 where
  ticks_on : ℕ → Tick
  returns : Tick

module _ {W : Type 0} (h : Host W) where
  -- `tunnelLooksHealthy`, with its reading of the clock, which an unused proxy saves
  pub looks_healthy : Action W Bool
  looks_healthy s =
      let health = recent_tunnel_health s.proxy in
      elim health.last_dial_at [
        | none ↦ (ok true, s)
        | some t ↦
            let (now, w) = h.clock s.world in
            (ok (tunnel_looks_healthy now health), record s { world = w })
      ]

  -- What follows an attempt to reconnect.
  pub after_attempt : ℕ → Result Done → Action W Tick
  after_attempt backoff (ok u) = pure (ticks_on watchdog_min_backoff)
  after_attempt backoff (err e) = do
    set h failed
    stopped ← call (h.wait backoff)
    pure (if stopped then returns else ticks_on (next_backoff backoff))

  abbrev pub reconnect : List Text → Text → ℕ → Action W Tick
  reconnect excluded baseline backoff = do
    r ← attempt (connect_tunnel h excluded baseline)
    after_attempt backoff r

  -- `current == StateReady && tunnelLooksHealthy(proxySrv)`
  abbrev left_alone : State → Action W Bool
  left_alone current = if is_ready current then looks_healthy else pure false

  -- A tick in Ready or Failed.
  pub attend : List Text → Text → ℕ → State → Action W Tick
  attend excluded baseline backoff current = do
    healthy ← left_alone current
    if healthy then pure (ticks_on watchdog_min_backoff) else reconnect excluded baseline backoff

  -- The body of the loop at a tick.
  pub watchdog_tick : List Text → Text → ℕ → Action W Tick
  watchdog_tick excluded baseline backoff = do
    current ← get (λ s. s.tracker.state)
    if not (is_ready current) && not (is_failed current)
        then pure (ticks_on backoff)
        else attend excluded baseline backoff current

  -- The loop, on the ticks that come, each with what the others did before it; with the backoff of
  -- each round in order.
  abbrev pub go_on : (ℕ → System W → List ℕ) → Result Tick → System W → List ℕ
  go_on k (ok (ticks_on backoff)) s = k backoff s
  go_on k (ok returns) s = []
  go_on k (err e) s = []

  pub run_watchdog : List Text → Text → List (System W → System W) → ℕ → System W → List ℕ
  run_watchdog excluded baseline [] backoff s = backoff ∷ []
  run_watchdog excluded baseline (others ∷ ticks) backoff s =
      let (r, s') = watchdog_tick excluded baseline backoff (others s) in
      backoff ∷ go_on (run_watchdog excluded baseline ticks) r s'
