-- ===== src/Drain/Deadline.antt =====
-- When the wait of a drain ends, and in which state it leaves the proxy.
use tundler.Base.{ℕ, zero, suc, ◌+◌, ◌*◌, ◌≤◌, ◌<◌, ◌≡◌, ◌≢◌, ◌⊎◌, false, arith}
use tundler.Proxy.{Server, set_draining, stats}
use tundler.System.{Host, System, drain_timeout, cancelled, ok, err}
use tundler.Drain.{Wait, returned, out_of_fuel, next_tick, poll, poll_interval, wait_to_drain}

module _ {W : Type 0} (h : Host W) (tick : ℕ → Server → W → Server × W) where
  -- A reading of the clock without its effect.
  abbrev time : W → ℕ
  time w = (h.clock w).0

  -- The clock goes on: it never goes back when it is read or when the context is asked, and from one
  -- tick to the next it advances by `step` at least.
  pub record IsClock (step : ℕ) : Type 0 where
    pub reads : (w : W) → time w ≤ time (h.clock w).1
    pub asks : (w : W) → time w ≤ time (h.cancelled w).1
    pub ticks : (p : Server) (w : W) → time w + step ≤ time (tick poll_interval p w).1

  -- What a wait that returned means for the proxy.
  abbrev pub Means : Wait × System W → Type 0
  Means (returned (ok u), s) = s.proxy.open_tunnels ≡ 0
  Means (returned (err e), s) = ((e ≡ drain_timeout) ⊎ (e ≡ cancelled)) × (s.proxy.open_tunnels ≢ 0)
  Means (out_of_fuel, s) = ⊥

  -- With fuel for the rounds up to the deadline the loop returns.
  poll-Means :
      (step fuel deadline : ℕ) (s : System W)
      → IsClock step
      → deadline < time s.world + fuel * step
      → Means (poll h tick (suc fuel) deadline s)
  unfolding poll stats
  poll-Means step zero deadline s c f = ground arith
  poll-Means step (suc fuel) deadline s c f =
      let w = (h.clock s.world).1 in
      let w' = (h.cancelled w).1 in
      let s' = next_tick h tick (record s { world = w' }) in
      ground
        (arith, c.reads s.world, c.asks w, c.ticks s.proxy w', poll-Means step fuel deadline s' c)

  -- On a clock that goes on by a step at each tick, with fuel for the steps up to the deadline, the
  -- wait returns: nil only if no tunnel is open,
  -- else the error of the deadline or of the context with tunnels still open. In each case the
  -- drain flag is then cleared.
  pub wait_returns :
      (step fuel timeout : ℕ) (s : System W)
      → IsClock step
      → timeout < fuel * step
      → let (r, s') = wait_to_drain h tick (suc fuel) timeout s in
        Means (r, s') × (s'.proxy.draining ≡ false)
  unfolding wait_to_drain set_draining
  wait_returns step fuel timeout s c f =
      let (now, w) = h.clock s.world in
      ground
        (arith, c.reads s.world, poll-Means step fuel (now + timeout) (record s { world = w }) c)
