-- ===== src/Drain.antt =====
-- cmd/tundler-tunnel/drain.go: the controller that a rotation drains the proxy with. Its interface
-- is a record of actions; `proxy_drain_controller` is the production one.
pub mod Deadline
pub mod Tidy
use tundler.Base.{
  ℕ, zero, suc, ◌+◌, Bool, true, false, Option, none, some, ltb, ◌==◌, if◌then◌else◌,
}
use tundler.Timing.{second}
use tundler.Proxy.{Server, set_draining, stats}
use tundler.System.{
  Host, System, drain_timeout, cancelled, Result, ok, err, Done, Action, pure, raise, ◌>>=◌, ◌>>◌,
  call, on_proxy, get,
}

-- The interface `drainController`.
pub record DrainController (W : Type 0) : Type 0 where
  pub trigger_graceful_drain : Action W Done
  pub wait_for_active_connections_to_drain : ℕ → Action W Done

abbrev pub poll_interval : ℕ
poll_interval = 500_000_000

-- How a wait ends: the loop returned, or the fuel of the model ran out.
pub data Wait : Type 0 where
  returned : Result Done → Wait
  out_of_fuel : Wait

module _ {W : Type 0} (h : Host W) (tick : ℕ → Server → W → Server × W) where
  -- What the other goroutines do to the proxy up to the next tick.
  abbrev pub next_tick : System W → System W
  next_tick s = let (p, w) = tick poll_interval s.proxy s.world in record s { proxy = p; world = w }

  -- The loop of the wait, up to a deadline; a round is one poll.
  pub poll : ℕ → ℕ → System W → Wait × System W
  poll zero deadline s = (out_of_fuel, s)
  poll (suc fuel) deadline s = elim ((stats s.proxy).open_tunnels == 0) [
    | true ↦ (returned (ok tt), s)
    | false ↦
        let (now, w) = h.clock s.world in
        elim (ltb deadline now) [
          | true ↦ (returned (err drain_timeout), record s { world = w })
          | false ↦
              let (stopped, w') = h.cancelled w in
              elim stopped [
                | true ↦ (returned (err cancelled), record s { world = w' })
                | false ↦ poll fuel deadline (next_tick (record s { world = w' }))
              ]
        ]
  ]

  -- `WaitForActiveConnectionsToDrain`, with the deferred reset of the drain flag.
  unfoldable pub wait_to_drain : ℕ → ℕ → System W → Wait × System W
  wait_to_drain fuel timeout s =
      let (now, w) = h.clock s.world in
      let (r, s') = poll fuel (now + timeout) (record s { world = w }) in
      (r, record s' { proxy = set_draining false s'.proxy })

  abbrev result_of : Wait → Result Done
  result_of (returned r) = r
  result_of out_of_fuel = err drain_timeout

  -- The production controller. With enough fuel its wait never runs out.
  unfoldable pub proxy_drain_controller : ℕ → DrainController W
  unfolding wait_to_drain
  proxy_drain_controller fuel = record {
    trigger_graceful_drain = on_proxy (set_draining true);
    wait_for_active_connections_to_drain =
        λ timeout s. let (r, s') = wait_to_drain fuel timeout s in (result_of r, s');
  }
