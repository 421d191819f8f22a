-- ===== src/Watchdog/Ticks.antt =====
-- What a tick of the watchdog does.
use tundler.Base.{
  ℕ, ◌≡◌, refl, Text, Bool, true, ◌&&◌, not, List, none, some, arith, if◌then◌else◌, Bool-cases,
  inl, inr,
}
use tundler.Proxy.{recent_tunnel_health}
use tundler.Proxy.Health.{tunnel_looks_healthy}
use tundler.State.{failed, is_ready, is_failed, set_state}
use tundler.System.{Host, System, Result, ok, err, Done}
use tundler.Connect.{connect_tunnel}
use tundler.Connect.Tunnel.{IsUp, IsDown, Ends, connect_tunnel-Ends}
use tundler.Watchdog.{
  next_backoff, watchdog_min_backoff, Tick, ticks_on, returns, looks_healthy, after_attempt, attend,
  watchdog_tick,
}

module _ {W : Type 0} (h : Host W) where
  -- What becomes of the call of `connectTunnel` that ended in a result and a process: a tick that
  -- ends there with the backoff reset, or, after an error, one that ends in Failed with the tunnel
  -- that was recorded before and the proxy as it was, after a wait that gives the next backoff or
  -- the return.
  abbrev pub Follows : ℕ → System W → Result Done × System W → Result Tick × System W → Type 0
  Follows b s (ok u, s₁) r = IsUp h s s₁ × (r ≡ (ok (ticks_on watchdog_min_backoff), s₁))
  Follows b s (err e, s₁) (r, s') =
      let (now, w) = h.clock s₁.world in
      let (stopped, w') = h.wait b w in
      IsDown h s s₁
      × (s' ≡ record s₁ { world = w'; tracker = record s₁.tracker { state = failed } })
      × (r ≡ ok (if stopped then returns else ticks_on (next_backoff b)))

  after_attempt-Follows :
      (b : ℕ) (s : System W) (c : Result Done × System W)
      → Ends h s c
      → Follows b s c (after_attempt h b c.0 c.1)
  unfolding after_attempt set_state
  after_attempt-Follows b s (ok u, s₁) e = (e, refl)
  after_attempt-Follows b s (err x, s₁) e = ground arith

  -- The process after the look at the health of a tunnel, whose reading of the clock an unused proxy
  -- saves.
  abbrev pub looked : System W → System W
  looked s =
      let seen = record s { world = (h.clock s.world).1 } in
      if is_ready s.tracker.state
      then elim (recent_tunnel_health s.proxy).last_dial_at [ none ↦ s | some t ↦ seen ]
      else s

  -- The tick calls `connectTunnel` after the look, and ends as that call makes it.
  abbrev pub Attempted : List Text → Text → ℕ → System W → Result Tick × System W → Type 0
  Attempted excluded baseline b s r = Follows b s (connect_tunnel h excluded baseline (looked s)) r

  -- What `tunnelLooksHealthy` returns in a state.
  abbrev pub health_of : System W → Bool
  health_of s = elim (recent_tunnel_health s.proxy).last_dial_at [
    | none ↦ true
    | some t ↦ tunnel_looks_healthy (h.clock s.world).0 (recent_tunnel_health s.proxy)
  ]

  quiet_look :
      (s : System W)
      → let (r, s') = looks_healthy h s in
        (r ≡ ok (health_of s)) × (s'.tracker ≡ s.tracker) × (s'.proxy ≡ s.proxy)
  unfolding looks_healthy
  quiet_look s = ground arith

  attend_ends :
      (excluded : List Text) (baseline : Text) (b : ℕ) (s : System W)
      → let r = attend h excluded baseline b s.tracker.state s in
        if is_ready s.tracker.state && health_of s
        then ((r.0 ≡ ok (ticks_on watchdog_min_backoff))
            × (r.1.tracker ≡ s.tracker)
            × (r.1.proxy ≡ s.proxy))
        else Attempted excluded baseline b s r
  unfolding attend looks_healthy
  attend_ends excluded baseline b s =
      let e = connect_tunnel-Ends h excluded baseline (looked s) in
      let f = after_attempt-Follows b s (connect_tunnel h excluded baseline (looked s)) in
      ground (arith, e, f)

  -- A tick in another state than Ready and Failed changes nothing. In Ready, with a tunnel that
  -- looks healthy, it leaves the tracker and the proxy alone and resets the backoff. Else it
  -- calls `connectTunnel` once, after its look at the health. Where that succeeds, the tunnel is up,
  -- and the tick ends in the process that the call left, with the backoff reset. Where it fails, the
  -- tick ends in that process but for the state, which is Failed, with the recorded tunnel and the
  -- proxy as they were before the tick; the loop returns if the context is done before the backoff
  -- is over, and has the next backoff if not.
  pub watchdog_tick_ends :
      (excluded : List Text) (baseline : Text) (b : ℕ) (s : System W)
      → let r = watchdog_tick h excluded baseline b s in
        if not (is_ready s.tracker.state) && not (is_failed s.tracker.state)
        then (r ≡ (ok (ticks_on b), s))
        else if is_ready s.tracker.state && health_of s
        then ((r.0 ≡ ok (ticks_on watchdog_min_backoff))
            × (r.1.tracker ≡ s.tracker)
            × (r.1.proxy ≡ s.proxy))
        else Attempted excluded baseline b s r
  unfolding watchdog_tick
  watchdog_tick_ends excluded baseline b s =
      let a = attend_ends excluded baseline b s in
      elim (Bool-cases (not (is_ready s.tracker.state) && not (is_failed s.tracker.state))) [
        | inl e ↦ rw (e, watchdog_tick) refl
        | inr e ↦ rw (e, watchdog_tick) a
      ]
