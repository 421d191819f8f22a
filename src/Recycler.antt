-- ===== src/Recycler.antt =====
-- cmd/tundler-tunnel/recycler.go: the exit of the container, and the time-based trigger. The
-- process ends with `os.Exit`; the state that it ends in is the result. A loop runs on the list of
-- what its `select` receives: a tick, with what the other goroutines did before it, or the end of
-- the context.
pub mod Calm
use tundler.Base.{
  ℕ, ◌+◌, ◌*◌, ◌/◌, Bool, true, false, not, Text, Option, none, some, List, [], ◌∷◌, ltb, leb,
  if◌then◌else◌,
}
use tundler.Timing.{second, minute, jittered_lifetime}
use tundler.State.{draining, is_ready}
use tundler.System.{
  Host, System, Result, ok, err, Done, Action, pure, ◌>>=◌, ◌>>◌, attempt, call, get, set,
}
use tundler.Drain.{DrainController}
use tundler.Shutdown.{graceful_disconnect}

pub data Wake (W : Type 0) : Type 0 where
  fires : (System W → System W) → Wake W
  stops : Wake W

-- How far a loop has come: it waits, it has returned, or the process has exited.
pub data Course : Type 0 where
  waiting context_done recycled : Course

module _ {W : Type 0} (h : Host W) where
  pub drain_first : Option (DrainController W) → Action W Done
  drain_first none = pure tt
  drain_first (some d) = do
    e ← attempt d.trigger_graceful_drain
    e' ← attempt (d.wait_for_active_connections_to_drain (30 * second))
    pure tt

  -- `recycleContainer` up to `os.Exit`; the errors of the drain and of systemctl are only logged.
  pub recycle_container : Option (DrainController W) → Action W Done
  recycle_container drain = do
    set h draining
    drain_first drain
    graceful_disconnect h
    call (λ w. (tt, h.systemctl_exit w))
    call (λ w. (tt, h.sleep (5 * second) w))

  -- The loop of `runRecycler`.
  pub recycler_loop : Option (DrainController W) → ℕ → List (Wake W) → System W → Course × System W
  recycler_loop drain deadline [] s = (waiting, s)
  recycler_loop drain deadline (stops ∷ ticks) s = (context_done, s)
  recycler_loop drain deadline (fires others ∷ ticks) s =
      let s1 = others s in
      let (now, w) = h.clock s1.world in
      let s2 = record s1 { world = w } in
      elim (ltb now deadline) [
        | true ↦ recycler_loop drain deadline ticks s2
        | false ↦ elim (is_ready s2.tracker.state) [
          | true ↦ (recycled, (recycle_container drain s2).1)
          | false ↦ recycler_loop drain deadline ticks s2
        ]
      ]

  -- `runRecycler`, with the random number of the world
  pub run_recycler : Option (DrainController W) → ℕ → List (Wake W) → System W → Course × System W
  run_recycler drain lifetime ticks s =
      if leb lifetime 0
      then (context_done, s)
      else let (x, w) = h.pick (lifetime / 3 + 1) s.world in
        let (now, w') = h.clock w in
        recycler_loop drain (now + jittered_lifetime (λ n. x) lifetime) ticks
          (record s { world = w' })
