-- ===== src/Tests/Lifecycle.antt =====
-- Rotations, and the loops that run beside them.
use tundler.Base.{
  ℕ, ◌*◌, ◌≡◌, refl, false, not, ◌||◌, ◌&&◌, some, List, [], ◌∷◌, map, if◌then◌else◌,
}
use tundler.Timing.{second, minute}
use tundler.State.{ready, failed, connecting, is_ready, is_failed}
use tundler.System.{Host, System}
use tundler.Connect.Retry.Trace.{Call}
use tundler.Drain.Tidy.{proxy_drain_controller-IsTidy}
use tundler.Shutdown.Once.{disconnections, exits, exits_disconnect_once}
use tundler.Recycler.{fires, recycled}
use tundler.Rotator.{rotate_if_ready, before_disconnect}
use tundler.Rotator.Ends.{Concluded, rotate_if_ready_ends}
use tundler.Rotator.Leak.{accepts_at_disconnect}
use tundler.Rotator.Schedule.{run_rotator, rotations_then_recycle, arm, after_wakes}
use tundler.Watchdog.{watchdog_tick, ticks_on, watchdog_min_backoff}
use tundler.Watchdog.Ticks.{Attempted, health_of, watchdog_tick_ends}
use tundler.WedgeGuard.{trips, run_wedge_guard}
use tundler.WedgeGuard.Trips.{run_wedge_guard_lem}
use tundler.Connect.Relogin.{Event, reads_clock, loads, swaps, run, boot}
use tundler.Connect.Relogin.Apart.{AreApart, relogins_apart}
use tundler.Connect.{connect_tunnel}
use tundler.Proxy.{Server, recent_tunnel_health}
use tundler.Proxy.Health.{tunnel_looks_healthy}
use tundler.Watchdog.Repeats.{SameDials, reconnect_keeps_health}
use tundler.Tests.Fixture.{
  server, a, home, host, tick, process, traced_process, draining_by, ready_tracker,
}

rotate_if_ready_ends_example :
    let s' = (rotate_if_ready host [] 3 (some draining_by) home (process 0)).1 in
    if is_ready ready_tracker.state || is_failed ready_tracker.state
    then Concluded host (process 0) s'
    else (s' ≡ process 0)
rotate_if_ready_ends_example =
    rotate_if_ready_ends host [] 3 (some draining_by) home (process 0)
      (proxy_drain_controller-IsTidy host tick 62)

accepts_at_disconnect_example :
    (before_disconnect host (some draining_by) (process 0)).1.proxy.draining ≡ false
accepts_at_disconnect_example = accepts_at_disconnect host tick 62 (process 0)

-- A process that has failed.
down : System ℕ
down = record (process 0) { tracker = record ready_tracker { state = failed } }

watchdog_tick_ends_example :
    let r = watchdog_tick host [] home (5 * second) down in
    if not (is_ready down.tracker.state) && not (is_failed down.tracker.state)
    then (r ≡ (tundler.System.ok (ticks_on (5 * second)), down))
    else if is_ready down.tracker.state && health_of host down
    then ((r.0 ≡ tundler.System.ok (ticks_on watchdog_min_backoff))
        × (r.1.tracker ≡ down.tracker)
        × (r.1.proxy ≡ down.proxy))
    else Attempted host [] home (5 * second) down r
watchdog_tick_ends_example = watchdog_tick_ends host [] home (5 * second) down

ticks : List (System ℕ → System ℕ)
ticks = (λ s. s) ∷ (λ s. down) ∷ (λ s. s) ∷ []

-- Two rotations and a recycle.
rotations_then_recycle_example :
    let end =
      run_rotator host
        (60 * minute)
        (120 * minute)
        2
        3
        []
        (some draining_by)
        home
        (map fires ticks)
        (process 0) in
    (end.0 ≡ (recycled, 2))
    × (end.1
        ≡ after_wakes host
            (60 * minute)
            (120 * minute)
            2
            3
            []
            (some draining_by)
            home
            2
            ticks
            (arm host (60 * minute) (120 * minute) (process 0)).1)
unfolding ticks
rotations_then_recycle_example =
    rotations_then_recycle host (60 * minute) (120 * minute) 2 3 [] (some draining_by) home ticks
      (process 0)

-- A proxy whose tunnels close while the record of the calls is kept.
abbrev traced_tick : ℕ → Server → ℕ × List Call → Server × (ℕ × List Call)
traced_tick d p (w, calls) = let (p', w') = tick d p w in (p', (w', calls))

-- The pod has failed at the second tick, and is Ready at the third.
abbrev turns : List (System (ℕ × List Call) → System (ℕ × List Call))
turns =
    (λ s. s)
    ∷ (λ s. record s { tracker = record ready_tracker { state = failed } })
    ∷ (λ s. record s { tracker = ready_tracker })
    ∷ []

exits_disconnect_once_example : disconnections (exits host 3 traced_process).world.1 ≡ 1
exits_disconnect_once_example = exits_disconnect_once host 2 traced_process refl refl

run_wedge_guard_lem_example :
    run_wedge_guard 60 ((100, failed) ∷ (50, connecting) ∷ (30, failed) ∷ (10, ready) ∷ []) ≡ trips
run_wedge_guard_lem_example =
    run_wedge_guard_lem 60 ((100, failed) ∷ (50, connecting) ∷ (30, failed) ∷ (10, ready) ∷ [])

-- Two goroutines that load at the same time.
racing : List Event
racing =
    reads_clock 0 1000
    ∷ reads_clock 1 1001
    ∷ loads 0
    ∷ loads 1
    ∷ swaps 1
    ∷ swaps 0
    ∷ reads_clock 0 1062
    ∷ loads 0
    ∷ swaps 0
    ∷ []

relogins_apart_example : AreApart (run racing boot).logins
relogins_apart_example = relogins_apart racing

reconnect_keeps_health_example :
    let s' = (connect_tunnel host (a ∷ []) home (process (100 * second))).1 in
    SameDials host (process (100 * second)) s'
    × (tunnel_looks_healthy (101 * second) (recent_tunnel_health s'.proxy)
        ≡ tunnel_looks_healthy (101 * second) (recent_tunnel_health server))
reconnect_keeps_health_example =
    reconnect_keeps_health host (a ∷ []) home (101 * second) (process (100 * second))
