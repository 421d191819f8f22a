-- ===== src/Tests/Serving.antt =====
-- The proxy, the control API and the tracker.
use tundler.Base.{ℕ, ◌+◌, ◌*◌, ◌≤◌, ◌≡◌, refl, Text, true, List, [], ◌∷◌, codes}
use tundler.Timing.{second}
use tundler.State.{ready, failed, draining, success, new_state_tracker, record_rotation, snapshot}
use tundler.State.Laws.{
  Op, sets, tunnel_ups, rotations, auth_failures, listens, run-IsConsistent, Tells,
}
use tundler.Proxy.{max_concurrent, u64}
use tundler.Proxy.Handle.{Input, closed}
use tundler.Proxy.Handle.Outcome.{handle, answer, handle_answers}
use tundler.Proxy.Limits.{
  Event, connects, proceeds, drains, run, start, holds, in_tunnel, undecided, total, outcomes,
  run_limits,
}
use tundler.Server.{rotate_handler}
use tundler.Server.Debounce.{debounce_exact}
use tundler.Tests.Fixture.{home, exit, server, ready_tracker}

-- A client that sends a request and then the first bytes of its tunnel.
abbrev request : Text
request = codes "CONNECT a:443 HTTP/1.1\r\nHost: a\r\n\r\n\u{16}z"

abbrev network : Input
network = record { sent = request; dial_ok = true; write_ok = true; now = 7 }

handle_answers_example :
    let (s', p, replies) = handle network server in
    (p ≡ closed)
    × (replies ≡ answer network server ∷ [])
    × (s'.sem ≡ server.sem)
    × (s'.open_tunnels ≡ server.open_tunnels)
    × (s'.total_connect ≡ u64 (server.total_connect + 1))
handle_answers_example = handle_answers network server

-- One client is served while another comes and the proxy drains.
abbrev clients : List Event
clients =
    connects
    ∷ proceeds 0 network
    ∷ connects
    ∷ drains true
    ∷ proceeds 0 network
    ∷ proceeds 1 network
    ∷ []

run_limits_example :
    let x = run clients (start (codes "pod-0") home) in
    (x.server.sem ≡ total holds x.conns)
    × (x.server.sem ≤ max_concurrent)
    × (x.server.open_tunnels ≡ total in_tunnel x.conns)
    × (x.server.open_tunnels ≤ max_concurrent)
    × (u64 (outcomes x.server + total undecided x.conns) ≡ x.server.total_connect)
run_limits_example = run_limits clients (codes "pod-0") home

debounce_exact_example :
    (rotate_handler true
      (130 * second)
      (record_rotation home exit success second (100 * second + 5) ready_tracker)).starts_rotation
    ≡ true
unfolding ready_tracker
debounce_exact_example =
    debounce_exact home exit success second (100 * second + 5) (130 * second) ready_tracker refl

-- A tracker's first minutes.
abbrev calls : List (ℕ × Op)
calls =
    (1, listens true)
    ∷ (2, tunnel_ups (codes "a") exit)
    ∷ (3, sets ready)
    ∷ (4, auth_failures (codes "timeout"))
    ∷ (5, rotations exit home success 2)
    ∷ (6, sets failed)
    ∷ []

run-IsConsistent_example :
    Tells calls 9 (tundler.State.Laws.run calls (new_state_tracker (codes "pia")))
run-IsConsistent_example = run-IsConsistent (codes "pia") calls 9
