-- ===== src/Tests/Connecting.antt =====
-- Connects, logins and drains of the small process.
use tundler.Base.{
  ℕ, ◌+◌, ◌-◌, ◌*◌, ◌≤◌, ◌≡◌, refl, false, List, [], ◌∷◌, All, elem, length, IsDistinct, arith,
  trim_space, ltb,
}
use tundler.Timing.{second}
use tundler.System.{Host, System}
use tundler.Location.{pick_location, exclude_set, allowed_locations}
use tundler.Connect.{connect_tunnel, ensure_logged_in, choose}
use tundler.Connect.Tunnel.{Ends, connect_tunnel-Ends}
use tundler.Connect.Retry.{connect_with_retry}
use tundler.Connect.Retry.Trace.{Call, traced}
use tundler.Connect.Retry.Iteration.{dialled_in}
use tundler.Connect.Retry.Distinct.{connect_with_retry-dials}
use tundler.Connect.Retry.Outcome.{RetryEnds, connect_with_retry_ends}
use tundler.Connect.Retry.Trace.{silent}
use tundler.Boot.{
  login_attempt, connect_attempt, login_initial_with_retry, connect_initial_with_retry,
}
use tundler.Boot.Login.{LoginEnds, login_initial_returns, Lowers}
use tundler.Boot.Tunnel.{ConnectEnds, connect_initial_returns}
use tundler.Drain.{wait_to_drain, poll_interval}
use tundler.Drain.Deadline.{Means, wait_returns}
use tundler.Tests.Fixture.{server, tick, a, b, home, host, process, traced_process}

connect_tunnel-Ends_example : Ends host (process 0) (connect_tunnel host [] home (process 0))
connect_tunnel-Ends_example = connect_tunnel-Ends host [] home (process 0)

connect_with_retry_ends_example :
    RetryEnds host (a ∷ []) home 3 (process 0) (connect_with_retry host (a ∷ []) 3 home (process 0))
connect_with_retry_ends_example = connect_with_retry_ends host (a ∷ []) home 3 (process 0)

connect_with_retry-dials_example :
    let dials = dialled_in host (connect_with_retry (traced host) [] 3 home traced_process).1 in
    IsDistinct dials × All (λ x. elem x [] ≡ false) dials × (length dials ≤ 3)
unfolding trim_space
connect_with_retry-dials_example =
    connect_with_retry-dials host [] home 3 traced_process
      (λ w. ((refl, λ e. absurd (cc e)), ((refl, λ e. absurd (cc e)), tt))) refl

login_backoff : ℕ → ℕ → ℕ × ℕ
login_backoff n w = (second, w + second)

outage : System (ℕ × List Call) → ℕ
outage s = 90 * second - s.world.0

login_initial_returns_example : LoginEnds host login_backoff 1 traced_process (
    login_initial_with_retry
      (traced host)
      (λ k. silent (login_backoff k))
      (100 * second)
      traced_process)
unfolding outage login_backoff
login_initial_returns_example =
    login_initial_returns host login_backoff outage (100 * second) traced_process
      (λ n s. unfold login_attempt in ground arith) (omega arith)

-- A pod that is shut down after some time, while every location is excluded.
shut_down : Host ℕ
shut_down = record host { cancelled = λ w. (ltb (200 * second) w, w) }

remaining : System ℕ → ℕ
remaining s = 201 * second - s.world

connect_later : (s : System ℕ) → s.world ≤ (connect_tunnel shut_down (a ∷ b ∷ []) home s).1.world
unfolding connect_tunnel shut_down ensure_logged_in choose pick_location exclude_set
    allowed_locations trim_space
connect_later s = ground arith

connect-Lowers :
    (n : ℕ) (s : System ℕ)
    → Lowers remaining s (connect_attempt shut_down login_backoff (a ∷ b ∷ []) home n s)
unfolding connect_attempt shut_down remaining login_backoff
connect-Lowers n s = ground (arith, connect_later s)

connect_initial_returns_example :
    ConnectEnds shut_down login_backoff (a ∷ b ∷ []) home (process 0) (
      connect_initial_with_retry shut_down login_backoff
        (a ∷ b ∷ [])
        home
        (300 * second)
        (process 0))
unfolding remaining
connect_initial_returns_example =
    connect_initial_returns shut_down login_backoff (a ∷ b ∷ []) home remaining (300 * second)
      (process 0) connect-Lowers (omega arith)

-- The process while tunnels are open.
busy : System ℕ
unfolding server
busy = record (process 0) { proxy = record server { open_tunnels = 3 } }

wait_returns_example :
    let (r, s') = wait_to_drain host tick 62 (30 * second) busy in
    Means host tick (r, s') × (s'.proxy.draining ≡ false)
wait_returns_example =
    wait_returns host tick poll_interval 61 (30 * second) busy
      (record { reads = λ w. omega arith; asks = λ w. omega arith; ticks = λ p w. omega arith })
      (omega arith)
