-- ===== src/Boot/Tunnel.antt =====
-- How the boot connect ends.
use tundler.Base.{ℕ, zero, suc, ◌+◌, ◌<◌, ◌≡◌, Text, List, arith}
use tundler.System.{Host, System, cancelled, Result, ok, err}
use tundler.Connect.Tunnel.{IsUp, IsDown, connect_tunnel-Ends}
use tundler.Boot.{
  Run, returned, out_of_fuel, Attempt, returns, retries, connect_attempt, attempts, proceed,
  connect_initial_with_retry,
}
use tundler.Boot.Login.{Lowers}

module _ {W : Type 0} (h : Host W) (backoff : ℕ → W → ℕ × W) (excluded : List Text)
    (baseline : Text) where
  -- One attempt.
  abbrev AttemptEnds : System W → Result Attempt × System W → Type 0
  AttemptEnds s (ok retries, s') = IsDown h s s'
  AttemptEnds s (ok (returns (ok u)), s') = IsUp h s s'
  AttemptEnds s (ok (returns (err e)), s') = (e ≡ cancelled) × IsDown h s s'
  AttemptEnds s (err e, s') = ⊥

  connect_attempt_ends :
      (n : ℕ) (s : System W) → AttemptEnds s (connect_attempt h backoff excluded baseline n s)
  unfolding connect_attempt
  connect_attempt_ends n s = ground (arith, connect_tunnel-Ends h excluded baseline s)

  abbrev pub ConnectEnds : System W → Run × System W → Type 0
  ConnectEnds s (returned (ok u) m, s') = IsUp h s s'
  ConnectEnds s (returned (err e) m, s') = (e ≡ cancelled) × IsDown h s s'
  ConnectEnds s (out_of_fuel, s') = ⊥

  down_then :
      (s s' : System W) (r : Run × System W) → IsDown h s s' → ConnectEnds s' r → ConnectEnds s r
  down_then s s' (returned (ok u) m, t) d c = ground arith
  down_then s s' (returned (err e) m, t) d c = ground arith
  down_then s s' (out_of_fuel, t) d c = c

  module _ (m : System W → ℕ) where
    proceed-ConnectEnds :
        (k : System W → Run × System W) (n : ℕ) (s : System W) (a : Result Attempt × System W)
        → AttemptEnds s a
        → Lowers m s a
        → ((s' : System W) → m s' < m s → ConnectEnds s' (k s'))
        → ConnectEnds s (proceed k n a)
    proceed-ConnectEnds k n s (ok (returns (ok u)), s') e l f = e
    proceed-ConnectEnds k n s (ok (returns (err x)), s') e l f = e
    proceed-ConnectEnds k n s (ok retries, s') e l f = down_then s s' (k s') e (f s' l)
    proceed-ConnectEnds k n s (err x, s') e l f = elim e [ ]

    attempts-ConnectEnds :
        (fuel n : ℕ) (s : System W)
        → ((n : ℕ) (s : System W) → Lowers m s (connect_attempt h backoff excluded baseline n s))
        → m s < fuel
        → ConnectEnds s (attempts (connect_attempt h backoff excluded baseline) fuel n s)
    unfolding attempts
    attempts-ConnectEnds zero n s o f = absurd (omega arith)
    attempts-ConnectEnds (suc fuel) n s o f =
        let body = connect_attempt h backoff excluded baseline in
        proceed-ConnectEnds (attempts body fuel (n + 1)) n s (body n s) (connect_attempt_ends n s)
          (o n s) (λ s' l. attempts-ConnectEnds fuel (n + 1) s' o (omega arith))

    -- If a measure of the outage goes down with each attempt that is retried, then fuel above the
    -- measure is enough for the boot connect to return: nil with the tunnel up and the tracker
    -- Ready, or the error of the context in Connecting, with the proxy as it was.
    pub connect_initial_returns :
        (fuel : ℕ) (s : System W)
        → ((n : ℕ) (s : System W) → Lowers m s (connect_attempt h backoff excluded baseline n s))
        → m s < fuel
        → ConnectEnds s (connect_initial_with_retry h backoff excluded baseline fuel s)
    unfolding connect_initial_with_retry
    connect_initial_returns fuel s o f = attempts-ConnectEnds fuel 1 s o f
