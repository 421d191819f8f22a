-- ===== src/Watchdog/Backoff.antt =====
-- The waits of the watchdog between failed attempts.
use tundler.Base.{ℕ, zero, suc, ◌*◌, ◌^◌, ◌≤◌, ◌≡◌, refl, Text, List, [], ◌∷◌, All, arith, min}
use tundler.System.{Host, System, Result, ok, err, Done}
use tundler.State.{State}
use tundler.Watchdog.{
  next_backoff, watchdog_min_backoff, watchdog_max_backoff, Tick, ticks_on, returns, looks_healthy,
  after_attempt, attend, watchdog_tick, go_on, run_watchdog,
}

abbrev pub InRange : ℕ → Type 0
InRange b = (watchdog_min_backoff ≤ b) × (b ≤ watchdog_max_backoff)

next_backoff-InRange : (b : ℕ) → InRange b → InRange (next_backoff b)
unfolding next_backoff
next_backoff-InRange b h = ground arith

abbrev TickInRange : Result Tick → Type 0
TickInRange (ok (ticks_on b)) = InRange b
TickInRange (ok returns) = Unit
TickInRange (err e) = Unit

module _ {W : Type 0} (h : Host W) (excluded : List Text) (baseline : Text) where
  after_attempt-InRange :
      (b : ℕ) (r : Result Done) (s : System W) → InRange b → TickInRange (after_attempt h b r s).0
  unfolding after_attempt
  after_attempt-InRange b (ok u) s i = omega arith
  after_attempt-InRange b (err e) s i = ground (arith, next_backoff-InRange b i)

  attend-InRange :
      (b : ℕ) (current : State) (s : System W)
      → InRange b
      → TickInRange (attend h excluded baseline b current s).0
  unfolding attend looks_healthy
  attend-InRange b current s i = grind (arith, i, after_attempt-InRange)

  tick-InRange :
      (b : ℕ) (s : System W) → InRange b → TickInRange (watchdog_tick h excluded baseline b s).0
  unfolding watchdog_tick
  tick-InRange b s i = ground (arith, i, attend-InRange b s.tracker.state s i)

  go_on-InRange :
      (k : ℕ → System W → List ℕ) (r : Result Tick × System W)
      → ((b : ℕ) (s : System W) → InRange b → All InRange (k b s))
      → TickInRange r.0
      → All InRange (go_on h k r.0 r.1)
  go_on-InRange k (ok (ticks_on b), s) f i = f b s i
  go_on-InRange k (ok returns, s) f i = tt
  go_on-InRange k (err e, s) f i = tt

  -- Whatever the provider, the proxy and the other goroutines do, every backoff of the watchdog is
  -- between its two bounds of 5 s and 60 s.
  backoffs-InRange :
      (ticks : List (System W → System W)) (b : ℕ) (s : System W)
      → InRange b
      → All InRange (run_watchdog h excluded baseline ticks b s)
  unfolding run_watchdog
  backoffs-InRange [] b s i = (i, tt)
  backoffs-InRange (others ∷ ticks) b s i = (
    i,
    go_on-InRange (run_watchdog h excluded baseline ticks)
        (watchdog_tick h excluded baseline b (others s)) (backoffs-InRange ticks)
        (tick-InRange b (others s) i),
  )

-- The backoff after so many failed attempts in a row.
abbrev pub backoff_after : ℕ → ℕ
backoff_after zero = watchdog_min_backoff
backoff_after (suc n) = next_backoff (backoff_after n)

-- The k-th wait of a series of failures is 5 s times 2 ^ k, up to the bound of 60 s.
pub backoff_after_lem :
    (k : ℕ) → backoff_after k ≡ min (watchdog_min_backoff * 2 ^ k) watchdog_max_backoff
unfolding next_backoff
backoff_after_lem zero = refl
backoff_after_lem (suc k) = ground (arith, backoff_after_lem k)
